-- ===== src/Gsm7/Septets.antt =====
-- What `unpack_septets` reads: the octets as one number, least significant first, in base 128.
use vodoge_edge.Common.{
  ℕ, zero, suc, ◌+◌, ◌-◌, ◌*◌, ◌/◌, ◌%◌, ◌^◌, ◌≤◌, ◌<◌, ◌≡◌, refl, false, List, [], ◌∷◌, ◌++◌,
  if◌then◌else◌, ltb, leb, ◌==◌, length, min, Bool-cases, inl, inr, ap, ◌∙◌, arith,
}
use vodoge_edge.Gsm7.{Drained, drain, unpack_from, unpack_septets}

-- The number that octets stand for.
abbrev pub number_of : List ℕ → ℕ
number_of [] = 0
number_of (b ∷ bs) = b + 256 * number_of bs

pub power_next : (m n : ℕ) → m ≡ suc n → 2 ^ m ≡ 2 ^ n * 2
power_next m n h = rw h (grind arith)

pub power7 : (k : ℕ) → 2 ^ (k + 7) ≡ 2 ^ k * 128
power7 k = omega (
  arith,
  power_next (k + 7) (k + 6) (omega arith),
  power_next (k + 6) (k + 5) (omega arith),
  power_next (k + 5) (k + 4) (omega arith),
  power_next (k + 4) (k + 3) (omega arith),
  power_next (k + 3) (k + 2) (omega arith),
  power_next (k + 2) (k + 1) (omega arith),
  power_next (k + 1) k (omega arith),
)

power8 : (k : ℕ) → 2 ^ (k + 8) ≡ 2 ^ k * 256
power8 k = omega (arith, power_next (k + 8) (k + 7) (omega arith), power7 k)

append_nil : (xs : List ℕ) → xs ++ [] ≡ xs
append_nil [] = refl
append_nil (x ∷ xs) = ap (x ∷◌) (append_nil xs)

power_at : (bits k : ℕ) → bits ≡ k + 7 → 2 ^ bits ≡ 2 ^ k * 128
power_at bits k h = rw h (power7 k)

split_bits : (above bits : ℕ) → 7 ≤ bits → above * 2 ^ bits ≡ above * 2 ^ (bits - 7) * 128
split_bits above bits h = rw (power_at bits (bits - 7) (omega arith)) (grind arith)

module _ (skip : ℕ) where
  -- The `n` base-128 digits of `value` from position `taken`, those before `skip` left out.
  abbrev pub digits : ℕ → ℕ → ℕ → List ℕ
  digits zero taken value = []
  digits (suc n) taken value =
      if leb skip taken
      then value % 128 ∷ digits n (taken + 1) (value / 128)
      else digits n (taken + 1) (value / 128)

  module _ (wanted : ℕ) where
    -- How many digits the loops still read.
    abbrev left : ℕ → ℕ → ℕ → ℕ
    left octets bits taken = min (wanted - taken) ((bits + 8 * octets) / 7)

    record Reads (octets above acc bits taken : ℕ) (d : Drained) : Type 0 where
      whole :
          d.emitted
            ++ (if d.finished
                then []
                else digits (left octets d.bits d.taken) d.taken (d.acc + above * 2 ^ d.bits))
          ≡ digits (left octets bits taken) taken (acc + above * 2 ^ bits)
      short : d.finished ≡ false → d.bits < 7
      within : d.taken ≤ wanted

    left_none : (octets bits taken : ℕ) → wanted ≤ taken → left octets bits taken ≡ 0
    left_none octets bits taken h = omega arith

    digits_none :
        (octets bits taken value : ℕ)
        → wanted ≤ taken
        → [] ≡ digits (left octets bits taken) taken value
    digits_none octets bits taken value h = rw (left_none octets bits taken h) refl

    left_next :
        (octets bits taken : ℕ)
        → 7 ≤ bits
        → taken < wanted
        → left octets bits taken ≡ suc (left octets (bits - 7) (taken + 1))
    left_next octets bits taken h g = omega arith

    low_digit : (acc above bits : ℕ) → 7 ≤ bits → (acc + above * 2 ^ bits) % 128 ≡ acc % 128
    low_digit acc above bits h = rw (split_bits above bits h) (omega arith)

    high_digits :
        (acc above bits : ℕ)
        → 7 ≤ bits
        → (acc + above * 2 ^ bits) / 128 ≡ acc / 128 + above * 2 ^ (bits - 7)
    high_digits acc above bits h = rw (split_bits above bits h) (omega arith)

    digits_next :
        (octets above acc bits taken : ℕ)
        → 7 ≤ bits
        → taken < wanted
        → digits (left octets bits taken) taken (acc + above * 2 ^ bits) ≡ (
            let rest =
              digits
                (left octets (bits - 7) (taken + 1))
                (taken + 1)
                (acc / 128 + above * 2 ^ (bits - 7)) in
            if leb skip taken then acc % 128 ∷ rest else rest)
    digits_next octets above acc bits taken h g =
        rw
          (
            left_next octets bits taken h g,
            low_digit acc above bits h,
            high_digits acc above bits h,
          )
          refl

    drain-Reads :
        (fuel octets above acc bits taken : ℕ)
        → bits < 7 * (fuel + 1)
        → taken ≤ wanted
        → Reads octets above acc bits taken (drain skip wanted fuel acc bits taken)
    unfolding drain
    drain-Reads zero octets above acc bits taken h g = record {
      whole = refl;
      short = λ e. omega arith;
      within = g;
    }
    drain-Reads (suc fuel) octets above acc bits taken h g = elim (Bool-cases (ltb bits 7)) [
      | inl e ↦ rw e (record { whole = refl; short = λ f. ground arith; within = g })
      | inr e ↦ elim (Bool-cases (taken == wanted)) [
        | inl w ↦
            rw (e, w)
              (record {
                whole = digits_none octets bits taken (acc + above * 2 ^ bits) (ground arith);
                short = λ f. ground arith;
                within = g;
              })
        | inr w ↦
            let r =
              drain-Reads fuel octets above (acc / 128) (bits - 7) (taken + 1) (omega arith)
                (ground arith) in
            let next = digits_next octets above acc bits taken (ground arith) (ground arith) in
            elim (Bool-cases (leb skip taken)) [
              | inl k ↦
                  rw (e, w, k)
                    (record {
                      whole = ap (acc % 128 ∷◌) r.whole ∙ ground arith;
                      short = r.short;
                      within = r.within;
                    })
              | inr k ↦
                  rw (e, w, k)
                    (record { whole = r.whole ∙ ground arith; short = r.short; within = r.within })
            ]
      ]
    ]

    left_short : (bits taken : ℕ) → bits < 7 → left 0 bits taken ≡ 0
    left_short bits taken h = omega arith

    left_octet :
        (octets bits taken : ℕ) → left octets (bits + 8) taken ≡ left (suc octets) bits taken
    left_octet octets bits taken = omega arith

    digits_octet :
        (b : ℕ) (bytes : List ℕ) (acc bits taken : ℕ)
        → digits
            (left (length bytes) (bits + 8) taken)
            taken
            (acc + b * 2 ^ bits + number_of bytes * 2 ^ (bits + 8))
          ≡ digits
              (left (length (b ∷ bytes)) bits taken)
              taken
              (acc + number_of (b ∷ bytes) * 2 ^ bits)
    digits_octet b bytes acc bits taken =
        rw (left_octet (length bytes) bits taken, power8 bits)
          (ap (digits (left (suc (length bytes)) bits taken) taken) (grind arith))

    unpack_from_lem :
        (bytes : List ℕ) (acc bits taken : ℕ)
        → bits < 7
        → taken ≤ wanted
        → unpack_from skip wanted bytes acc bits taken
          ≡ digits (left (length bytes) bits taken) taken (acc + number_of bytes * 2 ^ bits)
    unfolding unpack_from
    unpack_from_lem [] acc bits taken h g = rw (left_short bits taken h) refl
    unpack_from_lem (b ∷ bytes) acc bits taken h g =
        let d = drain skip wanted 2 (acc + b * 2 ^ bits) (bits + 8) taken in
        let r =
          drain-Reads 2 (length bytes) (number_of bytes) (acc + b * 2 ^ bits) (bits + 8) taken
            (omega arith) g in
        elim (Bool-cases d.finished) [
          | inl f ↦
              ground (arith, r.whole, append_nil d.emitted, digits_octet b bytes acc bits taken)
          | inr f ↦
              let rest = unpack_from_lem bytes d.acc d.bits d.taken (r.short f) r.within in
              ground (arith, r.whole, rest, digits_octet b bytes acc bits taken)
        ]

all_left :
    (skip count octets : ℕ)
    → left skip (skip + count) octets 0 0 ≡ min (skip + count) (8 * octets / 7)
all_left skip count octets = omega arith

one_times : (n : ℕ) → 0 + n * 1 ≡ n
one_times n = omega arith

-- `unpack_septets` reads the octets as one number, least significant first: it gives the base-128 digits of that number
-- from `skip` on, `count` of them, or those that whole groups of seven bits fill when there are fewer.
pub unpack_septets_lem :
    (packed : List ℕ) (skip count : ℕ)
    → unpack_septets packed skip count
      ≡ digits skip (min (skip + count) (8 * length packed / 7)) 0 (number_of packed)
unfolding unpack_septets
unpack_septets_lem packed skip count =
    unpack_from_lem skip (skip + count) packed 0 0 0 (omega arith) (omega arith)
    ∙ rw (all_left skip count (length packed), one_times (number_of packed)) refl
