-- ===== src/Submit/Packing.antt =====
-- What `pack_gsm7` writes: the septets as one number, least significant first, in octets.
use vodoge_edge.Common.{
  ℕ, zero, suc, ◌+◌, ◌-◌, ◌*◌, ◌/◌, ◌%◌, ◌^◌, ◌≤◌, ◌<◌, ◌≡◌, refl, true, List, [], ◌∷◌, leb, length,
  All, ◌∙◌, arith,
}
use vodoge_edge.Gsm7.Septets.{number_of, digits, power_next}
use vodoge_edge.Submit.{pack_from}

-- The number that septets stand for.
abbrev pub septet_number : List ℕ → ℕ
septet_number [] = 0
septet_number (s ∷ ss) = s + 128 * septet_number ss

abbrev pub AreSeptets : List ℕ → Type 0
AreSeptets = All (λ s. s < 128)

low_septet : (s n : ℕ) → s < 128 → (s + 128 * n) % 128 ≡ s
low_septet s n h = omega arith

high_septets : (s n : ℕ) → s < 128 → (s + 128 * n) / 128 ≡ n
high_septets s n h = omega arith

pub digits-septet_number :
    (ss : List ℕ) (taken : ℕ) → AreSeptets ss → digits 0 (length ss) taken (septet_number ss) ≡ ss
digits-septet_number [] taken h = refl
digits-septet_number (s ∷ ss) taken h =
    rw (low_septet s (septet_number ss) h.0, high_septets s (septet_number ss) h.0)
      (ground (arith, digits-septet_number ss (taken + 1) h.1))

pub length-pack_from :
    (ss : List ℕ) (acc bits : ℕ)
    → bits < 8
    → length (pack_from ss acc bits) ≡ (bits + 7 * length ss + 7) / 8
unfolding pack_from
length-pack_from [] acc bits h = ground arith
length-pack_from (s ∷ ss) acc bits h = ground (
  arith,
  length-pack_from ss ((acc + s * 2 ^ bits) / 256) (bits - 1),
  length-pack_from ss (acc + s * 2 ^ bits) (bits + 7),
)

power_grows : (k n m : ℕ) → m ≡ n + k → 2 ^ n ≤ 2 ^ m
power_grows zero n m h = rw (m_is_n h) (omega arith)
  where
    m_is_n : m ≡ n + 0 → m ≡ n
    m_is_n e = omega arith
power_grows (suc k) n m h =
    omega (arith, power_grows k n (n + k) refl, power_next m (n + k) (omega arith))

small_power : (bits : ℕ) → bits < 8 → 2 ^ bits ≤ 128
small_power bits h = power_grows (7 - bits) bits 7 (omega arith)

scaled_below : (s p : ℕ) → s < 128 → s * p ≤ 127 * p
scaled_below s p h = grind arith

-- One octet written: the low eight bits go out, and `x` is what the rest writes.
octet_written :
    (acc s n p x : ℕ)
    → x ≡ (acc + s * (p * 2)) / 256 + n * p
    → (acc + s * (p * 2)) % 256 + 256 * x ≡ acc + (s + 128 * n) * (p * 2)
octet_written acc s n p x h = grind arith

still_below : (acc s p : ℕ) → acc < p * 2 → s < 128 → (acc + s * (p * 2)) / 256 < p
still_below acc s p g h = grind (arith, scaled_below s (p * 2) h)

is_full : (bits : ℕ) → leb 8 (suc bits + 7) ≡ true
is_full bits = ground arith

one_less : (bits : ℕ) → suc bits - 1 ≡ bits
one_less bits = omega arith

pub number_of-pack_from :
    (ss : List ℕ) (acc bits : ℕ)
    → bits < 8
    → acc < 2 ^ bits
    → AreSeptets ss
    → number_of (pack_from ss acc bits) ≡ acc + septet_number ss * 2 ^ bits
unfolding pack_from
number_of-pack_from [] acc zero h g a = ground arith
number_of-pack_from [] acc (suc bits) h g a = ground (arith, small_power (suc bits) h)
number_of-pack_from (s ∷ ss) acc zero h g a =
    number_of-pack_from ss (acc + s * 1) 7 (omega arith) (omega (arith, a.0)) a.1 ∙ omega arith
number_of-pack_from (s ∷ ss) acc (suc bits) h g a =
    let p = power_next (suc bits) bits refl in
    rw (is_full bits, one_less bits, p)
      (octet_written acc s (septet_number ss) (2 ^ bits)
        (number_of (pack_from ss ((acc + s * (2 ^ bits * 2)) / 256) bits))
        (number_of-pack_from ss ((acc + s * (2 ^ bits * 2)) / 256) bits (omega arith)
          (still_below acc s (2 ^ bits) (omega (arith, p)) a.0) a.1))
