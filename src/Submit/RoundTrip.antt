-- ===== src/Submit/RoundTrip.antt =====
-- A body that the seven-bit encoder packs is read back by the decoder of edge-core/src/gsm7.rs.
use vodoge_edge.Common.{
  ℕ, zero, suc, ◌+◌, ◌-◌, ◌*◌, ◌/◌, ◌<◌, ◌≡◌, refl, Bool, true, false, ◌&&◌, none, some, List, [],
  ◌∷◌, if◌then◌else◌, ◌==◌, length, is_some, min, Bool-cases, Option-cases, inl, inr, ap, ◌∙◌, sym,
  arith,
}
use vodoge_edge.Common.Text.{Text}
use vodoge_edge.Gsm7.{basic, escape, basic_char, unpack_septets, decode_septets, decode}
use vodoge_edge.Gsm7.Septets.{unpack_septets_lem}
use vodoge_edge.Submit.{gsm7_value, septets_of, pack_from, pack_gsm7}
use vodoge_edge.Submit.Packing.{
  septet_number, AreSeptets, digits-septet_number, length-pack_from, number_of-pack_from,
}

enough_octets : (n : ℕ) → min (0 + n) (8 * ((0 + 7 * n + 7) / 8) / 7) ≡ n
enough_octets n = omega arith

one_times : (n : ℕ) → 0 + n * 1 ≡ n
one_times n = omega arith

less_nothing : (n : ℕ) → n - 0 ≡ n
less_nothing n = omega arith

-- Septets that are packed come back.
pub unpack_septets-pack_from :
    (ss : List ℕ) → AreSeptets ss → unpack_septets (pack_from ss 0 0) 0 (length ss) ≡ ss
unpack_septets-pack_from ss a =
    unpack_septets_lem (pack_from ss 0 0) 0 (length ss)
    ∙ rw
        (
          length-pack_from ss 0 0 (omega arith),
          enough_octets (length ss),
          number_of-pack_from ss 0 0 (omega arith) (omega arith) a,
          one_times (septet_number ss),
        )
        (digits-septet_number ss 0 a)

-- The character of the encoder's alphabet: its septet is itself and reads back as itself.
abbrev agrees : ℕ → Bool
agrees c =
    if is_some (gsm7_value c)
    then (basic_char c == c) && (if c == escape then false else true)
    else true

abbrev all_agree : ℕ → Bool
all_agree zero = true
all_agree (suc n) = agrees n && all_agree n

all_agree_at : (n c : ℕ) → all_agree n ≡ true → c < n → agrees c ≡ true
all_agree_at zero c h g = ground arith
all_agree_at (suc n) c h g = elim (Bool-cases (c == n)) [
  | inl e ↦ ground arith
  | inr e ↦ all_agree_at n c (ground arith) (ground arith)
]

alphabet_agrees : all_agree 128 ≡ true
unfolding gsm7_value basic_char basic
alphabet_agrees = refl

record ReadsBack (c s : ℕ) : Type 0 where
  same : s ≡ c
  septet : s < 128
  reads : basic_char s ≡ c
  plain : (s == escape) ≡ false

gsm7_value-within : (c s : ℕ) → gsm7_value c ≡ some s → (s ≡ c) × (c < 128)
unfolding gsm7_value
gsm7_value-within c s h = ground arith

gsm7_value-ReadsBack : (c s : ℕ) → gsm7_value c ≡ some s → ReadsBack c s
gsm7_value-ReadsBack c s h =
    ground (arith, gsm7_value-within c s h, all_agree_at 128 c alphabet_agrees)

decode_septets-plain :
    (s : ℕ) (ss : List ℕ)
    → (s == escape) ≡ false
    → decode_septets (s ∷ ss) ≡ basic_char s ∷ decode_septets ss
unfolding decode_septets
decode_septets-plain s [] h = ground arith
decode_septets-plain s (t ∷ ss) h = ground arith

nothing_read : decode_septets [] ≡ []
unfolding decode_septets
nothing_read = refl

record ReadsBackAll (body : Text) (ss : List ℕ) : Type 0 where
  septets : AreSeptets ss
  reads : decode_septets ss ≡ body
  as_long : length ss ≡ length body

no_septets : (ss : List ℕ) → septets_of [] ≡ some ss → ss ≡ []
unfolding septets_of
no_septets ss h = ground arith

next_septet :
    (c s : ℕ) (body : Text) (rest ss : List ℕ)
    → gsm7_value c ≡ some s
    → septets_of body ≡ some rest
    → septets_of (c ∷ body) ≡ some ss
    → ss ≡ s ∷ rest
unfolding septets_of
next_septet c s body rest ss e f h = ground arith

no_value :
    (c : ℕ) (body : Text) (ss : List ℕ) → gsm7_value c ≡ none → septets_of (c ∷ body) ≡ some ss → ⊥
unfolding septets_of
no_value c body ss e h = ground arith

no_rest :
    (c : ℕ) (body : Text) (ss : List ℕ)
    → septets_of body ≡ none
    → septets_of (c ∷ body) ≡ some ss
    → ⊥
unfolding septets_of
no_rest c body ss e h = ground arith

septets_of-ReadsBack :
    (body : Text) (ss : List ℕ) → septets_of body ≡ some ss → ReadsBackAll body ss
septets_of-ReadsBack [] ss h =
    rw (no_septets ss h) (record { septets = tt; reads = nothing_read; as_long = refl })
septets_of-ReadsBack (c ∷ body) ss h = elim (Option-cases (gsm7_value c)) [
  | inl e ↦ absurd (no_value c body ss e h)
  | inr (s, e) ↦ elim (Option-cases (septets_of body)) [
    | inl f ↦ absurd (no_rest c body ss f h)
    | inr (rest, f) ↦
        let one = gsm7_value-ReadsBack c s e in
        let all = septets_of-ReadsBack body rest f in
        rw (next_septet c s body rest ss e f h) (record {
          septets = (one.septet, all.septets);
          reads = decode_septets-plain s rest one.plain ∙ rw (one.reads, all.reads) refl;
          as_long = ap suc all.as_long;
        })
  ]
]

packed_septets :
    (body : Text) (packed ss : List ℕ)
    → septets_of body ≡ some ss
    → pack_gsm7 body ≡ some packed
    → packed ≡ pack_from ss 0 0
unfolding pack_gsm7
packed_septets body packed ss e h = ground arith

not_packed :
    (body : Text) (packed : List ℕ) → septets_of body ≡ none → pack_gsm7 body ≡ some packed → ⊥
unfolding pack_gsm7
not_packed body packed e h = ground arith

-- A body that the encoder packs in the seven-bit alphabet is read back, character for character, from its octets and
-- its length.
pub decode-pack_gsm7 :
    (body : Text) (packed : List ℕ)
    → pack_gsm7 body ≡ some packed
    → decode packed 0 (length body) ≡ body
unfolding decode
decode-pack_gsm7 body packed h = elim (Option-cases (septets_of body)) [
  | inl e ↦ absurd (not_packed body packed e h)
  | inr (ss, e) ↦
      let all = septets_of-ReadsBack body ss e in
      rw (packed_septets body packed ss e h, sym all.as_long, less_nothing (length ss))
        (ap decode_septets (unpack_septets-pack_from ss all.septets) ∙ all.reads)
]
