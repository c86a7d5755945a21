-- ===== src/Deliver/Unicode.antt =====
-- A text that the encoder writes in UCS-2 is read back, surrogate pairs included.
use vodoge_edge.Common.{
  ℕ, ◌+◌, ◌-◌, ◌/◌, ◌%◌, ◌≡◌, refl, Bool, true, false, ◌&&◌, ◌||◌, not, List, [], ◌∷◌, ltb, All, ap,
  ◌∙◌, Bool-cases, inl, inr, arith,
}
use vodoge_edge.Common.Text.{Text}
use vodoge_edge.Submit.{encode_utf16, be_bytes}
use vodoge_edge.Deliver.{is_high, is_low, be_units, from_utf16, decode_ucs2}

-- A code point that a `char` may have.
abbrev pub is_scalar : ℕ → Bool
is_scalar c = ltb c 0x110000 && not (is_high c || is_low c)

abbrev pub AreScalars : Text → Type 0
AreScalars = All (λ c. is_scalar c ≡ true)

be_units-be_bytes : (units : List ℕ) → be_units (be_bytes units) ≡ units
unfolding be_units be_bytes
be_units-be_bytes [] = refl
be_units-be_bytes (u ∷ units) = ground (arith, be_units-be_bytes units)

one_unit :
    (u : ℕ) (units : List ℕ)
    → (is_high u || is_low u) ≡ false
    → from_utf16 (u ∷ units) ≡ u ∷ from_utf16 units
unfolding from_utf16
one_unit u [] h = ground arith
one_unit u (v ∷ units) h = ground arith

two_units :
    (c : ℕ) (units : List ℕ)
    → ltb c 0x110000 ≡ true
    → ltb c 0x10000 ≡ false
    → from_utf16 ((0xd800 + (c - 0x10000) / 1024) ∷ (0xdc00 + (c - 0x10000) % 1024) ∷ units)
      ≡ c ∷ from_utf16 units
unfolding from_utf16
two_units c units h g = ground arith

no_units : from_utf16 [] ≡ []
unfolding from_utf16
no_units = refl

from_utf16-encode_utf16 : (text : Text) → AreScalars text → from_utf16 (encode_utf16 text) ≡ text
unfolding encode_utf16
from_utf16-encode_utf16 [] a = no_units
from_utf16-encode_utf16 (c ∷ text) a = elim (Bool-cases (ltb c 0x10000)) [
  | inl e ↦
      rw e (
        one_unit c (encode_utf16 text) (ground arith)
        ∙ ap (c ∷◌) (from_utf16-encode_utf16 text a.1))
  | inr e ↦ rw e (
      two_units c (encode_utf16 text) (ground arith) e
      ∙ ap (c ∷◌) (from_utf16-encode_utf16 text a.1))
]

-- Every text of Unicode scalar values that is written as UTF-16, high octet first, is read back as it was.
pub decode_ucs2-encode_utf16 :
    (text : Text) → AreScalars text → decode_ucs2 (be_bytes (encode_utf16 text)) ≡ text
unfolding decode_ucs2
decode_ucs2-encode_utf16 text a =
    rw (be_units-be_bytes (encode_utf16 text)) (from_utf16-encode_utf16 text a)
