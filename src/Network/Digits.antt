-- ===== src/Network/Digits.antt =====
-- The split of an IMSI, edge-core/src/network.rs.
use vodoge_edge.Common.{
  ℕ, ◌+◌, ◌/◌, ◌%◌, ◌<◌, ◌^◌, ◌≡◌, refl, sym, ◌∙◌, ◌⊎◌, inl, inr, List, ok, true, some, [], ◌∷◌,
  ◌++◌, arith, if◌then◌else◌, ◌==◌,
}
use mathlib.Core.Path.{subst}
use vodoge_edge.Common.Text.{Text}
use vodoge_edge.Network.{is_decimal, all_digits, digits_value, from_imsi, mnc_digits_from_ef_ad}

abbrev digit : ℕ → ℕ
digit n = 48 + n % 10

-- Three digits of a number, and two.
abbrev pub three : ℕ → Text
three n = digit (n / 100) ∷ digit (n / 10) ∷ digit n ∷ []

abbrev pub two : ℕ → Text
two n = digit (n / 10) ∷ digit n ∷ []

-- The digits of a network code, as many as the card says.
abbrev pub mnc_text : ℕ → ℕ → Text
mnc_text n mnc = if n == 2 then two mnc else three mnc

is_decimal-digit : (n : ℕ) → is_decimal (digit n) ≡ true
is_decimal-digit n = ground arith

three-value : (n : ℕ) → n < 1000 → digits_value 0 (three n) ≡ n
unfolding digits_value
three-value n h = omega arith

two-value : (n : ℕ) → n < 100 → digits_value 0 (two n) ≡ n
unfolding digits_value
two-value n h = omega arith

all_digits-three : (n : ℕ) (text : Text) → all_digits (three n ++ text) ≡ all_digits text
unfolding all_digits
all_digits-three n text =
    rw (is_decimal-digit (n / 100), is_decimal-digit (n / 10), is_decimal-digit n) refl

all_digits-two : (n : ℕ) (text : Text) → all_digits (two n ++ text) ≡ all_digits text
unfolding all_digits
all_digits-two n text = rw (is_decimal-digit (n / 10), is_decimal-digit n) refl

mnc_digits-ok : (mcc mnc : ℕ) → all_digits (three mcc ++ two mnc) ≡ true
unfolding all_digits
mnc_digits-ok mcc mnc = all_digits-three mcc (two mnc) ∙ all_digits-two mnc []

mnc_digits-ok3 : (mcc mnc : ℕ) → all_digits (three mcc ++ three mnc) ≡ true
unfolding all_digits
mnc_digits-ok3 mcc mnc = all_digits-three mcc (three mnc) ∙ all_digits-three mnc []

from_imsi-two :
    (mcc mnc : ℕ) (rest : Text)
    → mcc < 1000
    → mnc < 100
    → from_imsi (three mcc ++ two mnc ++ rest) 2 ≡ some (record { mcc = mcc; mnc = mnc })
unfolding from_imsi
from_imsi-two mcc mnc rest h k =
    ground (arith, three-value mcc h, two-value mnc k, mnc_digits-ok mcc mnc)

from_imsi-three :
    (mcc mnc : ℕ) (rest : Text)
    → mcc < 1000
    → mnc < 1000
    → from_imsi (three mcc ++ three mnc ++ rest) 3 ≡ some (record { mcc = mcc; mnc = mnc })
unfolding from_imsi
from_imsi-three mcc mnc rest h k =
    ground (arith, three-value mcc h, three-value mnc k, mnc_digits-ok3 mcc mnc)

-- The digits that a card can state.
ef_ad-two_or_three :
    (bytes : List ℕ) (d : ℕ) → mnc_digits_from_ef_ad bytes ≡ ok d → (d ≡ 2) ⊎ (d ≡ 3)
unfolding mnc_digits_from_ef_ad
ef_ad-two_or_three bytes d h = ground (arith, h)

-- An IMSI that starts with a country code of three digits and a network code of as many digits as `EF_AD` of the card
-- states is split into those two codes, whatever follows.
pub from_imsi-splits :
    (bytes : List ℕ) (d mcc mnc : ℕ) (rest : Text)
    → mnc_digits_from_ef_ad bytes ≡ ok d
    → mcc < 1000
    → mnc < 10 ^ d
    → from_imsi (three mcc ++ mnc_text d mnc ++ rest) d ≡ some (record { mcc = mcc; mnc = mnc })
from_imsi-splits bytes d mcc mnc rest h m n = elim (ef_ad-two_or_three bytes d h) [
  | inl e ↦
      subst
        (λ d.
          from_imsi (three mcc ++ mnc_text d mnc ++ rest) d
          ≡ some (record { mcc = mcc; mnc = mnc }))
        (sym e) (from_imsi-two mcc mnc rest m (subst (λ d. mnc < 10 ^ d) e n))
  | inr e ↦
      subst
        (λ d.
          from_imsi (three mcc ++ mnc_text d mnc ++ rest) d
          ≡ some (record { mcc = mcc; mnc = mnc }))
        (sym e) (from_imsi-three mcc mnc rest m (subst (λ d. mnc < 10 ^ d) e n))
]
