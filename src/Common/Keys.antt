-- ===== src/Common/Keys.antt =====
-- Keys of an ordered map: an equality test and a strict order, as functions into Bool, with the
-- laws that a map needs. Numbers and texts are keys.
use vodoge_edge.Common.Tests.{ltb, ◌==◌, ==_iff}
use vodoge_edge.Common.Text.{Text, text_eq, text_ltb}
use Prim.Native.Nat.{ℕ}
use mathlib.Core.Path.{◌≡◌, refl}
use mathlib.Core.Logic.{◌↔◌}
use mathlib.Core.Bool.{Bool, true, false}
use mathlib.Core.List.{[], ◌∷◌}
use native.Mathlib.Omega.{arith}

pub record Key {ℓ} (K : Type ℓ) : Type ℓ where
  pub beq : K → K → Bool
  pub lt : K → K → Bool
  pub beq_iff : (a b : K) → (beq a b ≡ true) ↔ (a ≡ b)
  pub lt_trans : (a b c : K) → lt a b ≡ true → lt b c ≡ true → lt a c ≡ true
  pub lt_total : (a b : K) → beq a b ≡ false → lt a b ≡ false → lt b a ≡ true
  pub lt_irrefl : (a : K) → lt a a ≡ false

pub nat_trans : (a b c : ℕ) → ltb a b ≡ true → ltb b c ≡ true → ltb a c ≡ true
nat_trans a b c h k = ground arith

pub nat_total : (a b : ℕ) → (a == b) ≡ false → ltb a b ≡ false → ltb b a ≡ true
nat_total a b h k = ground arith

pub nat_irrefl : (a : ℕ) → ltb a a ≡ false
nat_irrefl a = ground arith

instance abbrev pub nat_key : Key ℕ
nat_key = record {
  beq = ◌==◌;
  lt = ltb;
  beq_iff = ==_iff;
  lt_trans = nat_trans;
  lt_total = nat_total;
  lt_irrefl = nat_irrefl;
}

text_eq→eq : (s t : Text) → text_eq s t ≡ true → s ≡ t
text_eq→eq [] [] h = refl
text_eq→eq [] (y ∷ ys) h = cc
text_eq→eq (x ∷ xs) [] h = cc
text_eq→eq (x ∷ xs) (y ∷ ys) h = ground (arith, text_eq→eq xs ys)

text_eq_refl : (s : Text) → text_eq s s ≡ true
text_eq_refl [] = refl
text_eq_refl (x ∷ xs) = ground (arith, text_eq_refl xs)

pub text_eq_iff : (s t : Text) → (text_eq s t ≡ true) ↔ (s ≡ t)
text_eq_iff s t = (text_eq→eq s t, λ e. rw e (text_eq_refl t))

pub text_trans : (s t u : Text) → text_ltb s t ≡ true → text_ltb t u ≡ true → text_ltb s u ≡ true
text_trans [] [] u h k = cc
text_trans [] (y ∷ ys) [] h k = cc
text_trans [] (y ∷ ys) (z ∷ zs) h k = refl
text_trans (x ∷ xs) [] u h k = cc
text_trans (x ∷ xs) (y ∷ ys) [] h k = cc
text_trans (x ∷ xs) (y ∷ ys) (z ∷ zs) h k = ground (arith, text_trans xs ys zs)

pub text_total : (s t : Text) → text_eq s t ≡ false → text_ltb s t ≡ false → text_ltb t s ≡ true
text_total [] [] h k = cc
text_total [] (y ∷ ys) h k = cc
text_total (x ∷ xs) [] h k = refl
text_total (x ∷ xs) (y ∷ ys) h k = ground (arith, text_total xs ys)

pub text_irrefl : (s : Text) → text_ltb s s ≡ false
text_irrefl [] = refl
text_irrefl (x ∷ xs) = ground (arith, text_irrefl xs)

instance abbrev pub text_key : Key Text
text_key = record {
  beq = text_eq;
  lt = text_ltb;
  beq_iff = text_eq_iff;
  lt_trans = text_trans;
  lt_total = text_total;
  lt_irrefl = text_irrefl;
}
