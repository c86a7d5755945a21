-- ===== src/Common/Checked.antt =====
-- Indexing and slicing as Rust checks them: `none` is the panic at an index that is out of range.
use Prim.Native.Nat.{ℕ, zero, suc, ◌-◌, ◌≤◌, ◌<◌}
use mathlib.Core.Path.{◌≡◌, refl}
use mathlib.Core.Bool.{true, ◌&&◌}
use mathlib.Core.Option.{Option, none, some}
use mathlib.Core.List.{List, [], ◌∷◌}
use native.Mathlib.Omega.{arith}
use vodoge_edge.Common.Tests.{leb, if◌then◌else◌, is_some}
use vodoge_edge.Common.Lists.{length, get_elem?, take, drop, length-take, length-drop}

infixl 5 ◌>>=◌
abbrev pub ◌>>=◌ {ℓ} : {A B : Type ℓ} → Option A → (A → Option B) → Option B
none >>= f = none
some a >>= f = f a

module _ {A : Type 0} where
  -- `&xs[from..to]`
  unfoldable pub slice : List A → ℕ → ℕ → Option (List A)
  slice xs from to =
      if leb from to && leb to (length xs) then some (take (to - from) (drop from xs)) else none

  -- `&xs[from..]`
  unfoldable pub slice_from : List A → ℕ → Option (List A)
  slice_from xs from = if leb from (length xs) then some (drop from xs) else none

  pub get_elem-total : (xs : List A) (i : ℕ) → i < length xs → is_some (get_elem? xs i) ≡ true
  get_elem-total [] i h = ground arith
  get_elem-total (x ∷ xs) zero h = refl
  get_elem-total (x ∷ xs) (suc i) h = get_elem-total xs i (omega arith)

  pub slice-total :
      (xs : List A) (from to : ℕ) → from ≤ to → to ≤ length xs → is_some (slice xs from to) ≡ true
  unfolding slice
  slice-total xs from to h g = ground arith

  pub slice_from-total :
      (xs : List A) (from : ℕ) → from ≤ length xs → is_some (slice_from xs from) ≡ true
  unfolding slice_from
  slice_from-total xs from h = ground arith

  pub length-slice :
      (xs : List A) (from to : ℕ) (ys : List A) → slice xs from to ≡ some ys → length ys ≡ to - from
  unfolding slice
  length-slice xs from to ys h =
      ground (arith, length-take (to - from) (drop from xs), length-drop from xs)
