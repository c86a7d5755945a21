-- ===== src/Common/Dict.antt =====
-- Rust's `BTreeMap` and `BTreeSet`: entries in ascending order of their keys. A `BTreeSet` is a map
-- to the unit type. A `HashMap` whose order nothing reads is modelled by the same map.
use Prim.Native.Nat.{◌≤◌, ◌<◌}
use mathlib.Core.Path.{◌≡◌, refl}
use mathlib.Core.Logic.{inl, inr}
use mathlib.Core.Bool.{Bool, true, false}
use mathlib.Core.Option.{Option, none, some}
use mathlib.Core.List.{List, [], ◌∷◌, map}
use native.Mathlib.Omega.{arith}
use vodoge_edge.Common.Tests.{if◌then◌else◌, is_some, Bool-cases}
use vodoge_edge.Common.Lists.{length}
use vodoge_edge.Common.Keys.{Key}

abbrev pub Dict {ℓ κ} : Type ℓ → Type κ → Type (ℓ ⊔ κ)
Dict K V = List (K × V)

abbrev pub keys {ℓ κ} : {K : Type ℓ} {V : Type κ} → Dict K V → List K
keys = map (λ e. e.0)

abbrev pub values {ℓ κ} : {K : Type ℓ} {V : Type κ} → Dict K V → List V
values = map (λ e. e.1)

module _ {ℓ} {K : Type ℓ} ⦃o : Key K⦄ where
  pub beq_refl : (k : K) → o.beq k k ≡ true
  beq_refl k = (o.beq_iff k k).1 refl

  beq_sym : (j k : K) → o.beq j k ≡ false → o.beq k j ≡ false
  beq_sym j k h = ground (arith, o.beq_iff j k, o.beq_iff k j)

module _ {ℓ κ} {K : Type ℓ} {V : Type κ} ⦃o : Key K⦄ where
  -- get
  unfoldable pub lookup : K → Dict K V → Option V
  lookup k [] = none
  lookup k ((j, v) ∷ m) = if o.beq j k then some v else lookup k m

  -- contains_key, contains
  abbrev pub contains : K → Dict K V → Bool
  contains k m = is_some (lookup k m)

  unfoldable pub insert : K → V → Dict K V → Dict K V
  insert k v [] = (k, v) ∷ []
  insert k v ((j, w) ∷ m) =
      if o.beq j k
      then (k, v) ∷ m
      else if o.lt k j
      then (k, v) ∷ (j, w) ∷ m
      else (j, w) ∷ insert k v m

  unfoldable pub remove : K → Dict K V → Dict K V
  remove k [] = []
  remove k ((j, v) ∷ m) = let rest = remove k m in if o.beq j k then rest else (j, v) ∷ rest

  pub lookup-insert :
      (k j : K) (v : V) (m : Dict K V)
      → lookup j (insert k v m) ≡ (if o.beq k j then some v else lookup j m)
  unfolding lookup insert
  lookup-insert k j v [] = refl
  lookup-insert k j v ((i, w) ∷ m) =
      ground (arith, o.beq_iff k j, o.beq_iff i k, o.beq_iff i j, lookup-insert k j v m)

  pub lookup-remove :
      (k j : K) (m : Dict K V) → lookup j (remove k m) ≡ (if o.beq k j then none else lookup j m)
  unfolding lookup remove
  lookup-remove k j [] = ground arith
  lookup-remove k j ((i, w) ∷ m) =
      ground (arith, o.beq_iff k j, o.beq_iff i k, o.beq_iff i j, lookup-remove k j m)

  pub lookup-insert_self : (k : K) (v : V) (m : Dict K V) → lookup k (insert k v m) ≡ some v
  lookup-insert_self k v m = rw (lookup-insert, beq_refl)

  pub lookup-remove_self : (k : K) (m : Dict K V) → lookup k (remove k m) ≡ none
  lookup-remove_self k m = rw (lookup-remove, beq_refl)

  -- Ascending keys, all above `b`.
  abbrev pub Above : K → Dict K V → Type ℓ
  Above b [] = Unit
  Above b ((j, w) ∷ m) = (o.lt b j ≡ true) × Above j m

  abbrev pub IsSorted : Dict K V → Type ℓ
  IsSorted [] = Unit
  IsSorted ((j, w) ∷ m) = Above j m

  pub Above-weaken : (b j : K) (m : Dict K V) → o.lt b j ≡ true → Above j m → Above b m
  Above-weaken b j [] h a = tt
  Above-weaken b j ((i, w) ∷ m) h a = (o.lt_trans b j i h a.0, a.1)

  pub Above-IsSorted : (b : K) (m : Dict K V) → Above b m → IsSorted m
  Above-IsSorted b [] a = tt
  Above-IsSorted b ((j, w) ∷ m) a = a.1

  insert-Above :
      (b k : K) (v : V) (m : Dict K V) → o.lt b k ≡ true → Above b m → Above b (insert k v m)
  unfolding insert
  insert-Above b k v [] h a = (h, tt)
  insert-Above b k v ((j, w) ∷ m) h a =
      ground
        (arith, o.beq_iff j k, o.lt_total j k, o.lt_total k j, insert-Above j k v m, beq_sym j k)

  pub insert-IsSorted : (k : K) (v : V) (m : Dict K V) → IsSorted m → IsSorted (insert k v m)
  unfolding insert
  insert-IsSorted k v [] a = tt
  insert-IsSorted k v ((j, w) ∷ m) a =
      ground
        (arith, o.beq_iff j k, o.lt_total j k, o.lt_total k j, insert-Above j k v m, beq_sym j k)

  remove-Above : (b k : K) (m : Dict K V) → Above b m → Above b (remove k m)
  unfolding remove
  remove-Above b k [] a = tt
  remove-Above b k ((j, w) ∷ m) a =
      ground (arith, remove-Above b k m (Above-weaken b j m a.0 a.1), remove-Above j k m a.1)

  pub remove-IsSorted : (k : K) (m : Dict K V) → IsSorted m → IsSorted (remove k m)
  unfolding remove
  remove-IsSorted k [] a = tt
  remove-IsSorted k ((j, w) ∷ m) a = elim (Bool-cases (o.beq j k)) [
    | inl e ↦ rw e (Above-IsSorted j (remove k m) (remove-Above j k m a))
    | inr e ↦ rw e (remove-Above j k m a)
  ]

  pub length-remove-le : (k : K) (m : Dict K V) → length (remove k m) ≤ length m
  unfolding remove
  length-remove-le k [] = omega arith
  length-remove-le k ((j, w) ∷ m) = ground (arith, length-remove-le k m)

  pub length-remove-lt :
      (k : K) (m : Dict K V) → contains k m ≡ true → length (remove k m) < length m
  unfolding lookup remove
  length-remove-lt k [] h = cc
  length-remove-lt k ((j, w) ∷ m) h = ground (arith, length-remove-lt k m, length-remove-le k m)
