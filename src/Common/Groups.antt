-- ===== src/Common/Groups.antt =====
-- Maps from a key to the list of what was pushed under it, the `BTreeMap<K, Vec<V>>` that
-- `entry(k).or_default().push(v)` builds; pairs of keys, in lexicographic order.
use mathlib.Core.Path.{◌≡◌, refl}
use mathlib.Core.Logic.{◌↔◌}
use mathlib.Core.Bool.{Bool, true, false, ◌&&◌, ◌||◌}
use mathlib.Core.Option.{none}
use mathlib.Core.List.{List, [], ◌∷◌, ◌++◌}
use native.Mathlib.Omega.{arith}
use vodoge_edge.Common.Tests.{if◌then◌else◌}
use vodoge_edge.Common.Keys.{Key}
use vodoge_edge.Common.Dict.{Dict, lookup, Above, Above-weaken, IsSorted}

module _ {K L : Type 0} ⦃k : Key K⦄ ⦃l : Key L⦄ where
  abbrev pair_beq : K × L → K × L → Bool
  pair_beq a b = k.beq a.0 b.0 && l.beq a.1 b.1

  abbrev pair_lt : K × L → K × L → Bool
  pair_lt a b = k.lt a.0 b.0 || (k.beq a.0 b.0 && l.lt a.1 b.1)

  pub pair_beq_iff : (a b : K × L) → (pair_beq a b ≡ true) ↔ (a ≡ b)
  pair_beq_iff (a, b) (c, d) = ground (arith, k.beq_iff a c, l.beq_iff b d)

  pub pair_lt_trans : (a b c : K × L) → pair_lt a b ≡ true → pair_lt b c ≡ true → pair_lt a c ≡ true
  pair_lt_trans (a, a') (b, b') (c, c') h g =
      ground
        (arith, k.beq_iff a b, k.beq_iff b c, k.beq_iff a c, k.lt_trans a b c, l.lt_trans a' b' c')

  pub pair_lt_total :
      (a b : K × L) → pair_beq a b ≡ false → pair_lt a b ≡ false → pair_lt b a ≡ true
  pair_lt_total (a, a') (b, b') h g =
      ground (arith, k.beq_iff a b, k.beq_iff b a, k.lt_total a b, l.lt_total a' b')

  pub pair_lt_irrefl : (a : K × L) → pair_lt a a ≡ false
  pair_lt_irrefl (a, a') = ground (arith, k.lt_irrefl a, l.lt_irrefl a')

  instance abbrev pub pair_key : Key (K × L)
  pair_key = record {
    beq = pair_beq;
    lt = pair_lt;
    beq_iff = pair_beq_iff;
    lt_trans = pair_lt_trans;
    lt_total = pair_lt_total;
    lt_irrefl = pair_lt_irrefl;
  }

module _ {K V : Type 0} ⦃o : Key K⦄ where
  -- entry(k).or_default().push(v)
  unfoldable pub push : K → V → Dict K (List V) → Dict K (List V)
  push k v [] = (k, v ∷ []) ∷ []
  push k v ((j, vs) ∷ m) =
      if o.beq j k
      then (j, vs ++ v ∷ []) ∷ m
      else if o.lt k j
      then (k, v ∷ []) ∷ (j, vs) ∷ m
      else (j, vs) ∷ push k v m

  push-Above :
      (b k : K) (v : V) (m : Dict K (List V)) → o.lt b k ≡ true → Above b m → Above b (push k v m)
  unfolding push
  push-Above b k v [] h a = (h, tt)
  push-Above b k v ((j, w) ∷ m) h a =
      ground (arith, o.beq_iff j k, o.beq_iff k j, o.lt_total k j, push-Above j k v m)

  pub push-IsSorted : (k : K) (v : V) (m : Dict K (List V)) → IsSorted m → IsSorted (push k v m)
  unfolding push
  push-IsSorted k v [] a = tt
  push-IsSorted k v ((j, w) ∷ m) a =
      ground (arith, o.beq_iff j k, o.beq_iff k j, o.lt_total k j, push-Above j k v m)

  -- Nothing is found under a key below all of the map's.
  pub lookup-Above : (k : K) (m : Dict K (List V)) → Above k m → lookup k m ≡ none
  unfolding lookup
  lookup-Above k [] a = refl
  lookup-Above k ((j, w) ∷ m) a =
      ground (arith, o.beq_iff j k, o.lt_irrefl k, lookup-Above k m (Above-weaken k j m a.0 a.1))
