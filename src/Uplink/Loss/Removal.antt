-- ===== src/Uplink/Loss/Removal.antt =====
-- The loops of `declare_loss`: what may be given up, and what giving up takes out.
use vodoge_edge.Common.{ℕ, ◌≡◌, refl, true, none, some, List, [], ◌∷◌, ok, if◌then◌else◌, arith}
use vodoge_edge.Common.Keys.{nat_key}
use vodoge_edge.Common.Dict.{Dict, keys, lookup, contains, remove, lookup-remove}
use vodoge_edge.Uplink.Types.{UplinkRecord, evictable}
use vodoge_edge.Uplink.Ranges.Cover.{among}
use vodoge_edge.Uplink.Loss.{check_evictable, remove_all}

pub among-keys : (m : Dict ℕ (Unit {0})) (n : ℕ) → among (keys m) n ≡ contains n m
unfolding lookup
among-keys [] n = refl
among-keys ((s, u) ∷ m) n = ground (arith, among-keys m n)

pub lookup-remove_all :
    (xs : List ℕ) (n : ℕ) (records : Dict ℕ UplinkRecord)
    → lookup n (remove_all xs records) ≡ (if among xs n then none else lookup n records)
unfolding remove_all
lookup-remove_all [] n records = refl
lookup-remove_all (x ∷ xs) n records =
    ground (arith, lookup-remove_all xs n (remove x records), lookup-remove x n records)

pub evictable_of_check :
    (records : Dict ℕ UplinkRecord) (xs : List ℕ) (n : ℕ)
    → check_evictable records xs ≡ ok tt
    → among xs n ≡ true
    → (r : UplinkRecord) × (lookup n records ≡ some r) × (r.retention ≡ evictable)
unfolding check_evictable
evictable_of_check records [] n e h = cc
evictable_of_check records (x ∷ xs) n e h = grind (arith, evictable_of_check records xs n)
