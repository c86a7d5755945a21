-- ===== src/Uplink/Ranges/Cover.antt =====
-- The ranges of a loss marker name exactly the selected sequences, in canonical form.
use vodoge_edge.Common.{
  ℕ, ◌+◌, ◌≤◌, ◌<◌, ◌≡◌, refl, inl, inr, Bool, false, ◌&&◌, ◌||◌, List, [], ◌∷◌, ok, leb, ◌==◌,
  arith, Bool-cases,
}
use mathlib.Core.Path.{subst}
use vodoge_edge.Common.Keys.{nat_key}
use vodoge_edge.Common.Dict.{
  Dict, keys, lookup, contains, insert, lookup-insert, IsSorted, Above, insert-IsSorted,
}
use vodoge_edge.Uplink.Types.{SequenceRange, u64_max}
use vodoge_edge.Uplink.Ranges.{
  validate_sorted_non_overlapping, select, selected_sequences, ranges_from, ranges_for,
}

abbrev pub holds : SequenceRange → ℕ → Bool
holds r n = leb r.start n && leb n r.end

-- Some range of the list holds the sequence.
unfoldable pub covers : List SequenceRange → ℕ → Bool
covers [] n = false
covers (r ∷ rest) n = holds r n || covers rest n

covers-ranges_from :
    (start end n : ℕ) (m : Dict ℕ (Unit {0}))
    → start ≤ end
    → covers (ranges_from start end (keys m)) n ≡ (leb start n && leb n end) || contains n m
unfolding covers ranges_from lookup
covers-ranges_from start end n [] h = ground arith
covers-ranges_from start end n ((s, u) ∷ m) h =
    ground (arith, covers-ranges_from start s n m, covers-ranges_from s s n m)

-- `ranges_for` loses no selected sequence and names no other.
pub covers-ranges_for : (m : Dict ℕ (Unit {0})) (n : ℕ) → covers (ranges_for m) n ≡ contains n m
unfolding covers ranges_for lookup
covers-ranges_for [] n = refl
covers-ranges_for ((s, u) ∷ m) n = ground (arith, covers-ranges_from s s n m)

-- Ranges that are not empty, lie above `b`, and leave at least one sequence between them.
abbrev pub SpacedAfter : ℕ → List SequenceRange → Type 0
SpacedAfter b [] = Unit
SpacedAfter b (r ∷ rest) = (b < r.start) × (r.start ≤ r.end) × SpacedAfter (r.end + 1) rest

abbrev pub IsSpaced : List SequenceRange → Type 0
IsSpaced [] = Unit
IsSpaced (r ∷ rest) = (r.start ≤ r.end) × SpacedAfter (r.end + 1) rest

abbrev pub AllBelow : ℕ → Dict ℕ (Unit {0}) → Type 0
AllBelow b [] = Unit
AllBelow b ((s, u) ∷ m) = (s ≤ b) × AllBelow b m

SpacedAfter-ranges_from :
    (b start end : ℕ) (m : Dict ℕ (Unit {0}))
    → b < start
    → start ≤ end
    → Above end m
    → AllBelow u64_max m
    → SpacedAfter b (ranges_from start end (keys m))
unfolding ranges_from
SpacedAfter-ranges_from b start end [] l h a k = (l, h, tt)
SpacedAfter-ranges_from b start end ((s, u) ∷ m) l h a k =
    ground (arith, SpacedAfter-ranges_from b start s m l, SpacedAfter-ranges_from (end + 1) s s m)

IsSpaced-ranges_from :
    (start end : ℕ) (m : Dict ℕ (Unit {0}))
    → start ≤ end
    → Above end m
    → AllBelow u64_max m
    → IsSpaced (ranges_from start end (keys m))
unfolding ranges_from
IsSpaced-ranges_from start end [] h a k = (h, tt)
IsSpaced-ranges_from start end ((s, u) ∷ m) h a k =
    ground (arith, IsSpaced-ranges_from start s m, SpacedAfter-ranges_from (end + 1) s s m)

valid_after :
    (r : SequenceRange) (rest : List SequenceRange)
    → SpacedAfter (r.end + 1) rest
    → r.start ≤ r.end
    → validate_sorted_non_overlapping (r ∷ rest) ≡ ok tt
unfolding validate_sorted_non_overlapping
valid_after r [] a h = refl
valid_after r (s ∷ rest) a h = ground (arith, valid_after s rest)

valid_of_IsSpaced :
    (rs : List SequenceRange) → IsSpaced rs → validate_sorted_non_overlapping rs ≡ ok tt
unfolding validate_sorted_non_overlapping
valid_of_IsSpaced [] a = refl
valid_of_IsSpaced (r ∷ rest) a = valid_after r rest a.1 a.0

-- The ranges that `ranges_for` gives for a sorted set of `u64` values cover exactly the set. They are
-- canonical: none is empty, they ascend, two neighbours are never adjacent; and they pass the check that
-- `UplinkAck::new` makes.
pub ranges_for-IsSpaced :
    (m : Dict ℕ (Unit {0}))
    → IsSorted m
    → AllBelow u64_max m
    → IsSpaced (ranges_for m)
      × (validate_sorted_non_overlapping (ranges_for m) ≡ ok tt)
      × ((n : ℕ) → covers (ranges_for m) n ≡ contains n m)
unfolding ranges_for validate_sorted_non_overlapping covers
ranges_for-IsSpaced [] a k = (tt, refl, covers-ranges_for [])
ranges_for-IsSpaced ((s, u) ∷ m) a k =
    let spaced = IsSpaced-ranges_from s s m (omega arith) a k.1 in
    (spaced, valid_of_IsSpaced _ spaced, covers-ranges_for ((s, u) ∷ m))

-- Membership in a plain list of sequences.
abbrev pub among : List ℕ → ℕ → Bool
among [] n = false
among (x ∷ xs) n = x == n || among xs n

select-IsSorted :
    (sel out : Dict ℕ (Unit {0})) (xs : List ℕ)
    → select sel xs ≡ ok out
    → IsSorted sel
    → IsSorted out
unfolding select
select-IsSorted sel out [] e a = let same : sel ≡ out = cc in subst IsSorted same a
select-IsSorted sel out (x ∷ xs) e a = elim (Bool-cases (contains x sel)) [
  | inl old ↦ absurd (ground arith)
  | inr new ↦ select-IsSorted (insert x tt sel) out xs (ground arith) (insert-IsSorted x tt sel a)
]

contains-select :
    (sel out : Dict ℕ (Unit {0})) (xs : List ℕ) (n : ℕ)
    → select sel xs ≡ ok out
    → contains n out ≡ (contains n sel || among xs n)
unfolding select
contains-select sel out [] n e = ground arith
contains-select sel out (x ∷ xs) n e =
    ground (arith, contains-select (insert x tt sel) out xs n, lookup-insert x n tt sel)

-- What `selected_sequences` accepts: a non-empty list, whose members are then in the sorted set.
pub selected-IsSorted :
    (xs : List ℕ) (out : Dict ℕ (Unit {0})) → selected_sequences xs ≡ ok out → IsSorted out
unfolding selected_sequences
selected-IsSorted [] out e = cc
selected-IsSorted (x ∷ xs) out e = select-IsSorted [] out (x ∷ xs) e tt

pub contains-selected :
    (xs : List ℕ) (out : Dict ℕ (Unit {0})) (n : ℕ)
    → selected_sequences xs ≡ ok out
    → contains n out ≡ among xs n
unfolding selected_sequences lookup
contains-selected [] out n e = cc
contains-selected (x ∷ xs) out n e = contains-select [] out (x ∷ xs) n e
