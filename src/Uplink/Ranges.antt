-- ===== src/Uplink/Ranges.antt =====
-- Sequence ranges: the checks on those that arrive, and those that a loss marker carries.
pub mod Cover
use vodoge_edge.Common.{
  ℕ, ◌+◌, ◌≤◌, ◌<◌, ◌≡◌, refl, Bool, true, false, ◌||◌, Option, none, some, List, [], ◌∷◌, Result,
  ok, err, ◌>>=◌, ◌>>◌, length, ltb, leb, ◌==◌, if◌then◌else◌, arith,
}
use vodoge_edge.Common.Keys.{nat_key}
use vodoge_edge.Common.Dict.{Dict, keys, contains, insert}
use vodoge_edge.Uplink.Types.{
  SequenceRange, UplinkError, UplinkAck, checked_succ, invalid_sequence_range, non_canonical_ranges,
  too_many_missing_ranges, empty_gap, duplicate_loss_sequence,
}

abbrev pub max_missing_ranges : ℕ
max_missing_ranges = 128

-- `SequenceRange::new`.
pub new_range : ℕ → ℕ → Result UplinkError SequenceRange
new_range start end =
    if ltb end start
    then err (invalid_sequence_range start end)
    else ok (record { start = start; end = end })

-- `validate_sorted_non_overlapping`: every window of two.
unfoldable pub validate_sorted_non_overlapping : List SequenceRange → Result UplinkError (Unit {0})
validate_sorted_non_overlapping [] = ok tt
validate_sorted_non_overlapping (r ∷ []) = ok tt
validate_sorted_non_overlapping (r ∷ s ∷ rest) =
    if leb s.start r.start || leb s.start r.end
    then err non_canonical_ranges
    else validate_sorted_non_overlapping (s ∷ rest)

-- `UplinkAck::new`.
unfoldable pub new_ack : ℕ → List SequenceRange → Bool → Result UplinkError UplinkAck
unfolding validate_sorted_non_overlapping
new_ack committed missing more =
    if ltb max_missing_ranges (length missing)
    then err (too_many_missing_ranges (length missing) max_missing_ranges)
    else do
      validate_sorted_non_overlapping missing
      ok (record { committed_through = committed; missing_ranges = missing; more_missing = more })

-- The loop of `selected_sequences`.
unfoldable pub select : Dict ℕ (Unit {0}) → List ℕ → Result UplinkError (Dict ℕ (Unit {0}))
select selected [] = ok selected
select selected (s ∷ rest) =
    if contains s selected
    then err (duplicate_loss_sequence s)
    else select (insert s tt selected) rest

unfoldable pub selected_sequences : List ℕ → Result UplinkError (Dict ℕ (Unit {0}))
unfolding select
selected_sequences [] = err empty_gap
selected_sequences (s ∷ rest) = select [] (s ∷ rest)

-- The loop of `ranges_for`, with the open range `start ..= end`.
unfoldable pub ranges_from : ℕ → ℕ → List ℕ → List SequenceRange
ranges_from start end [] = record { start = start; end = end } ∷ []
ranges_from start end (s ∷ rest) =
    let joined = ranges_from start s rest in
    let split = record { start = start; end = end } ∷ ranges_from s s rest in
    elim (checked_succ end) [ none ↦ split | some next ↦ if next == s then joined else split ]

unfoldable pub ranges_for : Dict ℕ (Unit {0}) → List SequenceRange
unfolding ranges_from
ranges_for [] = []
ranges_for ((s, u) ∷ rest) = ranges_from s s (keys rest)
