-- ===== src/Uplink/Loss.antt =====
-- Loss markers of edge-uplink/src/lib.rs: `declare_loss`.
pub mod Removal
use vodoge_edge.Common.{
  ℕ, ◌||◌, none, some, List, [], ◌∷◌, Result, ok, err, ◌>>=◌, ◌>>◌, if◌then◌else◌,
}
use vodoge_edge.Common.Text.{Text, is_blank}
use vodoge_edge.Common.Keys.{nat_key, text_key}
use vodoge_edge.Common.Dict.{Dict, keys, lookup, contains, insert, remove}
use vodoge_edge.Uplink.Types.{
  GapId, evictable, protected, UplinkRecord, UplinkGap, UplinkError, empty_gap_reason,
  duplicate_gap_id, unknown_retained_sequence, protected_record_cannot_be_evicted,
}
use vodoge_edge.Uplink.Ranges.{selected_sequences, ranges_for}
use vodoge_edge.Uplink.Journal.{UplinkState}

-- The check loop of `declare_loss`.
unfoldable pub check_evictable : Dict ℕ UplinkRecord → List ℕ → Result UplinkError (Unit {0})
check_evictable records [] = ok tt
check_evictable records (s ∷ rest) = elim (lookup s records) [
  | none ↦ err (unknown_retained_sequence s)
  | some r ↦ elim r.retention [
    | evictable ↦ check_evictable records rest
    | protected ↦ err (protected_record_cannot_be_evicted s)
  ]
]

-- The removal loop of `declare_loss`.
unfoldable pub remove_all : List ℕ → Dict ℕ UplinkRecord → Dict ℕ UplinkRecord
remove_all [] records = records
remove_all (s ∷ rest) records = remove_all rest (remove s records)

-- The checks of `declare_loss`, up to the first mutation.
unfoldable pub loss_selection :
    UplinkState → GapId → List ℕ → Text → Result UplinkError (Dict ℕ (Unit {0}))
unfolding check_evictable
loss_selection s gap_id sequences reason =
    if contains gap_id s.pending_gaps || contains gap_id s.accepted_gaps
    then err (duplicate_gap_id gap_id)
    else if is_blank reason
    then err empty_gap_reason
    else do
      selected ← selected_sequences sequences
      check_evictable s.records (keys selected)
      ok selected

unfoldable pub declare_loss :
    UplinkState → GapId → List ℕ → Text → UplinkState × Result UplinkError UplinkGap
unfolding loss_selection remove_all
declare_loss s gap_id sequences reason = elim (loss_selection s gap_id sequences reason) [
  | err e ↦ (s, err e)
  | ok selected ↦
      let gap : UplinkGap = record {
        gap_id = gap_id;
        ranges = ranges_for selected;
        reason = reason;
      } in
      (
        record s {
          records = remove_all (keys selected) s.records;
          pending_gaps = insert gap_id gap s.pending_gaps;
        },
        ok gap,
      )
]
