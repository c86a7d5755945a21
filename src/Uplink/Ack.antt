-- ===== src/Uplink/Ack.antt =====
-- Cumulative acknowledgements of edge-uplink/src/lib.rs: `observe_ack`.
pub mod Crossing
use vodoge_edge.Common.{
  ℕ, zero, suc, ◌+◌, ◌-◌, true, false, ◌||◌, Option, none, some, List, [], ◌∷◌, Result, ok, err,
  leb, ltb, ◌==◌, if◌then◌else◌,
}
use vodoge_edge.Common.Keys.{nat_key}
use vodoge_edge.Common.Dict.{Dict, contains, remove}
use vodoge_edge.Uplink.Types.{
  SequenceRange, UplinkRecord, UplinkAck, AckOutcome, UplinkError, ack_beyond_allocated,
  ack_crosses_unresolved_sequence, missing_range_at_or_below_cursor, missing_range_beyond_allocated,
}
use vodoge_edge.Uplink.Journal.{UplinkState}

-- `validate_missing_hint`, over the ranges left.
unfoldable pub validate_missing_hint : ℕ → ℕ → List SequenceRange → Result UplinkError (Unit {0})
validate_missing_hint last committed [] = ok tt
validate_missing_hint last committed (r ∷ rest) =
    if leb r.start committed
    then err (missing_range_at_or_below_cursor r committed)
    else if ltb last r.end
    then err (missing_range_beyond_allocated r last)
    else validate_missing_hint last committed rest

-- The check loop: the first of the `n` sequences from `sequence` on that is neither retained nor an
-- accepted loss.
unfoldable pub first_unresolved : ℕ → ℕ → Dict ℕ UplinkRecord → Dict ℕ (Unit {0}) → Option ℕ
first_unresolved zero sequence records losses = none
first_unresolved (suc n) sequence records losses =
    let rest = first_unresolved n (sequence + 1) records losses in
    if contains sequence records || contains sequence losses then rest else some sequence

-- What the delete loop changes.
pub record Sweep : Type 0 where
  pub records : Dict ℕ UplinkRecord
  pub losses : Dict ℕ (Unit {0})
  pub deleted : List ℕ

-- One round of the delete loop, then the others; `deleted` is built in ascending order.
unfoldable pub sweep : ℕ → ℕ → Dict ℕ UplinkRecord → Dict ℕ (Unit {0}) → Sweep
sweep zero sequence records losses = record { records = records; losses = losses; deleted = [] }
sweep (suc n) sequence records losses =
    let kept = sweep n (sequence + 1) (remove sequence records) losses in
    let lost = sweep n (sequence + 1) records (remove sequence losses) in
    if contains sequence records then record kept { deleted = sequence ∷ kept.deleted } else lost

-- The loops of `observe_ack`, for a cursor ahead of the journal's.
unfoldable pub cross : UplinkState → UplinkAck → UplinkState × Result UplinkError AckOutcome
cross s ack =
    let n = ack.committed_through - s.committed_through in
    let first = s.committed_through + 1 in
    elim (first_unresolved n first s.records s.accepted_loss_sequences) [
      | some sequence ↦ (s, err (ack_crosses_unresolved_sequence sequence))
      | none ↦
          let swept = sweep n first s.records s.accepted_loss_sequences in
          (
            record s {
              committed_through = ack.committed_through;
              records = swept.records;
              missing_ranges = ack.missing_ranges;
              more_missing = ack.more_missing;
              accepted_loss_sequences = swept.losses;
            },
            ok (record {
              committed_through = ack.committed_through;
              deleted_sequences = swept.deleted;
              advanced = true;
            }),
          )
    ]

-- The two ways on from an acknowledgement whose hint is valid.
unfoldable pub apply_ack : UplinkState → UplinkAck → UplinkState × Result UplinkError AckOutcome
apply_ack s ack =
    if ack.committed_through == s.committed_through
    then (
      record s { missing_ranges = ack.missing_ranges; more_missing = ack.more_missing },
      ok (record {
        committed_through = s.committed_through;
        deleted_sequences = [];
        advanced = false;
      }),
    )
    else cross s ack

unfoldable pub observe_ack : UplinkState → UplinkAck → UplinkState × Result UplinkError AckOutcome
observe_ack s ack =
    if ltb ack.committed_through s.committed_through
    then (
      s,
      ok (record {
        committed_through = s.committed_through;
        deleted_sequences = [];
        advanced = false;
      }),
    )
    else if ltb s.last_allocated ack.committed_through
    then (s, err (ack_beyond_allocated ack.committed_through s.last_allocated))
    else elim (validate_missing_hint s.last_allocated ack.committed_through ack.missing_ranges) [
      | err e ↦ (s, err e)
      | ok u ↦ apply_ack s ack
    ]
