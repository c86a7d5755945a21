-- ===== src/Uplink/GapAck.antt =====
-- Accepted loss markers of edge-uplink/src/lib.rs: `accept_gap`, and the cursor that moves on over
-- the sequences that it settles.
pub mod Advance
use vodoge_edge.Common.{
  ℕ, zero, suc, ◌+◌, ◌-◌, Bool, true, false, none, some, List, [], ◌∷◌, Result, ok, err, length,
  leb, ◌==◌, if◌then◌else◌,
}
use vodoge_edge.Common.Keys.{nat_key, text_key}
use vodoge_edge.Common.Dict.{Dict, lookup, contains, insert, remove}
use vodoge_edge.Uplink.Types.{
  GapId, SequenceRange, UplinkGap, GapAckOutcome, UplinkError, u64_max, checked_succ,
  unknown_gap_id,
}
use vodoge_edge.Uplink.Journal.{UplinkState}

-- `for sequence in start..=end { insert }`, over the number of rounds left.
unfoldable pub insert_run : ℕ → ℕ → Dict ℕ (Unit {0}) → Dict ℕ (Unit {0})
insert_run zero sequence losses = losses
insert_run (suc n) sequence losses = insert_run n (sequence + 1) (insert sequence tt losses)

unfoldable pub insert_ranges : List SequenceRange → Dict ℕ (Unit {0}) → Dict ℕ (Unit {0})
unfolding insert_run
insert_ranges [] losses = losses
insert_ranges (r ∷ rest) losses =
    insert_ranges rest (insert_run (r.end + 1 - r.start) r.start losses)

-- The `while let` loop of `advance_across_accepted_losses`: each round removes one element.
unfoldable pub advance_loop : ℕ → ℕ → Dict ℕ (Unit {0}) → ℕ × Dict ℕ (Unit {0})
advance_loop zero cursor losses = (cursor, losses)
advance_loop (suc fuel) cursor losses = elim (checked_succ cursor) [
  | none ↦ (cursor, losses)
  | some next ↦
      let rest = advance_loop fuel next (remove next losses) in
      if contains next losses then rest else (cursor, losses)
]

-- The closure of `prune_committed_missing_ranges`.
unfoldable pub prune_ranges : ℕ → List SequenceRange → List SequenceRange
prune_ranges committed [] = []
prune_ranges committed (r ∷ rest) =
    let rest' = prune_ranges committed rest in
    if leb r.end committed
    then rest'
    else if leb r.start committed
    then record { start = committed + 1; end = r.end } ∷ rest'
    else r ∷ rest'

unfoldable pub prune_committed_missing_ranges : UplinkState → UplinkState
unfolding prune_ranges
prune_committed_missing_ranges s =
    if s.committed_through == u64_max
    then record s { missing_ranges = []; more_missing = false }
    else record s { missing_ranges = prune_ranges s.committed_through s.missing_ranges }

unfoldable pub advance_across_accepted_losses : UplinkState → UplinkState × Bool
advance_across_accepted_losses s =
    let (cursor, losses) =
      advance_loop (suc (length s.accepted_loss_sequences)) s.committed_through
        s.accepted_loss_sequences in
    let moved : UplinkState = record s {
      committed_through = cursor;
      accepted_loss_sequences = losses;
    } in
    if cursor == s.committed_through
    then (moved, false)
    else (prune_committed_missing_ranges moved, true)

-- The state of `accept_gap` when its marker has moved to the accepted ones.
unfoldable pub accept_pending : UplinkState → GapId → UplinkGap → UplinkState
unfolding insert_ranges
accept_pending s gap_id gap = record s {
  pending_gaps = remove gap_id s.pending_gaps;
  accepted_loss_sequences = insert_ranges gap.ranges s.accepted_loss_sequences;
  accepted_gaps = insert gap_id gap s.accepted_gaps;
}

-- What follows the test for an accepted marker in `accept_gap`.
unfoldable pub accept_new_gap : UplinkState → GapId → UplinkState × Result UplinkError GapAckOutcome
accept_new_gap s gap_id = elim (lookup gap_id s.pending_gaps) [
  | none ↦ (s, err (unknown_gap_id gap_id))
  | some gap ↦
      let (s', advanced) = advance_across_accepted_losses (accept_pending s gap_id gap) in
      (
        s',
        ok (record {
          gap_id = gap_id;
          committed_through = s'.committed_through;
          advanced = advanced;
          already_accepted = false;
        }),
      )
]

unfoldable pub accept_gap : UplinkState → GapId → UplinkState × Result UplinkError GapAckOutcome
accept_gap s gap_id =
    if contains gap_id s.accepted_gaps
    then (
      s,
      ok (record {
        gap_id = gap_id;
        committed_through = s.committed_through;
        advanced = false;
        already_accepted = true;
      }),
    )
    else accept_new_gap s gap_id
