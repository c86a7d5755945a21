-- ===== src/Uplink/Tests.antt =====
-- Runs of the journal on small inputs, and the theorems at them.
use vodoge_edge.Common.{ℕ, ◌≡◌, refl, ◌⊎◌, false, List, [], ◌∷◌, Result, ok, err, arith}
use vodoge_edge.Common.Text.{codes, is_blank}
use vodoge_edge.Common.Keys.{nat_key, text_key}
use vodoge_edge.Common.Dict.{Dict, lookup, keys, insert, remove}
use vodoge_edge.Uplink.Types.{
  UplinkError, UplinkGap, SequenceRange, UplinkAck, UplinkRecord, evictable, protected,
  new_envelope_id, ack_crosses_unresolved_sequence,
}
use vodoge_edge.Uplink.Ranges.{selected_sequences, ranges_for, validate_sorted_non_overlapping}
use vodoge_edge.Uplink.Journal.{UplinkState, new_state, append, rehydrate}
use vodoge_edge.Uplink.Loss.{declare_loss, check_evictable, remove_all}
use vodoge_edge.Uplink.GapAck.{
  insert_ranges, advance_loop, prune_committed_missing_ranges, advance_across_accepted_losses,
  accept_pending, accept_new_gap, accept_gap,
}
use vodoge_edge.Uplink.Ack.{
  validate_missing_hint, first_unresolved, sweep, cross, apply_ack, observe_ack,
}
use vodoge_edge.Uplink.GapAck.Advance.{Advanced, advance_loop-Advanced}
use vodoge_edge.Uplink.History.{Call, appends, declares, observes, step, run, IsLater, run-IsLater}
use vodoge_edge.Uplink.Accounting.{Account, no_silent_loss}
use vodoge_edge.Uplink.WellFormed.{IsWellFormed, new_state-IsWellFormed}
use vodoge_edge.Uplink.WellFormed.Restore.{rehydrate-IsWellFormed}
use vodoge_edge.Uplink.WellFormed.Loss.{GaveUp, declare_loss_cases}
use vodoge_edge.Uplink.WellFormed.Accept.{Accepts, accept_gap-Accepts}
use vodoge_edge.Uplink.WellFormed.Observe.{Observed, observe_ack-Observed}

program : Unit {0}
unfolding is_blank new_envelope_id lookup insert remove selected_sequences ranges_for
    validate_sorted_non_overlapping append rehydrate check_evictable remove_all declare_loss
    insert_ranges advance_loop prune_committed_missing_ranges advance_across_accepted_losses
    accept_pending accept_new_gap accept_gap validate_missing_hint first_unresolved sweep cross
    apply_ack observe_ack step run
program = tt

abbrev ack_of : ℕ → List SequenceRange → UplinkAck
ack_of n rs = record { committed_through = n; missing_ranges = rs; more_missing = false }

abbrev three_appended : List Call
three_appended =
    appends (codes "a") (1 ∷ []) evictable
    ∷ appends (codes "b") (2 ∷ []) evictable
    ∷ appends (codes "c") (3 ∷ []) protected
    ∷ []

abbrev with_loss : List Call
with_loss =
    appends (codes "a") (1 ∷ []) evictable
    ∷ appends (codes "b") (2 ∷ []) evictable
    ∷ appends (codes "c") (3 ∷ []) protected
    ∷ declares (codes "g") (2 ∷ []) (codes "outbox full")
    ∷ observes (ack_of 1 [])
    ∷ []

-- The cursor stops below the lost sequence, and goes on over it once the marker is accepted.
journal_run :
    ((run new_state with_loss).committed_through ≡ 1)
    × (keys (run new_state with_loss).records ≡ 3 ∷ [])
    × ((observe_ack (run new_state with_loss) (ack_of 3 [])).1
        ≡ err (ack_crosses_unresolved_sequence 2))
    × ((accept_gap (run new_state with_loss) (codes "g")).0.committed_through ≡ 2)
unfolding program
journal_run = (refl, refl, refl, refl)

no_silent_loss_example : Account (run new_state with_loss) 2
unfolding program
no_silent_loss_example = no_silent_loss with_loss 2 (omega arith) (omega arith)

run-IsLater_example :
    IsWellFormed (run new_state with_loss) × IsLater new_state (run new_state with_loss)
run-IsLater_example = run-IsLater new_state with_loss new_state-IsWellFormed

observe_ack-Observed_example :
    Observed
      (run new_state three_appended)
      (ack_of 2 [])
      (observe_ack (run new_state three_appended) (ack_of 2 []))
observe_ack-Observed_example = observe_ack-Observed (run new_state three_appended) (ack_of 2 [])

abbrev loss_of : UplinkState → UplinkState × Result UplinkError UplinkGap
loss_of s = declare_loss s (codes "g") (2 ∷ 1 ∷ []) (codes "outbox full")

declare_loss_cases_example :
    let s = run new_state three_appended in
    ((e : UplinkError) × (loss_of s ≡ (s, err e)))
    ⊎ ((s' : UplinkState) × (gap : UplinkGap) × (loss_of s ≡ (s', ok gap))
        × GaveUp s (codes "g") (2 ∷ 1 ∷ []) s' gap)
declare_loss_cases_example =
    declare_loss_cases (run new_state three_appended) (codes "g") (2 ∷ 1 ∷ []) (codes "outbox full")

with_loss-IsWellFormed : IsWellFormed (run new_state with_loss)
with_loss-IsWellFormed = (run-IsLater new_state with_loss new_state-IsWellFormed).0

accept_gap-Accepts_example :
    Accepts (run new_state with_loss) (codes "g") (accept_gap (run new_state with_loss) (codes "g"))
accept_gap-Accepts_example =
    accept_gap-Accepts (run new_state with_loss) (codes "g") with_loss-IsWellFormed

abbrev row : UplinkRecord
row = record { sequence = 5; envelope_id = codes "e"; payload = []; retention = evictable }

abbrev stored : UplinkState
stored = record new_state {
  last_allocated = 7;
  committed_through = 4;
  records = (5, row) ∷ [];
  envelope_sequences = (codes "e", 5) ∷ [];
}

rehydrate-IsWellFormed_example : IsWellFormed stored × ◌≡◌ {A = ℕ} 4 4 × ◌≡◌ {A = ℕ} 7 7
unfolding program
rehydrate-IsWellFormed_example = rehydrate-IsWellFormed 4 7 (row ∷ []) stored (omega arith) refl

abbrev chosen : Dict ℕ (Unit {0})
chosen = (2, tt) ∷ (3, tt) ∷ (7, tt) ∷ []

advance_loop-Advanced_example :
    Advanced 1
      ((2, tt) ∷ (3, tt) ∷ (7, tt) ∷ [])
      (advance_loop 4 1 ((2, tt) ∷ (3, tt) ∷ (7, tt) ∷ []))
advance_loop-Advanced_example =
    advance_loop-Advanced 4 1 ((2, tt) ∷ (3, tt) ∷ (7, tt) ∷ []) (omega arith) (omega arith)
