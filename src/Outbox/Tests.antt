-- ===== src/Outbox/Tests.antt =====
-- Runs of the queue, and the theorems at concrete ones.
use vodoge_edge.Common.{◌≡◌, refl, inl, false, [], ◌∷◌, ok, err, arith}
use vodoge_edge.Common.Text.{Text, codes, is_blank, is_whitespace, decimal_digits}
use vodoge_edge.Common.Dict.{lookup, insert, remove}
use vodoge_edge.Uplink.Types.{
  UplinkAck, evictable, protected, new_envelope_id, new_gap_id, invalid_restored_journal,
}
use vodoge_edge.Uplink.Ranges.{selected_sequences, select, ranges_for, ranges_from}
use vodoge_edge.Uplink.Journal
use vodoge_edge.Uplink.Journal.{UplinkState, allocate, restore_records, rehydrate}
use vodoge_edge.Uplink.Loss.{remove_all, check_evictable, loss_selection, declare_loss}
use vodoge_edge.Uplink.Ack
use vodoge_edge.Uplink.Ack.{first_unresolved, sweep, cross, apply_ack, validate_missing_hint}
use vodoge_edge.Outbox.Tables.{
  sqlite, execute, has_envelope, enqueue, set_cursor, delete_sequence, delete_sequences, insert_gap,
}
use vodoge_edge.Outbox.{
  store_error, uplink_error, within_capacity, evicted, DurableOutbox, lowest_retained_seq,
  first_evictable, overflow_of, capacity_overflow, overflow_warning_due, warn_overflow, first_range,
  store_eviction, evict, evict_if_needed, store_append, append, store_ack, observe_ack, read_rows,
  opened, from_store, replay,
}
use vodoge_edge.Outbox.Restart.{Restored}
use vodoge_edge.Outbox.Calls.{Mirrored}
use vodoge_edge.Outbox.Capacity.{IsContained, append-IsContained}
use vodoge_edge.Outbox.Runs.{
  start, Reach, here, appends, observes, restart_restores, start-Mirrored, append-Mirrored,
}
use vodoge_edge.Outbox.Torn.{append_torn}
use vodoge_edge.Outbox.TornAck.{ack_torn}

program : Unit {0}
unfolding is_blank is_whitespace decimal_digits lookup insert remove new_envelope_id new_gap_id
    selected_sequences select ranges_for ranges_from Journal.append allocate restore_records
    rehydrate remove_all check_evictable loss_selection declare_loss Ack.observe_ack
    first_unresolved sweep cross apply_ack validate_missing_hint execute has_envelope enqueue
    set_cursor delete_sequence delete_sequences insert_gap lowest_retained_seq first_evictable
    overflow_of capacity_overflow overflow_warning_due warn_overflow first_range store_eviction
    evict evict_if_needed store_append append store_ack observe_ack read_rows opened from_store
    replay
program = tt

abbrev sms_kind : Text
sms_kind = codes "sms_received"

abbrev ack_one : UplinkAck
ack_one = record { committed_through = 1; missing_ranges = []; more_missing = false }

-- Room for one record: the second evicts the first.
abbrev one : DurableOutbox
one = (append (start 100 1) (codes "a") sms_kind (7 ∷ []) evictable).0

abbrev two : DurableOutbox
two = (append one (codes "b") sms_kind (8 ∷ []) protected).0

evicts_first :
    ((append one (codes "b") sms_kind (8 ∷ []) protected).1
      ≡ ok (2, evicted (record { gap_id = codes "capacity-1"; evicted_seq = 1 })))
    × (replay two ≡ (2, codes "b", 8 ∷ []) ∷ [])
unfolding program
evicts_first = (refl, refl)

one_reached : Reach (start 100 1) one
unfolding program
one_reached = appends (codes "a") sms_kind (7 ∷ []) evictable here refl refl

acked_reached : Reach (start 100 1) (observe_ack one ack_one).0
unfolding program
acked_reached = observes ack_one one_reached refl

restart_restores_example :
    (o' : DurableOutbox) × (from_store (observe_ack one ack_one).0.store 5 ≡ ok o')
    × (o'.store ≡ (observe_ack one ack_one).0.store)
    × Restored
        (observe_ack one ack_one).0.state.committed_through
        (observe_ack one ack_one).0.state.last_allocated
        (observe_ack one ack_one).0.state.records
        o'.state
restart_restores_example = restart_restores 100 1 {o = (observe_ack one ack_one).0} 5 acked_reached

append-IsContained_example : IsContained one
append-IsContained_example =
    append-IsContained (start 100 1) (codes "a") sms_kind (7 ∷ []) evictable (1, within_capacity)
      (start-Mirrored 100 1) (inl (omega arith)) (unfold program in refl)

append_torn_example :
    ((append (start 1 5) (codes "a") sms_kind [] protected).1 ≡ err (store_error sqlite))
    × (from_store (append (start 1 5) (codes "a") sms_kind [] protected).0.store 5
        ≡ err (uplink_error invalid_restored_journal))
append_torn_example =
    append_torn (start 1 5) (codes "a") sms_kind [] protected 5 (start-Mirrored 1 5)
      (unfold program in refl) (unfold program in refl) (omega arith) refl

-- One record is on the queue, and one statement is left.
abbrev before : DurableOutbox
before = (append (start 3 5) (codes "a") sms_kind (7 ∷ []) protected).0

before-Mirrored : Mirrored before
before-Mirrored =
    append-Mirrored (start 3 5) (codes "a") sms_kind (7 ∷ []) protected (unfold program in refl)
      (start-Mirrored 3 5) (unfold program in refl)

ack_torn_example :
    ((observe_ack before ack_one).1 ≡ err (store_error sqlite))
    × (o' : DurableOutbox) × (from_store (observe_ack before ack_one).0.store 5 ≡ ok o')
    × (o'.state.committed_through ≡ before.state.committed_through)
    × ((later : UplinkAck)
        → (Ack.observe_ack o'.state later).0.committed_through ≡ before.state.committed_through)
ack_torn_example =
    ack_torn before ack_one (Ack.observe_ack before.state ack_one).0 (1 ∷ []) 5 before-Mirrored
      (unfold program in refl) (unfold program in refl)
