-- ===== src/Outbox.antt =====
-- The durable queue, edge-store/src/outbox.rs: `DurableOutbox`, the journal of Uplink with its rows in the database.
-- A method returns the queue that it leaves beside its result, also where it fails. What goes to stderr is not
-- modelled, only whether it is due.
pub mod Tables
pub mod Rows
pub mod Restart
pub mod Mirror
pub mod Capacity
pub mod Calls
pub mod Runs
pub mod Torn
pub mod TornAck
pub mod Tests
use vodoge_edge.Common.{
  ℕ, ◌+◌, ◌-◌, min, max, Bool, true, false, Option, none, some, List, [], ◌∷◌, ◌++◌, map, Result,
  ok, err, leb, ltb, if◌then◌else◌, length,
}
use vodoge_edge.Common.Text.{Text, codes, decimal_digits}
use vodoge_edge.Common.Keys.{nat_key, text_key}
use vodoge_edge.Common.Dict.{Dict, keys, values}
use vodoge_edge.Uplink.Types.{
  EnvelopeId, SequenceRange, RetentionClass, evictable, protected, UplinkRecord, UplinkGap,
  UplinkAck, AckOutcome, UplinkError, new_envelope_id, new_gap_id, u64_max,
}
use vodoge_edge.Uplink.Journal
use vodoge_edge.Uplink.Journal.{UplinkState, rehydrate}
use vodoge_edge.Uplink.Loss.{declare_loss}
use vodoge_edge.Uplink.Ack
use vodoge_edge.Outbox.Tables.{
  OutboxRow, Store, StoreError, enqueue, set_cursor, delete_sequences, insert_gap, load_outbox,
}

pub data QueueError : Type 0 where
  store_error : StoreError → QueueError
  uplink_error : UplinkError → QueueError

pub record CapacityAlert : Type 0 where
  pub gap_id : Text
  pub evicted_seq : ℕ

pub record CapacityOverflow : Type 0 where
  pub retained : ℕ
  pub max_records : ℕ
  pub oldest_seq : Option ℕ

pub data CapacityOutcome : Type 0 where
  within_capacity : CapacityOutcome
  evicted : CapacityAlert → CapacityOutcome
  overflowing : CapacityOverflow → CapacityOutcome

pub record DurableOutbox : Type 0 where
  pub store : Store
  pub state : UplinkState
  pub max_records : ℕ
  pub overflow_warned_at : Option ℕ

-- `OVERFLOW_WARN_STRIDE`
abbrev overflow_warn_stride : ℕ
overflow_warn_stride = 1000

abbrev pub retained_count : DurableOutbox → ℕ
retained_count o = length o.state.records

unfoldable pub lowest_retained_seq : UplinkState → Option ℕ
lowest_retained_seq s = elim s.records [ [] ↦ none | e ∷ records ↦ some e.1.sequence ]

-- The search of `oldest_evictable`.
unfoldable pub first_evictable : Dict ℕ UplinkRecord → Option ℕ
first_evictable [] = none
first_evictable ((n, r) ∷ records) = elim r.retention [
  | evictable ↦ some r.sequence
  | protected ↦ first_evictable records
]

unfoldable pub overflow_of : DurableOutbox → CapacityOverflow
overflow_of o = record {
  retained = retained_count o;
  max_records = o.max_records;
  oldest_seq = lowest_retained_seq o.state;
}

unfoldable pub capacity_overflow : DurableOutbox → Option CapacityOverflow
capacity_overflow o =
    if leb (retained_count o) o.max_records
    then none
    else elim (first_evictable o.state.records) [ some n ↦ none | none ↦ some (overflow_of o) ]

unfoldable pub overflow_warning_due : ℕ → Option ℕ → Bool
overflow_warning_due retained none = true
overflow_warning_due retained (some previous) =
    leb (min (previous + overflow_warn_stride) u64_max) retained

-- `overflow_warning`: the mark moves when a warning is due.
unfoldable pub warn_overflow : DurableOutbox → CapacityOverflow → DurableOutbox
warn_overflow o overflow =
    if overflow_warning_due overflow.retained o.overflow_warned_at
    then record o { overflow_warned_at = some overflow.retained }
    else o

-- `?` on a statement.
abbrev pub then_store :
    {A : Type 0}
    → DurableOutbox
    → Store × Result StoreError (Unit {0})
    → (DurableOutbox → DurableOutbox × Result QueueError A)
    → DurableOutbox × Result QueueError A
then_store o (db, err e) next = (record o { store = db }, err (store_error e))
then_store o (db, ok u) next = next (record o { store = db })

abbrev pub capacity_gap_id : ℕ → Text
capacity_gap_id sequence = codes "capacity-" ++ decimal_digits 20 sequence []

-- `gap.ranges()[0]`, printed; a marker has a range.
unfoldable pub first_range : List SequenceRange → Text
first_range [] = []
first_range (r ∷ ranges) = decimal_digits 20 r.start [] ++ codes "-" ++ decimal_digits 20 r.end []

-- The statements of an eviction.
unfoldable pub store_eviction :
    DurableOutbox → UplinkGap → ℕ → DurableOutbox × Result QueueError CapacityOutcome
store_eviction o gap sequence = then_store o (delete_sequences o.store (sequence ∷ [])) λ o1.
    then_store o1 (insert_gap o1.store gap.gap_id (first_range gap.ranges) gap.reason) λ o2.
      then_store o2 (set_cursor o2.store o2.state.committed_through o2.state.last_allocated) λ o3. (
        record o3 { overflow_warned_at = none },
        ok (evicted (record { gap_id = gap.gap_id; evicted_seq = sequence })),
      )

-- `?` on `declare_loss`.
abbrev pub evict_declared :
    DurableOutbox
    → ℕ
    → UplinkState × Result UplinkError UplinkGap
    → DurableOutbox × Result QueueError CapacityOutcome
evict_declared o sequence (state, err e) = (record o { state = state }, err (uplink_error e))
evict_declared o sequence (state, ok gap) = store_eviction (record o { state = state }) gap sequence

unfoldable pub evict : DurableOutbox → ℕ → DurableOutbox × Result QueueError CapacityOutcome
evict o sequence = elim (new_gap_id (capacity_gap_id sequence)) [
  | err e ↦ (o, err (uplink_error e))
  | ok gap_id ↦
      evict_declared o sequence
        (declare_loss o.state gap_id (sequence ∷ []) (codes "queue_capacity"))
]

unfoldable pub evict_if_needed : DurableOutbox → DurableOutbox × Result QueueError CapacityOutcome
evict_if_needed o =
    if leb (retained_count o) o.max_records
    then (record o { overflow_warned_at = none }, ok within_capacity)
    else elim (first_evictable o.state.records) [
      | none ↦ (warn_overflow o (overflow_of o), ok (overflowing (overflow_of o)))
      | some sequence ↦ evict o sequence
    ]

abbrev is_protected : RetentionClass → Bool
is_protected protected = true
is_protected evictable = false

-- What `append` returns of the eviction.
abbrev pub with_sequence :
    ℕ
    → DurableOutbox × Result QueueError CapacityOutcome
    → DurableOutbox × Result QueueError (ℕ × CapacityOutcome)
with_sequence n (o, ok outcome) = (o, ok (n, outcome))
with_sequence n (o, err e) = (o, err e)

abbrev pub row_of : ℕ → EnvelopeId → Text → List ℕ → RetentionClass → OutboxRow
row_of seq id kind payload retention = record {
  seq = seq;
  envelope_id = id;
  kind = kind;
  payload = payload;
  protected = is_protected retention;
}

-- What `append` does with the journal `next` that has the new record.
unfoldable pub store_append :
    DurableOutbox
    → UplinkState
    → OutboxRow
    → DurableOutbox × Result QueueError (ℕ × CapacityOutcome)
store_append o next row = then_store o (enqueue o.store row) λ o1.
    then_store o1 (set_cursor o1.store next.committed_through next.last_allocated)
      λ o2. with_sequence row.seq (evict_if_needed (record o2 { state = next }))

-- `?` on the `append` of the journal, which works on a copy.
abbrev pub append_allocated :
    DurableOutbox
    → EnvelopeId
    → Text
    → List ℕ
    → RetentionClass
    → UplinkState × Result UplinkError ℕ
    → DurableOutbox × Result QueueError (ℕ × CapacityOutcome)
append_allocated o id kind payload retention (next, err e) = (o, err (uplink_error e))
append_allocated o id kind payload retention (next, ok sequence) =
    store_append o next (row_of sequence id kind payload retention)

unfoldable pub append :
    DurableOutbox
    → EnvelopeId
    → Text
    → List ℕ
    → RetentionClass
    → DurableOutbox × Result QueueError (ℕ × CapacityOutcome)
append o id kind payload retention =
    append_allocated o id kind payload retention (Journal.append o.state id payload retention)

-- The statements of an acknowledgement; without a sequence to delete there is none but the cursor's.
unfoldable pub store_ack : DurableOutbox → List ℕ → DurableOutbox × Result QueueError (List ℕ)
store_ack o deleted = then_store o (delete_sequences o.store deleted) λ o1.
    then_store o1 (set_cursor o1.store o1.state.committed_through o1.state.last_allocated)
      λ o2. (o2, ok deleted)

-- `?` on the `observe_ack` of the journal.
abbrev pub ack_observed :
    DurableOutbox
    → UplinkState × Result UplinkError AckOutcome
    → DurableOutbox × Result QueueError (List ℕ)
ack_observed o (state, err e) = (record o { state = state }, err (uplink_error e))
ack_observed o (state, ok outcome) =
    store_ack (record o { state = state }) outcome.deleted_sequences

unfoldable pub observe_ack : DurableOutbox → UplinkAck → DurableOutbox × Result QueueError (List ℕ)
observe_ack o ack = ack_observed o (Ack.observe_ack o.state ack)

-- A row as `from_store` reads it.
abbrev pub record_of : OutboxRow → UplinkRecord
record_of row = record {
  sequence = row.seq;
  envelope_id = row.envelope_id;
  payload = row.payload;
  retention = if row.protected then protected else evictable;
}

-- The loop of `from_store`.
unfoldable pub read_rows : List OutboxRow → Result UplinkError (List UplinkRecord)
read_rows [] = ok []
read_rows (row ∷ rows) = elim (new_envelope_id row.envelope_id) [
  | err e ↦ err e
  | ok id ↦ elim (read_rows rows) [ err e ↦ err e | ok records ↦ ok (record_of row ∷ records) ]
]

unfoldable pub opened : Store → UplinkState → ℕ → DurableOutbox
opened db state limit =
    let o : DurableOutbox = record {
      store = db;
      state = state;
      max_records = max limit 1;
      overflow_warned_at = none;
    } in
    elim (capacity_overflow o) [ none ↦ o | some overflow ↦ warn_overflow o overflow ]

unfoldable pub from_store : Store → ℕ → Result QueueError DurableOutbox
from_store db limit = elim (read_rows (load_outbox db)) [
  | err e ↦ err (uplink_error e)
  | ok records ↦ elim (rehydrate db.committed_through db.last_allocated records) [
    | err e ↦ err (uplink_error e)
    | ok state ↦ ok (opened db state limit)
  ]
]

unfoldable pub replay : DurableOutbox → List (ℕ × Text × List ℕ)
replay o = map (λ e. (e.1.sequence, e.1.envelope_id, e.1.payload)) o.state.records

abbrev pub pending_gap_ids : DurableOutbox → List Text
pending_gap_ids o = keys o.state.pending_gaps
