-- ===== src/Outbox/Runs.antt =====
-- Runs of the queue, restarts among the calls: what a restart restores.
use vodoge_edge.Common.{
  ℕ, ◌+◌, ◌≡◌, refl, sym, ap, ◌∙◌, inl, inr, false, none, List, [], leb, arith, Bool-cases,
  Option-cases, Result, ok, err,
}
use mathlib.Core.Path.{subst}
use vodoge_edge.Common.Text.{Text, codes, is_blank}
use vodoge_edge.Common.Keys.{nat_key, text_key}
use vodoge_edge.Common.Dict.{insert, insert-IsSorted}
use vodoge_edge.Uplink.Types.{
  EnvelopeId, UplinkAck, RetentionClass, evictable, protected, new_gap_id,
}
use vodoge_edge.Uplink.Journal.{UplinkState, new_state}
use vodoge_edge.Uplink.WellFormed.{IsWellFormed, new_state-IsWellFormed}
use vodoge_edge.Uplink.WellFormed.Append.{
  entry, appended, append-Appends, append-IsWellFormed, known, exhausted, fresh,
}
use vodoge_edge.Outbox.Tables.{Store}
use vodoge_edge.Outbox.{
  QueueError, store_error, uplink_error, CapacityOutcome, DurableOutbox, record_of, row_of,
  first_evictable, warn_overflow, overflow_of, evict, evict_if_needed, store_append, append,
  observe_ack, retained_count, capacity_gap_id, with_sequence, from_store,
}
use vodoge_edge.Outbox.Rows.{records_of-insert}
use vodoge_edge.Outbox.Restart.{Restored}
use vodoge_edge.Outbox.Mirror.{Mirrors, IsNamed-insert, restart}
use vodoge_edge.Outbox.Calls.{
  is_stopped, Mirrored, moved, enqueued, enqueue_cases, set_cursor_cases, evict_declared-Mirrored,
  observe_ack-Mirrored,
}

warn-Mirrored : (o : DurableOutbox) → Mirrored o → Mirrored (warn_overflow o (overflow_of o))
unfolding warn_overflow
warn-Mirrored o m = ground arith

evict-Mirrored :
    (o : DurableOutbox) (n : ℕ)
    → Mirrored o
    → is_stopped (evict o n).1 ≡ false
    → Mirrored (evict o n).0
unfolding evict new_gap_id
evict-Mirrored o n m = elim (Bool-cases (is_blank (capacity_gap_id n))) [
  | inl h ↦ rw (h, evict) (λ live. m)
  | inr h ↦
      rw (h, evict)
        (evict_declared-Mirrored o (capacity_gap_id n) n (codes "queue_capacity") _ m refl)
]

evict_if_needed-Mirrored :
    (o : DurableOutbox)
    → Mirrored o
    → is_stopped (evict_if_needed o).1 ≡ false
    → Mirrored (evict_if_needed o).0
unfolding evict_if_needed
evict_if_needed-Mirrored o m = elim (Bool-cases (leb (retained_count o) o.max_records)) [
  | inl h ↦ rw h (λ live. m)
  | inr h ↦ elim (Option-cases (first_evictable o.state.records)) [
    | inl e ↦ rw (h, e, evict_if_needed) (λ live. warn-Mirrored o m)
    | inr (n, e) ↦ rw (h, e, evict_if_needed) (evict-Mirrored o n m)
  ]
]

record_of-row_of :
    (s : UplinkState) (id : EnvelopeId) (kind : Text) (payload : List ℕ)
    (retention : RetentionClass)
    → record_of (row_of (s.last_allocated + 1) id kind payload retention)
      ≡ entry s id payload retention
record_of-row_of s id kind payload evictable = refl
record_of-row_of s id kind payload protected = refl

-- The journal with a new record, and the database with its row.
appended-Mirrors :
    (db : Store) (s : UplinkState) (id : EnvelopeId) (kind : Text) (payload : List ℕ)
    (retention : RetentionClass)
    → is_blank id ≡ false
    → Mirrors db s
    → IsWellFormed (appended s id payload retention)
    → Mirrors
        (moved
          (enqueued db (row_of (s.last_allocated + 1) id kind payload retention))
          s.committed_through
          (s.last_allocated + 1))
        (appended s id payload retention)
appended-Mirrors db s id kind payload retention named m w =
    let n = s.last_allocated + 1 in
    let row = row_of n id kind payload retention in
    record {
      valid = w;
      rows =
          ap (λ r. insert n r s.records) (sym (record_of-row_of s id kind payload retention))
          ∙ ap (insert n (record_of row)) m.rows
          ∙ sym (records_of-insert n row db.outbox);
      cursor = refl;
      allocated = refl;
      sorted = insert-IsSorted n row db.outbox m.sorted;
      named = IsNamed-insert n row db.outbox named m.named;
    }

with_sequence-Mirrored :
    (n : ℕ) (p : DurableOutbox × Result QueueError CapacityOutcome)
    → (is_stopped p.1 ≡ false → Mirrored p.0)
    → is_stopped (with_sequence n p).1 ≡ false
    → Mirrored (with_sequence n p).0
with_sequence-Mirrored n (o, ok a) f = f
with_sequence-Mirrored n (o, err (store_error e)) f = f
with_sequence-Mirrored n (o, err (uplink_error e)) f = f

-- A new envelope leaves the database the mirror of the journal if no statement fails, whether one is evicted or not.
pub append-Mirrored :
    (o : DurableOutbox) (id : EnvelopeId) (kind : Text) (payload : List ℕ)
    (retention : RetentionClass)
    → is_blank id ≡ false
    → Mirrored o
    → is_stopped (append o id kind payload retention).1 ≡ false
    → Mirrored (append o id kind payload retention).0
unfolding append store_append
append-Mirrored o id kind payload retention named m =
    let s = o.state in
    let n = s.last_allocated + 1 in
    let row = row_of n id kind payload retention in
    elim (append-Appends s id payload retention) [
      | known q e h ↦ rw h (λ live. m)
      | exhausted e full h ↦ rw h (λ live. m)
      | fresh e room h ↦
          let w =
            subst IsWellFormed (ap (λ p. p.0) h)
              (append-IsWellFormed s id payload retention m.valid) in
          elim (enqueue_cases o.store row) [
            | inr f ↦ rw (h, f) (λ live. absurd (cc))
            | inl f ↦ elim (set_cursor_cases (enqueued o.store row) s.committed_through n) [
              | inr g ↦ rw (h, f, g) (λ live. absurd (cc))
              | inl g ↦
                  rw (h, f, g)
                    (with_sequence-Mirrored n _ (
                      evict_if_needed-Mirrored _
                        (appended-Mirrors o.store s id kind payload retention named m w)))
            ]
          ]
    ]

-- A queue on an empty database.
abbrev pub empty_store : ℕ → Store
empty_store statements = record {
  outbox = [];
  committed_through = 0;
  last_allocated = 0;
  gaps = [];
  statements_left = statements;
}

abbrev pub start : ℕ → ℕ → DurableOutbox
start statements limit = record {
  store = empty_store statements;
  state = new_state;
  max_records = limit;
  overflow_warned_at = none;
}

-- What calls reach in which no statement fails, restarts of the process among them.
pub data Reach (o : DurableOutbox) : DurableOutbox → Type 0 where
  here : Reach o o
  appends :
      {p : DurableOutbox} (id : EnvelopeId) (kind : Text) (payload : List ℕ)
      (retention : RetentionClass)
      → Reach o p
      → is_blank id ≡ false
      → is_stopped (append p id kind payload retention).1 ≡ false
      → Reach o (append p id kind payload retention).0
  observes :
      {p : DurableOutbox} (ack : UplinkAck)
      → Reach o p
      → is_stopped (observe_ack p ack).1 ≡ false
      → Reach o (observe_ack p ack).0
  restarts :
      (p q : DurableOutbox) (limit : ℕ) → Reach o p → from_store p.store limit ≡ ok q → Reach o q

one_result : {E A : Type 0} (r : Result E A) (a b : A) → r ≡ ok a → r ≡ ok b → a ≡ b
one_result r a b e f = cc

restart-Mirrored :
    (p q : DurableOutbox) (limit : ℕ) → Mirrored p → from_store p.store limit ≡ ok q → Mirrored q
restart-Mirrored p q limit m e =
    let (o, f, same, r) = restart p.store p.state limit m in
    let is_q : o ≡ q = one_result (from_store p.store limit) o q f e in
    subst Mirrored is_q (
      subst (λ db. Mirrors db o.state) (sym same)
        (record {
          valid = r.valid m.valid.bounded;
          rows = r.rows ∙ m.rows;
          cursor = m.cursor ∙ sym r.cursor;
          allocated = m.allocated ∙ sym r.allocated;
          sorted = m.sorted;
          named = m.named;
        }))

Reach-Mirrored : {o p : DurableOutbox} → Mirrored o → Reach o p → Mirrored p
Reach-Mirrored m here = m
Reach-Mirrored m (appends id kind payload retention r named live) =
    append-Mirrored _ id kind payload retention named (Reach-Mirrored m r) live
Reach-Mirrored m (observes ack r live) = observe_ack-Mirrored _ ack (Reach-Mirrored m r) live
Reach-Mirrored m (restarts p q limit r e) = restart-Mirrored p q limit (Reach-Mirrored m r) e

pub start-Mirrored : (statements limit : ℕ) → Mirrored (start statements limit)
start-Mirrored statements limit = record {
  valid = new_state-IsWellFormed;
  rows = refl;
  cursor = refl;
  allocated = refl;
  sorted = tt;
  named = tt;
}

-- After any calls on an empty database in which no statement failed, evictions and restarts among them, a restart
-- succeeds, with any limit, and has the cursor, the last allocated sequence and every record of the journal that ran.
pub restart_restores :
    (statements limit : ℕ) {o : DurableOutbox} (limit' : ℕ)
    → Reach (start statements limit) o
    → (o' : DurableOutbox) × (from_store o.store limit' ≡ ok o')
      × (o'.store ≡ o.store)
      × Restored o.state.committed_through o.state.last_allocated o.state.records o'.state
restart_restores statements limit {o} limit' r =
    restart o.store o.state limit' (Reach-Mirrored (start-Mirrored statements limit) r)
