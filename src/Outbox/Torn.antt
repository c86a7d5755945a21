-- ===== src/Outbox/Torn.antt =====
-- What a failure between two statements of one call leaves.
use vodoge_edge.Common.{
  ℕ, ◌+◌, ◌<◌, ◌≡◌, refl, Bool, true, false, ◌||◌, none, map, List, [], ◌∷◌, All, ltb, arith, ok,
  err,
}
use vodoge_edge.Common.Text.{Text, is_blank}
use vodoge_edge.Common.Keys.{nat_key, text_key, text_eq_iff}
use vodoge_edge.Common.Dict.{Dict, values, lookup, contains, insert}
use vodoge_edge.Uplink.Types.{
  EnvelopeId, UplinkRecord, RetentionClass, invalid_restored_journal, u64_max,
}
use vodoge_edge.Uplink.Journal
use vodoge_edge.Uplink.Journal.{UplinkState, restore_records, rehydrate}
use vodoge_edge.Uplink.WellFormed.Append.{appended, append-Appends, known, exhausted, fresh}
use vodoge_edge.Uplink.WellFormed.Restore.{restored}
use vodoge_edge.Outbox.Tables.{
  OutboxRow, Store, sqlite, execute_works, execute_stopped, enqueue, set_cursor, has_envelope,
}
use vodoge_edge.Outbox.{
  store_error, uplink_error, DurableOutbox, record_of, row_of, store_append, append, from_store,
}
use vodoge_edge.Outbox.Restart.{IsNamed, IsStored, read_rows-values, blank}
use vodoge_edge.Outbox.Mirror.{Mirrors, IsNamed-insert, stored}
use vodoge_edge.Outbox.Calls.{Mirrored, enqueued}

append_fresh :
    (s : UplinkState) (id : EnvelopeId) (payload : List ℕ) (retention : RetentionClass)
    → lookup id s.envelope_sequences ≡ none
    → s.last_allocated < u64_max
    → Journal.append s id payload retention
      ≡ (appended s id payload retention, ok (s.last_allocated + 1))
append_fresh s id payload retention new room = elim (append-Appends s id payload retention) [
  | known n e h ↦ absurd (cc)
  | exhausted e full h ↦ absurd (omega arith)
  | fresh e r h ↦ h
]

-- Some record has a sequence above `last`.
abbrev any_beyond : ℕ → List UplinkRecord → Bool
any_beyond last [] = false
any_beyond last (r ∷ rs) = ltb last r.sequence || any_beyond last rs

-- Such a record is refused wherever it stands.
restore_rejects :
    (committed last : ℕ) (s : UplinkState) (rs : List UplinkRecord)
    → any_beyond last rs ≡ true
    → restore_records committed last s rs ≡ err invalid_restored_journal
unfolding restore_records
restore_rejects committed last s [] h = cc
restore_rejects committed last s (r ∷ rs) h =
    ground (arith, restore_rejects committed last (restored s r) rs)

any_beyond-insert :
    (last n : ℕ) (row : OutboxRow) (m : Dict ℕ OutboxRow)
    → last < row.seq
    → any_beyond last (map record_of (values (insert n row m))) ≡ true
unfolding insert
any_beyond-insert last n row [] h = ground arith
any_beyond-insert last n row ((k, r) ∷ m) h = ground (arith, any_beyond-insert last n row m)

from_store-rejects :
    (db : Store) (limit : ℕ)
    → All IsNamed db.outbox
    → any_beyond db.last_allocated (map record_of (values db.outbox)) ≡ true
    → from_store db limit ≡ err (uplink_error invalid_restored_journal)
unfolding from_store rehydrate
from_store-rejects db limit named beyond = ground (
  arith,
  read_rows-values db.outbox named,
  restore_rejects db.committed_through db.last_allocated
      (blank db.committed_through db.last_allocated) (map record_of (values db.outbox)) beyond,
)

not_contains-stored :
    (committed last n : ℕ) (ids : Dict Text ℕ) (m : Dict ℕ OutboxRow)
    → last < n
    → All (IsStored committed last ids) m
    → contains n m ≡ false
unfolding lookup
not_contains-stored committed last n ids [] h a = refl
not_contains-stored committed last n ids ((k, r) ∷ m) h a =
    ground (arith, not_contains-stored committed last n ids m h a.1)

not_has_envelope :
    (committed last : ℕ) (ids : Dict Text ℕ) (id : Text) (m : Dict ℕ OutboxRow)
    → lookup id ids ≡ none
    → All (IsStored committed last ids) m
    → has_envelope id m ≡ false
unfolding has_envelope
not_has_envelope committed last ids id [] h a = refl
not_has_envelope committed last ids id ((k, r) ∷ m) h a =
    ground (arith, text_eq_iff r.envelope_id id, not_has_envelope committed last ids id m h a.1)

-- While the database works, a fresh envelope is stored.
enqueue_works :
    (db : Store) (s : UplinkState) (row : OutboxRow)
    → Mirrors db s
    → lookup row.envelope_id s.envelope_sequences ≡ none
    → row.seq ≡ s.last_allocated + 1
    → 0 < db.statements_left
    → enqueue db row ≡ (enqueued db row, ok tt)
unfolding enqueue
enqueue_works db s row m new own live =
    let rows = stored m in
    rw
      (
        not_contains-stored s.committed_through s.last_allocated row.seq s.envelope_sequences
            db.outbox (omega arith) rows,
        not_has_envelope s.committed_through s.last_allocated s.envelope_sequences row.envelope_id
            db.outbox new rows,
      )
      (execute_works db (λ (d : Store). record d { outbox = insert row.seq row d.outbox }) live)

pub set_cursor_stopped :
    (db : Store) (c l : ℕ) → db.statements_left ≡ 0 → set_cursor db c l ≡ (db, err sqlite)
unfolding set_cursor
set_cursor_stopped db c l h = execute_stopped db _ h

-- The row of a new envelope is written, and the machine stops before the cursor is: the database is then refused by
-- every restart.
pub append_torn :
    (o : DurableOutbox) (id : EnvelopeId) (kind : Text) (payload : List ℕ)
    (retention : RetentionClass) (limit : ℕ)
    → Mirrored o
    → is_blank id ≡ false
    → lookup id o.state.envelope_sequences ≡ none
    → o.state.last_allocated < u64_max
    → o.store.statements_left ≡ 1
    → ((append o id kind payload retention).1 ≡ err (store_error sqlite))
      × (from_store (append o id kind payload retention).0.store limit
          ≡ err (uplink_error invalid_restored_journal))
unfolding append store_append
append_torn o id kind payload retention limit m named new room one =
    let s = o.state in
    let n = s.last_allocated + 1 in
    let row = row_of n id kind payload retention in
    let done = enqueue_works o.store s row m new refl (omega arith) in
    let stop = set_cursor_stopped (enqueued o.store row) s.committed_through n (omega arith) in
    rw (append_fresh s id payload retention new room, done, stop)
      (
        refl,
        from_store-rejects (enqueued o.store row) limit
            (IsNamed-insert n row o.store.outbox named m.named)
            (any_beyond-insert o.store.last_allocated n row o.store.outbox
              (omega (arith, m.allocated))),
      )
