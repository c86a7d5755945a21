-- ===== src/Outbox/Calls.antt =====
-- The calls of the queue keep the mirror, unless a statement fails.
use vodoge_edge.Common.{
  ℕ, ◌-◌, length, ◌≡◌, refl, sym, ap, ◌⊎◌, inl, inr, Bool, true, false, List, [], ◌∷◌, ltb, ltb→lt,
  not-ltb→le, arith, Bool-cases, Result, ok, err,
}
use mathlib.Core.Path.{subst}
use vodoge_edge.Common.Text.{Text}
use vodoge_edge.Common.Keys.{nat_key, text_key}
use vodoge_edge.Common.Dict.{lookup, contains, insert, remove}
use vodoge_edge.Uplink.Types.{GapId, UplinkGap, UplinkError, UplinkAck, AckOutcome}
use vodoge_edge.Uplink.Ranges.{selected_sequences, select}
use vodoge_edge.Uplink.Journal.{UplinkState}
use vodoge_edge.Uplink.Loss.{remove_all, loss_selection, declare_loss}
use vodoge_edge.Uplink.Ack
use vodoge_edge.Uplink.WellFormed.{IsWellFormed}
use vodoge_edge.Uplink.WellFormed.Observe.{observe_ack-IsWellFormed}
use vodoge_edge.Uplink.WellFormed.Loss.{declare_loss-IsWellFormed}
use vodoge_edge.Outbox.Tables.{
  OutboxRow, GapRow, Store, sqlite, execute, execute_works, execute_stopped, enqueue, set_cursor,
  delete_sequences, insert_gap,
}
use vodoge_edge.Outbox.{
  QueueError, store_error, uplink_error, DurableOutbox, store_eviction, evict_declared,
  ack_observed, store_ack, observe_ack, first_range,
}
use vodoge_edge.Outbox.Rows.{deleted, delete_enough, delete_short}
use vodoge_edge.Outbox.Mirror.{Mirrors, removed-Mirrors, observe_ack-removes, observe_ack-refuses}

-- The result of a call in which a statement failed.
abbrev pub is_stopped : {A : Type 0} → Result QueueError A → Bool
is_stopped (ok a) = false
is_stopped (err (store_error e)) = true
is_stopped (err (uplink_error e)) = false

abbrev pub Mirrored : DurableOutbox → Type 0
Mirrored o = Mirrors o.store o.state

-- A statement works or changes nothing.
pub execute_cases :
    (db : Store) (change : Store → Store)
    → (execute db change ≡ (record (change db) { statements_left = db.statements_left - 1 }, ok tt))
      ⊎ (execute db change ≡ (db, err sqlite))
execute_cases db change = elim (Bool-cases (ltb 0 db.statements_left)) [
  | inl h ↦ inl (execute_works db change (ltb→lt _ _ h))
  | inr h ↦ inr (execute_stopped db change (ground arith))
]

abbrev pub moved : Store → ℕ → ℕ → Store
moved db c l = record db {
  committed_through = c;
  last_allocated = l;
  statements_left = db.statements_left - 1;
}

pub set_cursor_cases :
    (db : Store) (c l : ℕ)
    → (set_cursor db c l ≡ (moved db c l, ok tt)) ⊎ (set_cursor db c l ≡ (db, err sqlite))
unfolding set_cursor
set_cursor_cases db c l = execute_cases db _

abbrev pub enqueued : Store → OutboxRow → Store
enqueued db row = record db {
  outbox = insert row.seq row db.outbox;
  statements_left = db.statements_left - 1;
}

pub enqueue_cases :
    (db : Store) (row : OutboxRow)
    → (enqueue db row ≡ (enqueued db row, ok tt)) ⊎ (enqueue db row ≡ (db, err sqlite))
unfolding enqueue
enqueue_cases db row =
    ground
      (arith, execute_cases db (λ (d : Store). record d { outbox = insert row.seq row d.outbox }))

insert_gap_cases :
    (db : Store) (g ranges reason : Text)
    → ((db' : Store) × (insert_gap db g ranges reason ≡ (db', ok tt)) × (db'.outbox ≡ db.outbox))
      ⊎ (insert_gap db g ranges reason ≡ (db, err sqlite))
unfolding insert_gap
insert_gap_cases db g ranges reason =
    let row : GapRow = record { ranges = ranges; reason = reason; accepted = false } in
    let change : Store → Store = λ d. record d { gaps = insert g row d.gaps } in
    elim (Bool-cases (contains g db.gaps)) [
      | inl h ↦ inr (rw (h, insert_gap) refl)
      | inr h ↦ elim (execute_cases db change) [
        | inl e ↦ inl (
          record (change db) { statements_left = db.statements_left - 1 },
          rw (h, insert_gap) e,
          refl,
        )
        | inr e ↦ inr (rw (h, insert_gap) e)
      ]
    ]

delete_cases :
    (ns : List ℕ) (db : Store)
    → (delete_sequences db ns ≡ (deleted ns db, ok tt))
      ⊎ ((db' : Store) × (delete_sequences db ns ≡ (db', err sqlite)))
delete_cases ns db = elim (Bool-cases (ltb db.statements_left (length ns))) [
  | inl h ↦ inr (delete_short ns db (ltb→lt _ _ h))
  | inr h ↦ inl (delete_enough ns db (not-ltb→le _ _ h))
]

-- An acknowledgement that no failed statement stops leaves the database the mirror of the journal.
pub store_ack-Mirrored :
    (o : DurableOutbox) (s : UplinkState) (ns : List ℕ)
    → Mirrors o.store s
    → IsWellFormed o.state
    → o.state.records ≡ remove_all ns s.records
    → is_stopped (store_ack o ns).1 ≡ false
    → Mirrored (store_ack o ns).0
unfolding store_ack
store_ack-Mirrored o s ns m w r = elim (delete_cases ns o.store) [
  | inr (db', e) ↦ rw e (λ live. absurd (cc))
  | inl e ↦
      elim (set_cursor_cases (deleted ns o.store) o.state.committed_through
        o.state.last_allocated) [
          | inr f ↦ rw (e, f) (λ live. absurd (cc))
          | inl f ↦ rw (e, f) (λ live. removed-Mirrors o.store _ s o.state ns m w r refl refl refl)
        ]
]

ack_observed-Mirrored :
    (o : DurableOutbox) (ack : UplinkAck) (p : UplinkState × Result UplinkError AckOutcome)
    → Mirrored o
    → Ack.observe_ack o.state ack ≡ p
    → is_stopped (ack_observed o p).1 ≡ false
    → Mirrored (ack_observed o p).0
ack_observed-Mirrored o ack (s', err e) m h =
    λ live. subst (Mirrors o.store) (sym (observe_ack-refuses o.state s' ack e h)) m
ack_observed-Mirrored o ack (s', ok out) m h =
    store_ack-Mirrored (record o { state = s' }) o.state out.deleted_sequences m
      (subst IsWellFormed (ap (λ p. p.0) h) (observe_ack-IsWellFormed o.state ack m.valid))
      (observe_ack-removes o.state s' ack out h)

-- An acknowledgement, refused or not, leaves the database the mirror of the journal if no statement fails.
pub observe_ack-Mirrored :
    (o : DurableOutbox) (ack : UplinkAck)
    → Mirrored o
    → is_stopped (observe_ack o ack).1 ≡ false
    → Mirrored (observe_ack o ack).0
unfolding observe_ack
observe_ack-Mirrored o ack m = ack_observed-Mirrored o ack (Ack.observe_ack o.state ack) m refl

-- One sequence is given up.
pub declare_loss-one :
    (s s' : UplinkState) (g : GapId) (n : ℕ) (reason : Text) (gap : UplinkGap)
    → declare_loss s g (n ∷ []) reason ≡ (s', ok gap)
    → (s'.records ≡ remove n s.records)
      × (s'.committed_through ≡ s.committed_through)
      × (s'.last_allocated ≡ s.last_allocated)
unfolding declare_loss loss_selection selected_sequences select remove_all lookup insert
declare_loss-one s s' g n reason gap e = (ground arith, ground arith, ground arith)

declare_loss-refuses :
    (s s' : UplinkState) (g : GapId) (ns : List ℕ) (reason : Text) (e : UplinkError)
    → declare_loss s g ns reason ≡ (s', err e)
    → s' ≡ s
unfolding declare_loss
declare_loss-refuses s s' g ns reason e h = ground arith

store_eviction-Mirrored :
    (o : DurableOutbox) (s : UplinkState) (gap : UplinkGap) (n : ℕ)
    → Mirrors o.store s
    → IsWellFormed o.state
    → o.state.records ≡ remove_all (n ∷ []) s.records
    → is_stopped (store_eviction o gap n).1 ≡ false
    → Mirrored (store_eviction o gap n).0
unfolding store_eviction
store_eviction-Mirrored o s gap n m w r = elim (delete_cases (n ∷ []) o.store) [
  | inr (db', e) ↦ rw e (λ live. absurd (cc))
  | inl e ↦
      elim (insert_gap_cases (deleted (n ∷ []) o.store) gap.gap_id (first_range gap.ranges)
        gap.reason) [
          | inr f ↦ rw (e, f) (λ live. absurd (cc))
          | inl (db', f, same) ↦
              elim (set_cursor_cases db' o.state.committed_through o.state.last_allocated) [
                | inr g ↦ rw (e, f, g) (λ live. absurd (cc))
                | inl g ↦
                    rw (e, f, g)
                      (λ live. removed-Mirrors o.store _ s o.state (n ∷ []) m w r same refl refl)
              ]
        ]
]

pub evict_declared-Mirrored :
    (o : DurableOutbox) (g : GapId) (n : ℕ) (reason : Text)
    (p : UplinkState × Result UplinkError UplinkGap)
    → Mirrored o
    → declare_loss o.state g (n ∷ []) reason ≡ p
    → is_stopped (evict_declared o n p).1 ≡ false
    → Mirrored (evict_declared o n p).0
unfolding remove_all
evict_declared-Mirrored o g n reason (s', err e) m h =
    λ live. subst (Mirrors o.store) (sym (declare_loss-refuses o.state s' g (n ∷ []) reason e h)) m
evict_declared-Mirrored o g n reason (s', ok gap) m h =
    store_eviction-Mirrored (record o { state = s' }) o.state gap n m
      (subst IsWellFormed (ap (λ p. p.0) h)
        (declare_loss-IsWellFormed o.state g (n ∷ []) reason m.valid))
      (declare_loss-one o.state s' g n reason gap h).0
