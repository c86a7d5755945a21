-- ===== src/Outbox/Capacity.antt =====
-- The bound on the queue: it holds at most `max_records` records, or none that may be evicted.
use vodoge_edge.Common.{
  ℕ, ◌+◌, ◌≤◌, ◌<◌, length, length-append, ◌≡◌, refl, sym, ◌⊎◌, inl, inr, true, none, some, List,
  [], ◌∷◌, ◌++◌, All, All-append, leb, leb→le, arith, Bool-cases, Option-cases, Result, ok, err,
}
use mathlib.Core.Path.{subst}
use vodoge_edge.Common.Text.{Text, codes, is_blank}
use vodoge_edge.Common.Keys.{nat_key, text_key}
use vodoge_edge.Common.Dict.{Dict, lookup, contains, remove, length-remove-lt}
use vodoge_edge.Uplink.Types.{
  EnvelopeId, GapId, UplinkRecord, UplinkGap, UplinkError, RetentionClass, new_gap_id,
}
use vodoge_edge.Uplink.Journal.{UplinkState}
use vodoge_edge.Uplink.Loss.{declare_loss}
use vodoge_edge.Uplink.WellFormed.Append.{entry, appended, append-Appends, known, exhausted, fresh}
use vodoge_edge.Outbox.Tables.{
  OutboxRow, Store, StoreError, enqueue, set_cursor, delete_sequences, insert_gap,
}
use vodoge_edge.Outbox.{
  QueueError, CapacityAlert, evicted, row_of, store_error, uplink_error, CapacityOutcome,
  DurableOutbox, first_evictable, warn_overflow, overflow_of, store_eviction, evict_declared, evict,
  evict_if_needed, then_store, with_sequence, overflow_warning_due, store_append, append,
  retained_count, capacity_gap_id, first_range,
}
use vodoge_edge.Outbox.Rows.{records_of}
use vodoge_edge.Outbox.Restart.{IsStored, insert-last}
use vodoge_edge.Outbox.Mirror.{stored}
use vodoge_edge.Outbox.Calls.{Mirrored, declare_loss-one}

abbrev Limited : ℕ → Dict ℕ UplinkRecord → Type 0
Limited limit records = (length records ≤ limit) ⊎ (first_evictable records ≡ none)

-- At most `max_records` records, or none that may be evicted.
abbrev pub IsContained : DurableOutbox → Type 0
IsContained o = Limited o.max_records o.state.records

abbrev IsOwn : ℕ × UplinkRecord → Type 0
IsOwn e = e.1.sequence ≡ e.0

contains-first_evictable :
    (m : Dict ℕ UplinkRecord) (n : ℕ)
    → All IsOwn m
    → first_evictable m ≡ some n
    → contains n m ≡ true
unfolding first_evictable lookup
contains-first_evictable [] n a h = cc
contains-first_evictable ((k, r) ∷ m) n a h = ground (arith, contains-first_evictable m n a.1)

-- A last record.
first_evictable-last :
    (m : Dict ℕ UplinkRecord) (n k : ℕ) (r : UplinkRecord)
    → first_evictable m ≡ none
    → r.sequence ≡ n
    → first_evictable (m ++ (n, r) ∷ []) ≡ some k
    → k ≡ n
unfolding first_evictable
first_evictable-last [] n k r h own e = ground arith
first_evictable-last ((j, q) ∷ m) n k r h own e = ground (arith, first_evictable-last m n k r)

remove-last :
    (m : Dict ℕ UplinkRecord) (n : ℕ) (r : UplinkRecord)
    → All (λ e. e.0 < n) m
    → remove n (m ++ (n, r) ∷ []) ≡ m
unfolding remove
remove-last [] n r a = ground arith
remove-last ((j, q) ∷ m) n r a = ground (arith, remove-last m n r)

-- One eviction is enough after one more record.
Limited-again :
    (limit n k : ℕ) (m : Dict ℕ UplinkRecord) (r : UplinkRecord)
    → Limited limit m
    → All (λ e. e.0 < n) m
    → All IsOwn m
    → r.sequence ≡ n
    → first_evictable (m ++ (n, r) ∷ []) ≡ some k
    → Limited limit (remove k (m ++ (n, r) ∷ []))
Limited-again limit n k m r (inl short) below own own_r e =
    let held =
      contains-first_evictable (m ++ (n, r) ∷ []) k (All-append IsOwn m _ own (own_r, tt)) e in
    inl (omega (arith, length-remove-lt k (m ++ (n, r) ∷ []) held, length-append m ((n, r) ∷ [])))
Limited-again limit n k m r (inr bare) below own own_r e =
    let same = first_evictable-last m n k r bare own_r e in
    inr (rw (same, remove-last m n r below) bare)

-- A call that succeeds leaves the queue contained.
data Contains (A : Type 0) (p : DurableOutbox × Result QueueError A) : Type 0 where
  failed : (e : QueueError) → p.1 ≡ err e → Contains A p
  holds : IsContained p.0 → Contains A p

then_store-Contains :
    {A : Type 0} (o : DurableOutbox) (p : Store × Result StoreError (Unit {0}))
    (next : DurableOutbox → DurableOutbox × Result QueueError A)
    → ((db : Store) → Contains A (next (record o { store = db })))
    → Contains A (then_store o p next)
then_store-Contains o (db, err e) next h = failed (store_error e) refl
then_store-Contains o (db, ok u) next h = h db

store_eviction-Contains :
    (o : DurableOutbox) (gap : UplinkGap) (n : ℕ)
    → IsContained o
    → Contains CapacityOutcome (store_eviction o gap n)
unfolding store_eviction
store_eviction-Contains o gap n h =
    let Out = DurableOutbox × Result QueueError CapacityOutcome in
    let alert : CapacityAlert = record { gap_id = gap.gap_id; evicted_seq = n } in
    let close : DurableOutbox → Out =
      λ p. (record p { overflow_warned_at = none }, ok (evicted alert)) in
    let move : DurableOutbox → Out = λ p.
      then_store p (set_cursor p.store p.state.committed_through p.state.last_allocated) close in
    let mark : DurableOutbox → Out =
      λ p. then_store p (insert_gap p.store gap.gap_id (first_range gap.ranges) gap.reason) move in
    then_store-Contains o (delete_sequences o.store (n ∷ [])) mark λ d1.
      then_store-Contains (record o { store = d1 })
        (insert_gap d1 gap.gap_id (first_range gap.ranges) gap.reason) move
        λ d2.
          then_store-Contains (record o { store = d2 })
            (set_cursor d2 o.state.committed_through o.state.last_allocated) close λ d3. holds h

evict_declared-Contains :
    (o : DurableOutbox) (g : GapId) (n : ℕ) (reason : Text)
    (p : UplinkState × Result UplinkError UplinkGap)
    → Limited o.max_records (remove n o.state.records)
    → declare_loss o.state g (n ∷ []) reason ≡ p
    → Contains CapacityOutcome (evict_declared o n p)
evict_declared-Contains o g n reason (s', err e) h eq = failed (uplink_error e) refl
evict_declared-Contains o g n reason (s', ok gap) h eq =
    store_eviction-Contains (record o { state = s' }) gap n
      (subst (Limited o.max_records) (sym (declare_loss-one o.state s' g n reason gap eq).0) h)

evict-Contains :
    (o : DurableOutbox) (n : ℕ)
    → Limited o.max_records (remove n o.state.records)
    → Contains CapacityOutcome (evict o n)
unfolding evict new_gap_id
evict-Contains o n h = elim (Bool-cases (is_blank (capacity_gap_id n))) [
  | inl b ↦ rw (b, evict) (failed _ refl)
  | inr b ↦
      rw (b, evict)
        (evict_declared-Contains o (capacity_gap_id n) n (codes "queue_capacity") _ h refl)
]

warn-IsContained :
    (o : DurableOutbox) → IsContained o → IsContained (warn_overflow o (overflow_of o))
unfolding warn_overflow
warn-IsContained o h =
    elim (Bool-cases (overflow_warning_due (overflow_of o).retained o.overflow_warned_at)) [
      | inl e ↦ rw (e, warn_overflow) h
      | inr e ↦ rw (e, warn_overflow) h
    ]

evict_if_needed-Contains :
    (o : DurableOutbox)
    → ((n : ℕ)
        → first_evictable o.state.records ≡ some n
        → Limited o.max_records (remove n o.state.records))
    → Contains CapacityOutcome (evict_if_needed o)
unfolding evict_if_needed
evict_if_needed-Contains o f = elim (Bool-cases (leb (retained_count o) o.max_records)) [
  | inl h ↦ rw h (holds (inl (leb→le _ _ h)))
  | inr h ↦ elim (Option-cases (first_evictable o.state.records)) [
    | inl e ↦ rw (h, e, evict_if_needed) (holds (warn-IsContained o (inr e)))
    | inr (n, e) ↦ rw (h, e, evict_if_needed) (evict-Contains o n (f n e))
  ]
]

with_sequence-Contains :
    (n : ℕ) (p : DurableOutbox × Result QueueError CapacityOutcome)
    → Contains CapacityOutcome p
    → Contains (ℕ × CapacityOutcome) (with_sequence n p)
with_sequence-Contains n (o, ok a) (failed e h) = absurd (cc)
with_sequence-Contains n (o, ok a) (holds h) = holds h
with_sequence-Contains n (o, err e) h = failed e refl

records_below :
    (c l : ℕ) (ids : Dict Text ℕ) (m : Dict ℕ OutboxRow)
    → All (IsStored c l ids) m
    → All (λ e. e.0 < l + 1) (records_of m) × All IsOwn (records_of m)
records_below c l ids [] a = (tt, tt)
records_below c l ids ((n, row) ∷ m) (h, a) =
    let (below, own) = records_below c l ids m a in ((omega (arith, h.1), below), (h.2, own))

-- After one more record the first that may be evicted is enough to give up.
appended-Limited :
    (o : DurableOutbox) (id : EnvelopeId) (payload : List ℕ) (retention : RetentionClass) (k : ℕ)
    → Mirrored o
    → IsContained o
    → first_evictable (appended o.state id payload retention).records ≡ some k
    → Limited o.max_records (remove k (appended o.state id payload retention).records)
appended-Limited o id payload retention k m h e =
    let s = o.state in
    let n = s.last_allocated + 1 in
    let r = entry s id payload retention in
    let (below', own') =
      records_below s.committed_through s.last_allocated s.envelope_sequences o.store.outbox
        (stored m) in
    let below = subst (All (λ e. e.0 < n)) (sym m.rows) below' in
    let own = subst (All IsOwn) (sym m.rows) own' in
    let last = insert-last n r s.records below in
    subst (λ t. Limited o.max_records (remove k t)) (sym last)
      (Limited-again o.max_records n k s.records r h below own refl (rw last at e))

store_append-Contains :
    (o : DurableOutbox) (next : UplinkState) (row : OutboxRow)
    → ((db : Store)
        → Contains CapacityOutcome (evict_if_needed (record o { store = db; state = next })))
    → Contains (ℕ × CapacityOutcome) (store_append o next row)
unfolding store_append
store_append-Contains o next row h =
    let Out = DurableOutbox × Result QueueError (ℕ × CapacityOutcome) in
    let close : DurableOutbox → Out =
      λ p. with_sequence row.seq (evict_if_needed (record p { state = next })) in
    let move : DurableOutbox → Out =
      λ p. then_store p (set_cursor p.store next.committed_through next.last_allocated) close in
    then_store-Contains o (enqueue o.store row) move λ d1.
      then_store-Contains (record o { store = d1 })
        (set_cursor d1 next.committed_through next.last_allocated) close
        λ d2.
          with_sequence-Contains row.seq (evict_if_needed (record o { store = d2; state = next }))
            (h d2)

append-Contains :
    (o : DurableOutbox) (id : EnvelopeId) (kind : Text) (payload : List ℕ)
    (retention : RetentionClass)
    → Mirrored o
    → IsContained o
    → Contains (ℕ × CapacityOutcome) (append o id kind payload retention)
unfolding append
append-Contains o id kind payload retention m h =
    elim (append-Appends o.state id payload retention) [
      | known q e p ↦ rw p (failed _ refl)
      | exhausted e full p ↦ rw p (failed _ refl)
      | fresh e room p ↦ rw p (
          store_append-Contains o (appended o.state id payload retention)
            (row_of (o.state.last_allocated + 1) id kind payload retention)
            λ db.
              evict_if_needed-Contains
                (record o { store = db; state = appended o.state id payload retention })
                (λ k. appended-Limited o id payload retention k m h))
    ]

IsContained-of_ok :
    {A : Type 0} (p : DurableOutbox × Result QueueError A) (a : A)
    → Contains A p
    → p.1 ≡ ok a
    → IsContained p.0
IsContained-of_ok p a (holds h) e = h
IsContained-of_ok p a (failed x h) e = absurd (cc)

-- A queue that holds at most its limit, or nothing that may be evicted, is so again after every new envelope that is
-- accepted: one eviction is enough.
pub append-IsContained :
    (o : DurableOutbox) (id : EnvelopeId) (kind : Text) (payload : List ℕ)
    (retention : RetentionClass) (out : ℕ × CapacityOutcome)
    → Mirrored o
    → IsContained o
    → (append o id kind payload retention).1 ≡ ok out
    → IsContained (append o id kind payload retention).0
append-IsContained o id kind payload retention out m h e =
    IsContained-of_ok (append o id kind payload retention) out
      (append-Contains o id kind payload retention m h) e
