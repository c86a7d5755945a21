-- ===== src/Outbox/Restart.antt =====
-- What a restart reads back: `from_store` on rows that belong to one journal.
use vodoge_edge.Common.{
  ℕ, suc, ◌≤◌, ◌<◌, max, ◌≡◌, refl, sym, ap, ◌∙◌, false, some, List, [], ◌∷◌, ◌++◌, map, All,
  All-mono, lt→ltb, arith, Option-cases, inl, inr, ok,
}
use mathlib.Core.Path.{subst}
use mathlib.Core.List.{append-nil}
use vodoge_edge.Common.Text.{Text, is_blank}
use vodoge_edge.Common.Keys.{nat_key, text_key, text_eq_iff}
use vodoge_edge.Common.Dict.{
  Dict, values, lookup, contains, insert, lookup-insert, Above, IsSorted, Above-IsSorted,
}
use vodoge_edge.Uplink.Types.{UplinkRecord, new_envelope_id, u64_max}
use vodoge_edge.Uplink.WellFormed.{IsWellFormed}
use vodoge_edge.Uplink.WellFormed.Restore.{rehydrate-IsWellFormed}
use vodoge_edge.Uplink.Journal.{UplinkState, from_committed_through, restore_records, rehydrate}
use vodoge_edge.Outbox.Tables.{OutboxRow, Store}
use vodoge_edge.Outbox.{record_of, read_rows, DurableOutbox, opened, warn_overflow, from_store}
use vodoge_edge.Outbox.Rows.{records_of}

-- A row that a journal with these cursors and identities retains.
abbrev pub IsStored : ℕ → ℕ → Dict Text ℕ → ℕ × OutboxRow → Type 0
IsStored committed last ids e =
    (committed < e.0)
    × (e.0 ≤ last)
    × (e.1.seq ≡ e.0)
    × (is_blank e.1.envelope_id ≡ false)
    × (lookup e.1.envelope_id ids ≡ some e.0)

Above-lookup :
    {V : Type 0} (b n : ℕ) (v : V) (m : Dict ℕ V) → Above b m → lookup n m ≡ some v → b < n
unfolding lookup
Above-lookup b n v [] a h = cc
Above-lookup b n v ((j, w) ∷ m) a h = ground (arith, Above-lookup j n v m a.1)

-- In a table every entry is the one that its key finds.
pub All_of_lookup :
    {V : Type 0} (P : ℕ × V → Type 0) (m : Dict ℕ V)
    → IsSorted m
    → ((n : ℕ) (v : V) → lookup n m ≡ some v → P (n, v))
    → All P m
unfolding lookup
All_of_lookup P [] a h = tt
All_of_lookup P ((j, w) ∷ m) a h = (
  h j w (ground arith),
  All_of_lookup P m (Above-IsSorted j m a)
      (λ n v e. h n v (let lower = Above-lookup j n v m a e in ground arith)),
)

-- A key above all others goes to the end.
pub insert-last :
    {V : Type 0} (n : ℕ) (v : V) (m : Dict ℕ V)
    → All (λ e. e.0 < n) m
    → insert n v m ≡ m ++ (n, v) ∷ []
unfolding insert
insert-last n v [] a = refl
insert-last n v ((j, w) ∷ m) a = ground (arith, insert-last n v m)

not_contains : {V : Type 0} (n : ℕ) (m : Dict ℕ V) → All (λ e. e.0 < n) m → contains n m ≡ false
unfolding lookup
not_contains n [] a = refl
not_contains n ((j, w) ∷ m) a = ground (arith, not_contains n m)

append_one : {A : Type 0} (xs : List A) (y : A) (zs : List A) → (xs ++ y ∷ []) ++ zs ≡ xs ++ y ∷ zs
append_one [] y zs = refl
append_one (x ∷ xs) y zs = ap (λ t. x ∷ t) (append_one xs y zs)

abbrev pub IsNamed : ℕ × OutboxRow → Type 0
IsNamed e = is_blank e.1.envelope_id ≡ false

pub read_rows-values :
    (m : Dict ℕ OutboxRow) → All IsNamed m → read_rows (values m) ≡ ok (map record_of (values m))
unfolding read_rows new_envelope_id
read_rows-values [] a = refl
read_rows-values ((n, row) ∷ m) (h, a) = ground (arith, read_rows-values m a)

-- The state after some rows, all at `b` or below.
record IsPrefix (ids : Dict Text ℕ) (b : ℕ) (s : UplinkState) : Type 0 where
  old : All (λ e. e.0 < suc b) s.records
  known :
      (j : Text) (q : ℕ)
      → lookup j s.envelope_sequences ≡ some q
      → (lookup j ids ≡ some q) × (q ≤ b)

-- What a restart restores of a journal.
pub record Restored (committed last : ℕ) (records : Dict ℕ UplinkRecord) (s : UplinkState)
    : Type 0 where
  pub cursor : s.committed_through ≡ committed
  pub allocated : s.last_allocated ≡ last
  pub rows : s.records ≡ records
  pub no_losses : s.accepted_loss_sequences ≡ []
  pub valid : last ≤ u64_max → IsWellFormed s

abbrev step : UplinkState → OutboxRow → UplinkState
step s row = record s {
  envelope_sequences = insert row.envelope_id row.seq s.envelope_sequences;
  records = insert row.seq (record_of row) s.records;
}

module _ (committed last : ℕ) (ids : Dict Text ℕ) where
  fresh_identity :
      (b n : ℕ) (row : OutboxRow) (s : UplinkState)
      → IsPrefix ids b s
      → b < n
      → lookup row.envelope_id ids ≡ some n
      → contains row.envelope_id s.envelope_sequences ≡ false
  fresh_identity b n row s p h i =
      elim (Option-cases (lookup row.envelope_id s.envelope_sequences)) [
        | inl e ↦ rw e refl
        | inr (q, e) ↦ absurd (ground (arith, p.known row.envelope_id q))
      ]

  mono :
      (b n : ℕ) (m : Dict ℕ UplinkRecord) → b < n → All (λ e. e.0 < suc b) m → All (λ e. e.0 < n) m
  mono b n [] h a = tt
  mono b n ((j, r) ∷ m) h a = (omega arith, mono b n m h a.1)

  old-append :
      (n : ℕ) (r : UplinkRecord) (m : Dict ℕ UplinkRecord)
      → All (λ e. e.0 < n) m
      → All (λ e. e.0 < suc n) (m ++ (n, r) ∷ [])
  old-append n r [] a = (omega arith, tt)
  old-append n r ((j, q) ∷ m) a = (omega arith, old-append n r m a.1)

  records-step :
      (b n : ℕ) (row : OutboxRow) (s : UplinkState)
      → All (λ e. e.0 < suc b) s.records
      → b < n
      → row.seq ≡ n
      → insert row.seq (record_of row) s.records ≡ s.records ++ (n, record_of row) ∷ []
  records-step b n row s a h own =
      ap (λ k. insert k (record_of row) s.records) own
      ∙ insert-last n (record_of row) s.records (mono b n s.records h a)

  step-IsPrefix :
      (b n : ℕ) (row : OutboxRow) (s : UplinkState)
      → IsPrefix ids b s
      → b < n
      → row.seq ≡ n
      → lookup row.envelope_id ids ≡ some n
      → IsPrefix ids n (step s row)
  step-IsPrefix b n row s p h own i = record {
    old =
        subst (λ m. All (λ e. e.0 < suc n) m) (sym (records-step b n row s p.old h own))
          (old-append n (record_of row) s.records (mono b n s.records h p.old));
    known = λ j q e. ground (
      arith,
      lookup-insert row.envelope_id j row.seq s.envelope_sequences,
      text_eq_iff row.envelope_id j,
      p.known j q,
    );
  }

  restore_rows :
      (b : ℕ) (s : UplinkState) (m : Dict ℕ OutboxRow)
      → IsPrefix ids b s
      → Above b m
      → All (IsStored committed last ids) m
      → (out : UplinkState) × (restore_records committed last s (map record_of (values m)) ≡ ok out)
        × (out.records ≡ s.records ++ records_of m)
        × (out.committed_through ≡ s.committed_through)
        × (out.last_allocated ≡ s.last_allocated)
        × (out.accepted_loss_sequences ≡ s.accepted_loss_sequences)
  unfolding restore_records
  restore_rows b s [] p a h = (s, refl, sym (append-nil s.records), refl, refl, refl)
  restore_rows b s ((n, row) ∷ m) p a (h, hs) =
      let (out, e, r, c, l, x) =
        restore_rows n (step s row) m (step-IsPrefix b n row s p (ground arith) h.2 h.4) a.1 hs in
      (
        out,
        ground (
          arith,
          not_contains n s.records (mono b n s.records (ground arith) p.old),
          ap (λ k. contains k s.records) h.2,
          fresh_identity b n row s p (ground arith) h.4,
        ),
        r
            ∙ ap (λ t. t ++ records_of m) (records-step b n row s p.old (ground arith) h.2)
            ∙ append_one s.records (n, record_of row) (records_of m),
        c,
        l,
        x,
      )

abbrev pub blank : ℕ → ℕ → UplinkState
blank committed last = record (from_committed_through committed) { last_allocated = last }

blank-IsPrefix :
    (committed last : ℕ) (ids : Dict Text ℕ) → IsPrefix ids committed (blank committed last)
unfolding lookup
blank-IsPrefix committed last ids = record { old = tt; known = λ j q e. cc }

Above-cursor :
    (committed last : ℕ) (ids : Dict Text ℕ) (m : Dict ℕ OutboxRow)
    → IsSorted m
    → All (IsStored committed last ids) m
    → Above committed m
Above-cursor committed last ids [] a h = tt
Above-cursor committed last ids ((n, row) ∷ m) a h = (lt→ltb _ _ h.0.0, a)

opened-same :
    (db : Store) (s : UplinkState) (limit : ℕ)
    → ((opened db s limit).store ≡ db)
      × ((opened db s limit).state ≡ s)
      × ((opened db s limit).max_records ≡ max limit 1)
unfolding opened warn_overflow
opened-same db s limit = (ground arith, ground arith, ground arith)

-- What a restart of the database `db` leaves.
pub record Restarted (db : Store) (limit : ℕ) (o : DurableOutbox) : Type 0 where
  pub store : o.store ≡ db
  pub capacity : o.max_records ≡ max limit 1
  pub journal : Restored db.committed_through db.last_allocated (records_of db.outbox) o.state

rehydrated :
    (committed last : ℕ) (rs : List UplinkRecord) (out : UplinkState)
    → committed ≤ last
    → restore_records committed last (blank committed last) rs ≡ ok out
    → rehydrate committed last rs ≡ ok out
unfolding rehydrate
rehydrated committed last rs out le e = ground arith

-- Rows that belong to one journal are restored, every one.
pub from_store-Restarted :
    (db : Store) (limit : ℕ) (ids : Dict Text ℕ)
    → db.committed_through ≤ db.last_allocated
    → IsSorted db.outbox
    → All (IsStored db.committed_through db.last_allocated ids) db.outbox
    → (o : DurableOutbox) × (from_store db limit ≡ ok o) × Restarted db limit o
unfolding from_store rehydrate
from_store-Restarted db limit ids le sorted rows =
    let c = db.committed_through in
    let l = db.last_allocated in
    let (out, e, r, c', l', x) =
      restore_rows c l ids c (blank c l) db.outbox (blank-IsPrefix c l ids)
        (Above-cursor c l ids db.outbox sorted rows) rows in
    let same = opened-same db out limit in
    let whole = rehydrated c l (map record_of (values db.outbox)) out le e in
    (
      opened db out limit,
      ground (arith, read_rows-values db.outbox (All-mono _ _ db.outbox (λ e h. h.3) rows)),
      record {
        store = same.0;
        capacity = same.2;
        journal = rw same.1 (record {
          cursor = c';
          allocated = l';
          rows = r;
          no_losses = x;
          valid = λ b. (rehydrate-IsWellFormed c l _ out b whole).0;
        });
      },
    )
