-- ===== src/Outbox/Rows.antt =====
-- Rows and records are the same table twice: what an operation does to one, it does to the other.
use vodoge_edge.Common.{
  ℕ, zero, suc, ◌+◌, ◌-◌, length, ltb→lt, ◌≤◌, ◌<◌, ◌≡◌, refl, ap, ◌∙◌, inl, inr, some, List, [],
  ◌∷◌, ltb, arith, Bool-cases, ok, err,
}
use vodoge_edge.Common.Keys.{nat_key, text_key}
use vodoge_edge.Common.Dict.{Dict, lookup, contains, insert, remove}
use vodoge_edge.Uplink.Types.{UplinkRecord}
use vodoge_edge.Uplink.Loss.{remove_all}
use vodoge_edge.Uplink.Ack.{sweep}
use vodoge_edge.Outbox.Tables.{
  OutboxRow, Store, sqlite, execute_works, execute_stopped, delete_sequence, delete_sequences,
}
use vodoge_edge.Outbox.{record_of}

abbrev pub records_of : Dict ℕ OutboxRow → Dict ℕ UplinkRecord
records_of [] = []
records_of ((n, row) ∷ rows) = (n, record_of row) ∷ records_of rows

pub records_of-insert :
    (n : ℕ) (row : OutboxRow) (rows : Dict ℕ OutboxRow)
    → records_of (insert n row rows) ≡ insert n (record_of row) (records_of rows)
unfolding insert
records_of-insert n row [] = refl
records_of-insert n row ((m, r) ∷ rows) = ground (arith, records_of-insert n row rows)

pub records_of-remove :
    (n : ℕ) (rows : Dict ℕ OutboxRow) → records_of (remove n rows) ≡ remove n (records_of rows)
unfolding remove
records_of-remove n [] = refl
records_of-remove n ((m, r) ∷ rows) = ground (arith, records_of-remove n rows)

-- The rows left by a loop of deletions.
abbrev pub without : List ℕ → Dict ℕ OutboxRow → Dict ℕ OutboxRow
without [] rows = rows
without (n ∷ rest) rows = without rest (remove n rows)

pub records_of-without :
    (ns : List ℕ) (rows : Dict ℕ OutboxRow)
    → records_of (without ns rows) ≡ remove_all ns (records_of rows)
unfolding remove_all
records_of-without [] rows = refl
records_of-without (n ∷ ns) rows =
    records_of-without ns (remove n rows) ∙ ap (remove_all ns) (records_of-remove n rows)

pub lookup-records_of :
    (n : ℕ) (rows : Dict ℕ OutboxRow) (row : OutboxRow)
    → lookup n rows ≡ some row
    → lookup n (records_of rows) ≡ some (record_of row)
unfolding lookup
lookup-records_of n [] row h = cc
lookup-records_of n ((m, r) ∷ rows) row h = ground (arith, lookup-records_of n rows row)

pub contains-records_of :
    (n : ℕ) (rows : Dict ℕ OutboxRow) → contains n (records_of rows) ≡ contains n rows
unfolding lookup
contains-records_of n [] = refl
contains-records_of n ((m, r) ∷ rows) = ground (arith, contains-records_of n rows)

-- The delete loop of an acknowledgement takes out what it reports.
pub sweep-remove_all :
    (n s : ℕ) (records : Dict ℕ UplinkRecord) (losses : Dict ℕ (Unit {0}))
    → (sweep n s records losses).records ≡ remove_all (sweep n s records losses).deleted records
unfolding sweep remove_all
sweep-remove_all zero s records losses = refl
sweep-remove_all (suc n) s records losses = elim (Bool-cases (contains s records)) [
  | inl h ↦ rw h (sweep-remove_all n (s + 1) (remove s records) losses)
  | inr h ↦ rw h (sweep-remove_all n (s + 1) records (remove s losses))
]

-- The database after `k` statements that deleted `ns`.
abbrev pub deleted : List ℕ → Store → Store
deleted ns db = record db {
  outbox = without ns db.outbox;
  statements_left = db.statements_left - length ns;
}

-- Enough statements delete every row that is named.
pub delete_enough :
    (ns : List ℕ) (db : Store)
    → length ns ≤ db.statements_left
    → delete_sequences db ns ≡ (deleted ns db, ok tt)
unfolding delete_sequences delete_sequence
delete_enough [] db h = ap (λ (n : ℕ). (record db { statements_left = n }, ok tt)) (omega arith)
delete_enough (n ∷ ns) db h =
    rw (execute_works db (λ d. record d { outbox = remove n d.outbox }) (omega arith)) (
      delete_enough ns (deleted (n ∷ []) db) (omega arith)
      ∙ ap
          (λ (k : ℕ).
            (record db { outbox = without (n ∷ ns) db.outbox; statements_left = k }, ok tt))
          (omega arith))

-- Too few end in a failure.
pub delete_short :
    (ns : List ℕ) (db : Store)
    → db.statements_left < length ns
    → (db' : Store) × (delete_sequences db ns ≡ (db', err sqlite))
unfolding delete_sequences delete_sequence
delete_short [] db h = absurd (omega arith)
delete_short (n ∷ ns) db h = elim (Bool-cases (ltb 0 db.statements_left)) [
  | inr f ↦ (
    db,
    rw (execute_stopped db (λ d. record d { outbox = remove n d.outbox }) (ground arith)) refl,
  )
  | inl f ↦
      rw (execute_works db (λ d. record d { outbox = remove n d.outbox }) (ltb→lt _ _ f))
        (delete_short ns (deleted (n ∷ []) db) (let g = ltb→lt _ _ f in omega arith))
]
