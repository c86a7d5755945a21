-- ===== src/Outbox/Tables.antt =====
-- The statements of edge-store/src/lib.rs on the tables of the queue. A table is its rows by primary key, and a
-- statement is what its SQL does to them. The machine may stop, or the database may fail, before any statement:
-- `statements_left` counts those that still succeed. Reads do not fail. Sequences are below 2^63, where the casts
-- between `u64` and SQLite's integers change nothing.
use vodoge_edge.Common.{
  ℕ, ◌-◌, Bool, false, ◌||◌, List, [], ◌∷◌, Result, ok, err, ltb, lt→ltb, if◌then◌else◌, ◌<◌, ◌≡◌,
  refl, arith,
}
use vodoge_edge.Common.Text.{Text, text_eq}
use vodoge_edge.Common.Keys.{nat_key, text_key}
use vodoge_edge.Common.Dict.{Dict, contains, insert, remove, values}

pub record OutboxRow : Type 0 where
  pub seq : ℕ
  pub envelope_id : Text
  pub kind : Text
  pub payload : List ℕ
  pub protected : Bool

-- A row of `uplink_gaps`.
pub record GapRow : Type 0 where
  pub ranges : Text
  pub reason : Text
  pub accepted : Bool

pub record Store : Type 0 where
  pub outbox : Dict ℕ OutboxRow
  pub committed_through : ℕ
  pub last_allocated : ℕ
  pub gaps : Dict Text GapRow
  pub statements_left : ℕ

-- `Sqlite` without what it wraps.
pub data StoreError : Type 0 where
  sqlite : StoreError
  rescue_postcondition : StoreError

-- One statement.
unfoldable pub execute : Store → (Store → Store) → Store × Result StoreError (Unit {0})
execute db change =
    if ltb 0 db.statements_left
    then (record (change db) { statements_left = db.statements_left - 1 }, ok tt)
    else (db, err sqlite)

-- `envelope_id TEXT NOT NULL UNIQUE`
unfoldable pub has_envelope : Text → Dict ℕ OutboxRow → Bool
has_envelope id [] = false
has_envelope id ((seq, row) ∷ rows) = text_eq row.envelope_id id || has_envelope id rows

unfoldable pub enqueue : Store → OutboxRow → Store × Result StoreError (Unit {0})
enqueue db row =
    if contains row.seq db.outbox || has_envelope row.envelope_id db.outbox
    then (db, err sqlite)
    else execute db (λ d. record d { outbox = insert row.seq row d.outbox })

unfoldable pub set_cursor : Store → ℕ → ℕ → Store × Result StoreError (Unit {0})
set_cursor db committed last =
    execute db (λ d. record d { committed_through = committed; last_allocated = last })

unfoldable pub delete_sequence : Store → ℕ → Store × Result StoreError (Unit {0})
delete_sequence db sequence = execute db (λ d. record d { outbox = remove sequence d.outbox })

-- `?` on a statement.
abbrev pub and_then :
    Store × Result StoreError (Unit {0})
    → (Store → Store × Result StoreError (Unit {0}))
    → Store × Result StoreError (Unit {0})
and_then (db, err e) next = (db, err e)
and_then (db, ok u) next = next db

-- The first statement that fails ends the loop.
unfoldable pub delete_sequences : Store → List ℕ → Store × Result StoreError (Unit {0})
delete_sequences db [] = (db, ok tt)
delete_sequences db (sequence ∷ rest) =
    and_then (delete_sequence db sequence) (λ d. delete_sequences d rest)

unfoldable pub insert_gap : Store → Text → Text → Text → Store × Result StoreError (Unit {0})
insert_gap db gap_id ranges reason =
    if contains gap_id db.gaps
    then (db, err sqlite)
    else execute db (λ d. record d {
      gaps = insert gap_id (record { ranges = ranges; reason = reason; accepted = false }) d.gaps;
    })

-- `ORDER BY seq ASC`
abbrev pub load_outbox : Store → List OutboxRow
load_outbox db = values db.outbox

-- What a statement does while the database works, and when it has stopped.
pub execute_works :
    (db : Store) (change : Store → Store)
    → 0 < db.statements_left
    → execute db change ≡ (record (change db) { statements_left = db.statements_left - 1 }, ok tt)
unfolding execute
execute_works db change h = rw (lt→ltb _ _ h) refl

pub execute_stopped :
    (db : Store) (change : Store → Store)
    → db.statements_left ≡ 0
    → execute db change ≡ (db, err sqlite)
unfolding execute
execute_stopped db change h = ground arith
