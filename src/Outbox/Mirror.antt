-- ===== src/Outbox/Mirror.antt =====
-- The database mirrors the journal, as long as no statement fails: the rows are the retained records, and the cursors
-- agree.
use vodoge_edge.Common.{
  ℕ, ◌+◌, ◌-◌, ◌≤◌, ◌<◌, ◌≡◌, sym, ap, ◌∙◌, false, some, List, [], ◌∷◌, All, All-mono, arith, ok,
  err,
}
use vodoge_edge.Common.Text.{is_blank}
use vodoge_edge.Common.Keys.{nat_key, text_key}
use vodoge_edge.Common.Dict.{Dict, lookup, insert, remove, IsSorted, remove-IsSorted}
use vodoge_edge.Uplink.Types.{UplinkError, UplinkAck, AckOutcome}
use vodoge_edge.Uplink.Journal.{UplinkState}
use vodoge_edge.Uplink.Loss.{remove_all}
use vodoge_edge.Uplink.Ack
use vodoge_edge.Uplink.Ack.{cross, apply_ack, validate_missing_hint, sweep, first_unresolved}
use vodoge_edge.Uplink.WellFormed.{IsWellFormed}
use vodoge_edge.Outbox.Tables.{OutboxRow, Store}
use vodoge_edge.Outbox.{record_of, DurableOutbox, from_store}
use vodoge_edge.Outbox.Rows.{
  records_of, records_of-without, without, lookup-records_of, sweep-remove_all,
}
use vodoge_edge.Outbox.Restart.{IsNamed, IsStored, All_of_lookup, Restored, from_store-Restarted}

pub record Mirrors (db : Store) (s : UplinkState) : Type 0 where
  pub valid : IsWellFormed s
  pub rows : s.records ≡ records_of db.outbox
  pub cursor : db.committed_through ≡ s.committed_through
  pub allocated : db.last_allocated ≡ s.last_allocated
  pub sorted : IsSorted db.outbox
  pub named : All IsNamed db.outbox

All-both :
    {A : Type 0} (P Q : A → Type 0) (xs : List A) → All P xs → All Q xs → All (λ a. P a × Q a) xs
All-both P Q [] h k = tt
All-both P Q (x ∷ xs) h k = ((h.0, k.0), All-both P Q xs h.1 k.1)

-- Where the journal is well formed, every row is one that it retains.
pub stored :
    {db : Store} {s : UplinkState}
    → Mirrors db s
    → All (IsStored s.committed_through s.last_allocated s.envelope_sequences) db.outbox
stored {db} {s} m =
    All-mono _ _ db.outbox (λ e h. (h.0.0, h.0.1, h.0.2, h.1, h.0.3))
      (All-both _ _ db.outbox
        (All_of_lookup
          (λ e.
            (s.committed_through < e.0)
            × (e.0 ≤ s.last_allocated)
            × (e.1.seq ≡ e.0)
            × (lookup e.1.envelope_id s.envelope_sequences ≡ some e.0))
          db.outbox m.sorted
          (λ n row e.
            let r =
              m.valid.retained n (record_of row)
                (ap (lookup n) m.rows ∙ lookup-records_of n db.outbox row e) in
            (r.above, r.allocated, r.own, r.identity)))
        m.named)

-- A restart restores the journal that the database mirrors: its cursors and every record.
pub restart :
    (db : Store) (s : UplinkState) (limit : ℕ)
    → Mirrors db s
    → (o : DurableOutbox) × (from_store db limit ≡ ok o)
      × (o.store ≡ db)
      × Restored s.committed_through s.last_allocated s.records o.state
restart db s limit m =
    let (o, e, r) =
      from_store-Restarted db limit s.envelope_sequences
        (rw (m.cursor, m.allocated) m.valid.ordered) m.sorted
        (rw (m.cursor, m.allocated) (stored m)) in
    (
      o,
      e,
      r.store,
      record {
        cursor = r.journal.cursor ∙ m.cursor;
        allocated = r.journal.allocated ∙ m.allocated;
        rows = r.journal.rows ∙ sym m.rows;
        no_losses = r.journal.no_losses;
        valid = λ b. r.journal.valid (rw m.allocated b);
      },
    )

pub IsNamed-insert :
    (n : ℕ) (row : OutboxRow) (rows : Dict ℕ OutboxRow)
    → is_blank row.envelope_id ≡ false
    → All IsNamed rows
    → All IsNamed (insert n row rows)
unfolding insert
IsNamed-insert n row [] h a = (h, tt)
IsNamed-insert n row ((m, r) ∷ rows) h a = ground (arith, IsNamed-insert n row rows)

All-remove :
    (P : ℕ × OutboxRow → Type 0) (n : ℕ) (rows : Dict ℕ OutboxRow)
    → All P rows
    → All P (remove n rows)
unfolding remove
All-remove P n [] a = tt
All-remove P n ((m, r) ∷ rows) a = ground (arith, All-remove P n rows)

pub All-without :
    (P : ℕ × OutboxRow → Type 0) (ns : List ℕ) (rows : Dict ℕ OutboxRow)
    → All P rows
    → All P (without ns rows)
All-without P [] rows a = a
All-without P (n ∷ ns) rows a = All-without P ns (remove n rows) (All-remove P n rows a)

pub IsSorted-without :
    (ns : List ℕ) (rows : Dict ℕ OutboxRow) → IsSorted rows → IsSorted (without ns rows)
IsSorted-without [] rows a = a
IsSorted-without (n ∷ ns) rows a = IsSorted-without ns (remove n rows) (remove-IsSorted n rows a)

-- Where the journal gives up `ns`, and the database their rows.
pub removed-Mirrors :
    (db db' : Store) (s s' : UplinkState) (ns : List ℕ)
    → Mirrors db s
    → IsWellFormed s'
    → s'.records ≡ remove_all ns s.records
    → db'.outbox ≡ without ns db.outbox
    → db'.committed_through ≡ s'.committed_through
    → db'.last_allocated ≡ s'.last_allocated
    → Mirrors db' s'
removed-Mirrors db db' s s' ns m w r o c l = record {
  valid = w;
  rows =
      r ∙ ap (remove_all ns) m.rows ∙ sym (records_of-without ns db.outbox) ∙ ap records_of (sym o);
  cursor = c;
  allocated = l;
  sorted = rw o (IsSorted-without ns db.outbox m.sorted);
  named = rw o (All-without IsNamed ns db.outbox m.named);
}

-- An acknowledgement takes out the records that it reports, or changes nothing.
pub observe_ack-removes :
    (s s' : UplinkState) (ack : UplinkAck) (out : AckOutcome)
    → Ack.observe_ack s ack ≡ (s', ok out)
    → s'.records ≡ remove_all out.deleted_sequences s.records
unfolding Ack.observe_ack apply_ack cross remove_all
observe_ack-removes s s' ack out e = ground (
  arith,
  sweep-remove_all (ack.committed_through - s.committed_through) (s.committed_through + 1) s.records
      s.accepted_loss_sequences,
)

pub observe_ack-refuses :
    (s s' : UplinkState) (ack : UplinkAck) (e : UplinkError)
    → Ack.observe_ack s ack ≡ (s', err e)
    → s' ≡ s
unfolding Ack.observe_ack apply_ack cross
observe_ack-refuses s s' ack e h = ground arith
