-- ===== src/Uplink/WellFormed/Restore.antt =====
-- `rehydrate` builds a well-formed journal out of stored rows.
use vodoge_edge.Common.{
  ℕ, ◌≤◌, ◌<◌, ◌≡◌, refl, inl, inr, false, none, some, List, [], ◌∷◌, ok, ltb, arith, Bool-cases,
}
use mathlib.Core.Path.{subst}
use vodoge_edge.Common.Keys.{nat_key, text_key, text_eq_iff}
use vodoge_edge.Common.Dict.{lookup, contains, insert, lookup-insert}
use vodoge_edge.Uplink.Types.{UplinkRecord, GapId, u64_max}
use vodoge_edge.Uplink.Journal.{UplinkState, from_committed_through, restore_records, rehydrate}
use vodoge_edge.Uplink.WellFormed.{Retained, IsWellFormed}

-- The state after one row of `rehydrate`.
abbrev pub restored : UplinkState → UplinkRecord → UplinkState
restored s r = record s {
  envelope_sequences = insert r.envelope_id r.sequence s.envelope_sequences;
  records = insert r.sequence r s.records;
}

-- No loss marker has been seen yet.
record IsFresh (s : UplinkState) : Type 0 where
  no_gaps : (g : GapId) → lookup g s.pending_gaps ≡ none
  no_losses : (n : ℕ) → contains n s.accepted_loss_sequences ≡ false

module _ (s : UplinkState) (r : UplinkRecord) (f : IsFresh s) (w : IsWellFormed s)
    (above : s.committed_through < r.sequence) (below : r.sequence ≤ s.last_allocated)
    (fresh : lookup r.envelope_id s.envelope_sequences ≡ none) where
  retained :
      (n : ℕ) (q : UplinkRecord)
      → lookup n (restored s r).records ≡ some q
      → Retained (restored s r) n q
  retained n q e = ground (
    arith,
    w.retained n q,
    lookup-insert r.sequence n r s.records,
    lookup-insert r.envelope_id q.envelope_id r.sequence s.envelope_sequences,
    text_eq_iff r.envelope_id q.envelope_id,
  )

  restored-IsWellFormed : IsWellFormed (restored s r)
  restored-IsWellFormed = record {
    ordered = w.ordered;
    bounded = w.bounded;
    retained = retained;
    lost = λ n e. cc (f.no_losses n);
    waiting = λ g gap n e c. cc (f.no_gaps g);
    apart = w.apart;
    hints = w.hints;
  }

  restored-IsFresh : IsFresh (restored s r)
  restored-IsFresh = record { no_gaps = f.no_gaps; no_losses = f.no_losses }

record IsStart (committed last : ℕ) (s : UplinkState) : Type 0 where
  cursor : s.committed_through ≡ committed
  allocated : s.last_allocated ≡ last
  fresh : IsFresh s
  valid : IsWellFormed s

restore_step :
    (committed last : ℕ) (s out : UplinkState) (r : UplinkRecord) (rest : List UplinkRecord)
    → restore_records committed last s (r ∷ rest) ≡ ok out
    → (committed < r.sequence)
      × (r.sequence ≤ last)
      × (lookup r.envelope_id s.envelope_sequences ≡ none)
      × (restore_records committed last (restored s r) rest ≡ ok out)
unfolding restore_records
restore_step committed last s out r rest e = ground arith

restore_records-IsStart :
    (committed last : ℕ) (s out : UplinkState) (rs : List UplinkRecord)
    → restore_records committed last s rs ≡ ok out
    → IsStart committed last s
    → IsStart committed last out
unfolding restore_records
restore_records-IsStart committed last s out [] e st =
    let same : s ≡ out = cc in subst (IsStart committed last) same st
restore_records-IsStart committed last s out (r ∷ rs) e st =
    let (above, below, fresh, next) = restore_step committed last s out r rs e in
    restore_records-IsStart committed last (restored s r) out rs next (record {
      cursor = st.cursor;
      allocated = st.allocated;
      fresh =
          restored-IsFresh s r st.fresh st.valid (omega (arith, st.cursor))
            (omega (arith, st.allocated)) fresh;
      valid =
          restored-IsWellFormed s r st.fresh st.valid (omega (arith, st.cursor))
            (omega (arith, st.allocated)) fresh;
    })

abbrev blank : ℕ → ℕ → UplinkState
blank committed last = record (from_committed_through committed) { last_allocated = last }

blank-IsStart :
    (committed last : ℕ)
    → committed ≤ last
    → last ≤ u64_max
    → IsStart committed last (blank committed last)
unfolding lookup
blank-IsStart committed last h b = record {
  cursor = refl;
  allocated = refl;
  fresh = record { no_gaps = λ g. refl; no_losses = λ n. refl };
  valid = record {
    ordered = h;
    bounded = b;
    retained = λ n r e. cc;
    lost = λ n e. cc;
    waiting = λ g gap n e c. cc;
    apart = λ g h' a b' n e. cc;
    hints = tt;
  };
}

-- Whatever rows are stored, a journal that `rehydrate` accepts is well formed, with the stored cursor
-- and the stored last sequence.
pub rehydrate-IsWellFormed :
    (committed last : ℕ) (rs : List UplinkRecord) (out : UplinkState)
    → last ≤ u64_max
    → rehydrate committed last rs ≡ ok out
    → IsWellFormed out × (out.committed_through ≡ committed) × (out.last_allocated ≡ last)
unfolding rehydrate
rehydrate-IsWellFormed committed last rs out b e = elim (Bool-cases (ltb last committed)) [
  | inl bad ↦ absurd (ground arith)
  | inr good ↦
      let st =
        restore_records-IsStart committed last (blank committed last) out rs (ground arith)
          (blank-IsStart committed last (ground arith) b) in
      (st.valid, st.cursor, st.allocated)
]
