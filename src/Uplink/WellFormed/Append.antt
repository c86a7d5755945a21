-- ===== src/Uplink/WellFormed/Append.antt =====
-- `append` keeps the journal well formed.
use vodoge_edge.Common.{
  ℕ, ◌+◌, ◌≤◌, ◌<◌, ◌≡◌, inl, inr, true, none, some, List, All-mono, Result, ok, err, ltb, arith,
  ltb→lt, not-ltb→le, Bool-cases, Option-cases,
}
use vodoge_edge.Common.Keys.{nat_key, text_key, text_eq_iff}
use vodoge_edge.Common.Dict.{lookup, contains, insert, lookup-insert}
use vodoge_edge.Uplink.Types.{
  UplinkRecord, UplinkGap, UplinkError, RetentionClass, EnvelopeId, GapId, u64_max,
  sequence_exhausted, duplicate_envelope_id,
}
use vodoge_edge.Uplink.Ranges.Cover.{covers}
use vodoge_edge.Uplink.Journal.{UplinkState, allocate, append}
use vodoge_edge.Uplink.WellFormed.{Retained, Lost, Waiting, IsWellFormed}

abbrev pub entry : UplinkState → EnvelopeId → List ℕ → RetentionClass → UplinkRecord
entry s id payload retention = record {
  sequence = s.last_allocated + 1;
  envelope_id = id;
  payload = payload;
  retention = retention;
}

-- The state after a successful `append`.
abbrev pub appended : UplinkState → EnvelopeId → List ℕ → RetentionClass → UplinkState
appended s id payload retention = record s {
  last_allocated = s.last_allocated + 1;
  envelope_sequences = insert id (s.last_allocated + 1) s.envelope_sequences;
  records = insert (s.last_allocated + 1) (entry s id payload retention) s.records;
}

module _ (s : UplinkState) (id : EnvelopeId) (payload : List ℕ) (retention : RetentionClass)
    (w : IsWellFormed s) (unseen : lookup id s.envelope_sequences ≡ none)
    (room : s.last_allocated < u64_max) where
  retained :
      (n : ℕ) (r : UplinkRecord)
      → lookup n (appended s id payload retention).records ≡ some r
      → Retained (appended s id payload retention) n r
  retained n r e = ground (
    arith,
    w.retained n r,
    w.ordered,
    lookup-insert (s.last_allocated + 1) n (entry s id payload retention) s.records,
    lookup-insert id r.envelope_id (s.last_allocated + 1) s.envelope_sequences,
    text_eq_iff id r.envelope_id,
  )

  lost :
      (n : ℕ)
      → contains n s.accepted_loss_sequences ≡ true
      → Lost (appended s id payload retention) n
  lost n e = ground (
    arith,
    w.lost n,
    lookup-insert (s.last_allocated + 1) n (entry s id payload retention) s.records,
  )

  waiting :
      (g : GapId) (gap : UplinkGap) (n : ℕ)
      → lookup g s.pending_gaps ≡ some gap
      → covers gap.ranges n ≡ true
      → Waiting (appended s id payload retention) n
  waiting g gap n e c = ground (
    arith,
    w.waiting g gap n,
    lookup-insert (s.last_allocated + 1) n (entry s id payload retention) s.records,
  )

  appended-IsWellFormed : IsWellFormed (appended s id payload retention)
  appended-IsWellFormed = record {
    ordered = omega (arith, w.ordered);
    bounded = omega arith;
    retained = retained;
    lost = lost;
    waiting = waiting;
    apart = w.apart;
    hints = All-mono _ _ s.missing_ranges (λ r h. (h.0, omega (arith, h.1))) w.hints;
  }

-- What `append` may do.
pub data Appends (s : UplinkState) (id : EnvelopeId) (payload : List ℕ) (retention : RetentionClass)
    (out : UplinkState × Result UplinkError ℕ) : Type 0 where
  known :
      (n : ℕ)
      → lookup id s.envelope_sequences ≡ some n
      → out ≡ (s, err (duplicate_envelope_id id n))
      → Appends s id payload retention out
  exhausted :
      lookup id s.envelope_sequences ≡ none
      → u64_max ≤ s.last_allocated
      → out ≡ (s, err sequence_exhausted)
      → Appends s id payload retention out
  fresh :
      lookup id s.envelope_sequences ≡ none
      → s.last_allocated < u64_max
      → out ≡ (appended s id payload retention, ok (s.last_allocated + 1))
      → Appends s id payload retention out

-- `append` gives an envelope that has no sequence the next one, and stores it under that sequence. It
-- fails, and changes nothing, for an envelope that has one, which it names, and when none is left.
pub append-Appends :
    (s : UplinkState) (id : EnvelopeId) (payload : List ℕ) (retention : RetentionClass)
    → Appends s id payload retention (append s id payload retention)
unfolding append
append-Appends s id payload retention = elim (Option-cases (lookup id s.envelope_sequences)) [
  | inr (n, e) ↦ known n e (rw (e, append))
  | inl e ↦ elim (Bool-cases (ltb s.last_allocated u64_max)) [
    | inl room ↦ fresh e (ltb→lt _ _ room) (rw (e, room, append, allocate))
    | inr full ↦ exhausted e (not-ltb→le _ _ full) (rw (e, full, append, allocate))
  ]
]

pub append-IsWellFormed :
    (s : UplinkState) (id : EnvelopeId) (payload : List ℕ) (retention : RetentionClass)
    → IsWellFormed s
    → IsWellFormed (append s id payload retention).0
append-IsWellFormed s id payload retention w = elim (append-Appends s id payload retention) [
  | known n e h ↦ rw h w
  | exhausted e full h ↦ rw h w
  | fresh e room h ↦ rw h (appended-IsWellFormed s id payload retention w e room)
]
