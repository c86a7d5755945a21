-- ===== src/Uplink/WellFormed/Observe.antt =====
-- `observe_ack` moves the cursor over confirmed records and settled losses only, and keeps the journal
-- well formed.
use vodoge_edge.Common.{
  ℕ, ◌≤◌, ◌<◌, ◌≡◌, refl, ap, ◌⊎◌, inl, inr, true, false, some, List, [], All, Result, ok, err,
  arith, ltb, ◌==◌, Bool-cases, ltb→lt, not-ltb→le, ==_iff,
}
use vodoge_edge.Common.Keys.{nat_key, text_key}
use vodoge_edge.Common.Dict.{lookup, contains}
use vodoge_edge.Uplink.Types.{
  UplinkGap, GapId, UplinkAck, AckOutcome, UplinkError, ack_beyond_allocated,
  ack_crosses_unresolved_sequence,
}
use vodoge_edge.Uplink.Ranges.Cover.{covers}
use vodoge_edge.Uplink.Journal.{UplinkState}
use vodoge_edge.Uplink.Ack.{validate_missing_hint, apply_ack, observe_ack}
use vodoge_edge.Uplink.GapAck.Advance.{within}
use vodoge_edge.Uplink.WellFormed.{Waiting, IsHint, IsWellFormed}
use vodoge_edge.Uplink.WellFormed.Ack.{hints_of_valid, Crossed, hinted_state, outcome, cross_cases}

Result-cases : {E : Type 0} (r : Result E (Unit {0})) → (r ≡ ok tt) ⊎ ((e : E) × (r ≡ err e))
Result-cases (ok a) = inl refl
Result-cases (err e) = inr (e, refl)

-- What an acknowledgement may do.
pub data Observed (s : UplinkState) (ack : UplinkAck)
    (out : UplinkState × Result UplinkError AckOutcome) : Type 0 where
  stale :
      ack.committed_through < s.committed_through
      → out ≡ (s, ok (outcome s.committed_through [] false))
      → Observed s ack out
  beyond :
      s.last_allocated < ack.committed_through
      → out ≡ (s, err (ack_beyond_allocated ack.committed_through s.last_allocated))
      → Observed s ack out
  bad_hint :
      (e : UplinkError)
      → validate_missing_hint s.last_allocated ack.committed_through ack.missing_ranges ≡ err e
      → out ≡ (s, err e)
      → Observed s ack out
  hinted :
      ack.committed_through ≡ s.committed_through
      → All (IsHint s.committed_through s.last_allocated) ack.missing_ranges
      → out ≡ (hinted_state s ack, ok (outcome s.committed_through [] false))
      → Observed s ack out
  blocked :
      (y : ℕ)
      → within s.committed_through ack.committed_through y ≡ true
      → contains y s.records ≡ false
      → contains y s.accepted_loss_sequences ≡ false
      → out ≡ (s, err (ack_crosses_unresolved_sequence y))
      → Observed s ack out
  crossed :
      (s' : UplinkState) (deleted : List ℕ)
      → out ≡ (s', ok (outcome ack.committed_through deleted true))
      → Crossed s ack s' deleted
      → Observed s ack out

apply_ack-Observed :
    (s : UplinkState) (ack : UplinkAck)
    → s.committed_through ≤ ack.committed_through
    → ack.committed_through ≤ s.last_allocated
    → All (IsHint ack.committed_through s.last_allocated) ack.missing_ranges
    → Observed s ack (apply_ack s ack)
unfolding apply_ack
apply_ack-Observed s ack h k v = elim (Bool-cases (ack.committed_through == s.committed_through)) [
  | inl e ↦
      let e' = (==_iff ack.committed_through s.committed_through).0 e in
      hinted e' (rw e' at v) (rw (e, apply_ack))
  | inr e ↦ elim (cross_cases s ack (ground arith) k v) [
    | inl (y, i, r, l, q) ↦ blocked y i r l (rw (e, apply_ack) q)
    | inr (s', deleted, q, c) ↦ crossed s' deleted (rw (e, apply_ack) q) c
  ]
]

-- Every acknowledgement does one of six things; the first three and a blocked one change nothing.
pub observe_ack-Observed : (s : UplinkState) (ack : UplinkAck) → Observed s ack (observe_ack s ack)
unfolding observe_ack
observe_ack-Observed s ack = elim (Bool-cases (ltb ack.committed_through s.committed_through)) [
  | inl e ↦ stale (ltb→lt _ _ e) (rw (e, observe_ack))
  | inr e ↦ elim (Bool-cases (ltb s.last_allocated ack.committed_through)) [
    | inl f ↦ beyond (ltb→lt _ _ f) (rw (e, f, observe_ack))
    | inr f ↦
        elim (Result-cases
          (validate_missing_hint s.last_allocated ack.committed_through ack.missing_ranges)) [
            | inr (x, g) ↦ bad_hint x g (rw (e, f, g, observe_ack))
            | inl g ↦
                rw (e, f, g, observe_ack)
                  (apply_ack-Observed s ack (not-ltb→le _ _ e) (not-ltb→le _ _ f)
                    (hints_of_valid s.last_allocated ack.committed_through ack.missing_ranges g))
          ]
  ]
]

module _ (s : UplinkState) (ack : UplinkAck) (s' : UplinkState) (deleted : List ℕ)
    (w : IsWellFormed s) (c : Crossed s ack s' deleted) where
  waiting :
      (g : GapId) (gap : UplinkGap) (n : ℕ)
      → lookup g s'.pending_gaps ≡ some gap
      → covers gap.ranges n ≡ true
      → Waiting s' n
  waiting g gap n e v = ground (
    arith,
    w.waiting g gap n (rw c.same_pending at e) v,
    c.confirmed n,
    c.kept n,
    c.settled n,
    c.cursor,
    c.same_last,
  )

  crossed-IsWellFormed : IsWellFormed s'
  crossed-IsWellFormed = record {
    ordered = omega (arith, c.allocated, c.cursor, c.same_last);
    bounded = omega (arith, w.bounded, c.same_last);
    retained = λ n r e. ground (
      arith,
      w.retained n r,
      c.kept n,
      c.cursor,
      c.same_last,
      ap (lookup r.envelope_id) c.same_ids,
    );
    lost = λ n e. ground (arith, w.lost n, c.kept n, c.settled n, c.cursor, c.same_last);
    waiting = waiting;
    apart = λ g h a b n e f. w.apart g h a b n (rw c.same_pending at e) (rw c.same_pending at f);
    hints = rw (c.cursor, c.same_last, c.hinted) c.valid_hints;
  }

hinted-IsWellFormed :
    (s : UplinkState) (ack : UplinkAck)
    → All (IsHint s.committed_through s.last_allocated) ack.missing_ranges
    → IsWellFormed s
    → IsWellFormed (hinted_state s ack)
hinted-IsWellFormed s ack v w = record {
  ordered = w.ordered;
  bounded = w.bounded;
  retained = λ n r e. ground (arith, w.retained n r);
  lost = λ n e. ground (arith, w.lost n);
  waiting = λ g gap n e c. ground (arith, w.waiting g gap n);
  apart = w.apart;
  hints = v;
}

pub observe_ack-IsWellFormed :
    (s : UplinkState) (ack : UplinkAck) → IsWellFormed s → IsWellFormed (observe_ack s ack).0
observe_ack-IsWellFormed s ack w = elim (observe_ack-Observed s ack) [
  | stale h e ↦ rw e w
  | beyond h e ↦ rw e w
  | bad_hint x h e ↦ rw e w
  | hinted h v e ↦ rw e (hinted-IsWellFormed s ack v w)
  | blocked y i r l e ↦ rw e w
  | crossed s' deleted e c ↦ rw e (crossed-IsWellFormed s ack s' deleted w c)
]
