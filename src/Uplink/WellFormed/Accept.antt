-- ===== src/Uplink/WellFormed/Accept.antt =====
-- `accept_gap` moves the cursor over settled losses only, and keeps the journal well formed.
use vodoge_edge.Common.{
  ℕ, ◌≤◌, ◌≡◌, ap, ◌∙◌, inl, inr, Bool, true, false, ◌||◌, ◌&&◌, not, none, some, Result, ok, err,
  arith, ltb, Bool-cases, Option-cases,
}
use vodoge_edge.Common.Keys.{nat_key, text_key}
use vodoge_edge.Common.Dict.{lookup, contains, remove, lookup-insert_self}
use vodoge_edge.Uplink.Types.{UplinkGap, GapId, GapAckOutcome, UplinkError, unknown_gap_id}
use vodoge_edge.Uplink.Ranges.Cover.{covers}
use vodoge_edge.Uplink.Journal.{UplinkState}
use vodoge_edge.Uplink.GapAck.{
  advance_across_accepted_losses, accept_pending, accept_new_gap, accept_gap,
}
use vodoge_edge.Uplink.GapAck.Advance.{contains-insert_ranges, within}
use vodoge_edge.Uplink.WellFormed.{IsWellFormed}
use vodoge_edge.Uplink.WellFormed.GapAck.{settled-IsWellFormed, Onward, advance_lem}

abbrev outcome : GapId → UplinkState → Bool → Bool → GapAckOutcome
outcome g s advanced already = record {
  gap_id = g;
  committed_through = s.committed_through;
  advanced = advanced;
  already_accepted = already;
}

-- What a newly accepted marker has done: the cursor has passed only sequences of the marker and
-- losses accepted before, no record is touched, and the marker is among the accepted ones.
pub record Accepted (s : UplinkState) (g : GapId) (gap : UplinkGap) (s' : UplinkState)
    : Type 0 where
  pub forward : s.committed_through ≤ s'.committed_through
  pub crossed :
      (n : ℕ)
      → within s.committed_through s'.committed_through n ≡ true
      → (covers gap.ranges n || contains n s.accepted_loss_sequences) ≡ true
  pub settled :
      (n : ℕ)
      → contains n s'.accepted_loss_sequences ≡ (
          (covers gap.ranges n || contains n s.accepted_loss_sequences)
          && not (within s.committed_through s'.committed_through n))
  pub same_records : s'.records ≡ s.records
  pub same_last : s'.last_allocated ≡ s.last_allocated
  pub same_ids : s'.envelope_sequences ≡ s.envelope_sequences
  pub gone : s'.pending_gaps ≡ remove g s.pending_gaps
  pub kept : contains g s'.accepted_gaps ≡ true
  pub valid : IsWellFormed s'

Accepted-of_Onward :
    (s : UplinkState) (g : GapId) (gap : UplinkGap) (out : UplinkState × Bool)
    → Onward (accept_pending s g gap) out
    → Accepted s g gap out.0
unfolding accept_pending
Accepted-of_Onward s g gap out o = record {
  forward = omega (arith, o.advanced.forward, o.cursor);
  crossed = λ n h. ground (
    arith,
    o.advanced.crossed n,
    o.cursor,
    contains-insert_ranges gap.ranges n s.accepted_loss_sequences,
  );
  settled = λ n. ground (
    arith,
    ap (contains n) o.losses,
    o.advanced.left n,
    o.cursor,
    contains-insert_ranges gap.ranges n s.accepted_loss_sequences,
  );
  same_records = o.same_records;
  same_last = o.same_last;
  same_ids = o.same_ids;
  gone = o.same_pending;
  kept = ground (arith, ap (contains g) o.same_accepted, lookup-insert_self g gap s.accepted_gaps);
  valid = o.valid;
}

accept_new_lem :
    (s : UplinkState) (g : GapId) (gap : UplinkGap)
    → lookup g s.pending_gaps ≡ some gap
    → let r = advance_across_accepted_losses (accept_pending s g gap) in
      accept_new_gap s g ≡ (r.0, ok (outcome g r.0 r.1 false))
unfolding accept_new_gap
accept_new_lem s g gap p = rw (p, accept_new_gap)

accept_gap_lem :
    (s : UplinkState) (g : GapId) (gap : UplinkGap)
    → contains g s.accepted_gaps ≡ false
    → lookup g s.pending_gaps ≡ some gap
    → let r = advance_across_accepted_losses (accept_pending s g gap) in
      Onward (accept_pending s g gap) r
      → accept_gap s g
        ≡ (r.0, ok (outcome g r.0 (ltb s.committed_through r.0.committed_through) false))
unfolding accept_gap accept_pending
accept_gap_lem s g gap new p o =
    let r = advance_across_accepted_losses (accept_pending s g gap) in
    let flag : r.1 ≡ ltb s.committed_through r.0.committed_through =
      ground (arith, o.flag, o.cursor) in
    rw (new, accept_gap)
      (accept_new_lem s g gap p ∙ ap (λ b. (r.0, ok (outcome g r.0 b false))) flag)

-- What `accept_gap` may do.
pub data Accepts (s : UplinkState) (g : GapId)
    (out : UplinkState × Result UplinkError GapAckOutcome) : Type 0 where
  known :
      contains g s.accepted_gaps ≡ true → out ≡ (s, ok (outcome g s false true)) → Accepts s g out
  unknown :
      contains g s.accepted_gaps ≡ false
      → lookup g s.pending_gaps ≡ none
      → out ≡ (s, err (unknown_gap_id g))
      → Accepts s g out
  settles :
      (gap : UplinkGap) (s' : UplinkState)
      → contains g s.accepted_gaps ≡ false
      → lookup g s.pending_gaps ≡ some gap
      → out ≡ (s', ok (outcome g s' (ltb s.committed_through s'.committed_through) false))
      → Accepted s g gap s'
      → Accepts s g out

-- `accept_gap` on a well-formed journal answers a known marker and refuses an unknown one without a
-- change. A marker that waits it settles: the cursor passes only sequences of the marker and losses
-- accepted before, the outcome says whether it moved, the accepted losses are those ahead of it, no
-- record is touched, and the marker is then among the accepted ones.
pub accept_gap-Accepts :
    (s : UplinkState) (g : GapId) → IsWellFormed s → Accepts s g (accept_gap s g)
unfolding accept_gap accept_new_gap
accept_gap-Accepts s g w = elim (Bool-cases (contains g s.accepted_gaps)) [
  | inl old ↦ known old (rw (old, accept_gap))
  | inr new ↦ elim (Option-cases (lookup g s.pending_gaps)) [
    | inl miss ↦ unknown new miss (rw (new, miss, accept_gap, accept_new_gap))
    | inr (gap, p) ↦
        let o = advance_lem (accept_pending s g gap) (settled-IsWellFormed s g gap w p) in
        settles gap (advance_across_accepted_losses (accept_pending s g gap)).0 new p
          (accept_gap_lem s g gap new p o) (Accepted-of_Onward s g gap _ o)
  ]
]

pub accept_gap-IsWellFormed :
    (s : UplinkState) (g : GapId) → IsWellFormed s → IsWellFormed (accept_gap s g).0
accept_gap-IsWellFormed s g w = elim (accept_gap-Accepts s g w) [
  | known old h ↦ rw h w
  | unknown new miss h ↦ rw h w
  | settles gap s' new p h a ↦ rw h a.valid
]
