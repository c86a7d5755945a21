-- ===== src/Uplink/History.antt =====
-- Histories of calls of `UplinkState`: what any sequence of them keeps.
use vodoge_edge.Common.{ℕ, ◌+◌, ◌≤◌, ◌≡◌, inl, inr, some, List, [], ◌∷◌, arith}
use vodoge_edge.Common.Text.{Text}
use vodoge_edge.Common.Keys.{nat_key, text_key, text_eq_iff}
use vodoge_edge.Common.Dict.{lookup, lookup-insert}
use vodoge_edge.Uplink.Types.{EnvelopeId, GapId, RetentionClass, UplinkAck}
use vodoge_edge.Uplink.Journal.{UplinkState, append}
use vodoge_edge.Uplink.Loss.{declare_loss}
use vodoge_edge.Uplink.GapAck.{accept_gap}
use vodoge_edge.Uplink.Ack.{observe_ack}
use vodoge_edge.Uplink.WellFormed.{IsWellFormed}
use vodoge_edge.Uplink.WellFormed.Append.{
  known, exhausted, fresh, append-Appends, append-IsWellFormed,
}
use vodoge_edge.Uplink.WellFormed.Loss.{declare_loss_cases, declare_loss-IsWellFormed}
use vodoge_edge.Uplink.WellFormed.Accept.{
  Accepts, unknown, settles, accept_gap-Accepts, accept_gap-IsWellFormed,
}
use vodoge_edge.Uplink.WellFormed.Observe.{
  stale, beyond, bad_hint, hinted, blocked, crossed, observe_ack-Observed, observe_ack-IsWellFormed,
}

-- One call of a method that takes `&mut self`.
pub data Call : Type 0 where
  appends : EnvelopeId → List ℕ → RetentionClass → Call
  declares : GapId → List ℕ → Text → Call
  accepts : GapId → Call
  observes : UplinkAck → Call

unfoldable pub step : UplinkState → Call → UplinkState
step s (appends id payload retention) = (append s id payload retention).0
step s (declares g xs reason) = (declare_loss s g xs reason).0
step s (accepts g) = (accept_gap s g).0
step s (observes ack) = (observe_ack s ack).0

unfoldable pub run : UplinkState → List Call → UplinkState
run s [] = s
run s (c ∷ cs) = run (step s c) cs

pub step-IsWellFormed : (s : UplinkState) (c : Call) → IsWellFormed s → IsWellFormed (step s c)
unfolding step
step-IsWellFormed s (appends id payload retention) w = append-IsWellFormed s id payload retention w
step-IsWellFormed s (declares g xs reason) w = declare_loss-IsWellFormed s g xs reason w
step-IsWellFormed s (accepts g) w = accept_gap-IsWellFormed s g w
step-IsWellFormed s (observes ack) w = observe_ack-IsWellFormed s ack w

-- `t` may come after `s`.
pub record IsLater (s t : UplinkState) : Type 0 where
  pub cursor : s.committed_through ≤ t.committed_through
  pub allocated : s.last_allocated ≤ t.last_allocated
  pub identities :
      (id : EnvelopeId) (n : ℕ)
      → lookup id s.envelope_sequences ≡ some n
      → lookup id t.envelope_sequences ≡ some n

IsLater-refl : (s : UplinkState) → IsLater s s
IsLater-refl s = record { cursor = omega arith; allocated = omega arith; identities = λ id n e. e }

IsLater-trans : (s t u : UplinkState) → IsLater s t → IsLater t u → IsLater s u
IsLater-trans s t u a b = record {
  cursor = omega (arith, a.cursor, b.cursor);
  allocated = omega (arith, a.allocated, b.allocated);
  identities = λ id n e. b.identities id n (a.identities id n e);
}

append-IsLater :
    (s : UplinkState) (id : EnvelopeId) (payload : List ℕ) (retention : RetentionClass)
    → IsLater s (append s id payload retention).0
append-IsLater s id payload retention = elim (append-Appends s id payload retention) [
  | known n e h ↦ rw h (IsLater-refl s)
  | exhausted e full h ↦ rw h (IsLater-refl s)
  | fresh e room h ↦ rw h (record {
    cursor = omega arith;
    allocated = omega arith;
    identities = λ j n f.
        ground
          (arith, text_eq_iff id j, lookup-insert id j (s.last_allocated + 1) s.envelope_sequences);
  })
]

declare_loss-IsLater :
    (s : UplinkState) (g : GapId) (xs : List ℕ) (reason : Text)
    → IsLater s (declare_loss s g xs reason).0
declare_loss-IsLater s g xs reason = elim (declare_loss_cases s g xs reason) [
  | inl (e, h) ↦ rw h (IsLater-refl s)
  | inr (s', gap, h, d) ↦ rw h (record {
    cursor = omega (arith, d.same_cursor);
    allocated = omega (arith, d.same_last);
    identities = λ j n f. rw d.same_ids f;
  })
]

accept_gap-IsLater : (s : UplinkState) (g : GapId) → IsWellFormed s → IsLater s (accept_gap s g).0
accept_gap-IsLater s g w = elim (accept_gap-Accepts s g w) [
  | Accepts.known old h ↦ rw h (IsLater-refl s)
  | unknown new miss h ↦ rw h (IsLater-refl s)
  | settles gap s' new p h a ↦ rw h (record {
    cursor = a.forward;
    allocated = omega (arith, a.same_last);
    identities = λ j n f. rw a.same_ids f;
  })
]

observe_ack-IsLater : (s : UplinkState) (ack : UplinkAck) → IsLater s (observe_ack s ack).0
observe_ack-IsLater s ack = elim (observe_ack-Observed s ack) [
  | stale h e ↦ rw e (IsLater-refl s)
  | beyond h e ↦ rw e (IsLater-refl s)
  | bad_hint x h e ↦ rw e (IsLater-refl s)
  | hinted h v e ↦
      rw e (record { cursor = omega arith; allocated = omega arith; identities = λ j n f. f })
  | blocked y i r l e ↦ rw e (IsLater-refl s)
  | crossed s' deleted e c ↦ rw e (record {
    cursor = omega (arith, c.ahead, c.cursor);
    allocated = omega (arith, c.same_last);
    identities = λ j n f. rw c.same_ids f;
  })
]

step-IsLater : (s : UplinkState) (c : Call) → IsWellFormed s → IsLater s (step s c)
unfolding step
step-IsLater s (appends id payload retention) w = append-IsLater s id payload retention
step-IsLater s (declares g xs reason) w = declare_loss-IsLater s g xs reason
step-IsLater s (accepts g) w = accept_gap-IsLater s g w
step-IsLater s (observes ack) w = observe_ack-IsLater s ack

-- Whatever calls are made of a well-formed journal, whether they fail or not, it stays well formed, its
-- cursor and its last allocated sequence never go back, and an envelope keeps the sequence that it was
-- given.
pub run-IsLater :
    (s : UplinkState) (cs : List Call)
    → IsWellFormed s
    → IsWellFormed (run s cs) × IsLater s (run s cs)
unfolding run
run-IsLater s [] w = (w, IsLater-refl s)
run-IsLater s (c ∷ cs) w =
    let (valid, later) = run-IsLater (step s c) cs (step-IsWellFormed s c w) in
    (valid, IsLater-trans s (step s c) (run (step s c) cs) (step-IsLater s c w) later)
