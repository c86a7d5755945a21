-- ===== src/Uplink/Accounting.antt =====
-- No allocated sequence is lost silently: above the cursor each one is retained, named by a marker that
-- waits, or an accepted loss.
use vodoge_edge.Common.{
  ℕ, ◌+◌, ◌≤◌, ◌<◌, ◌≡◌, refl, ap, inl, inr, true, some, List, [], ◌∷◌, arith, ◌==◌, Bool-cases,
}
use vodoge_edge.Common.Text.{Text}
use vodoge_edge.Common.Keys.{nat_key, text_key, text_eq_iff}
use vodoge_edge.Common.Dict.{lookup, contains, lookup-insert, lookup-remove, lookup-insert_self}
use vodoge_edge.Uplink.Types.{EnvelopeId, GapId, RetentionClass, UplinkGap, UplinkAck}
use vodoge_edge.Uplink.Ranges.Cover.{covers, among}
use vodoge_edge.Uplink.Journal.{UplinkState, new_state, append}
use vodoge_edge.Uplink.Loss.{declare_loss}
use vodoge_edge.Uplink.GapAck.{accept_gap}
use vodoge_edge.Uplink.Ack.{observe_ack}
use vodoge_edge.Uplink.WellFormed.{IsWellFormed, new_state-IsWellFormed}
use vodoge_edge.Uplink.WellFormed.Append.{entry, known, exhausted, fresh, append-Appends}
use vodoge_edge.Uplink.WellFormed.Loss.{GaveUp, declare_loss_cases}
use vodoge_edge.Uplink.WellFormed.Accept.{Accepted, Accepts, unknown, settles, accept_gap-Accepts}
use vodoge_edge.Uplink.WellFormed.Ack.{Crossed, hinted_state}
use vodoge_edge.Uplink.WellFormed.Observe.{
  stale, beyond, bad_hint, hinted, blocked, crossed, observe_ack-Observed,
}
use vodoge_edge.Uplink.History.{
  Call, appends, declares, accepts, observes, step, run, step-IsWellFormed,
}

-- Where a sequence above the cursor is.
pub data Account (s : UplinkState) (n : ℕ) : Type 0 where
  retained : contains n s.records ≡ true → Account s n
  lost : contains n s.accepted_loss_sequences ≡ true → Account s n
  waits :
      (g : GapId) (gap : UplinkGap)
      → lookup g s.pending_gaps ≡ some gap
      → covers gap.ranges n ≡ true
      → Account s n

pub record IsAccounted (s : UplinkState) : Type 0 where
  pub at : (n : ℕ) → s.committed_through < n → n ≤ s.last_allocated → Account s n

append-IsAccounted :
    (s : UplinkState) (id : EnvelopeId) (payload : List ℕ) (retention : RetentionClass)
    → IsAccounted s
    → IsAccounted (append s id payload retention).0
append-IsAccounted s id payload retention a = elim (append-Appends s id payload retention) [
  | known n e h ↦ rw h a
  | exhausted e full h ↦ rw h a
  | fresh e room h ↦ rw h (record {
    at = λ n c l. elim (Bool-cases (s.last_allocated + 1 == n)) [
      | inl new ↦ retained (
          ground (
            arith,
            lookup-insert (s.last_allocated + 1) n (entry s id payload retention) s.records,
          ))
      | inr old ↦ elim (a.at n c (ground arith)) [
        | retained r ↦ retained (
            ground (
              arith,
              lookup-insert (s.last_allocated + 1) n (entry s id payload retention) s.records,
            ))
        | lost r ↦ lost r
        | waits g gap e v ↦ waits g gap e v
      ]
    ];
  })
]

GaveUp-IsAccounted :
    (s : UplinkState) (g : GapId) (xs : List ℕ) (s' : UplinkState) (gap : UplinkGap)
    → GaveUp s g xs s' gap
    → IsAccounted s
    → IsAccounted s'
GaveUp-IsAccounted s g xs s' gap d a = record {
  at = λ n c l. elim (Bool-cases (among xs n)) [
    | inl m ↦ waits g gap (rw d.marked (lookup-insert_self g gap s.pending_gaps)) (rw (d.named n) m)
    | inr m ↦ elim (a.at n (omega (arith, d.same_cursor)) (omega (arith, d.same_last))) [
      | retained r ↦ retained (ground (arith, d.kept n))
      | lost r ↦ lost (rw d.same_losses r)
      | waits h b e v ↦
          waits h b
            (rw d.marked
              (ground (arith, text_eq_iff g h, d.new.0, lookup-insert g h gap s.pending_gaps)))
            v
    ]
  ];
}

Accepted-IsAccounted :
    (s : UplinkState) (g : GapId) (gap : UplinkGap) (s' : UplinkState)
    → lookup g s.pending_gaps ≡ some gap
    → Accepted s g gap s'
    → IsAccounted s
    → IsAccounted s'
Accepted-IsAccounted s g gap s' p d a = record {
  at = λ n c l. elim (a.at n (omega (arith, d.forward)) (omega (arith, d.same_last))) [
    | retained r ↦ retained (rw d.same_records r)
    | lost r ↦ lost (ground (arith, d.settled n))
    | waits h b e v ↦ elim (Bool-cases (text_key.beq g h)) [
      | inl same ↦ lost (
          ground (
            arith,
            d.settled n,
            text_eq_iff g h,
            ap (λ k. lookup k s.pending_gaps) ((text_eq_iff g h).0 same),
          ))
      | inr other ↦ waits h b (rw d.gone (rw (lookup-remove g h s.pending_gaps, other) e)) v
    ]
  ];
}

Crossed-IsAccounted :
    (s : UplinkState) (ack : UplinkAck) (s' : UplinkState) (deleted : List ℕ)
    → Crossed s ack s' deleted
    → IsAccounted s
    → IsAccounted s'
Crossed-IsAccounted s ack s' deleted d a = record {
  at = λ n c l. elim (a.at n (omega (arith, d.ahead, d.cursor)) (omega (arith, d.same_last))) [
    | retained r ↦ retained (ground (arith, d.kept n, d.cursor))
    | lost r ↦ lost (ground (arith, d.settled n, d.cursor))
    | waits h b e v ↦ waits h b (rw d.same_pending e) v
  ];
}

hinted-IsAccounted :
    (s : UplinkState) (ack : UplinkAck) → IsAccounted s → IsAccounted (hinted_state s ack)
hinted-IsAccounted s ack a = record {
  at = λ n c l. elim (a.at n c l) [
    | retained r ↦ retained r
    | lost r ↦ lost r
    | waits h b e v ↦ waits h b e v
  ];
}

declare_loss-IsAccounted :
    (s : UplinkState) (g : GapId) (xs : List ℕ) (reason : Text)
    → IsAccounted s
    → IsAccounted (declare_loss s g xs reason).0
declare_loss-IsAccounted s g xs reason a = elim (declare_loss_cases s g xs reason) [
  | inl (e, h) ↦ rw h a
  | inr (s', gap, h, d) ↦ rw h (GaveUp-IsAccounted s g xs s' gap d a)
]

accept_gap-IsAccounted :
    (s : UplinkState) (g : GapId) → IsWellFormed s → IsAccounted s → IsAccounted (accept_gap s g).0
accept_gap-IsAccounted s g w a = elim (accept_gap-Accepts s g w) [
  | Accepts.known old h ↦ rw h a
  | unknown new miss h ↦ rw h a
  | settles gap s' new p h d ↦ rw h (Accepted-IsAccounted s g gap s' p d a)
]

observe_ack-IsAccounted :
    (s : UplinkState) (ack : UplinkAck) → IsAccounted s → IsAccounted (observe_ack s ack).0
observe_ack-IsAccounted s ack a = elim (observe_ack-Observed s ack) [
  | stale h e ↦ rw e a
  | beyond h e ↦ rw e a
  | bad_hint x h e ↦ rw e a
  | hinted h v e ↦ rw e (hinted-IsAccounted s ack a)
  | blocked y i r l e ↦ rw e a
  | crossed s' deleted e c ↦ rw e (Crossed-IsAccounted s ack s' deleted c a)
]

step-IsAccounted :
    (s : UplinkState) (c : Call) → IsWellFormed s → IsAccounted s → IsAccounted (step s c)
unfolding step
step-IsAccounted s (appends id payload retention) w a = append-IsAccounted s id payload retention a
step-IsAccounted s (declares g xs reason) w a = declare_loss-IsAccounted s g xs reason a
step-IsAccounted s (accepts g) w a = accept_gap-IsAccounted s g w a
step-IsAccounted s (observes ack) w a = observe_ack-IsAccounted s ack a

run-IsAccounted :
    (s : UplinkState) (cs : List Call) → IsWellFormed s → IsAccounted s → IsAccounted (run s cs)
unfolding run
run-IsAccounted s [] w a = a
run-IsAccounted s (c ∷ cs) w a =
    run-IsAccounted (step s c) cs (step-IsWellFormed s c w) (step-IsAccounted s c w a)

new_state-IsAccounted : IsAccounted new_state
new_state-IsAccounted = record { at = λ n c l. absurd (omega arith) }

-- After any calls made of a new journal, every sequence that was allocated and lies above the cursor is
-- retained, an accepted loss, or named by a loss marker that waits for its acknowledgement.
pub no_silent_loss :
    (cs : List Call) (n : ℕ)
    → (run new_state cs).committed_through < n
    → n ≤ (run new_state cs).last_allocated
    → Account (run new_state cs) n
no_silent_loss cs = (run-IsAccounted new_state cs new_state-IsWellFormed new_state-IsAccounted).at

-- An acknowledgement, accepted or not, leaves every record above the cursor that it names as it was,
-- whatever ranges it reports missing.
pub ack_keeps_unconfirmed :
    (s : UplinkState) (ack : UplinkAck) (n : ℕ)
    → ack.committed_through < n
    → lookup n (observe_ack s ack).0.records ≡ lookup n s.records
ack_keeps_unconfirmed s ack n h = elim (observe_ack-Observed s ack) [
  | stale l e ↦ rw e refl
  | beyond l e ↦ rw e refl
  | bad_hint x l e ↦ rw e refl
  | hinted l v e ↦ rw e refl
  | blocked y i r l e ↦ rw e refl
  | crossed s' deleted e c ↦ rw e (ground (arith, c.kept n))
]
