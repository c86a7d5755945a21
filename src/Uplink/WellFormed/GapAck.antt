-- ===== src/Uplink/WellFormed/GapAck.antt =====
-- The steps of `accept_gap`: a settled marker, and the cursor that moves on.
use vodoge_edge.Common.{
  ℕ, suc, ◌≡◌, refl, inl, inr, Bool, true, false, some, List, [], ◌∷◌, All, arith, if◌then◌else◌,
  length, ltb, ◌==◌, Bool-cases, ==_iff,
}
use vodoge_edge.Common.Keys.{nat_key, text_key, text_eq_iff}
use vodoge_edge.Common.Dict.{Dict, lookup, contains, remove, lookup-remove}
use vodoge_edge.Uplink.Types.{SequenceRange, UplinkGap, GapId, u64_max}
use vodoge_edge.Uplink.Ranges.Cover.{covers}
use vodoge_edge.Uplink.Journal.{UplinkState}
use vodoge_edge.Uplink.GapAck.{
  insert_ranges, advance_loop, prune_ranges, prune_committed_missing_ranges,
  advance_across_accepted_losses, accept_pending,
}
use vodoge_edge.Uplink.GapAck.Advance.{contains-insert_ranges, Advanced, advance_loop-Advanced}
use vodoge_edge.Uplink.WellFormed.{Lost, Waiting, IsHint, IsWellFormed}

module _ (s : UplinkState) (g : GapId) (gap : UplinkGap) (w : IsWellFormed s)
    (p : lookup g s.pending_gaps ≡ some gap) where
  settled-Lost :
      (n : ℕ)
      → contains n (insert_ranges gap.ranges s.accepted_loss_sequences) ≡ true
      → Lost (accept_pending s g gap) n
  unfolding accept_pending
  settled-Lost n e = ground (
    arith,
    w.lost n,
    w.waiting g gap n,
    contains-insert_ranges gap.ranges n s.accepted_loss_sequences,
  )

  settled-Waiting :
      (h : GapId) (b : UplinkGap) (n : ℕ)
      → lookup h (remove g s.pending_gaps) ≡ some b
      → covers b.ranges n ≡ true
      → Waiting (accept_pending s g gap) n
  unfolding accept_pending
  settled-Waiting h b n e c = ground (
    arith,
    w.waiting h b n,
    w.apart g h gap b n,
    lookup-remove g h s.pending_gaps,
    text_eq_iff g h,
    contains-insert_ranges gap.ranges n s.accepted_loss_sequences,
  )

  settled_apart :
      (h k : GapId) (a b : UplinkGap) (n : ℕ)
      → lookup h (remove g s.pending_gaps) ≡ some a
      → lookup k (remove g s.pending_gaps) ≡ some b
      → covers a.ranges n ≡ true
      → covers b.ranges n ≡ true
      → h ≡ k
  settled_apart h k a b n e f c c' =
      ground (
        arith,
        w.apart h k a b n,
        lookup-remove g h s.pending_gaps,
        lookup-remove g k s.pending_gaps,
      )

  pub settled-IsWellFormed : IsWellFormed (accept_pending s g gap)
  unfolding accept_pending
  settled-IsWellFormed = record {
    ordered = w.ordered;
    bounded = w.bounded;
    retained = λ n r e. ground (arith, w.retained n r);
    lost = settled-Lost;
    waiting = settled-Waiting;
    apart = settled_apart;
    hints = w.hints;
  }

prune-IsHint :
    (c d last : ℕ) (rs : List SequenceRange)
    → All (IsHint c last) rs
    → All (IsHint d last) (prune_ranges d rs)
unfolding prune_ranges
prune-IsHint c d last [] h = tt
prune-IsHint c d last (r ∷ rs) h = ground (arith, prune-IsHint c d last rs h.1)

abbrev moved : UplinkState → ℕ × Dict ℕ (Unit {0}) → UplinkState
moved s r = record s { committed_through = r.0; accepted_loss_sequences = r.1 }

module _ (s : UplinkState) (r : ℕ × Dict ℕ (Unit {0})) (rs : List SequenceRange) (more : Bool)
    (w : IsWellFormed s) (a : Advanced s.committed_through s.accepted_loss_sequences r)
    (hints : All (IsHint r.0 s.last_allocated) rs) where
  abbrev onward : UplinkState
  onward = record (moved s r) { missing_ranges = rs; more_missing = more }

  onward-IsWellFormed : IsWellFormed onward
  onward-IsWellFormed = record {
    ordered = ground (arith, a.forward, a.crossed r.0, w.lost r.0, w.ordered);
    bounded = w.bounded;
    retained = λ n q e. ground (arith, a.forward, a.crossed n, w.lost n, w.retained n q);
    lost = λ n e. ground (arith, a.forward, a.left n, w.lost n);
    waiting = λ g gap n e c. ground (arith, a.forward, a.crossed n, a.left n, w.waiting g gap n);
    apart = w.apart;
    hints = hints;
  }

-- The state that `advance_across_accepted_losses` leaves, by the end of its loop.
advance_result : UplinkState → ℕ × Dict ℕ (Unit {0}) → UplinkState × Bool
advance_result s r =
    if r.0 == s.committed_through
    then (moved s r, false)
    else (prune_committed_missing_ranges (moved s r), true)

abbrev loop_end : UplinkState → ℕ × Dict ℕ (Unit {0})
loop_end s =
    advance_loop (suc (length s.accepted_loss_sequences)) s.committed_through
      s.accepted_loss_sequences

advance_result_lem :
    (s : UplinkState) → advance_across_accepted_losses s ≡ advance_result s (loop_end s)
unfolding advance_across_accepted_losses advance_result
advance_result_lem s = refl

-- How far the cursor has moved, and what is left as it was.
pub record Onward (s : UplinkState) (out : UplinkState × Bool) : Type 0 where
  pub run : ℕ × Dict ℕ (Unit {0})
  pub advanced : Advanced s.committed_through s.accepted_loss_sequences run
  pub cursor : out.0.committed_through ≡ run.0
  pub losses : out.0.accepted_loss_sequences ≡ run.1
  pub flag : out.1 ≡ ltb s.committed_through run.0
  pub same_records : out.0.records ≡ s.records
  pub same_last : out.0.last_allocated ≡ s.last_allocated
  pub same_pending : out.0.pending_gaps ≡ s.pending_gaps
  pub same_ids : out.0.envelope_sequences ≡ s.envelope_sequences
  pub same_accepted : out.0.accepted_gaps ≡ s.accepted_gaps
  pub valid : IsWellFormed out.0

result-Onward :
    (s : UplinkState) (r : ℕ × Dict ℕ (Unit {0}))
    → IsWellFormed s
    → Advanced s.committed_through s.accepted_loss_sequences r
    → Onward s (advance_result s r)
unfolding advance_result prune_committed_missing_ranges
result-Onward s r w a = elim (Bool-cases (r.0 == s.committed_through)) [
  | inl e ↦
      rw (e, advance_result)
        (record {
          run = r;
          advanced = a;
          cursor = refl;
          losses = refl;
          flag = ground arith;
          same_records = refl;
          same_last = refl;
          same_pending = refl;
          same_ids = refl;
          same_accepted = refl;
          valid =
              onward-IsWellFormed s r s.missing_ranges s.more_missing w a
                (rw ((==_iff r.0 s.committed_through).0 e) w.hints);
        })
  | inr e ↦ elim (Bool-cases (r.0 == u64_max)) [
    | inl top ↦
        rw (e, top, advance_result, prune_committed_missing_ranges)
          (record {
            run = r;
            advanced = a;
            cursor = refl;
            losses = refl;
            flag = ground (arith, a.forward);
            same_records = refl;
            same_last = refl;
            same_pending = refl;
            same_ids = refl;
            same_accepted = refl;
            valid = onward-IsWellFormed s r [] false w a tt;
          })
    | inr below ↦
        rw (e, below, advance_result, prune_committed_missing_ranges)
          (record {
            run = r;
            advanced = a;
            cursor = refl;
            losses = refl;
            flag = ground (arith, a.forward);
            same_records = refl;
            same_last = refl;
            same_pending = refl;
            same_ids = refl;
            same_accepted = refl;
            valid =
                onward-IsWellFormed s r (prune_ranges r.0 s.missing_ranges) s.more_missing w a
                  (prune-IsHint s.committed_through r.0 s.last_allocated s.missing_ranges w.hints);
          })
  ]
]

pub advance_lem : (s : UplinkState) → IsWellFormed s → Onward s (advance_across_accepted_losses s)
advance_lem s w = rw advance_result_lem (
    result-Onward s (loop_end s) w (
      advance_loop-Advanced _ s.committed_through s.accepted_loss_sequences
        (omega (arith, w.ordered, w.bounded)) (omega arith)))
