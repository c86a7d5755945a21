-- ===== src/Uplink/WellFormed/Loss.antt =====
-- `declare_loss` gives up exactly the named records, and keeps the journal well formed.
use vodoge_edge.Common.{
  ℕ, ◌≤◌, ◌<◌, ◌≡◌, refl, sym, ap, ◌∙◌, ◌⊎◌, inl, inr, true, false, none, some, List, Result, ok,
  err, arith, if◌then◌else◌,
}
use vodoge_edge.Common.Text.{Text, is_blank}
use vodoge_edge.Common.Keys.{nat_key, text_key, text_eq_iff}
use vodoge_edge.Common.Dict.{Dict, keys, lookup, contains, insert, lookup-insert}
use vodoge_edge.Uplink.Types.{UplinkRecord, UplinkGap, UplinkError, GapId, evictable}
use vodoge_edge.Uplink.Ranges.{selected_sequences, ranges_for}
use vodoge_edge.Uplink.Ranges.Cover.{covers, covers-ranges_for, among, contains-selected}
use vodoge_edge.Uplink.Journal.{UplinkState}
use vodoge_edge.Uplink.Loss.{check_evictable, remove_all, loss_selection, declare_loss}
use vodoge_edge.Uplink.Loss.Removal.{among-keys, lookup-remove_all, evictable_of_check}
use vodoge_edge.Uplink.WellFormed.{Waiting, IsWellFormed}

-- What the checks of `declare_loss` have established when they pass.
pub record Selection (s : UplinkState) (g : GapId) (xs : List ℕ) (reason : Text)
    (sel : Dict ℕ (Unit {0})) : Type 0 where
  pub new : (contains g s.pending_gaps ≡ false) × (contains g s.accepted_gaps ≡ false)
  pub reasoned : is_blank reason ≡ false
  pub chosen : selected_sequences xs ≡ ok sel
  pub checked : check_evictable s.records (keys sel) ≡ ok tt

pub loss_selection-Selection :
    (s : UplinkState) (g : GapId) (xs : List ℕ) (reason : Text) (sel : Dict ℕ (Unit {0}))
    → loss_selection s g xs reason ≡ ok sel
    → Selection s g xs reason sel
unfolding loss_selection
loss_selection-Selection s g xs reason sel e = record {
  new = ground arith;
  reasoned = ground arith;
  chosen = ground arith;
  checked = ground arith;
}

Result-cases : {E A : Type 0} (r : Result E A) → ((a : A) × (r ≡ ok a)) ⊎ ((e : E) × (r ≡ err e))
Result-cases (ok a) = inl (a, refl)
Result-cases (err e) = inr (e, refl)

abbrev marker : GapId → Dict ℕ (Unit {0}) → Text → UplinkGap
marker g sel reason = record { gap_id = g; ranges = ranges_for sel; reason = reason }

abbrev given_up : UplinkState → GapId → Dict ℕ (Unit {0}) → Text → UplinkState
given_up s g sel reason = record s {
  records = remove_all (keys sel) s.records;
  pending_gaps = insert g (marker g sel reason) s.pending_gaps;
}

-- What a successful `declare_loss` has done.
pub record GaveUp (s : UplinkState) (g : GapId) (xs : List ℕ) (s' : UplinkState) (gap : UplinkGap)
    : Type 0 where
  pub new : (contains g s.pending_gaps ≡ false) × (contains g s.accepted_gaps ≡ false)
  pub named : (n : ℕ) → covers gap.ranges n ≡ among xs n
  pub eligible :
      (n : ℕ)
      → among xs n ≡ true
      → (r : UplinkRecord) × (lookup n s.records ≡ some r) × (r.retention ≡ evictable)
  pub kept : (n : ℕ) → lookup n s'.records ≡ (if among xs n then none else lookup n s.records)
  pub marked : s'.pending_gaps ≡ insert g gap s.pending_gaps
  pub same_cursor : s'.committed_through ≡ s.committed_through
  pub same_last : s'.last_allocated ≡ s.last_allocated
  pub same_ids : s'.envelope_sequences ≡ s.envelope_sequences
  pub same_losses : s'.accepted_loss_sequences ≡ s.accepted_loss_sequences
  pub same_hints : s'.missing_ranges ≡ s.missing_ranges

-- `declare_loss` either fails and changes nothing, or leaves a marker that names exactly the listed
-- sequences, each of which was retained and evictable, and takes out exactly their records.
pub declare_loss_cases :
    (s : UplinkState) (g : GapId) (xs : List ℕ) (reason : Text)
    → ((e : UplinkError) × (declare_loss s g xs reason ≡ (s, err e)))
      ⊎ ((s' : UplinkState) × (gap : UplinkGap) × (declare_loss s g xs reason ≡ (s', ok gap))
          × GaveUp s g xs s' gap)
unfolding declare_loss
declare_loss_cases s g xs reason = elim (Result-cases (loss_selection s g xs reason)) [
  | inr (e, h) ↦ inl (e, rw (h, declare_loss))
  | inl (sel, h) ↦
      let i = loss_selection-Selection s g xs reason sel h in
      inr (
        given_up s g sel reason,
        marker g sel reason,
        rw (h, declare_loss),
        record {
          new = i.new;
          named = λ n. ground (arith, covers-ranges_for sel n, contains-selected xs sel n i.chosen);
          eligible = λ n m.
              evictable_of_check s.records (keys sel) n i.checked
                (ground (arith, among-keys sel n, contains-selected xs sel n i.chosen));
          kept = λ n. ground (
            arith,
            lookup-remove_all (keys sel) n s.records,
            among-keys sel n,
            contains-selected xs sel n i.chosen,
          );
          marked = refl;
          same_cursor = refl;
          same_last = refl;
          same_ids = refl;
          same_losses = refl;
          same_hints = refl;
        },
      )
]

module _ (s : UplinkState) (g : GapId) (xs : List ℕ) (s' : UplinkState) (gap : UplinkGap)
    (w : IsWellFormed s) (d : GaveUp s g xs s' gap) where
  retained_of_among :
      (n : ℕ)
      → among xs n ≡ true
      → (s.committed_through < n) × (n ≤ s.last_allocated) × (contains n s.records ≡ true)
  retained_of_among n m =
      let (r, e, k) = d.eligible n m in let t = w.retained n r e in (t.above, t.allocated, rw e)

  -- A marker that waits is the new one or one that waited before.
  marked_cases :
      (h : GapId) (b : UplinkGap)
      → lookup h s'.pending_gaps ≡ some b
      → ((g ≡ h) × (gap ≡ b)) ⊎ (lookup h s.pending_gaps ≡ some b)
  marked_cases h b e =
      let e' = rw d.marked at e in
      ground (arith, e', text_eq_iff g h, lookup-insert g h gap s.pending_gaps)

  fresh-Waiting : (n : ℕ) → covers gap.ranges n ≡ true → Waiting s' n
  fresh-Waiting n c = ground (
    arith,
    d.named n,
    retained_of_among n,
    w.lost n,
    d.kept n,
    d.same_cursor,
    d.same_last,
    ap (contains n) d.same_losses,
  )

  waiting :
      (h : GapId) (b : UplinkGap) (n : ℕ)
      → lookup h s'.pending_gaps ≡ some b
      → covers b.ranges n ≡ true
      → Waiting s' n
  waiting h b n e c = elim (marked_cases h b e) [
    | inl (p, q) ↦ fresh-Waiting n (rw q c)
    | inr old ↦ ground (
      arith,
      w.waiting h b n,
      d.kept n,
      d.same_cursor,
      d.same_last,
      ap (contains n) d.same_losses,
    )
  ]

  -- A sequence of the new marker was retained, so no older marker named it.
  new_apart :
      (h : GapId) (b : UplinkGap) (n : ℕ)
      → lookup h s.pending_gaps ≡ some b
      → covers b.ranges n ≡ true
      → covers gap.ranges n ≡ true
      → ⊥
  new_apart h b n e c c' = ground (arith, w.waiting h b n, d.named n, retained_of_among n)

  apart :
      (h k : GapId) (a b : UplinkGap) (n : ℕ)
      → lookup h s'.pending_gaps ≡ some a
      → lookup k s'.pending_gaps ≡ some b
      → covers a.ranges n ≡ true
      → covers b.ranges n ≡ true
      → h ≡ k
  apart h k a b n e f c c' = elim (marked_cases h a e) [
    | inl (p, q) ↦ elim (marked_cases k b f) [
      | inl (p', q') ↦ sym p ∙ p'
      | inr old ↦ absurd (new_apart k b n old c' (rw q c))
    ]
    | inr old ↦ elim (marked_cases k b f) [
      | inl (p', q') ↦ absurd (new_apart h a n old c (rw q' c'))
      | inr old' ↦ w.apart h k a b n old old' c c'
    ]
  ]

  pub gave_up-IsWellFormed : IsWellFormed s'
  gave_up-IsWellFormed = record {
    ordered = omega (arith, w.ordered, d.same_cursor, d.same_last);
    bounded = omega (arith, w.bounded, d.same_last);
    retained = λ n r e. ground (
      arith,
      w.retained n r,
      d.kept n,
      d.same_cursor,
      d.same_last,
      ap (lookup r.envelope_id) d.same_ids,
    );
    lost = λ n e.
        ground
          (arith, w.lost n, d.kept n, d.same_cursor, d.same_last, ap (contains n) d.same_losses);
    waiting = waiting;
    apart = apart;
    hints = rw (d.same_hints, d.same_cursor, d.same_last) w.hints;
  }

pub declare_loss-IsWellFormed :
    (s : UplinkState) (g : GapId) (xs : List ℕ) (reason : Text)
    → IsWellFormed s
    → IsWellFormed (declare_loss s g xs reason).0
declare_loss-IsWellFormed s g xs reason w = elim (declare_loss_cases s g xs reason) [
  | inl (e, h) ↦ rw h w
  | inr (s', gap, h, d) ↦ rw h (gave_up-IsWellFormed s g xs s' gap w d)
]
