-- ===== src/Uplink/WellFormed/Ack.antt =====
-- The loops of `observe_ack` together: an acknowledgement ahead of the cursor.
use vodoge_edge.Common.{
  ℕ, ◌+◌, ◌-◌, ◌≤◌, ◌<◌, ◌≡◌, refl, ◌⊎◌, inl, inr, Bool, true, false, ◌||◌, ◌&&◌, not, none, List,
  [], ◌∷◌, All, ok, err, arith, if◌then◌else◌, Option-cases,
}
use vodoge_edge.Common.Keys.{nat_key, text_key}
use vodoge_edge.Common.Dict.{lookup, contains}
use vodoge_edge.Uplink.Types.{SequenceRange, UplinkAck, AckOutcome, ack_crosses_unresolved_sequence}
use vodoge_edge.Uplink.Ranges.Cover.{among}
use vodoge_edge.Uplink.Journal.{UplinkState}
use vodoge_edge.Uplink.Ack.{validate_missing_hint, first_unresolved, sweep, cross}
use vodoge_edge.Uplink.Ack.Crossing.{
  none_unresolved, some_unresolved, records-sweep, losses-sweep, deleted-sweep,
}
use vodoge_edge.Uplink.GapAck.Advance.{within}
use vodoge_edge.Uplink.WellFormed.{IsHint}

pub hints_of_valid :
    (last committed : ℕ) (rs : List SequenceRange)
    → validate_missing_hint last committed rs ≡ ok tt
    → All (IsHint committed last) rs
unfolding validate_missing_hint
hints_of_valid last committed [] e = tt
hints_of_valid last committed (r ∷ rs) e = ground (arith, hints_of_valid last committed rs)

-- What an acknowledgement that moves the cursor has done: it passes only retained records and settled
-- losses, takes out exactly the records up to its cursor and reports them.
pub record Crossed (s : UplinkState) (ack : UplinkAck) (s' : UplinkState) (deleted : List ℕ)
    : Type 0 where
  pub ahead : s.committed_through < ack.committed_through
  pub allocated : ack.committed_through ≤ s.last_allocated
  pub cursor : s'.committed_through ≡ ack.committed_through
  pub confirmed :
      (n : ℕ)
      → within s.committed_through ack.committed_through n ≡ true
      → (contains n s.records || contains n s.accepted_loss_sequences) ≡ true
  pub kept :
      (n : ℕ)
      → lookup n s'.records
        ≡ (if within s.committed_through ack.committed_through n then none else lookup n s.records)
  pub settled :
      (n : ℕ)
      → contains n s'.accepted_loss_sequences ≡ (
          contains n s.accepted_loss_sequences
          && (not (within s.committed_through ack.committed_through n) || contains n s.records))
  pub reported :
      (n : ℕ)
      → among deleted n
        ≡ (within s.committed_through ack.committed_through n && contains n s.records)
  pub hinted : s'.missing_ranges ≡ ack.missing_ranges
  pub valid_hints : All (IsHint ack.committed_through s.last_allocated) ack.missing_ranges
  pub same_last : s'.last_allocated ≡ s.last_allocated
  pub same_ids : s'.envelope_sequences ≡ s.envelope_sequences
  pub same_pending : s'.pending_gaps ≡ s.pending_gaps

abbrev pub hinted_state : UplinkState → UplinkAck → UplinkState
hinted_state s ack = record s {
  missing_ranges = ack.missing_ranges;
  more_missing = ack.more_missing;
}

abbrev pub outcome : ℕ → List ℕ → Bool → AckOutcome
outcome committed deleted advanced = record {
  committed_through = committed;
  deleted_sequences = deleted;
  advanced = advanced;
}

pub cross_cases :
    (s : UplinkState) (ack : UplinkAck)
    → s.committed_through < ack.committed_through
    → ack.committed_through ≤ s.last_allocated
    → All (IsHint ack.committed_through s.last_allocated) ack.missing_ranges
    → ((y : ℕ) × (within s.committed_through ack.committed_through y ≡ true)
        × (contains y s.records ≡ false)
        × (contains y s.accepted_loss_sequences ≡ false)
        × (cross s ack ≡ (s, err (ack_crosses_unresolved_sequence y))))
      ⊎ ((s' : UplinkState) × (deleted : List ℕ) × (cross s ack
            ≡ (s', ok (outcome ack.committed_through deleted true)))
          × Crossed s ack s' deleted)
unfolding cross
cross_cases s ack h k v =
    let n = ack.committed_through - s.committed_through in
    let c = s.committed_through + 1 in
    elim (Option-cases (first_unresolved n c s.records s.accepted_loss_sequences)) [
      | inr (y, e) ↦
          let (i, r, l) = some_unresolved n c y s.records s.accepted_loss_sequences e in
          inl (y, ground arith, r, l, rw (e, cross))
      | inl e ↦ inr (
        record s {
          committed_through = ack.committed_through;
          records = (sweep n c s.records s.accepted_loss_sequences).records;
          missing_ranges = ack.missing_ranges;
          more_missing = ack.more_missing;
          accepted_loss_sequences = (sweep n c s.records s.accepted_loss_sequences).losses;
        },
        (sweep n c s.records s.accepted_loss_sequences).deleted,
        rw (e, cross),
        record {
          ahead = h;
          allocated = k;
          cursor = refl;
          confirmed =
              λ x w. ground (arith, none_unresolved n c x s.records s.accepted_loss_sequences e);
          kept = λ x. ground (arith, records-sweep n c x s.records s.accepted_loss_sequences);
          settled = λ x. ground (arith, losses-sweep n c x s.records s.accepted_loss_sequences);
          reported = λ x. ground (arith, deleted-sweep n c x s.records s.accepted_loss_sequences);
          hinted = refl;
          valid_hints = v;
          same_last = refl;
          same_ids = refl;
          same_pending = refl;
        },
      )
    ]
