-- ===== src/Uplink/WellFormed.antt =====
-- The invariant of `UplinkState`. Its preservation by each operation is in the modules below.
pub mod Append
pub mod Restore
pub mod Loss
pub mod GapAck
pub mod Accept
pub mod Ack
pub mod Observe
use vodoge_edge.Common.{ℕ, ◌≤◌, ◌<◌, ◌≡◌, true, false, some, All, arith}
use vodoge_edge.Common.Keys.{nat_key, text_key}
use vodoge_edge.Common.Dict.{lookup, contains}
use vodoge_edge.Uplink.Types.{SequenceRange, UplinkRecord, UplinkGap, GapId, u64_max}
use vodoge_edge.Uplink.Ranges.Cover.{covers}
use vodoge_edge.Uplink.Journal.{UplinkState, new_state}

-- A retained record lies between the cursor and the last allocated sequence, under its own sequence,
-- and its envelope identity leads back to it.
pub record Retained (s : UplinkState) (n : ℕ) (r : UplinkRecord) : Type 0 where
  pub above : s.committed_through < n
  pub allocated : n ≤ s.last_allocated
  pub own : r.sequence ≡ n
  pub identity : lookup r.envelope_id s.envelope_sequences ≡ some n

-- An accepted loss that the cursor has not passed is allocated and no longer retained.
pub record Lost (s : UplinkState) (n : ℕ) : Type 0 where
  pub above : s.committed_through < n
  pub allocated : n ≤ s.last_allocated
  pub gone : contains n s.records ≡ false

-- So is a sequence of a marker that waits for its acknowledgement, and it is no accepted loss.
pub record Waiting (s : UplinkState) (n : ℕ) : Type 0 where
  pub above : s.committed_through < n
  pub allocated : n ≤ s.last_allocated
  pub gone : contains n s.records ≡ false
  pub unsettled : contains n s.accepted_loss_sequences ≡ false

abbrev pub IsHint : ℕ → ℕ → SequenceRange → Type 0
IsHint committed last r = (committed < r.start) × (r.end ≤ last)

pub record IsWellFormed (s : UplinkState) : Type 0 where
  pub ordered : s.committed_through ≤ s.last_allocated
  pub bounded : s.last_allocated ≤ u64_max
  pub retained : (n : ℕ) (r : UplinkRecord) → lookup n s.records ≡ some r → Retained s n r
  pub lost : (n : ℕ) → contains n s.accepted_loss_sequences ≡ true → Lost s n
  pub waiting :
      (g : GapId) (gap : UplinkGap) (n : ℕ)
      → lookup g s.pending_gaps ≡ some gap
      → covers gap.ranges n ≡ true
      → Waiting s n
  pub apart :
      (g h : GapId) (a b : UplinkGap) (n : ℕ)
      → lookup g s.pending_gaps ≡ some a
      → lookup h s.pending_gaps ≡ some b
      → covers a.ranges n ≡ true
      → covers b.ranges n ≡ true
      → g ≡ h
  pub hints : All (IsHint s.committed_through s.last_allocated) s.missing_ranges

-- A journal that starts empty is well formed.
pub new_state-IsWellFormed : IsWellFormed new_state
unfolding lookup
new_state-IsWellFormed = record {
  ordered = omega arith;
  bounded = omega arith;
  retained = λ n r e. cc;
  lost = λ n e. cc;
  waiting = λ g gap n e c. cc;
  apart = λ g h a b n e. cc;
  hints = tt;
}
