-- ===== src/Uplink/Types.antt =====
-- Identifiers, records, acknowledgements, outcomes and errors of edge-uplink/src/lib.rs.
use vodoge_edge.Common.{
  ℕ, ◌+◌, ◌-◌, ◌^◌, Bool, Option, none, some, List, Result, ok, err, ltb, if◌then◌else◌,
}
use vodoge_edge.Common.Text.{Text, codes, is_blank}

-- `u64::MAX`, and `n.checked_add(1)`.
abbrev pub u64_max : ℕ
u64_max = 2 ^ 64 - 1

abbrev pub checked_succ : ℕ → Option ℕ
checked_succ n = if ltb n u64_max then some (n + 1) else none

abbrev pub EnvelopeId : Type 0
EnvelopeId = Text

abbrev pub GapId : Type 0
GapId = Text

-- An inclusive sequence interval.
pub record SequenceRange : Type 0 where
  pub start : ℕ
  pub end : ℕ

pub data UplinkError : Type 0 where
  empty_identifier : Text → UplinkError
  invalid_sequence_range : ℕ → ℕ → UplinkError
  non_canonical_ranges : UplinkError
  too_many_missing_ranges : ℕ → ℕ → UplinkError
  sequence_exhausted : UplinkError
  duplicate_envelope_id : EnvelopeId → ℕ → UplinkError
  ack_beyond_allocated : ℕ → ℕ → UplinkError
  ack_crosses_unresolved_sequence : ℕ → UplinkError
  missing_range_at_or_below_cursor : SequenceRange → ℕ → UplinkError
  missing_range_beyond_allocated : SequenceRange → ℕ → UplinkError
  empty_gap : UplinkError
  empty_gap_reason : UplinkError
  duplicate_gap_id : GapId → UplinkError
  duplicate_loss_sequence : ℕ → UplinkError
  unknown_retained_sequence : ℕ → UplinkError
  protected_record_cannot_be_evicted : ℕ → UplinkError
  unknown_gap_id : GapId → UplinkError
  invalid_restored_journal : UplinkError

-- `EnvelopeId::new` and `GapId::new`.
unfoldable pub new_envelope_id : Text → Result UplinkError EnvelopeId
new_envelope_id value =
    if is_blank value then err (empty_identifier (codes "envelope ID")) else ok value

unfoldable pub new_gap_id : Text → Result UplinkError GapId
new_gap_id value = if is_blank value then err (empty_identifier (codes "gap ID")) else ok value

pub data RetentionClass : Type 0 where
  evictable protected : RetentionClass

-- A payload is its octets.
pub record UplinkRecord : Type 0 where
  pub sequence : ℕ
  pub envelope_id : EnvelopeId
  pub payload : List ℕ
  pub retention : RetentionClass

pub record UplinkGap : Type 0 where
  pub gap_id : GapId
  pub ranges : List SequenceRange
  pub reason : Text

pub record UplinkAck : Type 0 where
  pub committed_through : ℕ
  pub missing_ranges : List SequenceRange
  pub more_missing : Bool

pub record AckOutcome : Type 0 where
  pub committed_through : ℕ
  pub deleted_sequences : List ℕ
  pub advanced : Bool

pub record GapAckOutcome : Type 0 where
  pub gap_id : GapId
  pub committed_through : ℕ
  pub advanced : Bool
  pub already_accepted : Bool
