-- ===== src/Uplink/Journal.antt =====
-- `UplinkState` of edge-uplink/src/lib.rs, the in-memory journal. A method that takes `&mut self`
-- returns the new state beside its result, also where it fails.
use vodoge_edge.Common.{
  ℕ, Bool, false, ◌||◌, none, some, List, [], ◌∷◌, Result, ok, err, leb, ltb, if◌then◌else◌,
}
use vodoge_edge.Common.Keys.{nat_key, text_key}
use vodoge_edge.Common.Dict.{Dict, lookup, contains, insert}
use vodoge_edge.Uplink.Types.{
  EnvelopeId, GapId, SequenceRange, RetentionClass, UplinkRecord, UplinkGap, UplinkError,
  checked_succ, sequence_exhausted, duplicate_envelope_id, invalid_restored_journal,
}

pub record UplinkState : Type 0 where
  pub last_allocated : ℕ
  pub committed_through : ℕ
  pub records : Dict ℕ UplinkRecord
  pub envelope_sequences : Dict EnvelopeId ℕ
  pub missing_ranges : List SequenceRange
  pub more_missing : Bool
  pub pending_gaps : Dict GapId UplinkGap
  pub accepted_gaps : Dict GapId UplinkGap
  pub accepted_loss_sequences : Dict ℕ (Unit {0})

-- `UplinkState::new`.
abbrev pub new_state : UplinkState
new_state = record {
  last_allocated = 0;
  committed_through = 0;
  records = [];
  envelope_sequences = [];
  missing_ranges = [];
  more_missing = false;
  pending_gaps = [];
  accepted_gaps = [];
  accepted_loss_sequences = [];
}

abbrev pub from_committed_through : ℕ → UplinkState
from_committed_through n = record new_state { last_allocated = n; committed_through = n }

-- The loop of `rehydrate`.
unfoldable pub restore_records :
    ℕ → ℕ → UplinkState → List UplinkRecord → Result UplinkError UplinkState
restore_records committed last state [] = ok state
restore_records committed last state (r ∷ rest) =
    if leb r.sequence committed || ltb last r.sequence
    then err invalid_restored_journal
    else if contains r.sequence state.records || contains r.envelope_id state.envelope_sequences
    then err invalid_restored_journal
    else restore_records committed last
        (record state {
          envelope_sequences = insert r.envelope_id r.sequence state.envelope_sequences;
          records = insert r.sequence r state.records;
        })
        rest

unfoldable pub rehydrate : ℕ → ℕ → List UplinkRecord → Result UplinkError UplinkState
unfolding restore_records
rehydrate committed last records =
    if ltb last committed
    then err invalid_restored_journal
    else restore_records committed last
        (record (from_committed_through committed) { last_allocated = last }) records

-- What follows the duplicate check of `append`.
unfoldable pub allocate :
    UplinkState → EnvelopeId → List ℕ → RetentionClass → UplinkState × Result UplinkError ℕ
allocate s id payload retention = elim (checked_succ s.last_allocated) [
  | none ↦ (s, err sequence_exhausted)
  | some sequence ↦ (
    record s {
      last_allocated = sequence;
      envelope_sequences = insert id sequence s.envelope_sequences;
      records =
          insert sequence
            (record {
              sequence = sequence;
              envelope_id = id;
              payload = payload;
              retention = retention;
            })
            s.records;
    },
    ok sequence,
  )
]

unfoldable pub append :
    UplinkState → EnvelopeId → List ℕ → RetentionClass → UplinkState × Result UplinkError ℕ
unfolding allocate
append s id payload retention = elim (lookup id s.envelope_sequences) [
  | some sequence ↦ (s, err (duplicate_envelope_id id sequence))
  | none ↦ allocate s id payload retention
]
