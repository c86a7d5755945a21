-- ===== src/Adoption.antt =====
-- The gates of adoption, edge-core/src/binding.rs, and their judgement of a modem that is adopted already,
-- edge-core/src/retro.rs.
use vodoge_edge.Common.{
  ℕ, ◌+◌, ◌-◌, ◌^◌, Bool, true, false, ◌&&◌, ◌||◌, not, Option, none, some, [], ◌∷◌, if◌then◌else◌,
  leb, Result, ok, err,
}
use vodoge_edge.Common.Text.{Text, codes, text_eq, is_blank}
use vodoge_edge.Common.Int.{ℤ, pos, ltb_ℤ, leb_ℤ, max_ℤ, saturating_sub}
use vodoge_edge.Capability.{
  ModemFamily, family_name, unknown_family, CarrierProfile, has_measurement,
}
use vodoge_edge.Capability.Keys.{family_key}
use vodoge_edge.Usb.{UsbIdentity}
use vodoge_edge.Matrix.{CapabilityMatrix, query, DeviceGate, admits, device_gate}
use vodoge_edge.Strategy.{StrategyRegistry, drives}
pub mod Gates
pub mod Registry
pub mod Pass
pub mod Enforce
pub mod Rows
pub mod Selected
pub mod Effects
pub mod Pointwise
pub mod Plans
pub mod Passes
pub mod Outcomes
pub mod WellFormed
pub mod Runs
pub mod Entries
pub mod Standing
pub mod Retired
pub mod Tests

pub data BindRefusal : Type 0 where
  unreadable_usb_identity : BindRefusal
  no_strategy : UsbIdentity → BindRefusal
  not_in_catalogue : UsbIdentity → DeviceGate → BindRefusal
  not_identified_yet : BindRefusal
  never_measured : ModemFamily → CarrierProfile → BindRefusal

abbrev pub refusal_wire : BindRefusal → Text
refusal_wire unreadable_usb_identity = codes "unreadable_usb_identity"
refusal_wire (no_strategy usb) = codes "no_strategy"
refusal_wire (not_in_catalogue usb gate) = codes "not_in_catalogue"
refusal_wire not_identified_yet = codes "not_identified_yet"
refusal_wire (never_measured family carrier) = codes "never_measured"

-- `RefusalKind`
pub data RefusalKind : Type 0 where
  missing_evidence verdict : RefusalKind

abbrev pub kind : BindRefusal → RefusalKind
kind unreadable_usb_identity = missing_evidence
kind not_identified_yet = missing_evidence
kind (no_strategy usb) = verdict
kind (not_in_catalogue usb gate) = verdict
kind (never_measured family carrier) = verdict

abbrev pub Pair : Type 0
Pair = ModemFamily × CarrierProfile

-- The second gate.
unfoldable pub measured_gate : CapabilityMatrix → Option Pair → Result BindRefusal (Unit {0})
measured_gate matrix none = err not_identified_yet
measured_gate matrix (some (family, carrier)) =
    if has_measurement (query matrix family carrier).capability
    then ok tt
    else err (never_measured family carrier)

unfoldable pub bind_gates :
    StrategyRegistry
    → CapabilityMatrix
    → Option UsbIdentity
    → Option Pair
    → Result BindRefusal (Unit {0})
bind_gates registry matrix none pair = err unreadable_usb_identity
bind_gates registry matrix (some identity) pair =
    if not (drives registry identity)
    then err (no_strategy identity)
    else if not (admits (device_gate matrix identity))
    then err (not_in_catalogue identity (device_gate matrix identity))
    else measured_gate matrix pair

pub data MatrixAuthority : Type 0 where
  stored builtin_no_row builtin_unparsed : MatrixAuthority

abbrev pub may_unbind : MatrixAuthority → Bool
may_unbind stored = true
may_unbind _ = false

pub record GateEvidence : Type 0 where
  pub imei : Text
  pub adopted_family : Option ModemFamily
  pub observed_family : Option ModemFamily
  pub carrier : Option CarrierProfile
  pub usb : Option UsbIdentity
  pub observation_age_ms : Option ℤ
  pub failing_since_ms : Option ℤ
  pub failing_passes : ℕ

pub data HoldReason : Type 0 where
  gate_state_unreadable : HoldReason
  matrix_not_authoritative : MatrixAuthority → HoldReason
  uplink_never_resumed never_observed : HoldReason
  observation_stale : (age : ℤ) → HoldReason
  family_unknown : HoldReason
  family_disagrees : (adopted observed : Text) → HoldReason
  family_unrecognised : Text → HoldReason
  evidence_missing : BindRefusal → HoldReason

pub data Enforcement : Type 0 where
  keep : Enforcement
  hold : HoldReason → Enforcement
  quarantine : (refusal : BindRefusal) → (elapsed : ℤ) → (passes : ℕ) → Enforcement
  unbind : (refusal : BindRefusal) → Enforcement

abbrev pub observation_max_age_ms : ℕ
observation_max_age_ms = 600000

abbrev pub grace_ms : ℕ
grace_ms = 1800000

abbrev pub grace_passes : ℕ
grace_passes = 100

-- `u32::saturating_add(1)`
abbrev pub saturating_next : ℕ → ℕ
saturating_next n = if leb (2 ^ 32 - 1) n then 2 ^ 32 - 1 else n + 1

-- `unwrap_or(now)`
abbrev pub since_or : Option ℤ → ℤ → ℤ
since_or none now = now
since_or (some since) now = since

unfoldable pub elapsed_ms : GateEvidence → ℤ → ℤ
elapsed_ms evidence now =
    max_ℤ (saturating_sub now (since_or evidence.failing_since_ms now)) (pos 0)

-- D: the quarantine.
unfoldable pub quarantined : GateEvidence → ℤ → BindRefusal → Enforcement
quarantined evidence now refusal =
    if leb_ℤ (pos grace_ms) (elapsed_ms evidence now)
      && leb grace_passes (saturating_next evidence.failing_passes)
    then unbind refusal
    else quarantine refusal (elapsed_ms evidence now) (saturating_next evidence.failing_passes)

-- C: the gates, and the kind of their refusal.
unfoldable pub judge_gates : GateEvidence → ℤ → Result BindRefusal (Unit {0}) → Enforcement
judge_gates evidence now (ok u) = keep
judge_gates evidence now (err refusal) = elim (kind refusal) [
  | missing_evidence ↦ hold (evidence_missing refusal)
  | verdict ↦ quarantined evidence now refusal
]

abbrev pub pair_of : Option CarrierProfile → ModemFamily → Option Pair
pair_of none observed = none
pair_of (some carrier) observed = some (observed, carrier)

abbrev pub is_other : ModemFamily → Bool
is_other (ModemFamily.other value) = true
is_other _ = false

abbrev disagrees : Option ModemFamily → ModemFamily → Bool
disagrees none observed = false
disagrees (some adopted) observed = not (family_key.beq adopted observed)

abbrev adopted_name : Option ModemFamily → Text
adopted_name none = []
adopted_name (some adopted) = family_name adopted

abbrev pub is_unknown : ModemFamily → Bool
is_unknown observed =
    is_blank (family_name observed) || text_eq (family_name observed) unknown_family

-- B, where the modem was observed, and C.
unfoldable pub judge_family :
    StrategyRegistry → CapabilityMatrix → GateEvidence → ℤ → ModemFamily → Enforcement
judge_family registry matrix evidence now observed =
    if is_unknown observed
    then hold family_unknown
    else if disagrees evidence.adopted_family observed
    then hold (family_disagrees (adopted_name evidence.adopted_family) (family_name observed))
    else if is_other observed
    then hold (family_unrecognised (family_name observed))
    else judge_gates evidence now
        (bind_gates registry matrix evidence.usb (pair_of evidence.carrier observed))

-- B: the evidence.
unfoldable pub judge_evidence : StrategyRegistry → CapabilityMatrix → GateEvidence → ℤ → Enforcement
judge_evidence registry matrix evidence now = elim evidence.observation_age_ms [
  | none ↦ hold never_observed
  | some age ↦
      if ltb_ℤ (pos observation_max_age_ms) age
      then hold (observation_stale age)
      else elim evidence.observed_family [
        | none ↦ hold family_unknown
        | some observed ↦ judge_family registry matrix evidence now observed
      ]
]

-- A: the criterion.
unfoldable pub enforce_one :
    StrategyRegistry → CapabilityMatrix → MatrixAuthority → Bool → GateEvidence → ℤ → Enforcement
enforce_one registry matrix authority uplink_ever_resumed evidence now =
    if not (may_unbind authority)
    then hold (matrix_not_authoritative authority)
    else if not uplink_ever_resumed
    then hold uplink_never_resumed
    else judge_evidence registry matrix evidence now
