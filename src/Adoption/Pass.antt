-- ===== src/Adoption/Pass.antt =====
-- One pass over the adopted modems, edge-bin/src/main.rs: the evidence, the plan, and what is done to the tables. The
-- statements that fail in a pass are given with it; the alerts and the panel's list of holds are its result.
use vodoge_edge.Common.{ℕ, Bool, false, ◌||◌, Option, none, some, List, [], ◌∷◌, if◌then◌else◌}
use vodoge_edge.Common.Text.{Text, codes, text_eq}
use vodoge_edge.Common.Int.{ℤ, pos, max_ℤ, saturating_sub}
use vodoge_edge.Common.Keys.{text_key}
use vodoge_edge.Common.Dict.{Dict, lookup}
use vodoge_edge.Capability.{ModemFamily, family_of, CarrierProfile, carrier_of}
use vodoge_edge.AtPolicy.{trim}
use vodoge_edge.Usb.{UsbIdentity, parse}
use vodoge_edge.Network.{carrier_profile}
use vodoge_edge.Matrix.{CapabilityMatrix}
use vodoge_edge.Strategy.{StrategyRegistry}
use vodoge_edge.Adoption.{
  BindRefusal, MatrixAuthority, GateEvidence, HoldReason, gate_state_unreadable, Enforcement, keep,
  hold, quarantine, unbind, enforce_one,
}
use vodoge_edge.Adoption.Registry.{RegisteredModem, GateFailure}

-- The columns of `local_modems` that the evidence is taken from.
pub record LocalModem : Type 0 where
  pub imei : Text
  pub family : Text
  pub last_seen : Option ℤ
  pub home_mcc : Option ℕ
  pub home_mnc : Option ℕ

-- The columns of `local_modem_discoveries` that the evidence is taken from.
pub record LocalModemDiscovery : Type 0 where
  pub imei : Option Text
  pub vendor_id : Option Text
  pub product_id : Option Text
  pub family : Option Text
  pub home_mcc : Option ℕ
  pub home_mnc : Option ℕ

pub data EnforceMode : Type 0 where
  mark_only unbind_too : EnforceMode

unfoldable pub enforce_mode_from : Text → EnforceMode
enforce_mode_from value = if text_eq (trim value) (codes "unbind") then unbind_too else mark_only

unfoldable pub find_seen : Text → List LocalModem → Option LocalModem
find_seen imei [] = none
find_seen imei (modem ∷ observed) =
    if text_eq modem.imei imei then some modem else find_seen imei observed

abbrev is_imei : Text → Option Text → Bool
is_imei imei none = false
is_imei imei (some candidate) = text_eq candidate imei

unfoldable pub find_discovery : Text → List LocalModemDiscovery → Option LocalModemDiscovery
find_discovery imei [] = none
find_discovery imei (candidate ∷ discoveries) =
    if is_imei imei candidate.imei then some candidate else find_discovery imei discoveries

-- `zip` of the codes, and the profile of their network.
unfoldable pub home_carrier : Option ℕ → Option ℕ → Option CarrierProfile
home_carrier (some mcc) (some mnc) =
    some (carrier_of (carrier_profile (record { mcc = mcc; mnc = mnc })))
home_carrier _ _ = none

abbrev usb_of : Option Text → Option Text → Option UsbIdentity
usb_of (some vendor) (some product) = parse vendor product
usb_of _ _ = none

abbrev seen_carrier : Option LocalModem → Option CarrierProfile
seen_carrier none = none
seen_carrier (some modem) = home_carrier modem.home_mcc modem.home_mnc

abbrev seen_family : Option LocalModem → Option ModemFamily
seen_family none = none
seen_family (some modem) = some (family_of modem.family)

abbrev age_of : ℤ → Option ℤ → Option ℤ
age_of now none = none
age_of now (some seen) = some (max_ℤ (saturating_sub now seen) (pos 0))

abbrev seen_age : ℤ → Option LocalModem → Option ℤ
seen_age now none = none
seen_age now (some modem) = age_of now modem.last_seen

abbrev discovered_usb : Option LocalModemDiscovery → Option UsbIdentity
discovered_usb none = none
discovered_usb (some candidate) = usb_of candidate.vendor_id candidate.product_id

abbrev adopted_as : Option Text → Option ModemFamily
adopted_as none = none
adopted_as (some name) = some (family_of name)

abbrev failing_since : Option GateFailure → Option ℤ
failing_since none = none
failing_since (some gate) = some gate.since

abbrev failing_passes_of : Option GateFailure → ℕ
failing_passes_of none = 0
failing_passes_of (some gate) = gate.passes

-- The evidence of one row of `build_evidence`.
unfoldable pub evidence_of :
    Option GateFailure
    → List LocalModem
    → List LocalModemDiscovery
    → ℤ
    → RegisteredModem
    → GateEvidence
evidence_of gate observed discoveries now row = record {
  imei = row.imei;
  adopted_family = adopted_as row.family;
  observed_family = seen_family (find_seen row.imei observed);
  carrier = seen_carrier (find_seen row.imei observed);
  usb = discovered_usb (find_discovery row.imei discoveries);
  observation_age_ms = seen_age now (find_seen row.imei observed);
  failing_since_ms = failing_since gate;
  failing_passes = failing_passes_of gate;
}

unfoldable pub build_evidence :
    List RegisteredModem
    → Dict Text GateFailure
    → List LocalModem
    → List LocalModemDiscovery
    → ℤ
    → List GateEvidence
build_evidence [] gates observed discoveries now = []
build_evidence (row ∷ registered) gates observed discoveries now =
    evidence_of (lookup row.imei gates) observed discoveries now row
    ∷ build_evidence registered gates observed discoveries now

unfoldable pub is_listed : Text → List Text → Bool
is_listed imei [] = false
is_listed imei (i ∷ imeis) = text_eq i imei || is_listed imei imeis

unfoldable pub split_unreadable :
    List RegisteredModem → List Text → List RegisteredModem × List (Text × HoldReason)
split_unreadable [] unreadable = ([], [])
split_unreadable (row ∷ registered) unreadable =
    let (judged, holds) = split_unreadable registered unreadable in
    if is_listed row.imei unreadable
    then (judged, (row.imei, gate_state_unreadable) ∷ holds)
    else (row ∷ judged, holds)

pub record EnforcementPlan : Type 0 where
  pub keeps : List Text
  pub holds : List (Text × HoldReason)
  pub quarantines : List (Text × BindRefusal × ℤ × ℕ)
  pub unbinds : List (Text × BindRefusal)

abbrev planned : Text → Enforcement → EnforcementPlan → EnforcementPlan
planned imei keep plan = record plan { keeps = imei ∷ plan.keeps }
planned imei (hold reason) plan = record plan { holds = (imei, reason) ∷ plan.holds }
planned imei (quarantine refusal elapsed passes) plan = record plan {
  quarantines = (imei, refusal, elapsed, passes) ∷ plan.quarantines;
}
planned imei (unbind refusal) plan = record plan { unbinds = (imei, refusal) ∷ plan.unbinds }

-- The criterion of a pass: what every modem is judged by.
pub record Criterion : Type 0 where
  pub strategies : StrategyRegistry
  pub matrix : CapabilityMatrix
  pub authority : MatrixAuthority
  pub uplink_ever_resumed : Bool
  pub now : ℤ

abbrev pub judge : Criterion → GateEvidence → Enforcement
judge c item = enforce_one c.strategies c.matrix c.authority c.uplink_ever_resumed item c.now

unfoldable pub plan_enforcement : Criterion → List GateEvidence → EnforcementPlan
plan_enforcement c [] = record { keeps = []; holds = []; quarantines = []; unbinds = [] }
plan_enforcement c (item ∷ evidence) =
    planned item.imei (judge c item) (plan_enforcement c evidence)
