-- ===== src/Adoption/Enforce.antt =====
-- What a pass does to the tables, `enforce_registration` of edge-bin/src/main.rs.
use vodoge_edge.Common.{
  ℕ, Bool, true, false, Option, none, some, List, [], ◌∷◌, ◌++◌, if◌then◌else◌,
}
use vodoge_edge.Common.Text.{Text, codes, text_eq}
use vodoge_edge.Common.Int.{ℤ}
use vodoge_edge.Common.Keys.{text_key}
use vodoge_edge.Common.Dict.{Dict, insert}
use vodoge_edge.Matrix.{is_off}
use vodoge_edge.Capability.{family_name, carrier_name}
use vodoge_edge.Usb.{shown}
use vodoge_edge.Adoption.{
  BindRefusal, unreadable_usb_identity, no_strategy, not_in_catalogue, not_identified_yet,
  never_measured, refusal_wire,
}
use vodoge_edge.Adoption.Registry.{
  RegisteredModem, GateFailure, Retirement, Registry, mark_gate_failure, clear_gate_failure,
  gate_failure, retire_modem, registered_modems,
}
use vodoge_edge.Adoption.Pass.{
  LocalModem, LocalModemDiscovery, EnforceMode, mark_only, unbind_too, is_listed, build_evidence,
  split_unreadable, EnforcementPlan, Criterion, plan_enforcement,
}

-- `Display` of a refusal.
abbrev pub refusal_text : BindRefusal → Text
refusal_text unreadable_usb_identity =
    codes
      "its USB identity could not be read, so it cannot be matched against the supported-device list; rescan, "
    ++ codes "and if it stays unreadable the module is not enumerating properly"
refusal_text (no_strategy usb) =
    codes "no strategy in this build drives "
    ++ shown usb
    ++ codes "; adopting it would put a row in the registry no probe can satisfy"
refusal_text (not_in_catalogue usb is_off) =
    shown usb
    ++ codes
        " is switched off in the supported-device list; this build can drive it, so the fix is in the catalogue "
    ++ codes "rather than in the agent"
refusal_text (not_in_catalogue usb gate) =
    shown usb
    ++ codes
        " is not on the supported-device list; this build can drive it, so the fix is to add it to the catalogue "
    ++ codes "rather than to the agent"
refusal_text not_identified_yet =
    codes
      "its model and home network have not both been read yet, so there is no pairing to check against the ledger; "
    ++ codes "wait for the next poll and try again"
refusal_text (never_measured family carrier) =
    family_name family
    ++ codes " on "
    ++ carrier_name carrier
    ++ codes
        " has never been measured; measure it and record the result in the support ledger before adopting "
    ++ codes "hardware that depends on it"

-- What fails in a pass: whole tables, or the statements about some modems.
pub record Faults : Type 0 where
  pub registry_unreadable : Bool
  pub inventory_unreadable : Bool
  pub gates_unreadable : List Text
  pub clears_fail : List Text
  pub marks_fail : List Text
  pub retires_fail : List Text

pub record PassInput : Type 0 where
  pub criterion : Criterion
  pub mode : EnforceMode
  pub discoveries : Option (List LocalModemDiscovery)
  pub observed : List LocalModem
  pub faults : Faults

pub record PassOutcome : Type 0 where
  pub registry : Registry
  -- The `reason` of the alert `retro_inputs_unreadable`.
  pub unreadable : Option Text
  pub plan : Option EnforcementPlan
  pub retired : List (Text × BindRefusal)

abbrev pub with_gate : Text → Option GateFailure → Dict Text GateFailure → Dict Text GateFailure
with_gate imei none gates = gates
with_gate imei (some gate) gates = insert imei gate gates

-- The loop that reads the marks: those that can be read, and the modems whose mark cannot.
unfoldable pub read_gates :
    Faults → Registry → List RegisteredModem → Dict Text GateFailure → Dict Text GateFailure
read_gates faults r [] gates = gates
read_gates faults r (row ∷ rows) gates = read_gates faults r rows (
    if is_listed row.imei faults.gates_unreadable
    then gates
    else with_gate row.imei (gate_failure row.imei r) gates)

unfoldable pub unread_gates : Faults → List RegisteredModem → List Text
unread_gates faults [] = []
unread_gates faults (row ∷ rows) =
    let rest = unread_gates faults rows in
    if is_listed row.imei faults.gates_unreadable then row.imei ∷ rest else rest

unfoldable pub plan_pass : PassInput → List LocalModemDiscovery → Registry → EnforcementPlan
plan_pass input discoveries r =
    let rows = registered_modems r in
    let (judged, unreadable_holds) = split_unreadable rows (unread_gates input.faults rows) in
    let plan = plan_enforcement input.criterion (
      build_evidence judged (read_gates input.faults r rows []) input.observed discoveries
        input.criterion.now) in
    record plan { holds = plan.holds ++ unreadable_holds }

unfoldable pub clear_all : List Text → List Text → Registry → Registry
clear_all fails [] r = r
clear_all fails (imei ∷ imeis) r =
    clear_all fails imeis (if is_listed imei fails then r else clear_gate_failure imei r)

-- The modems to mark: those in quarantine, and then those to unbind.
unfoldable pub refused : List (Text × BindRefusal × ℤ × ℕ) → List (Text × BindRefusal)
refused [] = []
refused ((imei, refusal, elapsed, passes) ∷ plans) = (imei, refusal) ∷ refused plans

abbrev pub to_mark : EnforcementPlan → List (Text × BindRefusal)
to_mark plan = refused plan.quarantines ++ plan.unbinds

unfoldable pub mark_all : List Text → ℤ → List (Text × BindRefusal) → Registry → Registry
mark_all fails now [] r = r
mark_all fails now ((imei, refusal) ∷ marks) r =
    mark_all fails now marks
      (if is_listed imei fails then r else mark_gate_failure imei (refusal_wire refusal) now r)

unfoldable pub find_modem : Text → List RegisteredModem → Option RegisteredModem
find_modem imei [] = none
find_modem imei (row ∷ rows) = if text_eq row.imei imei then some row else find_modem imei rows

abbrev pub retirement_of : PassInput → RegisteredModem → BindRefusal → Retirement
retirement_of input row refusal = record {
  retired_imei = row.imei;
  first_registered_at = row.registered_at;
  first_registered_by = row.registered_by;
  retired_family = row.family;
  retired_usb_device = row.usb_device;
  retired_at = input.criterion.now;
  retired_reason = refusal_wire refusal;
  retired_detail = some (refusal_text refusal);
  matrix_version = some input.criterion.matrix.version;
}

abbrev pub retire_one :
    PassInput → List RegisteredModem → Text → BindRefusal → Registry → Registry × Bool
retire_one input rows imei refusal r = elim (find_modem imei rows) [
  | none ↦ (r, false)
  | some row ↦
      if is_listed imei input.faults.retires_fail
      then (r, false)
      else retire_modem (retirement_of input row refusal) r
]

unfoldable pub retire_all :
    PassInput
    → List RegisteredModem
    → List (Text × BindRefusal)
    → Registry
    → Registry × List (Text × BindRefusal)
retire_all input rows [] r = (r, [])
retire_all input rows ((imei, refusal) ∷ unbinds) r =
    let (r1, removed) = retire_one input rows imei refusal r in
    let (r2, retired) = retire_all input rows unbinds r1 in
    (r2, if removed then (imei, refusal) ∷ retired else retired)

abbrev pub retire_in_mode :
    EnforceMode
    → PassInput
    → List RegisteredModem
    → List (Text × BindRefusal)
    → Registry
    → Registry × List (Text × BindRefusal)
retire_in_mode mark_only input rows unbinds r = (r, [])
retire_in_mode unbind_too input rows unbinds r = retire_all input rows unbinds r

-- The execution of a plan.
unfoldable pub execute_plan :
    PassInput → EnforcementPlan → Registry → Registry × List (Text × BindRefusal)
execute_plan input plan r = retire_in_mode input.mode input (registered_modems r) plan.unbinds (
    mark_all input.faults.marks_fail input.criterion.now (to_mark plan)
      (clear_all input.faults.clears_fail plan.keeps r))

abbrev unread : Text → Registry → PassOutcome
unread reason r = record { registry = r; unreadable = some reason; plan = none; retired = [] }

abbrev executed : EnforcementPlan → Registry × List (Text × BindRefusal) → PassOutcome
executed plan (r, retired) = record {
  registry = r;
  unreadable = none;
  plan = some plan;
  retired = retired;
}

abbrev pub has_none : List RegisteredModem → Bool
has_none [] = true
has_none (row ∷ rows) = false

unfoldable pub enforce_registration : PassInput → Registry → PassOutcome
enforce_registration input r = elim input.discoveries [
  | none ↦ unread (codes "discoveries") r
  | some discoveries ↦
      if input.faults.registry_unreadable
      then unread (codes "registry") r
      else if has_none (registered_modems r)
      then record { registry = r; unreadable = none; plan = none; retired = [] }
      else if input.faults.inventory_unreadable
      then unread (codes "inventory") r
      else executed (plan_pass input discoveries r)
          (execute_plan input (plan_pass input discoveries r) r)
]
