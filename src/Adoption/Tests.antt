-- ===== src/Adoption/Tests.antt =====
-- A modem that no strategy drives, and its passes; the theorems at them.
use vodoge_edge.Common.{
  ℕ, zero, suc, ◌≡◌, refl, ◌↔◌, ◌⊎◌, true, false, none, some, List, [], ◌∷◌, ok,
}
use vodoge_edge.Common.Text.{Text, codes, is_whitespace, is_blank, decimal_digits}
use vodoge_edge.Common.Int.{pos, saturating_sub}
use vodoge_edge.Common.Keys.{text_key}
use vodoge_edge.Common.Dict.{lookup, insert, remove}
use vodoge_edge.Capability.{
  ModemFamily, family_name, family_of, CarrierProfile, carrier_of, has_measurement,
}
use vodoge_edge.Capability.Keys.{family_key, carrier_key, matrix_key}
use vodoge_edge.AtPolicy.{trim_left, trim_right}
use vodoge_edge.Usb.{hex_digits, parse_hex, parse, shown}
use vodoge_edge.Network.{find_name, label, numeric, carrier_profile}
use vodoge_edge.Matrix.{query, admits, find_device, device_gate}
use vodoge_edge.Matrix.Tests.{matrix, bench_usb}
use vodoge_edge.Strategy.{has_usb, any_drives}
use vodoge_edge.Strategy.Tests.{shipped}
use vodoge_edge.Adoption.{
  measured_gate, bind_gates, stored, GateEvidence, elapsed_ms, quarantined, judge_gates,
  judge_family, judge_evidence, enforce_one,
}
use vodoge_edge.Adoption.Gates.{IsAdoptable, bind_gates_iff}
use vodoge_edge.Adoption.Registry.{
  RegisteredModem, RegisteredRow, register_modem, update_row, gate_failure, retire_modem,
  insert_ordered, ordered_rows,
}
use vodoge_edge.Adoption.Pass.{
  LocalModem, LocalModemDiscovery, mark_only, unbind_too, EnforceMode, enforce_mode_from, find_seen,
  find_discovery, home_carrier, evidence_of, build_evidence, is_listed, split_unreadable,
  plan_enforcement,
}
use vodoge_edge.Adoption.Enforce.{
  Faults, PassInput, read_gates, unread_gates, plan_pass, clear_all, refused, mark_all, find_modem,
  retire_all, execute_plan, enforce_registration,
}
use vodoge_edge.Adoption.Pointwise.{entry_after}
use vodoge_edge.Adoption.Passes.{enforce_registration-row}
use vodoge_edge.Adoption.Outcomes.{Stops, Judges, enforce_registration_cases}
use vodoge_edge.Adoption.Runs.{Event, pass, adopt, apply, run, run-IsRegistry, signs}
use vodoge_edge.Adoption.Standing.{Agrees, run-Agrees}
use vodoge_edge.Adoption.Retired.{IsSentenced, run-retires}

program : Unit {0}
unfolding is_whitespace is_blank decimal_digits saturating_sub lookup insert remove family_name
    family_of carrier_of has_measurement family_key carrier_key matrix_key trim_left trim_right
    hex_digits parse_hex parse shown find_name label numeric carrier_profile query admits
    find_device device_gate has_usb any_drives measured_gate bind_gates elapsed_ms quarantined
    judge_gates judge_family judge_evidence enforce_one register_modem update_row gate_failure
    retire_modem insert_ordered ordered_rows enforce_mode_from find_seen find_discovery home_carrier
    evidence_of build_evidence is_listed split_unreadable plan_enforcement read_gates unread_gates
    plan_pass clear_all refused mark_all find_modem retire_all execute_plan enforce_registration
    apply run
program = tt

abbrev stick : RegisteredModem
stick = record {
  imei = codes "A";
  registered_at = pos 5;
  registered_by = codes "panel";
  usb_device = none;
  family = none;
  note = none;
}

abbrev no_faults : Faults
no_faults = record {
  registry_unreadable = false;
  inventory_unreadable = false;
  gates_unreadable = [];
  clears_fail = [];
  marks_fail = [];
  retires_fail = [];
}

abbrev stick_found : LocalModemDiscovery
stick_found = record {
  imei = some (codes "A");
  vendor_id = some (codes "05c6");
  product_id = some (codes "90b4");
  family = none;
  home_mcc = none;
  home_mnc = none;
}

abbrev stick_seen : ℕ → LocalModem
stick_seen now = record {
  imei = codes "A";
  family = codes "EC20";
  last_seen = some (pos now);
  home_mcc = none;
  home_mnc = none;
}

-- A pass at a time.
abbrev pass_at : EnforceMode → ℕ → PassInput
pass_at mode now = record {
  criterion = record {
    strategies = shipped;
    matrix = matrix;
    authority = stored;
    uplink_ever_resumed = true;
    now = pos now;
  };
  mode = mode;
  discoveries = some (stick_found ∷ []);
  observed = stick_seen now ∷ [];
  faults = no_faults;
}

abbrev passes : ℕ → List Event
passes zero = adopt stick ∷ []
passes (suc n) = pass (pass_at unbind_too 1000) ∷ passes n

mode_run :
    (enforce_mode_from (codes " unbind ") ≡ unbind_too)
    × (enforce_mode_from (codes "UNBIND") ≡ mark_only)
unfolding program
mode_run = (refl, refl)

bind_gates_iff_example :
    (bind_gates shipped matrix (some bench_usb) (some (ModemFamily.ec20, CarrierProfile.cn_telecom))
      ≡ ok tt)
    ↔ IsAdoptable shipped matrix
        (some bench_usb)
        (some (ModemFamily.ec20, CarrierProfile.cn_telecom))
bind_gates_iff_example =
    bind_gates_iff shipped matrix (some bench_usb)
      (some (ModemFamily.ec20, CarrierProfile.cn_telecom))

abbrev convicted_evidence : GateEvidence
convicted_evidence = record {
  imei = codes "A";
  adopted_family = none;
  observed_family = some ModemFamily.ec20;
  carrier = none;
  usb = some (record { vendor = 0x05c6; product = 0x90b4 });
  observation_age_ms = some (pos 0);
  failing_since_ms = some (pos 1000);
  failing_passes = 99;
}

enforce_registration-row_example :
    lookup
      (codes "A")
      (enforce_registration (pass_at mark_only 1000) (run (passes 0))).registry.registered
    ≡ entry_after
        (pass_at mark_only 1000)
        (stick_found ∷ [])
        (codes "A")
        (lookup (codes "A") (run (passes 0)).registered)
enforce_registration-row_example =
    enforce_registration-row (pass_at mark_only 1000) (stick_found ∷ []) (codes "A")
      (run (passes 0)) (run-IsRegistry (passes 0)) refl refl refl

-- The registry of the passes cannot be read.
abbrev blind : PassInput
blind = record (pass_at unbind_too 1000) {
  faults = record no_faults { registry_unreadable = true };
}

enforce_registration_cases_example :
    ((why : Text) × Stops blind (run (passes 2)) why)
    ⊎ ((found : List LocalModemDiscovery) × Judges blind (run (passes 2)) found)
enforce_registration_cases_example =
    enforce_registration_cases blind (run (passes 2)) (run-IsRegistry (passes 2))

-- A registry that cannot be read is named, and so is an inventory, but only when a modem is adopted.
unread_run :
    ((enforce_registration blind (run (passes 2))).unreadable ≡ some (codes "registry"))
    × ((enforce_registration
          (record (pass_at unbind_too 1000) {
            faults = record no_faults { inventory_unreadable = true };
          })
          (run (passes 0))).unreadable
        ≡ some (codes "inventory"))
    × ((enforce_registration
          (record (pass_at unbind_too 1000) {
            faults = record no_faults { inventory_unreadable = true };
          })
          (run [])).unreadable
        ≡ none)
unfolding program
unread_run = (refl, refl, refl)

run-Agrees_example :
    Agrees (signs (codes "A") (passes 2)) (lookup (codes "A") (run (passes 2)).registered)
run-Agrees_example = run-Agrees (passes 2) (codes "A")

-- The row after 99 passes.
abbrev stood : RegisteredRow
stood = record {
  modem = stick;
  gate_failed_since = some (pos 1000);
  gate_failed_reason = some (codes "no_strategy");
  gate_failed_passes = 99;
}

run-retires_example : IsSentenced (pass_at unbind_too 1801000) (codes "A") (passes 99) stood
unfolding program
run-retires_example =
    run-retires (pass_at unbind_too 1801000) (codes "A") (passes 99) stood refl refl
