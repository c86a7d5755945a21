-- ===== src/Adoption/Runs.antt =====
-- Runs of what happens to the adopted modems, edge-bin/src/main.rs and edge-store/src/lib.rs: passes, adoptions, notes,
-- confirmations by hand and removals. For one IMEI, each leaves a sign.
use vodoge_edge.Common.{ℕ, ◌+◌, refl, Option, none, some, List, [], ◌∷◌, if◌then◌else◌}
use vodoge_edge.Common.Text.{Text, text_eq}
use vodoge_edge.Common.Int.{ℤ}
use vodoge_edge.Common.Keys.{text_key}
use vodoge_edge.Common.Dict.{lookup}
use vodoge_edge.Adoption.{Enforcement, keep, hold, quarantine, unbind}
use vodoge_edge.Adoption.Registry.{
  RegisteredModem, RegisteredRow, Registry, noted, register_modem, unregister_modem, cleared,
  restarted, clear_gate_failure, restart_gate_failure, update_registered_modem,
}
use vodoge_edge.Adoption.Pass.{LocalModemDiscovery, is_listed}
use vodoge_edge.Adoption.Enforce.{PassInput, enforce_registration}
use vodoge_edge.Adoption.Rows.{IsRegistry}
use vodoge_edge.Adoption.Pointwise.{row_verdict}
use vodoge_edge.Adoption.WellFormed.{
  remove-IsRegistry, update_row-IsRegistry, register_modem-IsRegistry,
  enforce_registration-IsRegistry,
}

pub data Event : Type 0 where
  pass : PassInput → Event
  adopt : RegisteredModem → Event
  unregister : (imei : Text) → Event
  set_note : (imei : Text) → (remark : Option Text) → Event
  -- `reconfirm_modem`, by the answer of the gates: nothing, or the text of their refusal.
  reconfirm : (imei : Text) → (refusal : Option Text) → (now : ℤ) → Event

abbrev reconfirmed : Text → Option Text → ℤ → Registry → Registry
reconfirmed imei none now r = clear_gate_failure imei r
reconfirmed imei (some message) now r = restart_gate_failure imei message now r

unfoldable pub apply : Event → Registry → Registry
apply (pass input) r = (enforce_registration input r).registry
apply (adopt modem) r = register_modem modem r
apply (unregister imei) r = (unregister_modem imei r).0
apply (set_note imei remark) r = (update_registered_modem imei remark r).0
apply (reconfirm imei refusal now) r = reconfirmed imei refusal now r

-- A run, the last event first, from empty tables.
unfoldable pub run : List Event → Registry
run [] = record { registered = []; retirements = [] }
run (event ∷ events) = apply event (run events)

apply-IsRegistry : (event : Event) (r : Registry) → IsRegistry r → IsRegistry (apply event r)
unfolding apply unregister_modem
apply-IsRegistry (pass input) r w = enforce_registration-IsRegistry input r w
apply-IsRegistry (adopt modem) r w = register_modem-IsRegistry modem r w
apply-IsRegistry (unregister imei) r w = remove-IsRegistry imei r.retirements r w
apply-IsRegistry (set_note imei remark) r w =
    update_row-IsRegistry imei (noted remark) r (λ row. refl) w
apply-IsRegistry (reconfirm imei none now) r w =
    update_row-IsRegistry imei cleared r (λ row. refl) w
apply-IsRegistry (reconfirm imei (some message) now) r w =
    update_row-IsRegistry imei (restarted message now) r (λ row. refl) w

pub run-IsRegistry : (events : List Event) → IsRegistry (run events)
unfolding run
run-IsRegistry [] = record { sorted = tt; keyed = tt }
run-IsRegistry (event ∷ events) = apply-IsRegistry event (run events) (run-IsRegistry events)

-- The candidates of a pass, if it could read its inputs.
abbrev pub readable : PassInput → Option (List LocalModemDiscovery)
readable input =
    if input.faults.registry_unreadable
    then none
    else if input.faults.inventory_unreadable
    then none
    else input.discoveries

-- What an event leaves behind for one IMEI: a refusal that was mark_row, the end of a mark, its restart, or nothing.
pub data Sign : Type 0 where
  counted : (at : ℤ) → Sign
  ended : Sign
  started_over : (at : ℤ) → Sign
  silent : Sign

abbrev pub verdict_sign : PassInput → Text → Enforcement → Sign
verdict_sign input k keep = if is_listed k input.faults.clears_fail then silent else ended
verdict_sign input k (hold reason) = silent
verdict_sign input k (quarantine refusal elapsed passes) =
    if is_listed k input.faults.marks_fail then silent else counted input.criterion.now
verdict_sign input k (unbind refusal) =
    if is_listed k input.faults.marks_fail then silent else counted input.criterion.now

abbrev pub pass_sign : PassInput → Text → RegisteredRow → Option (List LocalModemDiscovery) → Sign
pass_sign input k row none = silent
pass_sign input k row (some discoveries) =
    if is_listed k input.faults.gates_unreadable
    then silent
    else verdict_sign input k (row_verdict input discoveries row)

abbrev pub confirm_sign : Option Text → ℤ → Sign
confirm_sign none now = ended
confirm_sign (some message) now = started_over now

unfoldable pub sign : Event → Text → Option RegisteredRow → Sign
sign (pass input) k none = silent
sign (pass input) k (some row) = pass_sign input k row (readable input)
sign (adopt modem) k o = if text_eq modem.imei k then ended else silent
sign (unregister imei) k o = silent
sign (set_note imei remark) k o = silent
sign (reconfirm imei refusal now) k o = if text_eq imei k then confirm_sign refusal now else silent

-- The signs of a run, the last first.
unfoldable pub signs : Text → List Event → List Sign
signs k [] = []
signs k (event ∷ events) = sign event k (lookup k (run events).registered) ∷ signs k events

-- How many refusals were mark_row since the mark was last ended or restarted.
unfoldable pub standing : List Sign → ℕ
standing [] = 0
standing (counted now ∷ before) = standing before + 1
standing (ended ∷ before) = 0
standing (started_over now ∷ before) = 0
standing (silent ∷ before) = standing before

abbrev or_now : Option ℤ → ℤ → Option ℤ
or_now none now = some now
or_now (some since) now = some since

-- When the first of them was mark_row, or the mark restarted.
unfoldable pub standing_since : List Sign → Option ℤ
standing_since [] = none
standing_since (counted now ∷ before) = or_now (standing_since before) now
standing_since (ended ∷ before) = none
standing_since (started_over now ∷ before) = some now
standing_since (silent ∷ before) = standing_since before
