-- ===== src/Adoption/Entries.antt =====
-- What each event of a run, edge-bin/src/main.rs and edge-store/src/lib.rs, makes of the entry of one IMEI.
use vodoge_edge.Common.{
  ◌≡◌, sym, ap, ◌∙◌, ◌⊎◌, inl, inr, true, Option, none, some, List, if◌then◌else◌, arith,
  Bool-cases, Option-cases,
}
use vodoge_edge.Common.Text.{Text, text_eq}
use vodoge_edge.Common.Int.{ℤ}
use vodoge_edge.Common.Keys.{text_key, text_eq_iff}
use vodoge_edge.Common.Dict.{lookup, lookup-insert, lookup-remove}
use vodoge_edge.Adoption.Registry.{
  RegisteredModem, RegisteredRow, Registry, unmarked, adopted_again, noted, register_modem,
  unregister_modem, cleared, restarted,
}
use vodoge_edge.Adoption.Pass.{LocalModemDiscovery}
use vodoge_edge.Adoption.Enforce.{PassInput, enforce_registration}
use vodoge_edge.Adoption.Rows.{changed, update_row-lookup, IsRegistry}
use vodoge_edge.Adoption.Pointwise.{entry_after}
use vodoge_edge.Adoption.Passes.{enforce_registration-row, enforce_registration-unread}
use vodoge_edge.Adoption.Runs.{Event, pass, adopt, unregister, set_note, reconfirm, apply, readable}

-- What a pass makes of an entry.
unfoldable pub passed_entry :
    PassInput
    → Text
    → Option (List LocalModemDiscovery)
    → Option RegisteredRow
    → Option RegisteredRow
passed_entry input k none o = o
passed_entry input k (some discoveries) o = entry_after input discoveries k o

-- What an adoption makes of an entry, and a confirmation of a row.
abbrev pub adopted_entry : RegisteredModem → Option RegisteredRow → Option RegisteredRow
adopted_entry modem none = some (unmarked modem)
adopted_entry modem (some row) = some (adopted_again modem row)

abbrev pub confirmed : Option Text → ℤ → RegisteredRow → RegisteredRow
confirmed none now row = cleared row
confirmed (some message) now row = restarted message now row

adopted-lookup :
    (modem : RegisteredModem) (k : Text) (r : Registry)
    → lookup k (register_modem modem r).registered ≡ (
        if text_eq modem.imei k
        then adopted_entry modem (lookup modem.imei r.registered)
        else lookup k r.registered)
unfolding register_modem
adopted-lookup modem k r = elim (Option-cases (lookup modem.imei r.registered)) [
  | inl e ↦ ground (arith, e, lookup-insert modem.imei k (unmarked modem) r.registered)
  | inr (row, e) ↦
      ground (arith, e, lookup-insert modem.imei k (adopted_again modem row) r.registered)
]

-- The entry after an event.
unfoldable pub entry_of : Event → Text → Option RegisteredRow → Option RegisteredRow
entry_of (pass input) k o = passed_entry input k (readable input) o
entry_of (adopt modem) k o = if text_eq modem.imei k then adopted_entry modem o else o
entry_of (unregister imei) k o = if text_eq imei k then none else o
entry_of (set_note imei remark) k o = if text_eq imei k then changed (noted remark) o else o
entry_of (reconfirm imei refusal now) k o =
    if text_eq imei k then changed (confirmed refusal now) o else o

pass-unread :
    (input : PassInput)
    → readable input ≡ none
    → (input.discoveries ≡ none)
      ⊎ ((input.faults.registry_unreadable ≡ true) ⊎ (input.faults.inventory_unreadable ≡ true))
pass-unread input e = elim (Bool-cases input.faults.registry_unreadable) [
  | inl f ↦ inr (inl f)
  | inr f ↦ elim (Bool-cases input.faults.inventory_unreadable) [
    | inl g ↦ inr (inr g)
    | inr g ↦ inl (ground (arith, e, f, g))
  ]
]

pub pass-lookup :
    (input : PassInput) (k : Text) (r : Registry)
    → IsRegistry r
    → lookup k (enforce_registration input r).registry.registered
      ≡ passed_entry input k (readable input) (lookup k r.registered)
unfolding passed_entry
pass-lookup input k r w = elim (Option-cases (readable input)) [
  | inl e ↦
      ap (λ r. lookup k r.registered) (enforce_registration-unread input r (pass-unread input e)).0
      ∙ sym (ap (λ d. passed_entry input k d (lookup k r.registered)) e)
  | inr (discoveries, e) ↦
      enforce_registration-row input discoveries k r w (ground (arith, e)) (ground (arith, e))
        (ground (arith, e))
      ∙ sym (ap (λ d. passed_entry input k d (lookup k r.registered)) e)
]

adopt-lookup :
    (modem : RegisteredModem) (k : Text) (r : Registry)
    → lookup k (register_modem modem r).registered ≡ (
        if text_eq modem.imei k
        then adopted_entry modem (lookup k r.registered)
        else lookup k r.registered)
unfolding register_modem
adopt-lookup modem k r = elim (Bool-cases (text_eq modem.imei k)) [
  | inl e ↦ ground (
    arith,
    e,
    ap (λ i. lookup i r.registered) ((text_eq_iff modem.imei k).0 e),
    adopted-lookup modem k r,
  )
  | inr e ↦ ground (arith, e, adopted-lookup modem k r)
]

pub apply-lookup :
    (event : Event) (k : Text) (r : Registry)
    → IsRegistry r
    → lookup k (apply event r).registered ≡ entry_of event k (lookup k r.registered)
unfolding apply entry_of unregister_modem
apply-lookup (pass input) k r w = pass-lookup input k r w
apply-lookup (adopt modem) k r w = adopt-lookup modem k r
apply-lookup (unregister imei) k r w = lookup-remove imei k r.registered
apply-lookup (set_note imei remark) k r w = update_row-lookup imei k (noted remark) r
apply-lookup (reconfirm imei none now) k r w = update_row-lookup imei k cleared r
apply-lookup (reconfirm imei (some message) now) k r w =
    update_row-lookup imei k (restarted message now) r
