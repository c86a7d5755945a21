-- ===== src/Adoption/WellFormed.antt =====
-- Every statement on the table of adopted modems, edge-store/src/lib.rs, and every pass of edge-bin/src/main.rs keeps
-- each row under its own IMEI.
use vodoge_edge.Common.{
  ◌≡◌, refl, sym, ◌∙◌, ◌⊎◌, inl, inr, some, List, [], ◌∷◌, arith, Bool-cases, Option-cases,
}
use mathlib.Core.Path.{subst}
use vodoge_edge.Common.Text.{Text}
use vodoge_edge.Common.Int.{ℤ}
use vodoge_edge.Common.Keys.{text_key}
use vodoge_edge.Common.Dict.{Dict, lookup, insert, insert-IsSorted, remove, remove-IsSorted}
use vodoge_edge.Adoption.{BindRefusal, refusal_wire}
use vodoge_edge.Adoption.Registry.{
  RegisteredModem, RegisteredRow, Retirement, Registry, registered_modems, unmarked, adopted_again,
  update_row, register_modem, retire_modem, mark_row, cleared,
}
use vodoge_edge.Adoption.Pass.{
  LocalModemDiscovery, EnforcementPlan, EnforceMode, is_listed, mark_only, unbind_too,
}
use vodoge_edge.Adoption.Enforce.{
  PassInput, plan_pass, to_mark, clear_all, mark_all, find_modem, retirement_of, retire_one,
  retire_all, retire_in_mode, execute_plan, enforce_registration,
}
use vodoge_edge.Adoption.Rows.{Keyed, IsRegistry, lookup-Keyed}

insert-Keyed :
    (k : Text) (row : RegisteredRow) (rows : Dict Text RegisteredRow)
    → row.modem.imei ≡ k
    → Keyed rows
    → Keyed (insert k row rows)
unfolding insert
insert-Keyed k row [] e keyed = (e, tt)
insert-Keyed k row ((j, other) ∷ rows) e keyed =
    ground (arith, e, keyed, insert-Keyed k row rows e keyed.1)

remove-Keyed : (k : Text) (rows : Dict Text RegisteredRow) → Keyed rows → Keyed (remove k rows)
unfolding remove
remove-Keyed k [] keyed = tt
remove-Keyed k ((j, other) ∷ rows) keyed = ground (arith, keyed, remove-Keyed k rows keyed.1)

pub insert-IsRegistry :
    (k : Text) (row : RegisteredRow) (r : Registry)
    → row.modem.imei ≡ k
    → IsRegistry r
    → IsRegistry (record r { registered = insert k row r.registered })
insert-IsRegistry k row r e w = record {
  sorted = insert-IsSorted k row r.registered w.sorted;
  keyed = insert-Keyed k row r.registered e w.keyed;
}

pub remove-IsRegistry :
    (k : Text) (retirements : Dict Text Retirement) (r : Registry)
    → IsRegistry r
    → IsRegistry (record { registered = remove k r.registered; retirements = retirements })
remove-IsRegistry k retirements r w = record {
  sorted = remove-IsSorted k r.registered w.sorted;
  keyed = remove-Keyed k r.registered w.keyed;
}

pub update_row-IsRegistry :
    (k : Text) (change : RegisteredRow → RegisteredRow) (r : Registry)
    → ((row : RegisteredRow) → (change row).modem.imei ≡ row.modem.imei)
    → IsRegistry r
    → IsRegistry (update_row k change r)
unfolding update_row
update_row-IsRegistry k change r same w = elim (Option-cases (lookup k r.registered)) [
  | inl e ↦ subst IsRegistry (ground (arith, e)) w
  | inr (row, e) ↦
      subst IsRegistry (ground (arith, e)) (
        insert-IsRegistry k (change row) r (same row ∙ lookup-Keyed k r.registered row w.keyed e) w)
]

pub register_modem-IsRegistry :
    (modem : RegisteredModem) (r : Registry) → IsRegistry r → IsRegistry (register_modem modem r)
unfolding register_modem
register_modem-IsRegistry modem r w = elim (Option-cases (lookup modem.imei r.registered)) [
  | inl e ↦
      subst IsRegistry (ground (arith, e)) (insert-IsRegistry modem.imei (unmarked modem) r refl w)
  | inr (row, e) ↦ subst IsRegistry (ground (arith, e)) (
      insert-IsRegistry modem.imei (adopted_again modem row) r
        (lookup-Keyed modem.imei r.registered row w.keyed e) w)
]

clear_all-IsRegistry :
    (fails imeis : List Text) (r : Registry) → IsRegistry r → IsRegistry (clear_all fails imeis r)
unfolding clear_all
clear_all-IsRegistry fails [] r w = w
clear_all-IsRegistry fails (imei ∷ imeis) r w = elim (Bool-cases (is_listed imei fails)) [
  | inl e ↦ subst IsRegistry (ground (arith, e)) (clear_all-IsRegistry fails imeis r w)
  | inr e ↦ subst IsRegistry (ground (arith, e)) (
      clear_all-IsRegistry fails imeis (update_row imei cleared r)
        (update_row-IsRegistry imei cleared r (λ row. refl) w))
]

mark_all-IsRegistry :
    (fails : List Text) (now : ℤ) (marks : List (Text × BindRefusal)) (r : Registry)
    → IsRegistry r
    → IsRegistry (mark_all fails now marks r)
unfolding mark_all
mark_all-IsRegistry fails now [] r w = w
mark_all-IsRegistry fails now ((imei, refusal) ∷ marks) r w =
    elim (Bool-cases (is_listed imei fails)) [
      | inl e ↦ subst IsRegistry (ground (arith, e)) (mark_all-IsRegistry fails now marks r w)
      | inr e ↦
          let change = mark_row (refusal_wire refusal) now in
          subst IsRegistry (ground (arith, e)) (
            mark_all-IsRegistry fails now marks (update_row imei change r)
              (update_row-IsRegistry imei change r (λ row. refl) w))
    ]

retire_one-IsRegistry :
    (input : PassInput) (rows : List RegisteredModem) (imei : Text) (refusal : BindRefusal)
    (r : Registry)
    → IsRegistry r
    → IsRegistry (retire_one input rows imei refusal r).0
unfolding retire_modem
retire_one-IsRegistry input rows imei refusal r w = elim (Option-cases (find_modem imei rows)) [
  | inl e ↦ subst IsRegistry (ground (arith, e)) w
  | inr (row, e) ↦ elim (Bool-cases (is_listed imei input.faults.retires_fail)) [
    | inl f ↦ subst IsRegistry (ground (arith, e, f)) w
    | inr f ↦ subst IsRegistry (ground (arith, e, f)) (
        remove-IsRegistry row.imei (retire_modem (retirement_of input row refusal) r).0.retirements
          r w)
  ]
]

retire_all-IsRegistry :
    (input : PassInput) (rows : List RegisteredModem) (unbinds : List (Text × BindRefusal))
    (r : Registry)
    → IsRegistry r
    → IsRegistry (retire_all input rows unbinds r).0
unfolding retire_all
retire_all-IsRegistry input rows [] r w = w
retire_all-IsRegistry input rows ((imei, refusal) ∷ unbinds) r w =
    retire_all-IsRegistry input rows unbinds (retire_one input rows imei refusal r).0
      (retire_one-IsRegistry input rows imei refusal r w)

retire_in_mode-IsRegistry :
    (mode : EnforceMode) (input : PassInput) (rows : List RegisteredModem)
    (unbinds : List (Text × BindRefusal)) (r : Registry)
    → IsRegistry r
    → IsRegistry (retire_in_mode mode input rows unbinds r).0
retire_in_mode-IsRegistry mark_only input rows unbinds r w = w
retire_in_mode-IsRegistry unbind_too input rows unbinds r w =
    retire_all-IsRegistry input rows unbinds r w

execute_plan-IsRegistry :
    (input : PassInput) (plan : EnforcementPlan) (r : Registry)
    → IsRegistry r
    → IsRegistry (execute_plan input plan r).0
unfolding execute_plan
execute_plan-IsRegistry input plan r w =
    let r1 = clear_all input.faults.clears_fail plan.keeps r in
    let r2 = mark_all input.faults.marks_fail input.criterion.now (to_mark plan) r1 in
    retire_in_mode-IsRegistry input.mode input (registered_modems r) plan.unbinds r2 (
      mark_all-IsRegistry input.faults.marks_fail input.criterion.now (to_mark plan) r1
        (clear_all-IsRegistry input.faults.clears_fail plan.keeps r w))

enforced :
    (input : PassInput) (discoveries : List LocalModemDiscovery) (r : Registry)
    → input.discoveries ≡ some discoveries
    → ((enforce_registration input r).registry ≡ r)
      ⊎ ((enforce_registration input r).registry
          ≡ (execute_plan input (plan_pass input discoveries r) r).0)
unfolding enforce_registration
enforced input discoveries r d = ground (arith, d)

pub enforce_registration-IsRegistry :
    (input : PassInput) (r : Registry)
    → IsRegistry r
    → IsRegistry (enforce_registration input r).registry
unfolding enforce_registration
enforce_registration-IsRegistry input r w = elim (Option-cases input.discoveries) [
  | inl d ↦ subst IsRegistry (ground (arith, d)) w
  | inr (discoveries, d) ↦ elim (enforced input discoveries r d) [
    | inl same ↦ subst IsRegistry (sym same) w
    | inr done ↦
        subst IsRegistry (sym done)
          (execute_plan-IsRegistry input (plan_pass input discoveries r) r w)
  ]
]
