-- ===== src/Adoption/Passes.antt =====
-- The whole pass of edge-bin/src/main.rs: every row of the table of adopted modems becomes what its own judgement makes
-- of it.
use vodoge_edge.Common.{
  ◌≡◌, refl, sym, ap, ◌∙◌, ◌⊎◌, inl, inr, Bool, true, false, Option, none, some, List, [], ◌∷◌,
  arith, is_some, Bool-cases, Option-cases,
}
use vodoge_edge.Common.Text.{Text}
use vodoge_edge.Common.Keys.{text_key, text_eq_iff}
use vodoge_edge.Common.Dict.{lookup}
use vodoge_edge.Adoption.{BindRefusal, GateEvidence}
use vodoge_edge.Adoption.Registry.{
  RegisteredModem, RegisteredRow, Registry, failure_of, registered_modems,
}
use vodoge_edge.Adoption.Pass.{LocalModemDiscovery, is_listed, evidence_of, plan_enforcement}
use vodoge_edge.Adoption.Enforce.{
  PassInput, plan_pass, refused, to_mark, find_modem, execute_plan, has_none, enforce_registration,
}
use vodoge_edge.Adoption.Rows.{
  IsRegistry, select_modems-ordered_rows, find_modem-select_modems, lookup-Keyed, select_modems,
}
use vodoge_edge.Adoption.Selected.{refusals}
use vodoge_edge.Adoption.Pointwise.{
  row_verdict, row_after_verdict, row_after, entry_after, evidence_after, plan_pass-keeps,
  plan_pass-marks, plan_pass-unbinds,
}
use vodoge_edge.Adoption.Plans.{
  is_keep, marks_of, unbinds_of, plan_one-keeps, plan_one-marks, plan_one-unbinds, executed_entry,
  execute_plan-lookup, executed-row, executed-none, executed-held,
}

by_lists :
    (input : PassInput) (k : Text) (known kept kept' : Bool)
    (marks marks' unbinds unbinds' : List BindRefusal) (o : Option RegisteredRow)
    → known ≡ true
    → kept ≡ kept'
    → marks ≡ marks'
    → unbinds ≡ unbinds'
    → executed_entry input k known kept marks unbinds o
      ≡ executed_entry input k true kept' marks' unbinds' o
by_lists input k known kept kept' marks marks' unbinds unbinds' o h1 h2 h3 h4 = cc

known_row :
    (k : Text) (r : Registry) (row : RegisteredRow)
    → IsRegistry r
    → lookup k r.registered ≡ some row
    → is_some (find_modem k (registered_modems r)) ≡ true
known_row k r row w e = ground (
  arith,
  find_modem-select_modems k (registered_modems r),
  select_modems-ordered_rows k r.registered w.sorted w.keyed,
  e,
)

-- An execution, by the evidence that the pass has of the row.
by_evidence :
    (input : PassInput) (discoveries : List LocalModemDiscovery) (k : Text) (r : Registry)
    (row : RegisteredRow) (evidence : List GateEvidence)
    → IsRegistry r
    → lookup k r.registered ≡ some row
    → evidence_after input discoveries k (some row) ≡ evidence
    → lookup k (execute_plan input (plan_pass input discoveries r) r).0.registered
      ≡ executed_entry input k true
          (is_listed k (plan_enforcement input.criterion evidence).keeps)
          (refusals k (to_mark (plan_enforcement input.criterion evidence)))
          (refusals k (plan_enforcement input.criterion evidence).unbinds)
          (some row)
by_evidence input discoveries k r row evidence w e h =
    let own = ap (evidence_after input discoveries k) e ∙ h in
    let plan = plan_pass input discoveries r in
    execute_plan-lookup input plan k r
    ∙ (ap
          (executed_entry input k (is_some (find_modem k (registered_modems r)))
            (is_listed k plan.keeps) (refusals k (to_mark plan)) (refusals k plan.unbinds))
          e
        ∙ by_lists input k (is_some (find_modem k (registered_modems r))) (is_listed k plan.keeps)
            (is_listed k (plan_enforcement input.criterion evidence).keeps)
            (refusals k (to_mark plan))
            (refusals k (to_mark (plan_enforcement input.criterion evidence)))
            (refusals k plan.unbinds)
            (refusals k (plan_enforcement input.criterion evidence).unbinds) (some row)
            (known_row k r row w e)
            (plan_pass-keeps input discoveries k r w
              ∙ ap (λ es. is_listed k (plan_enforcement input.criterion es).keeps) own)
            (plan_pass-marks input discoveries k r w
              ∙ ap (λ es. refusals k (to_mark (plan_enforcement input.criterion es))) own)
            (plan_pass-unbinds input discoveries k r w
              ∙ ap (λ es. refusals k (plan_enforcement input.criterion es).unbinds) own))

held_row :
    (input : PassInput) (discoveries : List LocalModemDiscovery) (k : Text) (r : Registry)
    (row : RegisteredRow)
    → IsRegistry r
    → lookup k r.registered ≡ some row
    → is_listed k input.faults.gates_unreadable ≡ true
    → lookup k (execute_plan input (plan_pass input discoveries r) r).0.registered ≡ some row
unfolding plan_enforcement refusals refused is_listed
held_row input discoveries k r row w e f =
    by_evidence input discoveries k r row [] w e (ground (arith, f))
    ∙ executed-held input k true row

judged_row :
    (input : PassInput) (discoveries : List LocalModemDiscovery) (k : Text) (r : Registry)
    (row : RegisteredRow)
    → IsRegistry r
    → lookup k r.registered ≡ some row
    → is_listed k input.faults.gates_unreadable ≡ false
    → lookup k (execute_plan input (plan_pass input discoveries r) r).0.registered
      ≡ row_after_verdict input k row (row_verdict input discoveries row)
unfolding evidence_of
judged_row input discoveries k r row w e f =
    let item =
      evidence_of (failure_of row) input.observed discoveries input.criterion.now row.modem in
    let own = (text_eq_iff item.imei k).1 (lookup-Keyed k r.registered row w.keyed e) in
    by_evidence input discoveries k r row (item ∷ []) w e (ground (arith, f))
    ∙ (by_lists input k true (is_listed k (plan_enforcement input.criterion (item ∷ [])).keeps)
          (is_keep (row_verdict input discoveries row))
          (refusals k (to_mark (plan_enforcement input.criterion (item ∷ []))))
          (marks_of (row_verdict input discoveries row))
          (refusals k (plan_enforcement input.criterion (item ∷ [])).unbinds)
          (unbinds_of (row_verdict input discoveries row)) (some row) refl
          (plan_one-keeps input.criterion item k own) (plan_one-marks input.criterion item k own)
          (plan_one-unbinds input.criterion item k own)
        ∙ executed-row input k row (row_verdict input discoveries row))

execute_plan-row :
    (input : PassInput) (discoveries : List LocalModemDiscovery) (k : Text) (r : Registry)
    → IsRegistry r
    → lookup k (execute_plan input (plan_pass input discoveries r) r).0.registered
      ≡ entry_after input discoveries k (lookup k r.registered)
unfolding entry_after row_after
execute_plan-row input discoveries k r w = elim (Option-cases (lookup k r.registered)) [
  | inl e ↦
      let plan = plan_pass input discoveries r in
      execute_plan-lookup input plan k r
      ∙ (ap
            (executed_entry input k (is_some (find_modem k (registered_modems r)))
              (is_listed k plan.keeps) (refusals k (to_mark plan)) (refusals k plan.unbinds))
            e
          ∙ (executed-none input k (is_some (find_modem k (registered_modems r)))
                (is_listed k plan.keeps) (refusals k (to_mark plan)) (refusals k plan.unbinds)
              ∙ sym (ap (entry_after input discoveries k) e)))
  | inr (row, e) ↦ elim (Bool-cases (is_listed k input.faults.gates_unreadable)) [
    | inl f ↦ ground (arith, e, f, held_row input discoveries k r row w e f)
    | inr f ↦ ground (arith, e, f, judged_row input discoveries k r row w e f)
  ]
]

has_none→nil : (rows : List RegisteredModem) → has_none rows ≡ true → rows ≡ []
has_none→nil [] h = refl
has_none→nil (row ∷ rows) h = absurd (cc)

pub empty_rows :
    (k : Text) (r : Registry)
    → IsRegistry r
    → has_none (registered_modems r) ≡ true
    → lookup k r.registered ≡ none
unfolding select_modems
empty_rows k r w h = ground (
  arith,
  select_modems-ordered_rows k r.registered w.sorted w.keyed,
  has_none→nil (registered_modems r) h,
  ap (select_modems k) (has_none→nil (registered_modems r) h),
)

-- A pass that could read the candidates, the registry and the inventory makes of every row of the table exactly what the
-- judgement of that row makes of it: kept rows lose their mark, held rows and rows whose mark cannot be read stay as they
-- are, refused rows are mark_row once, and a convicted row goes only in the mode that unbinds. A statement that fails
-- leaves the row.
pub enforce_registration-row :
    (input : PassInput) (discoveries : List LocalModemDiscovery) (k : Text) (r : Registry)
    → IsRegistry r
    → input.discoveries ≡ some discoveries
    → input.faults.registry_unreadable ≡ false
    → input.faults.inventory_unreadable ≡ false
    → lookup k (enforce_registration input r).registry.registered
      ≡ entry_after input discoveries k (lookup k r.registered)
unfolding enforce_registration entry_after
enforce_registration-row input discoveries k r w d f g =
    elim (Bool-cases (has_none (registered_modems r))) [
      | inl e ↦ ground (
        arith,
        d,
        f,
        g,
        e,
        empty_rows k r w e,
        ap (entry_after input discoveries k) (empty_rows k r w e),
      )
      | inr e ↦ ground (arith, d, f, g, e, execute_plan-row input discoveries k r w)
    ]

-- A pass that cannot read the candidates, the registry or the inventory changes nothing and retires nothing.
pub enforce_registration-unread :
    (input : PassInput) (r : Registry)
    → (input.discoveries ≡ none)
      ⊎ ((input.faults.registry_unreadable ≡ true) ⊎ (input.faults.inventory_unreadable ≡ true))
    → ((enforce_registration input r).registry ≡ r) × ((enforce_registration input r).retired ≡ [])
unfolding enforce_registration
enforce_registration-unread input r h = (ground (arith, h), ground (arith, h))
