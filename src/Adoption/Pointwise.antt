-- ===== src/Adoption/Pointwise.antt =====
-- A pass of edge-bin/src/main.rs is, row by row, the judgement of that row alone.
use vodoge_edge.Common.{
  ◌≡◌, sym, ap, ◌∙◌, inl, inr, false, Option, none, some, List, [], ◌∷◌, ◌++◌, if◌then◌else◌, arith,
  Bool-cases, Option-cases,
}
use vodoge_edge.Common.Text.{Text}
use vodoge_edge.Common.Keys.{text_key}
use vodoge_edge.Common.Dict.{lookup}
use vodoge_edge.Adoption.{
  BindRefusal, refusal_wire, GateEvidence, Enforcement, keep, hold, quarantine, unbind,
}
use vodoge_edge.Adoption.Registry.{
  RegisteredRow, Registry, failure_of, gate_failure, cleared, mark_row, registered_modems,
}
use vodoge_edge.Adoption.Pass.{
  LocalModemDiscovery, mark_only, unbind_too, is_listed, evidence_of, build_evidence,
  split_unreadable, judge, EnforcementPlan, plan_enforcement,
}
use vodoge_edge.Adoption.Enforce.{PassInput, read_gates, unread_gates, plan_pass, refused, to_mark}
use vodoge_edge.Adoption.Rows.{
  IsRegistry, select_modems, row_modems, select_modems-ordered_rows, lookup-Keyed,
}
use vodoge_edge.Adoption.Selected.{
  select_evidence, refusals, refusals-append, keeps-select, quarantines-select, unbinds-select,
  evidence-select, judged-select, unread_gates-listed,
}
use vodoge_edge.Adoption.Effects.{read_gates-lookup}

-- The judgement of a row in a pass, by its own mark.
abbrev pub row_verdict : PassInput → List LocalModemDiscovery → RegisteredRow → Enforcement
row_verdict input discoveries row =
    judge input.criterion
      (evidence_of (failure_of row) input.observed discoveries input.criterion.now row.modem)

-- The mark of a refusal, unless its statement fails.
abbrev pub row_marked : PassInput → Text → BindRefusal → RegisteredRow → RegisteredRow
row_marked input imei refusal row =
    if is_listed imei input.faults.marks_fail
    then row
    else mark_row (refusal_wire refusal) input.criterion.now row

-- What a verdict makes of a row.
unfoldable pub row_after_verdict :
    PassInput → Text → RegisteredRow → Enforcement → Option RegisteredRow
row_after_verdict input imei row keep =
    some (if is_listed imei input.faults.clears_fail then row else cleared row)
row_after_verdict input imei row (hold reason) = some row
row_after_verdict input imei row (quarantine refusal elapsed passes) =
    some (row_marked input imei refusal row)
row_after_verdict input imei row (unbind refusal) = elim input.mode [
  | mark_only ↦ some (row_marked input imei refusal row)
  | unbind_too ↦
      if is_listed imei input.faults.retires_fail
      then some (row_marked input imei refusal row)
      else none
]

-- What a pass makes of a row: a row whose mark cannot be read is left as it is.
unfoldable pub row_after :
    PassInput → List LocalModemDiscovery → Text → RegisteredRow → Option RegisteredRow
row_after input discoveries imei row =
    if is_listed imei input.faults.gates_unreadable
    then some row
    else row_after_verdict input imei row (row_verdict input discoveries row)

-- What the table has of an IMEI after a pass.
unfoldable pub entry_after :
    PassInput → List LocalModemDiscovery → Text → Option RegisteredRow → Option RegisteredRow
entry_after input discoveries imei none = none
entry_after input discoveries imei (some row) = row_after input discoveries imei row

-- The evidence of an IMEI in a pass.
abbrev pub evidence_after :
    PassInput → List LocalModemDiscovery → Text → Option RegisteredRow → List GateEvidence
evidence_after input discoveries imei none = []
evidence_after input discoveries imei (some row) =
    if is_listed imei input.faults.gates_unreadable
    then []
    else evidence_of (failure_of row) input.observed discoveries input.criterion.now row.modem ∷ []

abbrev all_evidence : PassInput → List LocalModemDiscovery → Registry → List GateEvidence
all_evidence input discoveries r =
    build_evidence
      (split_unreadable (registered_modems r) (unread_gates input.faults (registered_modems r))).0
      (read_gates input.faults r (registered_modems r) []) input.observed discoveries
      input.criterion.now

gates_read :
    (input : PassInput) (k : Text) (r : Registry) (row : RegisteredRow)
    → IsRegistry r
    → lookup k r.registered ≡ some row
    → is_listed k input.faults.gates_unreadable ≡ false
    → lookup k (read_gates input.faults r (registered_modems r) []) ≡ failure_of row
unfolding lookup gate_failure
gates_read input k r row w e f =
    let one = select_modems-ordered_rows k r.registered w.sorted w.keyed ∙ ap row_modems e in
    ground (arith, e, f, one, read_gates-lookup input.faults r (registered_modems r) [] k)

judged_rows :
    (input : PassInput) (k : Text) (r : Registry)
    → IsRegistry r
    → select_modems k
        (split_unreadable (registered_modems r) (unread_gates input.faults (registered_modems r))).0
      ≡ (if is_listed k input.faults.gates_unreadable
          then []
          else row_modems (lookup k r.registered))
judged_rows input k r w = ground (
  arith,
  judged-select k (registered_modems r) (unread_gates input.faults (registered_modems r)),
  unread_gates-listed input.faults k (registered_modems r),
  select_modems-ordered_rows k r.registered w.sorted w.keyed,
)

build_one :
    (input : PassInput) (discoveries : List LocalModemDiscovery) (k : Text) (r : Registry)
    (row : RegisteredRow)
    → IsRegistry r
    → lookup k r.registered ≡ some row
    → is_listed k input.faults.gates_unreadable ≡ false
    → build_evidence
        (row.modem ∷ [])
        (read_gates input.faults r (registered_modems r) [])
        input.observed
        discoveries
        input.criterion.now
      ≡ evidence_of (failure_of row) input.observed discoveries input.criterion.now row.modem ∷ []
unfolding build_evidence
build_one input discoveries k r row w e f =
    let own =
      ap (λ i. lookup i (read_gates input.faults r (registered_modems r) []))
        (lookup-Keyed k r.registered row w.keyed e) in
    ap (λ g. evidence_of g input.observed discoveries input.criterion.now row.modem ∷ [])
      (own ∙ gates_read input k r row w e f)

all_evidence-select :
    (input : PassInput) (discoveries : List LocalModemDiscovery) (k : Text) (r : Registry)
    → IsRegistry r
    → select_evidence k (all_evidence input discoveries r)
      ≡ evidence_after input discoveries k (lookup k r.registered)
unfolding build_evidence
all_evidence-select input discoveries k r w =
    let gates = read_gates input.faults r (registered_modems r) [] in
    let judged =
      (split_unreadable (registered_modems r)
        (unread_gates input.faults (registered_modems r))).0 in
    let by_rows =
      evidence-select k judged gates input.observed discoveries input.criterion.now
      ∙ ap (λ rows. build_evidence rows gates input.observed discoveries input.criterion.now)
          (judged_rows input k r w) in
    by_rows ∙ (elim (Option-cases (lookup k r.registered)) [
      | inl e ↦ ground (arith, e)
      | inr (row, e) ↦ elim (Bool-cases (is_listed k input.faults.gates_unreadable)) [
        | inl f ↦ ground (arith, e, f)
        | inr f ↦ ground (arith, e, f, build_one input discoveries k r row w e f)
      ]
    ])

-- The plan of a pass, for one IMEI.
abbrev pub plan_after :
    PassInput → List LocalModemDiscovery → Text → Option RegisteredRow → EnforcementPlan
plan_after input discoveries k o =
    plan_enforcement input.criterion (evidence_after input discoveries k o)

pub plan_pass-keeps :
    (input : PassInput) (discoveries : List LocalModemDiscovery) (k : Text) (r : Registry)
    → IsRegistry r
    → is_listed k (plan_pass input discoveries r).keeps
      ≡ is_listed k (plan_after input discoveries k (lookup k r.registered)).keeps
unfolding plan_pass
plan_pass-keeps input discoveries k r w =
    keeps-select input.criterion k (all_evidence input discoveries r)
    ∙ ap (λ es. is_listed k (plan_enforcement input.criterion es).keeps)
        (all_evidence-select input discoveries k r w)

pub plan_pass-marks :
    (input : PassInput) (discoveries : List LocalModemDiscovery) (k : Text) (r : Registry)
    → IsRegistry r
    → refusals k (to_mark (plan_pass input discoveries r))
      ≡ refusals k (to_mark (plan_after input discoveries k (lookup k r.registered)))
unfolding plan_pass
plan_pass-marks input discoveries k r w =
    let all = plan_enforcement input.criterion (all_evidence input discoveries r) in
    let one = plan_after input discoveries k (lookup k r.registered) in
    let es = all_evidence-select input discoveries k r w in
    let quarantines =
      quarantines-select input.criterion k (all_evidence input discoveries r)
      ∙ ap (λ es. refusals k (refused (plan_enforcement input.criterion es).quarantines)) es in
    let unbinds =
      unbinds-select input.criterion k (all_evidence input discoveries r)
      ∙ ap (λ es. refusals k (plan_enforcement input.criterion es).unbinds) es in
    refusals-append k (refused all.quarantines) all.unbinds
    ∙ (ap (λ l. l ++ refusals k all.unbinds) quarantines
        ∙ (ap (λ l. refusals k (refused one.quarantines) ++ l) unbinds
            ∙ sym (refusals-append k (refused one.quarantines) one.unbinds)))

pub plan_pass-unbinds :
    (input : PassInput) (discoveries : List LocalModemDiscovery) (k : Text) (r : Registry)
    → IsRegistry r
    → refusals k (plan_pass input discoveries r).unbinds
      ≡ refusals k (plan_after input discoveries k (lookup k r.registered)).unbinds
unfolding plan_pass
plan_pass-unbinds input discoveries k r w =
    unbinds-select input.criterion k (all_evidence input discoveries r)
    ∙ ap (λ es. refusals k (plan_enforcement input.criterion es).unbinds)
        (all_evidence-select input discoveries k r w)
