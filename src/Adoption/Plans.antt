-- ===== src/Adoption/Plans.antt =====
-- The plan of one piece of evidence, edge-bin/src/main.rs, and what it makes of the row it is about.
use vodoge_edge.Common.{
  ◌≡◌, refl, ap, ◌∙◌, Bool, true, false, ◌&&◌, not, Option, none, some, List, [], ◌∷◌,
  if◌then◌else◌, arith, is_some,
}
use vodoge_edge.Common.Text.{Text, text_eq}
use vodoge_edge.Common.Keys.{text_key}
use vodoge_edge.Common.Dict.{lookup}
use vodoge_edge.Adoption.{BindRefusal, GateEvidence, Enforcement, keep, hold, quarantine, unbind}
use vodoge_edge.Adoption.Registry.{
  RegisteredModem, RegisteredRow, Registry, cleared, registered_modems,
}
use vodoge_edge.Adoption.Pass.{
  EnforceMode, mark_only, unbind_too, is_listed, Criterion, judge, EnforcementPlan,
  plan_enforcement,
}
use vodoge_edge.Adoption.Enforce.{
  PassInput, refused, to_mark, clear_all, mark_all, find_modem, retire_in_mode, execute_plan,
}
use vodoge_edge.Adoption.Rows.{changed}
use vodoge_edge.Adoption.Selected.{refusals, is_there}
use vodoge_edge.Adoption.Effects.{
  clear_all-lookup, marked_by, mark_all-lookup, is_retired, retire_all-lookup,
}
use vodoge_edge.Adoption.Pointwise.{row_after_verdict}

abbrev pub is_keep : Enforcement → Bool
is_keep keep = true
is_keep _ = false

abbrev pub marks_of : Enforcement → List BindRefusal
marks_of (quarantine refusal elapsed passes) = refusal ∷ []
marks_of (unbind refusal) = refusal ∷ []
marks_of _ = []

abbrev pub unbinds_of : Enforcement → List BindRefusal
unbinds_of (unbind refusal) = refusal ∷ []
unbinds_of _ = []

module _ (c : Criterion) (item : GateEvidence) (k : Text) (own : text_eq item.imei k ≡ true) where
  pub plan_one-keeps : is_listed k (plan_enforcement c (item ∷ [])).keeps ≡ is_keep (judge c item)
  unfolding plan_enforcement is_listed
  plan_one-keeps = ground (arith, own)

  pub plan_one-marks :
      refusals k (to_mark (plan_enforcement c (item ∷ []))) ≡ marks_of (judge c item)
  unfolding plan_enforcement refusals refused
  plan_one-marks = ground (arith, own)

  pub plan_one-unbinds :
      refusals k (plan_enforcement c (item ∷ [])).unbinds ≡ unbinds_of (judge c item)
  unfolding plan_enforcement refusals
  plan_one-unbinds = ground (arith, own)

abbrev pub retired_entry : EnforceMode → Bool → Option RegisteredRow → Option RegisteredRow
retired_entry mark_only goes o = o
retired_entry unbind_too goes o = if goes then none else o

abbrev pub marked_entry :
    PassInput → Text → List BindRefusal → Option RegisteredRow → Option RegisteredRow
marked_entry input k marks o =
    if is_listed k input.faults.marks_fail
    then o
    else changed (marked_by input.criterion.now marks) o

abbrev pub cleared_entry : PassInput → Text → Bool → Option RegisteredRow → Option RegisteredRow
cleared_entry input k kept o =
    if kept && not (is_listed k input.faults.clears_fail) then changed cleared o else o

-- What an execution makes of an entry, by what its plan lists for the IMEI.
abbrev pub executed_entry :
    PassInput
    → Text
    → Bool
    → Bool
    → List BindRefusal
    → List BindRefusal
    → Option RegisteredRow
    → Option RegisteredRow
executed_entry input k known kept marks unbinds o =
    retired_entry input.mode
      (is_there unbinds && known && not (is_listed k input.faults.retires_fail))
      (marked_entry input k marks (cleared_entry input k kept o))

retire_in_mode-lookup :
    (mode : EnforceMode) (input : PassInput) (rows : List RegisteredModem)
    (unbinds : List (Text × BindRefusal)) (k : Text) (r : Registry)
    → lookup k (retire_in_mode mode input rows unbinds r).0.registered
      ≡ retired_entry mode (is_retired input rows unbinds k) (lookup k r.registered)
retire_in_mode-lookup mark_only input rows unbinds k r = refl
retire_in_mode-lookup unbind_too input rows unbinds k r = retire_all-lookup input rows unbinds k r

pub execute_plan-lookup :
    (input : PassInput) (plan : EnforcementPlan) (k : Text) (r : Registry)
    → lookup k (execute_plan input plan r).0.registered
      ≡ executed_entry input k
          (is_some (find_modem k (registered_modems r)))
          (is_listed k plan.keeps)
          (refusals k (to_mark plan))
          (refusals k plan.unbinds)
          (lookup k r.registered)
unfolding execute_plan
execute_plan-lookup input plan k r =
    let rows = registered_modems r in
    let r1 = clear_all input.faults.clears_fail plan.keeps r in
    let r2 = mark_all input.faults.marks_fail input.criterion.now (to_mark plan) r1 in
    retire_in_mode-lookup input.mode input rows plan.unbinds k r2
    ∙ ap (retired_entry input.mode (is_retired input rows plan.unbinds k)) (
        mark_all-lookup input.faults.marks_fail input.criterion.now (to_mark plan) k r1
        ∙ ap (marked_entry input k (refusals k (to_mark plan)))
            (clear_all-lookup input.faults.clears_fail plan.keeps k r))

-- The execution of the plan of one row.
pub executed-row :
    (input : PassInput) (k : Text) (row : RegisteredRow) (v : Enforcement)
    → executed_entry input k true (is_keep v) (marks_of v) (unbinds_of v) (some row)
      ≡ row_after_verdict input k row v
unfolding row_after_verdict marked_by
executed-row input k row keep = ground arith
executed-row input k row (hold reason) = ground arith
executed-row input k row (quarantine refusal elapsed passes) = ground arith
executed-row input k row (unbind refusal) = ground arith

pub executed-none :
    (input : PassInput) (k : Text) (known kept : Bool) (marks unbinds : List BindRefusal)
    → executed_entry input k known kept marks unbinds none ≡ none
executed-none input k known kept marks unbinds = ground arith

pub executed-held :
    (input : PassInput) (k : Text) (known : Bool) (row : RegisteredRow)
    → executed_entry input k known false [] [] (some row) ≡ some row
unfolding marked_by
executed-held input k known row = ground arith
