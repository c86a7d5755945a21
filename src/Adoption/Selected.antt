-- ===== src/Adoption/Selected.antt =====
-- A pass of edge-bin/src/main.rs, seen from one IMEI: the evidence, the marks read and the plan depend, for it, on its own
-- rows alone.
use vodoge_edge.Common.{
  ◌≡◌, refl, ap, inl, inr, Bool, true, false, ◌&&◌, List, [], ◌∷◌, ◌++◌, if◌then◌else◌, arith,
  Bool-cases,
}
use vodoge_edge.Common.Text.{Text, text_eq}
use vodoge_edge.Common.Int.{ℤ}
use vodoge_edge.Common.Keys.{text_key, text_eq_iff}
use vodoge_edge.Common.Dict.{Dict}
use vodoge_edge.Adoption.{BindRefusal, GateEvidence}
use vodoge_edge.Adoption.Registry.{RegisteredModem, GateFailure}
use vodoge_edge.Adoption.Pass.{
  LocalModem, LocalModemDiscovery, is_listed, evidence_of, build_evidence, split_unreadable,
  Criterion, plan_enforcement,
}
use vodoge_edge.Adoption.Enforce.{Faults, unread_gates, refused}
use vodoge_edge.Adoption.Rows.{select_modems}

-- The evidence of an IMEI.
unfoldable pub select_evidence : Text → List GateEvidence → List GateEvidence
select_evidence k [] = []
select_evidence k (item ∷ evidence) =
    let rest = select_evidence k evidence in if text_eq item.imei k then item ∷ rest else rest

-- The refusals listed for an IMEI.
unfoldable pub refusals : Text → List (Text × BindRefusal) → List BindRefusal
refusals k [] = []
refusals k ((imei, refusal) ∷ plans) =
    let rest = refusals k plans in if text_eq imei k then refusal ∷ rest else rest

pub refusals-append :
    (k : Text) (xs ys : List (Text × BindRefusal))
    → refusals k (xs ++ ys) ≡ refusals k xs ++ refusals k ys
unfolding refusals
refusals-append k [] ys = refl
refusals-append k ((imei, refusal) ∷ xs) ys = ground (arith, refusals-append k xs ys)

module _ (c : Criterion) (k : Text) where
  pub keeps-select :
      (evidence : List GateEvidence)
      → is_listed k (plan_enforcement c evidence).keeps
        ≡ is_listed k (plan_enforcement c (select_evidence k evidence)).keeps
  unfolding plan_enforcement select_evidence is_listed
  keeps-select [] = refl
  keeps-select (item ∷ evidence) = ground (arith, keeps-select evidence)

  pub quarantines-select :
      (evidence : List GateEvidence)
      → refusals k (refused (plan_enforcement c evidence).quarantines)
        ≡ refusals k (refused (plan_enforcement c (select_evidence k evidence)).quarantines)
  unfolding plan_enforcement select_evidence refusals refused
  quarantines-select [] = refl
  quarantines-select (item ∷ evidence) = ground (arith, quarantines-select evidence)

  pub unbinds-select :
      (evidence : List GateEvidence)
      → refusals k (plan_enforcement c evidence).unbinds
        ≡ refusals k (plan_enforcement c (select_evidence k evidence)).unbinds
  unfolding plan_enforcement select_evidence refusals
  unbinds-select [] = refl
  unbinds-select (item ∷ evidence) = ground (arith, unbinds-select evidence)

pub evidence-select :
    (k : Text) (rows : List RegisteredModem) (gates : Dict Text GateFailure)
    (observed : List LocalModem) (discoveries : List LocalModemDiscovery) (now : ℤ)
    → select_evidence k (build_evidence rows gates observed discoveries now)
      ≡ build_evidence (select_modems k rows) gates observed discoveries now
unfolding build_evidence select_evidence select_modems evidence_of
evidence-select k [] gates observed discoveries now = refl
evidence-select k (row ∷ rows) gates observed discoveries now =
    ground (arith, evidence-select k rows gates observed discoveries now)

pub judged-select :
    (k : Text) (rows : List RegisteredModem) (unreadable : List Text)
    → select_modems k (split_unreadable rows unreadable).0
      ≡ (if is_listed k unreadable then [] else select_modems k rows)
unfolding split_unreadable select_modems
judged-select k [] unreadable = ground arith
judged-select k (row ∷ rows) unreadable = elim (Bool-cases (text_eq row.imei k)) [
  | inl e ↦ ground (
    arith,
    e,
    judged-select k rows unreadable,
    ap (λ i. is_listed i unreadable) ((text_eq_iff row.imei k).0 e),
  )
  | inr e ↦ ground (arith, e, judged-select k rows unreadable)
]

abbrev pub is_there {ℓ} : {A : Type ℓ} → List A → Bool
is_there [] = false
is_there (a ∷ rest) = true

pub unread_gates-listed :
    (faults : Faults) (k : Text) (rows : List RegisteredModem)
    → is_listed k (unread_gates faults rows)
      ≡ (is_there (select_modems k rows) && is_listed k faults.gates_unreadable)
unfolding unread_gates select_modems is_listed
unread_gates-listed faults k [] = refl
unread_gates-listed faults k (row ∷ rows) = elim (Bool-cases (text_eq row.imei k)) [
  | inl e ↦ ground (
    arith,
    e,
    unread_gates-listed faults k rows,
    ap (λ i. is_listed i faults.gates_unreadable) ((text_eq_iff row.imei k).0 e),
  )
  | inr e ↦ ground (arith, e, unread_gates-listed faults k rows)
]
