-- ===== src/Adoption/Effects.antt =====
-- What the three loops of a pass, edge-bin/src/main.rs, do to the row of one IMEI, and which mark is read for it.
use vodoge_edge.Common.{
  ◌≡◌, refl, ap, inl, inr, Bool, true, ◌&&◌, not, Option, none, some, List, [], ◌∷◌, if◌then◌else◌,
  arith, is_some, Bool-cases, Option-cases,
}
use vodoge_edge.Common.Text.{Text, text_eq}
use vodoge_edge.Common.Int.{ℤ}
use vodoge_edge.Common.Keys.{text_key, text_eq_iff}
use vodoge_edge.Common.Dict.{Dict, lookup, lookup-insert, lookup-remove}
use vodoge_edge.Adoption.{BindRefusal, refusal_wire}
use vodoge_edge.Adoption.Registry.{
  RegisteredModem, RegisteredRow, GateFailure, Registry, gate_failure, cleared, mark_row,
  clear_gate_failure, mark_gate_failure, retire_modem,
}
use vodoge_edge.Adoption.Pass.{is_listed}
use vodoge_edge.Adoption.Enforce.{
  Faults, PassInput, with_gate, read_gates, clear_all, mark_all, find_modem, retire_one, retire_all,
}
use vodoge_edge.Adoption.Rows.{changed, update_row-lookup, select_modems}
use vodoge_edge.Adoption.Selected.{refusals, is_there}

is_listed-eq : (i k : Text) (l : List Text) → text_eq i k ≡ true → is_listed i l ≡ is_listed k l
is_listed-eq i k l e = ap (λ j. is_listed j l) ((text_eq_iff i k).0 e)

cleared_twice : (o : Option RegisteredRow) → changed cleared (changed cleared o) ≡ changed cleared o
cleared_twice none = refl
cleared_twice (some row) = refl

pub clear_all-lookup :
    (fails imeis : List Text) (k : Text) (r : Registry)
    → lookup k (clear_all fails imeis r).registered ≡ (
        if is_listed k imeis && not (is_listed k fails)
        then changed cleared (lookup k r.registered)
        else lookup k r.registered)
unfolding clear_all is_listed
clear_all-lookup fails [] k r = refl
clear_all-lookup fails (imei ∷ imeis) k r = elim (Bool-cases (text_eq imei k)) [
  | inl e ↦ ground (
    arith,
    e,
    is_listed-eq imei k fails e,
    cleared_twice (lookup k r.registered),
    update_row-lookup imei k cleared r,
    clear_all-lookup fails imeis k r,
    clear_all-lookup fails imeis k (clear_gate_failure imei r),
  )
  | inr e ↦ ground (
    arith,
    e,
    update_row-lookup imei k cleared r,
    clear_all-lookup fails imeis k r,
    clear_all-lookup fails imeis k (clear_gate_failure imei r),
  )
]

-- The row after the marks of the refusals.
unfoldable pub marked_by : ℤ → List BindRefusal → RegisteredRow → RegisteredRow
marked_by now [] row = row
marked_by now (refusal ∷ refusals) row =
    marked_by now refusals (mark_row (refusal_wire refusal) now row)

marked_by-nil : (now : ℤ) (o : Option RegisteredRow) → changed (marked_by now []) o ≡ o
unfolding marked_by
marked_by-nil now none = refl
marked_by-nil now (some row) = refl

marked_by-next :
    (now : ℤ) (refusal : BindRefusal) (refusals : List BindRefusal) (o : Option RegisteredRow)
    → changed (marked_by now (refusal ∷ refusals)) o
      ≡ changed (marked_by now refusals) (changed (mark_row (refusal_wire refusal) now) o)
unfolding marked_by
marked_by-next now refusal refusals none = refl
marked_by-next now refusal refusals (some row) = refl

pub mark_all-lookup :
    (fails : List Text) (now : ℤ) (marks : List (Text × BindRefusal)) (k : Text) (r : Registry)
    → lookup k (mark_all fails now marks r).registered ≡ (
        if is_listed k fails
        then lookup k r.registered
        else changed (marked_by now (refusals k marks)) (lookup k r.registered))
unfolding mark_all refusals
mark_all-lookup fails now [] k r = ground (arith, marked_by-nil now (lookup k r.registered))
mark_all-lookup fails now ((imei, refusal) ∷ marks) k r =
    let change = mark_row (refusal_wire refusal) now in
    elim (Bool-cases (text_eq imei k)) [
      | inl e ↦ ground (
        arith,
        e,
        is_listed-eq imei k fails e,
        update_row-lookup imei k change r,
        marked_by-next now refusal (refusals k marks) (lookup k r.registered),
        mark_all-lookup fails now marks k r,
        mark_all-lookup fails now marks k (mark_gate_failure imei (refusal_wire refusal) now r),
      )
      | inr e ↦ ground (
        arith,
        e,
        update_row-lookup imei k change r,
        mark_all-lookup fails now marks k r,
        mark_all-lookup fails now marks k (mark_gate_failure imei (refusal_wire refusal) now r),
      )
    ]

-- The row goes, if the modem is to be unbound, was read, and its statement works.
abbrev pub is_retired : PassInput → List RegisteredModem → List (Text × BindRefusal) → Text → Bool
is_retired input rows unbinds k =
    is_there (refusals k unbinds)
    && is_some (find_modem k rows)
    && not (is_listed k input.faults.retires_fail)

find_modem-imei :
    (k : Text) (rows : List RegisteredModem) (row : RegisteredModem)
    → find_modem k rows ≡ some row
    → row.imei ≡ k
unfolding find_modem
find_modem-imei k [] row h = absurd (cc)
find_modem-imei k (other ∷ rows) row h = elim (Bool-cases (text_eq other.imei k)) [
  | inl e ↦ ground (arith, e, h, (text_eq_iff other.imei k).0 e)
  | inr e ↦ find_modem-imei k rows row (ground (arith, e, h))
]

-- What one retirement leaves.
retire_one-lookup :
    (input : PassInput) (rows : List RegisteredModem) (imei k : Text) (refusal : BindRefusal)
    (r : Registry)
    → lookup k (retire_one input rows imei refusal r).0.registered ≡ (
        if text_eq imei k
          && is_some (find_modem k rows)
          && not (is_listed k input.faults.retires_fail)
        then none
        else lookup k r.registered)
unfolding retire_modem
retire_one-lookup input rows imei k refusal r = elim (Option-cases (find_modem imei rows)) [
  | inl f ↦ elim (Bool-cases (text_eq imei k)) [
    | inl e ↦ ground (arith, e, f, ap (λ i. find_modem i rows) ((text_eq_iff imei k).0 e))
    | inr e ↦ ground (arith, e, f)
  ]
  | inr (row, f) ↦ elim (Bool-cases (text_eq imei k)) [
    | inl e ↦ ground (
      arith,
      e,
      f,
      ap (λ i. find_modem i rows) ((text_eq_iff imei k).0 e),
      is_listed-eq imei k input.faults.retires_fail e,
      ap (λ i. text_eq i k) (find_modem-imei imei rows row f),
      lookup-remove row.imei k r.registered,
    )
    | inr e ↦ ground (
      arith,
      e,
      f,
      ap (λ i. text_eq i k) (find_modem-imei imei rows row f),
      lookup-remove row.imei k r.registered,
    )
  ]
]

pub retire_all-lookup :
    (input : PassInput) (rows : List RegisteredModem) (unbinds : List (Text × BindRefusal))
    (k : Text) (r : Registry)
    → lookup k (retire_all input rows unbinds r).0.registered
      ≡ (if is_retired input rows unbinds k then none else lookup k r.registered)
unfolding retire_all refusals
retire_all-lookup input rows [] k r = refl
retire_all-lookup input rows ((imei, refusal) ∷ unbinds) k r = ground (
  arith,
  retire_one-lookup input rows imei k refusal r,
  retire_all-lookup input rows unbinds k (retire_one input rows imei refusal r).0,
)

-- The mark that is read for an IMEI.
abbrev or_read : Option GateFailure → Option GateFailure → Option GateFailure
or_read none later = later
or_read (some gate) later = some gate

with_gate-lookup :
    (imei k : Text) (gate : Option GateFailure) (gates : Dict Text GateFailure)
    → lookup k (with_gate imei gate gates)
      ≡ (if text_eq imei k then or_read gate (lookup k gates) else lookup k gates)
with_gate-lookup imei k none gates = ground arith
with_gate-lookup imei k (some gate) gates = ground (arith, lookup-insert imei k gate gates)

pub read_gates-lookup :
    (faults : Faults) (r : Registry) (rows : List RegisteredModem) (gates : Dict Text GateFailure)
    (k : Text)
    → lookup k (read_gates faults r rows gates) ≡ (
        if is_there (select_modems k rows) && not (is_listed k faults.gates_unreadable)
        then or_read (gate_failure k r) (lookup k gates)
        else lookup k gates)
unfolding read_gates select_modems
read_gates-lookup faults r [] gates k = refl
read_gates-lookup faults r (row ∷ rows) gates k = elim (Bool-cases (text_eq row.imei k)) [
  | inl e ↦ ground (
    arith,
    e,
    is_listed-eq row.imei k faults.gates_unreadable e,
    ap (λ i. gate_failure i r) ((text_eq_iff row.imei k).0 e),
    with_gate-lookup row.imei k (gate_failure row.imei r) gates,
    read_gates-lookup faults r rows gates k,
    read_gates-lookup faults r rows (with_gate row.imei (gate_failure row.imei r) gates) k,
  )
  | inr e ↦ ground (
    arith,
    e,
    with_gate-lookup row.imei k (gate_failure row.imei r) gates,
    read_gates-lookup faults r rows gates k,
    read_gates-lookup faults r rows (with_gate row.imei (gate_failure row.imei r) gates) k,
  )
]
