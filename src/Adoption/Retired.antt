-- ===== src/Adoption/Retired.antt =====
-- The retirement of a modem in a run, edge-bin/src/main.rs and edge-core/src/retro.rs: what it needs in the passes before.
use vodoge_edge.Common.{
  ℕ, ◌+◌, ◌%◌, ◌^◌, ◌≤◌, ◌≡◌, refl, sym, ap, ◌∙◌, inl, inr, Option, none, some, List, ◌∷◌, arith,
  Option-cases,
}
use mathlib.Core.Path.{subst}
use vodoge_edge.Common.Text.{Text}
use vodoge_edge.Common.Int.{ℤ, pos, ◌≤ℤ◌, saturating_sub}
use vodoge_edge.Common.Keys.{text_key}
use vodoge_edge.Common.Dict.{lookup}
use vodoge_edge.Adoption.{
  Enforcement, keep, hold, quarantine, unbind, GateEvidence, BindRefusal, elapsed_ms, grace_ms,
  grace_passes,
}
use vodoge_edge.Adoption.Registry.{RegisteredRow, failure_of}
use vodoge_edge.Adoption.Pass.{LocalModemDiscovery, unbind_too, evidence_of}
use vodoge_edge.Adoption.Enforce.{PassInput}
use vodoge_edge.Adoption.Pointwise.{row_verdict, row_after_verdict, row_after, entry_after}
use vodoge_edge.Adoption.Gates.{IsConvicted, enforce_one-convicts}
use vodoge_edge.Adoption.Runs.{
  Event, pass, apply, run, run-IsRegistry, readable, signs, standing, standing_since,
}
use vodoge_edge.Adoption.Standing.{Agrees, run-Agrees}
use vodoge_edge.Adoption.Entries.{passed_entry, pass-lookup}

-- A pass takes a row away only by a conviction of its evidence, in the mode that unbinds.
gone_by :
    (input : PassInput) (k : Text) (row : RegisteredRow) (v : Enforcement)
    → row_after_verdict input k row v ≡ none
    → (input.mode ≡ unbind_too) × ((refusal : BindRefusal) × (v ≡ unbind refusal))
unfolding row_after_verdict
gone_by input k row keep h = absurd (ground (arith, h))
gone_by input k row (hold reason) h = absurd (cc)
gone_by input k row (quarantine refusal elapsed passes) h = absurd (ground (arith, h))
gone_by input k row (unbind refusal) h = (ground (arith, h), (refusal, refl))

abbrev pub final_evidence : PassInput → List LocalModemDiscovery → RegisteredRow → GateEvidence
final_evidence input discoveries row =
    evidence_of (failure_of row) input.observed discoveries input.criterion.now row.modem

-- What the retirement of a modem in the last pass of a run stands on: the mode, a conviction of that pass on the row as
-- the run left it, and refusals that were mark_row in enough passes, since long enough, with no end and no restart of the
-- mark between.
pub record IsSentenced (input : PassInput) (k : Text) (events : List Event) (row : RegisteredRow)
    : Type 0 where
  pub mode_unbinds : input.mode ≡ unbind_too
  pub discoveries : List LocalModemDiscovery
  pub was_readable : readable input ≡ some discoveries
  pub refusal : BindRefusal
  pub convicted :
      IsConvicted input.criterion.strategies input.criterion.matrix input.criterion.authority
        input.criterion.uplink_ever_resumed
        (final_evidence input discoveries row)
        input.criterion.now
        refusal
  pub since : ℤ
  pub stands_since : standing_since (signs k events) ≡ some since
  pub stands_long : pos grace_ms ≤ℤ saturating_sub input.criterion.now since
  pub stands_often : grace_passes ≤ standing (signs k events) + 1

mod_le : (n : ℕ) → n % 2 ^ 32 ≤ n
mod_le n = omega arith

-- The times and the passes of a conviction, in the columns of the row.
long_enough :
    (input : PassInput) (discoveries : List LocalModemDiscovery) (row : RegisteredRow)
    → pos grace_ms ≤ℤ elapsed_ms (final_evidence input discoveries row) input.criterion.now
    → grace_passes ≤ (final_evidence input discoveries row).failing_passes + 1
    → (since : ℤ) × ((row.gate_failed_since ≡ some since)
        × (pos grace_ms ≤ℤ saturating_sub input.criterion.now since)
        × (grace_passes ≤ row.gate_failed_passes + 1))
unfolding evidence_of elapsed_ms
long_enough input discoveries row long often = elim (Option-cases row.gate_failed_since) [
  | inl e ↦ absurd (ground (arith, e, often))
  | inr (since, e) ↦
      (since, (e, ground (arith, e, long), ground (arith, e, often, mod_le row.gate_failed_passes)))
]

retired_by :
    (input : PassInput) (k : Text) (row : RegisteredRow) (d : Option (List LocalModemDiscovery))
    → passed_entry input k d (some row) ≡ none
    → (discoveries : List LocalModemDiscovery) × ((d ≡ some discoveries)
        × (row_after_verdict input k row (row_verdict input discoveries row) ≡ none))
unfolding passed_entry entry_after row_after
retired_by input k row none h = absurd (cc)
retired_by input k row (some discoveries) h = (discoveries, (refl, ground (arith, h)))

-- When a pass at the end of any run takes an adopted modem out of the table, the pass could read its inputs and was in the
-- mode that unbinds; the matrix was authoritative, the cloud had been reached, the modem was freshly observed with a
-- recognised family, and the gates refused it by a verdict; and, counting this pass, at least 100 passes had refused and
-- mark_row it since its mark was last ended or restarted, the mark being at least 30 minutes old.
pub run-retires :
    (input : PassInput) (k : Text) (events : List Event) (row : RegisteredRow)
    → lookup k (run events).registered ≡ some row
    → lookup k (run (pass input ∷ events)).registered ≡ none
    → IsSentenced input k events row
unfolding run apply Agrees
run-retires input k events row h gone =
    let here =
      sym (ap (passed_entry input k (readable input)) h)
      ∙ (sym (pass-lookup input k (run events) (run-IsRegistry events)) ∙ gone) in
    let (discoveries, (read, left)) = retired_by input k row (readable input) here in
    let (mode, (refusal, verdict)) = gone_by input k row (row_verdict input discoveries row) left in
    let c = input.criterion in
    let convicted =
      enforce_one-convicts c.strategies c.matrix c.authority c.uplink_ever_resumed
        (final_evidence input discoveries row) c.now refusal verdict in
    let (since, (mark_row, long, often)) =
      long_enough input discoveries row convicted.stood_long convicted.stood_often in
    let agrees = subst (Agrees (signs k events)) h (run-Agrees events k) in
    record {
      mode_unbinds = mode;
      discoveries = discoveries;
      was_readable = read;
      refusal = refusal;
      convicted = convicted;
      since = since;
      stands_since = sym agrees.0 ∙ mark_row;
      stands_long = long;
      stands_often = subst (λ n. grace_passes ≤ n + 1) agrees.1 often;
    }
