-- ===== src/Adoption/Gates.antt =====
-- The two gates of edge-core/src/binding.rs and the judgement of edge-core/src/retro.rs, against the conditions that
-- they stand for.
use vodoge_edge.Common.{
  ◌+◌, ◌≤◌, ◌≡◌, refl, ap, ◌↔◌, inl, inr, Bool, true, false, Option, none, some, arith,
  Option-cases, Result, ok, err,
}
use mathlib.Core.Path.{subst}
use vodoge_edge.Common.Int.{ℤ, pos, ◌≤ℤ◌}
use vodoge_edge.Capability.{ModemFamily, has_measurement}
use vodoge_edge.Usb.{UsbIdentity}
use vodoge_edge.Matrix.{CapabilityMatrix, query, admits, device_gate}
use vodoge_edge.Strategy.{StrategyRegistry, drives}
use vodoge_edge.Adoption.{
  BindRefusal, kind, verdict, Pair, measured_gate, bind_gates, MatrixAuthority, stored,
  GateEvidence, unbind, observation_max_age_ms, grace_ms, grace_passes, elapsed_ms, quarantined,
  judge_gates, pair_of, is_other, judge_family, judge_evidence, enforce_one,
}

-- The modem may be adopted: its identity was read, this build drives it, the catalogue admits it, and its pair, read
-- too, was measured.
pub record IsAdoptable (registry : StrategyRegistry) (matrix : CapabilityMatrix)
    (usb : Option UsbIdentity) (pair : Option Pair) : Type 0 where
  pub identity : UsbIdentity
  pub was_read : usb ≡ some identity
  pub is_driven : drives registry identity ≡ true
  pub is_admitted : admits (device_gate matrix identity) ≡ true
  pub named : Pair
  pub was_named : pair ≡ some named
  pub was_measured : has_measurement (query matrix named.0 named.1).capability ≡ true

IsAdoptable-of_ok :
    (registry : StrategyRegistry) (matrix : CapabilityMatrix) (usb : Option UsbIdentity)
    (pair : Option Pair)
    → bind_gates registry matrix usb pair ≡ ok tt
    → IsAdoptable registry matrix usb pair
unfolding bind_gates measured_gate
IsAdoptable-of_ok registry matrix none pair h = absurd (ground (arith, h))
IsAdoptable-of_ok registry matrix (some identity) none h = absurd (ground (arith, h))
IsAdoptable-of_ok registry matrix (some identity) (some (family, carrier)) h = record {
  identity = identity;
  was_read = refl;
  is_driven = ground (arith, h);
  is_admitted = ground (arith, h);
  named = (family, carrier);
  was_named = refl;
  was_measured = ground (arith, h);
}

bind_gates-IsAdoptable :
    (registry : StrategyRegistry) (matrix : CapabilityMatrix) (usb : Option UsbIdentity)
    (pair : Option Pair)
    → IsAdoptable registry matrix usb pair
    → bind_gates registry matrix usb pair ≡ ok tt
unfolding bind_gates measured_gate
bind_gates-IsAdoptable registry matrix usb pair a =
    ground (arith, a.was_read, a.is_driven, a.is_admitted, a.was_named, a.was_measured)

-- The gates let a modem be adopted exactly when its identity was read, this build drives it, the catalogue admits it,
-- and its family and its carrier were read and have a measurement.
pub bind_gates_iff :
    (registry : StrategyRegistry) (matrix : CapabilityMatrix) (usb : Option UsbIdentity)
    (pair : Option Pair)
    → (bind_gates registry matrix usb pair ≡ ok tt) ↔ IsAdoptable registry matrix usb pair
bind_gates_iff registry matrix usb pair =
    (IsAdoptable-of_ok registry matrix usb pair, bind_gates-IsAdoptable registry matrix usb pair)

-- What an unbinding stands on: an authoritative matrix, a cloud that was reached, a fresh observation of a recognised
-- family, a verdict of the gates on exactly what was observed, and a quarantine that has lasted in time and in passes.
pub record IsConvicted (registry : StrategyRegistry) (matrix : CapabilityMatrix)
    (authority : MatrixAuthority) (resumed : Bool) (evidence : GateEvidence) (now : ℤ)
    (refusal : BindRefusal) : Type 0 where
  pub authority_stored : authority ≡ stored
  pub was_resumed : resumed ≡ true
  pub age : ℤ
  pub was_observed : evidence.observation_age_ms ≡ some age
  pub is_fresh : age ≤ℤ pos observation_max_age_ms
  pub observed : ModemFamily
  pub was_identified : evidence.observed_family ≡ some observed
  pub is_recognised : is_other observed ≡ false
  pub was_refused :
      bind_gates registry matrix evidence.usb (pair_of evidence.carrier observed) ≡ err refusal
  pub is_verdict : kind refusal ≡ verdict
  pub stood_long : pos grace_ms ≤ℤ elapsed_ms evidence now
  pub stood_often : grace_passes ≤ evidence.failing_passes + 1

quarantined-unbind :
    (evidence : GateEvidence) (now : ℤ) (refusal refusal' : BindRefusal)
    → quarantined evidence now refusal ≡ unbind refusal'
    → (refusal ≡ refusal')
      × (pos grace_ms ≤ℤ elapsed_ms evidence now)
      × (grace_passes ≤ evidence.failing_passes + 1)
unfolding quarantined
quarantined-unbind evidence now refusal refusal' h =
    (ground (arith, h), ground (arith, h), ground (arith, h))

err_of :
    (evidence : GateEvidence) (now : ℤ) (refused refusal : BindRefusal)
    → judge_gates evidence now (err refused) ≡ unbind refusal
    → refused ≡ refusal
unfolding judge_gates
err_of evidence now refused refusal h =
    ground (arith, h, quarantined-unbind evidence now refused refusal)

verdict_refused :
    (evidence : GateEvidence) (now : ℤ) (refused refusal : BindRefusal)
    → judge_gates evidence now (err refused) ≡ unbind refusal
    → kind refused ≡ verdict
unfolding judge_gates
verdict_refused evidence now refused refusal h = ground (arith, h)

judge_gates-unbind :
    (evidence : GateEvidence) (now : ℤ) (gates : Result BindRefusal (Unit {0}))
    (refusal : BindRefusal)
    → judge_gates evidence now gates ≡ unbind refusal
    → (gates ≡ err refusal)
      × (kind refusal ≡ verdict)
      × (quarantined evidence now refusal ≡ unbind refusal)
unfolding judge_gates
judge_gates-unbind evidence now (ok u) refusal h = absurd (cc)
judge_gates-unbind evidence now (err refused) refusal h =
    let e = err_of evidence now refused refusal h in
    (
      ap err e,
      subst (λ r. kind r ≡ verdict) e (verdict_refused evidence now refused refusal h),
      subst (λ r. quarantined evidence now r ≡ unbind refusal) e
          (ground (arith, h, verdict_refused evidence now refused refusal h)),
    )

judge_family-unbind :
    (registry : StrategyRegistry) (matrix : CapabilityMatrix) (evidence : GateEvidence) (now : ℤ)
    (observed : ModemFamily) (refusal : BindRefusal)
    → judge_family registry matrix evidence now observed ≡ unbind refusal
    → (is_other observed ≡ false)
      × (judge_gates evidence now
            (bind_gates registry matrix evidence.usb (pair_of evidence.carrier observed))
          ≡ unbind refusal)
unfolding judge_family
judge_family-unbind registry matrix evidence now observed refusal h =
    (ground (arith, h), ground (arith, h))

-- A modem is unbound only on such a conviction.
pub enforce_one-convicts :
    (registry : StrategyRegistry) (matrix : CapabilityMatrix) (authority : MatrixAuthority)
    (resumed : Bool) (evidence : GateEvidence) (now : ℤ) (refusal : BindRefusal)
    → enforce_one registry matrix authority resumed evidence now ≡ unbind refusal
    → IsConvicted registry matrix authority resumed evidence now refusal
unfolding enforce_one judge_evidence
enforce_one-convicts registry matrix authority resumed evidence now refusal h =
    elim (Option-cases evidence.observation_age_ms) [
      | inl e ↦ absurd (ground (arith, h, e))
      | inr (age, e) ↦ elim (Option-cases evidence.observed_family) [
        | inl f ↦ absurd (ground (arith, h, e, f))
        | inr (observed, f) ↦
            let (other, j) =
              judge_family-unbind registry matrix evidence now observed refusal
                (ground (arith, h, e, f)) in
            let (gates, is, q) =
              judge_gates-unbind evidence now
                (bind_gates registry matrix evidence.usb (pair_of evidence.carrier observed))
                refusal j in
            let (same, long, often) = quarantined-unbind evidence now refusal refusal q in
            record {
              authority_stored = ground (arith, h);
              was_resumed = ground (arith, h);
              age = age;
              was_observed = e;
              is_fresh = ground (arith, h, e, f);
              observed = observed;
              was_identified = f;
              is_recognised = other;
              was_refused = gates;
              is_verdict = is;
              stood_long = long;
              stood_often = often;
            }
      ]
    ]
