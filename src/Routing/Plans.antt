-- ===== src/Routing/Plans.antt =====
-- What the plans of the built-in verticals keep to, and that their policies belong together.
use vodoge_edge.Common.{◌≡◌, refl, true, none, some, [], ◌∷◌, if◌then◌else◌, arith}
use vodoge_edge.Common.Text.{Text, codes}
use vodoge_edge.Capability.{
  Bearer, cellular, ims, sgs, supported, unsupported, Capability, Vertical, cn, custom, vertical_of,
  vertical_eq,
}
use vodoge_edge.Routing.{
  RadioState, is_available, SendPlan, unavailable, veto_unsupported, authorized_bearer,
  available_of, plan_of, probe_in_order, ordered_plan, cn_probe, cn_authorized, cn_plan, intl_probe,
  intl_fallback, intl_plan, plan,
}
use vodoge_edge.Routing.Policies.{
  VerticalFactory, cn_factory, intl_factory, lab_factory, factory_id, matches, sms_router,
  registration_policy, esim_policy, egress_policy, notification_policy, is_coherent, family_for,
  first_match, resolve, builtin_registry,
}

-- What a plan may be, for a capability and the radio's state.
pub record IsSound (c : Capability) (r : RadioState) (p : SendPlan) : Type 0 where
  pub vetoed : (reason : Text) → c.sms_mo ≡ unsupported reason → p ≡ unavailable reason
  pub authorized :
      (b : Bearer) → c.sms_mo ≡ supported b → is_available r b ≡ true → p.primary ≡ some b
  pub behind : p.primary ≡ none → p.fallback ≡ none
  pub distinct : (b : Bearer) → p.primary ≡ some b → p.fallback ≡ some b → ⊥

cn_plan-IsSound : (c : Capability) (r : RadioState) → IsSound c r (cn_plan c r)
unfolding cn_plan cn_probe cn_authorized veto_unsupported authorized_bearer
cn_plan-IsSound c r = record {
  vetoed = λ reason e. ground arith;
  authorized = λ b e a. ground arith;
  behind = λ e. ground arith;
  distinct = λ b e f. ground arith;
}

intl_plan-IsSound : (c : Capability) (r : RadioState) → IsSound c r (intl_plan c r)
unfolding intl_plan intl_probe intl_fallback veto_unsupported authorized_bearer
intl_plan-IsSound c r = record {
  vetoed = λ reason e. ground arith;
  authorized = λ b e a. ground arith;
  behind = λ e. ground arith;
  distinct = λ b e f. ground arith;
}

lab_plan-IsSound :
    (c : Capability) (r : RadioState) → IsSound c r (ordered_plan (sgs ∷ ims ∷ cellular ∷ []) c r)
unfolding ordered_plan probe_in_order plan_of available_of is_available
lab_plan-IsSound c r = record {
  vetoed = λ reason e. ground arith;
  authorized = λ b e a. ground arith;
  behind = λ e. ground arith;
  distinct = λ b e f. ground arith;
}

-- The plan of every vertical, known or not, keeps to the matrix: an unsupported service is never sent and keeps the
-- matrix's reason, an authorized bearer that is available is the primary one, there is no fallback without a primary
-- bearer, and the two are never the same.
pub plan-IsSound :
    (v : Vertical) (c : Capability) (r : RadioState)
    → IsSound c r (plan (sms_router (resolve builtin_registry v)) c r)
unfolding plan sms_router
plan-IsSound v c r = any_factory (resolve builtin_registry v)
  where
    any_factory : (f : VerticalFactory) → IsSound c r (plan (sms_router f) c r)
    any_factory cn_factory = cn_plan-IsSound c r
    any_factory intl_factory = intl_plan-IsSound c r
    any_factory lab_factory = lab_plan-IsSound c r

-- A domestic send has no second way: no fallback, and when the matrix authorizes a bearer, this one or none.
pub cn_plan_alone :
    (c : Capability) (r : RadioState) (b : Bearer)
    → c.sms_mo ≡ supported b
    → ((cn_plan c r).fallback ≡ none)
      × ((cn_plan c r).primary ≡ (if is_available r b then some b else none))
unfolding cn_plan cn_authorized veto_unsupported authorized_bearer
cn_plan_alone c r b e = ground arith

family_for-is_coherent : (f : VerticalFactory) → is_coherent (family_for f) ≡ true
unfolding is_coherent family_for factory_id registration_policy esim_policy egress_policy
    notification_policy
family_for-is_coherent cn_factory = refl
family_for-is_coherent intl_factory = refl
family_for-is_coherent lab_factory = refl

-- The policies of every vertical come from one factory: the vertical's own for cn, intl and lab, and intl's for every
-- other name.
pub resolve-is_coherent :
    (v : Vertical)
    → (is_coherent (family_for (resolve builtin_registry v)) ≡ true)
      × ((family_for (resolve builtin_registry v)).vertical_id ≡ (
          if vertical_eq v cn
          then codes "cn"
          else if vertical_eq v (custom (codes "lab"))
          then codes "lab"
          else codes "intl"))
unfolding first_match matches family_for factory_id vertical_eq vertical_of
resolve-is_coherent v = ground (
  arith,
  family_for-is_coherent
      (first_match (cn_factory ∷ intl_factory ∷ lab_factory ∷ []) v intl_factory),
)
