-- ===== src/Routing/Tests.antt =====
-- Plans on small inputs, and the theorems at them.
use vodoge_edge.Common.{◌≡◌, refl, some, none, [], ◌∷◌}
use vodoge_edge.Common.Text.{codes}
use vodoge_edge.Capability.{
  cellular, ims, bearer_name, supported, probe, Capability, intl, custom, vertical_of, vertical_eq,
}
use vodoge_edge.Routing.{
  RadioState, set_available, set_all, with_available, is_available, veto_unsupported,
  authorized_bearer, available_of, plan_of, probe_in_order, ordered_plan, cn_probe, cn_authorized,
  cn_plan, intl_probe, intl_fallback, intl_reason, intl_plan, plan,
}
use vodoge_edge.Routing.Policies.{
  factory_id, matches, sms_router, registration_policy, esim_policy, egress_policy,
  notification_policy, is_coherent, family_for, first_match, resolve, builtin_registry, lab_factory,
}
use vodoge_edge.Routing.Plans.{IsSound, plan-IsSound}

program : Unit {0}
unfolding bearer_name vertical_of vertical_eq set_available set_all is_available veto_unsupported
    authorized_bearer available_of plan_of probe_in_order ordered_plan cn_probe cn_authorized
    cn_plan intl_probe intl_fallback intl_reason intl_plan plan factory_id matches sms_router
    registration_policy esim_policy egress_policy notification_policy is_coherent family_for
    first_match
program = tt

abbrev both : RadioState
both = with_available (cellular ∷ ims ∷ [])

abbrev over_ims : Capability
over_ims = record { sms_mo = supported ims; sms_mt = probe; data_support = probe; voice = probe }

-- The domestic line keeps to IMS, the international one falls back, and the lab takes its own order.
plan_run :
    ((cn_plan over_ims both).fallback ≡ none)
    × ((intl_plan over_ims both).fallback ≡ some cellular)
    × (resolve builtin_registry (custom (codes "lab")) ≡ lab_factory)
    × ((plan (sms_router lab_factory) (record over_ims { sms_mo = probe }) both).primary ≡ some ims)
unfolding program
plan_run = (refl, refl, refl, refl)

plan-IsSound_example :
    IsSound over_ims both (plan (sms_router (resolve builtin_registry intl)) over_ims both)
plan-IsSound_example = plan-IsSound intl over_ims both
