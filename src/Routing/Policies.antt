-- ===== src/Routing/Policies.antt =====
-- The policies of a vertical, edge-core/src/policy.rs, and the factories that choose them, edge-core/src/factory.rs and
-- edge-core/src/verticals.
use vodoge_edge.Common.{Bool, true, false, ◌&&◌, List, [], ◌∷◌, if◌then◌else◌, map}
use vodoge_edge.Common.Text.{codes, text_eq}
use vodoge_edge.Capability.{
  cellular, ims, sgs, Vertical, cn, intl, vertical_of, vertical_eq, VerticalId,
}
use vodoge_edge.Routing.{SmsRouter, cn_router, intl_router, ordered_router}

pub data RecoveryPreference : Type 0 where
  cellular_first ims_first observe_only : RecoveryPreference

pub data DataIntent : Type 0 where
  allow_cellular deny : DataIntent

pub data ReleaseScope : Type 0 where
  all_sessions all_except_esim_channel : ReleaseScope

pub record RegistrationPolicy : Type 0 where
  pub vertical_id : VerticalId
  pub allow_ims : Bool
  pub recovery_preference : RecoveryPreference

pub record EsimPolicy : Type 0 where
  pub vertical_id : VerticalId
  pub switch_release_scope : ReleaseScope
  pub allow_profile_download : Bool

pub record EgressPolicy : Type 0 where
  pub vertical_id : VerticalId
  pub data_intent : DataIntent

pub record NotificationPolicy : Type 0 where
  pub vertical_id : VerticalId
  pub surface_capability_unsupported : Bool
  pub surface_registration_conflict : Bool

pub record PolicyFamily : Type 0 where
  pub vertical_id : VerticalId
  pub sms : SmsRouter
  pub registration : RegistrationPolicy
  pub esim : EsimPolicy
  pub egress : EgressPolicy
  pub notification : NotificationPolicy

unfoldable pub is_coherent : PolicyFamily → Bool
is_coherent f =
    text_eq f.registration.vertical_id f.vertical_id
    && text_eq f.esim.vertical_id f.vertical_id
    && text_eq f.egress.vertical_id f.vertical_id
    && text_eq f.notification.vertical_id f.vertical_id

-- The implementations of `VerticalFactory`.
pub data VerticalFactory : Type 0 where
  cn_factory intl_factory lab_factory : VerticalFactory

unfoldable pub factory_id : VerticalFactory → VerticalId
factory_id cn_factory = codes "cn"
factory_id intl_factory = codes "intl"
factory_id lab_factory = codes "lab"

-- The vertical of the device context.
unfoldable pub matches : VerticalFactory → Vertical → Bool
matches cn_factory v = vertical_eq v cn
matches intl_factory v = vertical_eq v intl
matches lab_factory v = vertical_eq v (vertical_of (codes "lab"))

unfoldable pub sms_router : VerticalFactory → SmsRouter
sms_router cn_factory = cn_router
sms_router intl_factory = intl_router
sms_router lab_factory = ordered_router (sgs ∷ ims ∷ cellular ∷ [])

unfoldable pub registration_policy : VerticalFactory → RegistrationPolicy
registration_policy cn_factory = record {
  vertical_id = codes "cn";
  allow_ims = true;
  recovery_preference = ims_first;
}
registration_policy intl_factory = record {
  vertical_id = codes "intl";
  allow_ims = true;
  recovery_preference = cellular_first;
}
registration_policy lab_factory = record {
  vertical_id = codes "lab";
  allow_ims = false;
  recovery_preference = observe_only;
}

unfoldable pub esim_policy : VerticalFactory → EsimPolicy
esim_policy cn_factory = record {
  vertical_id = codes "cn";
  switch_release_scope = all_except_esim_channel;
  allow_profile_download = true;
}
esim_policy intl_factory = record {
  vertical_id = codes "intl";
  switch_release_scope = all_except_esim_channel;
  allow_profile_download = true;
}
esim_policy lab_factory = record {
  vertical_id = codes "lab";
  switch_release_scope = all_except_esim_channel;
  allow_profile_download = false;
}

unfoldable pub egress_policy : VerticalFactory → EgressPolicy
egress_policy cn_factory = record { vertical_id = codes "cn"; data_intent = allow_cellular }
egress_policy intl_factory = record { vertical_id = codes "intl"; data_intent = allow_cellular }
egress_policy lab_factory = record { vertical_id = codes "lab"; data_intent = deny }

unfoldable pub notification_policy : VerticalFactory → NotificationPolicy
notification_policy cn_factory = record {
  vertical_id = codes "cn";
  surface_capability_unsupported = true;
  surface_registration_conflict = true;
}
notification_policy intl_factory = record {
  vertical_id = codes "intl";
  surface_capability_unsupported = true;
  surface_registration_conflict = true;
}
notification_policy lab_factory = record {
  vertical_id = codes "lab";
  surface_capability_unsupported = true;
  surface_registration_conflict = true;
}

-- `assemble`, whose capability no factory reads.
unfoldable pub family_for : VerticalFactory → PolicyFamily
family_for f = record {
  vertical_id = factory_id f;
  sms = sms_router f;
  registration = registration_policy f;
  esim = esim_policy f;
  egress = egress_policy f;
  notification = notification_policy f;
}

pub record VerticalRegistry : Type 0 where
  pub factories : List VerticalFactory
  pub fallback : VerticalFactory

unfoldable pub first_match : List VerticalFactory → Vertical → VerticalFactory → VerticalFactory
first_match [] v fallback = fallback
first_match (f ∷ factories) v fallback =
    let rest = first_match factories v fallback in if matches f v then f else rest

abbrev pub resolve : VerticalRegistry → Vertical → VerticalFactory
resolve registry v = first_match registry.factories v registry.fallback

abbrev pub factory_ids : VerticalRegistry → List VerticalId
factory_ids registry = map factory_id registry.factories

abbrev pub builtin_registry : VerticalRegistry
builtin_registry = record {
  factories = cn_factory ∷ intl_factory ∷ lab_factory ∷ [];
  fallback = intl_factory;
}
