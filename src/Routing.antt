-- ===== src/Routing.antt =====
-- The way of an outbound message, edge-core/src/sms.rs with the factories of edge-core/src/verticals, and the policies
-- that come with it, edge-core/src/policy.rs and factory.rs. A trait object is the data of the implementation behind it.
use vodoge_edge.Common.{
  Bool, true, false, ◌&&◌, Option, none, some, List, [], ◌∷◌, ◌++◌, if◌then◌else◌,
}
use vodoge_edge.Common.Text.{Text, codes, text_eq}
use vodoge_edge.Capability.{
  Bearer, cellular, ims, sgs, bearer_name, BearerSupport, supported, unsupported, probe, Capability,
  Vertical, cn, intl, vertical_of, vertical_eq, VerticalId,
}
pub mod Policies
pub mod Plans
pub mod Tests

pub record RadioState : Type 0 where
  pub cellular_registered : Bool
  pub ims_registered : Bool
  pub sgs_available : Bool

abbrev pub no_radio : RadioState
no_radio = record { cellular_registered = false; ims_registered = false; sgs_available = false }

unfoldable pub is_available : RadioState → Bearer → Bool
is_available r cellular = r.cellular_registered
is_available r ims = r.ims_registered
is_available r sgs = r.sgs_available

unfoldable pub set_available : RadioState → Bearer → Bool → RadioState
set_available r cellular available = record r { cellular_registered = available }
set_available r ims available = record r { ims_registered = available }
set_available r sgs available = record r { sgs_available = available }

unfoldable pub set_all : RadioState → List Bearer → RadioState
set_all r [] = r
set_all r (b ∷ bearers) = set_all (set_available r b true) bearers

abbrev pub with_available : List Bearer → RadioState
with_available bearers = set_all no_radio bearers

pub record SendPlan : Type 0 where
  pub primary : Option Bearer
  pub fallback : Option Bearer
  pub reason : Text

abbrev pub unavailable : Text → SendPlan
unavailable reason = record { primary = none; fallback = none; reason = reason }

abbrev pub with_reason : Option Bearer → Option Bearer → Text → SendPlan
with_reason primary fallback reason = record {
  primary = primary;
  fallback = fallback;
  reason = reason;
}

unfoldable pub veto_unsupported : Capability → Option SendPlan
veto_unsupported c = elim c.sms_mo [ unsupported reason ↦ some (unavailable reason) | _ ↦ none ]

unfoldable pub authorized_bearer : Capability → Option Bearer
authorized_bearer c = elim c.sms_mo [ supported b ↦ some b | _ ↦ none ]

-- The bearers of the order that are available.
unfoldable pub available_of : RadioState → List Bearer → List Bearer
available_of r [] = []
available_of r (b ∷ bearers) =
    let rest = available_of r bearers in if is_available r b then b ∷ rest else rest

unfoldable pub plan_of : List Bearer → SendPlan
plan_of [] =
    unavailable
      (codes "SMS capability requires runtime probing and no bearer is currently available")
plan_of (primary ∷ []) = with_reason (some primary) none (
    codes "SMS capability requires runtime probing; "
    ++ bearer_name primary
    ++ codes " is available")
plan_of (primary ∷ fallback ∷ rest) = with_reason (some primary) (some fallback) (
    codes "SMS capability requires runtime probing; "
    ++ bearer_name primary
    ++ codes " is primary and "
    ++ bearer_name fallback
    ++ codes " is fallback")

unfoldable pub probe_in_order : List Bearer → RadioState → SendPlan
probe_in_order preferred r = plan_of (available_of r preferred)

-- `OrderedSmsRouter::plan`
unfoldable pub ordered_plan : List Bearer → Capability → RadioState → SendPlan
ordered_plan preferred c r = elim c.sms_mo [
  | unsupported reason ↦ unavailable reason
  | supported b ↦
      if is_available r b
      then with_reason (some b) none
          (codes "capability matrix authorizes " ++ bearer_name b ++ codes " as the SMS bearer")
      else unavailable (
          codes "capability matrix authorizes "
          ++ bearer_name b
          ++ codes ", but it is not currently registered")
  | probe ↦ probe_in_order preferred r
]

-- `CnSmsRouter::plan` behind the veto.
unfoldable pub cn_probe : RadioState → SendPlan
cn_probe r =
    if r.ims_registered
    then with_reason (some ims) none (codes "cn vertical: IMS is registered; send over IMS only")
    else with_reason (some cellular) none
        (codes "cn vertical: IMS is not registered; send over cellular only")

unfoldable pub cn_authorized : RadioState → Bearer → SendPlan
cn_authorized r b =
    if is_available r b
    then with_reason (some b) none (
        codes "cn vertical: capability matrix authorizes "
        ++ bearer_name b
        ++ codes "; no fallback")
    else unavailable (
        codes "cn vertical: capability matrix authorizes "
        ++ bearer_name b
        ++ codes ", but it is not currently registered")

unfoldable pub cn_plan : Capability → RadioState → SendPlan
cn_plan c r = elim (veto_unsupported c) [
  | some rejected ↦ rejected
  | none ↦ elim (authorized_bearer c) [ some b ↦ cn_authorized r b | none ↦ cn_probe r ]
]

-- `IntlSmsRouter::probe`
unfoldable pub intl_probe : RadioState → SendPlan
intl_probe r =
    if r.cellular_registered
    then if r.ims_registered
      then with_reason (some cellular) (some ims)
          (codes "intl vertical: cellular is registered; fall back to IMS on failure")
      else with_reason (some cellular) none
          (codes "intl vertical: cellular is registered and IMS is not available")
    else if r.ims_registered
    then with_reason (some ims) (some cellular)
        (codes "intl vertical: cellular is down; try IMS then retry cellular")
    else with_reason (some cellular) none
        (codes "intl vertical: neither cellular nor IMS is registered; try cellular")

unfoldable pub intl_fallback : RadioState → Bearer → Option Bearer
intl_fallback r cellular = if r.ims_registered then some ims else none
intl_fallback r ims = if r.cellular_registered then some cellular else none
intl_fallback r sgs = none

unfoldable pub intl_reason : Bearer → Option Bearer → Text
intl_reason b (some fallback) =
    codes "intl vertical: capability matrix authorizes "
    ++ bearer_name b
    ++ codes "; "
    ++ bearer_name fallback
    ++ codes " is fallback"
intl_reason b none =
    codes "intl vertical: capability matrix authorizes "
    ++ bearer_name b
    ++ codes "; no fallback is registered"

unfoldable pub intl_plan : Capability → RadioState → SendPlan
intl_plan c r = elim (veto_unsupported c) [
  | some rejected ↦ rejected
  | none ↦ elim (authorized_bearer c) [
    | some b ↦
        if is_available r b
        then with_reason (some b) (intl_fallback r b) (intl_reason b (intl_fallback r b))
        else intl_probe r
    | none ↦ intl_probe r
  ]
]

-- The implementations of `SmsRouter`.
pub data SmsRouter : Type 0 where
  cn_router intl_router : SmsRouter
  ordered_router : (preferred : List Bearer) → SmsRouter

unfoldable pub plan : SmsRouter → Capability → RadioState → SendPlan
plan cn_router c r = cn_plan c r
plan intl_router c r = intl_plan c r
plan (ordered_router preferred) c r = ordered_plan preferred c r
