-- ===== src/Strategy.antt =====
-- The strategies, edge-core/src/strategy.rs and edge-core/src/strategies: which hardware this build drives, and whether
-- one operation is supported for a modem, a carrier and a subscription.
use vodoge_edge.Common.{
  Bool, true, false, ◌&&◌, ◌||◌, not, Option, none, some, List, [], ◌∷◌, ◌++◌, if◌then◌else◌,
  is_some, Result, ok, err, ◌>>=◌,
}
use vodoge_edge.Common.Text.{Text, codes}
use vodoge_edge.Common.Dict.{Dict, lookup, contains, insert}
use vodoge_edge.Capability.{
  ModemFamily, family_name, CarrierProfile, carrier_name, Bearer, cellular, BearerSupport,
  supported, unsupported, probe, Capability,
}
use vodoge_edge.Capability.Keys.{family_key, carrier_key, matrix_key}
use vodoge_edge.Usb.{UsbIdentity, usb_eq}
use vodoge_edge.Matrix.{MatrixKey, CapabilityMatrix}
pub mod Shipped
pub mod Resolve
pub mod Layers
pub mod Measured
pub mod Tests

pub data Operation : Type 0 where
  sms_send sms_receive data_use voice_call : Operation

abbrev pub operation_wire : Operation → Text
operation_wire sms_send = codes "sms_mo"
operation_wire sms_receive = codes "sms_mt"
operation_wire data_use = codes "data"
operation_wire voice_call = codes "voice"

-- `Operation::of`
unfoldable pub support_of : Operation → Capability → BearerSupport
support_of sms_send c = c.sms_mo
support_of sms_receive c = c.sms_mt
support_of data_use c = c.data_support
support_of voice_call c = c.voice

pub data RefusedBy : Type 0 where
  by_ledger by_modem by_carrier by_subscription by_subscription_unreadable : RefusedBy

pub data Support : Type 0 where
  is_supported : Bearer → Support
  is_unsupported : RefusedBy → (reason : Text) → Support

pub record ModemStrategy : Type 0 where
  pub id : Text
  pub families : List ModemFamily
  pub usb_identities : List UsbIdentity
  pub ceiling : Operation → Option Text
  pub preferred_bearer : Operation → Option Bearer

pub record CarrierStrategy : Type 0 where
  pub id : Text
  pub carriers : List CarrierProfile
  pub bearer : Operation → Bearer → Option Bearer
  pub refuses : Operation → Option Text

pub data SubscriptionAuthority : Type 0 where
  declared_plan no_card unreadable : SubscriptionAuthority

pub record SubscriptionCapability : Type 0 where
  pub sms_send : Option Bool
  pub sms_receive : Option Bool
  pub data_plan : Option Bool
  pub voice : Option Bool
  pub authority : SubscriptionAuthority

abbrev pub declared : SubscriptionCapability → Operation → Option Bool
declared s sms_send = s.sms_send
declared s sms_receive = s.sms_receive
declared s data_use = s.data_plan
declared s voice_call = s.voice

abbrev is_false : Option Bool → Bool
is_false (some false) = true
is_false _ = false

unfoldable pub withholds : SubscriptionCapability → Operation → Bool
withholds s operation = is_false (declared s operation)

unfoldable pub is_authoritative : SubscriptionAuthority → Bool
is_authoritative unreadable = false
is_authoritative _ = true

-- `SupportLedger`
abbrev pub SupportLedger : Type 0
SupportLedger = Dict MatrixKey Capability

-- The loop of `SupportLedger::from_matrix`.
unfoldable pub record_all : List (MatrixKey × Capability) → SupportLedger → SupportLedger
record_all [] ledger = ledger
record_all ((key, capability) ∷ rules) ledger = record_all rules (insert key capability ledger)

unfoldable pub ledger_from_matrix : CapabilityMatrix → SupportLedger
ledger_from_matrix matrix = record_all matrix.rules []

pub record StrategyRegistry : Type 0 where
  pub modems : Dict ModemFamily ModemStrategy
  pub carriers : Dict CarrierProfile CarrierStrategy
  pub ledger : SupportLedger

pub data StrategyError : Type 0 where
  duplicate_modem : (family : Text) → (first second : Text) → StrategyError
  duplicate_carrier : (carrier : Text) → (first second : Text) → StrategyError

abbrev pub new_registry : SupportLedger → StrategyRegistry
new_registry ledger = record { modems = []; carriers = []; ledger = ledger }

-- The loop of `with_modem`.
unfoldable pub claim_families :
    ModemStrategy
    → List ModemFamily
    → Dict ModemFamily ModemStrategy
    → Result StrategyError (Dict ModemFamily ModemStrategy)
claim_families strategy [] modems = ok modems
claim_families strategy (family ∷ families) modems =
    let claimed = claim_families strategy families (insert family strategy modems) in
    elim (lookup family modems) [
      | some existing ↦ err (duplicate_modem (family_name family) existing.id strategy.id)
      | none ↦ claimed
    ]

unfoldable pub with_modem : ModemStrategy → StrategyRegistry → Result StrategyError StrategyRegistry
with_modem strategy registry =
    claim_families strategy strategy.families registry.modems >>= λ modems.
    ok (record registry { modems = modems })

-- The loop of `with_carrier`.
unfoldable pub claim_carriers :
    CarrierStrategy
    → List CarrierProfile
    → Dict CarrierProfile CarrierStrategy
    → Result StrategyError (Dict CarrierProfile CarrierStrategy)
claim_carriers strategy [] carriers = ok carriers
claim_carriers strategy (carrier ∷ profiles) carriers =
    let claimed = claim_carriers strategy profiles (insert carrier strategy carriers) in
    elim (lookup carrier carriers) [
      | some existing ↦ err (duplicate_carrier (carrier_name carrier) existing.id strategy.id)
      | none ↦ claimed
    ]

unfoldable pub with_carrier :
    CarrierStrategy → StrategyRegistry → Result StrategyError StrategyRegistry
with_carrier strategy registry =
    claim_carriers strategy strategy.carriers registry.carriers >>= λ carriers.
    ok (record registry { carriers = carriers })

unfoldable pub has_usb : UsbIdentity → List UsbIdentity → Bool
has_usb usb [] = false
has_usb usb (u ∷ us) = usb_eq u usb || has_usb usb us

unfoldable pub any_drives : UsbIdentity → Dict ModemFamily ModemStrategy → Bool
any_drives usb [] = false
any_drives usb ((family, strategy) ∷ modems) =
    has_usb usb strategy.usb_identities || any_drives usb modems

abbrev pub drives : StrategyRegistry → UsbIdentity → Bool
drives registry usb = any_drives usb registry.modems
