-- ===== src/Strategy/Resolve.antt =====
-- The resolution of an operation, edge-core/src/strategy.rs: the four layers of `resolve`, the first refusal first.
use vodoge_edge.Common.{Bool, true, false, not, Option, none, some, ◌++◌, if◌then◌else◌}
use vodoge_edge.Common.Text.{Text, codes}
use vodoge_edge.Common.Dict.{lookup, contains}
use vodoge_edge.Capability.{
  ModemFamily, family_name, CarrierProfile, carrier_name, Bearer, BearerSupport, supported,
  unsupported, probe,
}
use vodoge_edge.Capability.Keys.{family_key, carrier_key, matrix_key}
use vodoge_edge.Strategy.{
  Operation, operation_wire, support_of, Support, ModemStrategy, CarrierStrategy,
  SubscriptionCapability, withholds, is_authoritative, StrategyRegistry, by_ledger, by_modem,
  by_carrier, by_subscription, by_subscription_unreadable, is_supported, is_unsupported,
}

pub record Resolution : Type 0 where
  pub support : Support
  pub modem : Option Text
  pub carrier_strategy : Option Text
  pub tested : Bool

abbrev untested_reason : ModemFamily → CarrierProfile → Text
untested_reason family carrier =
    family_name family
    ++ codes " on "
    ++ carrier_name carrier
    ++ codes " has not been tested; add it to the support ledger after measuring it"

abbrev probe_reason : ModemFamily → CarrierProfile → Text
probe_reason family carrier =
    family_name family
    ++ codes " on "
    ++ carrier_name carrier
    ++ codes " is recorded as needing a probe, which is not a measurement"

abbrev unreadable_reason : Operation → Text
unreadable_reason operation =
    codes "the plan on this card could not be read, so "
    ++ operation_wire operation
    ++ codes
        " is held back until it can be; a row written by hand with the on-box sqlite3 is the usual cause -- the four "
    ++ codes "flag columns take 0 and 1, not 'false' and 'true'"

abbrev withheld_reason : Operation → Text
withheld_reason operation =
    codes "the plan on this card is recorded as not including " ++ operation_wire operation

-- The ceiling of the hardware, asked before the ledger.
abbrev pub modem_ceiling : Option ModemStrategy → Operation → Option Text
modem_ceiling none operation = none
modem_ceiling (some strategy) operation = strategy.ceiling operation

-- The fourth layer.
unfoldable pub subscribe : SubscriptionCapability → Operation → Bearer → Support
subscribe subscription operation bearer =
    if not (is_authoritative subscription.authority)
    then is_unsupported by_subscription_unreadable (unreadable_reason operation)
    else if withholds subscription operation
    then is_unsupported by_subscription (withheld_reason operation)
    else is_supported bearer

abbrev pub or_measured : Option Bearer → Bearer → Bearer
or_measured none measured = measured
or_measured (some chosen) measured = chosen

-- The third layer.
unfoldable pub carry :
    Option CarrierStrategy → SubscriptionCapability → Operation → Bearer → Support
carry none subscription operation bearer = subscribe subscription operation bearer
carry (some strategy) subscription operation bearer = elim (strategy.refuses operation) [
  | some reason ↦ is_unsupported by_carrier reason
  | none ↦ subscribe subscription operation (or_measured (strategy.bearer operation bearer) bearer)
]

-- The second layer, where the ledger has the pair.
unfoldable pub measure :
    StrategyRegistry
    → ModemFamily
    → CarrierProfile
    → SubscriptionCapability
    → Operation
    → BearerSupport
    → Support
measure registry family carrier subscription operation (supported bearer) =
    carry (lookup carrier registry.carriers) subscription operation bearer
measure registry family carrier subscription operation (unsupported reason) =
    is_unsupported by_carrier reason
measure registry family carrier subscription operation probe =
    is_unsupported by_ledger (probe_reason family carrier)

abbrev modem_id : Option ModemStrategy → Option Text
modem_id none = none
modem_id (some strategy) = some strategy.id

abbrev carrier_id : Option CarrierStrategy → Option Text
carrier_id none = none
carrier_id (some strategy) = some strategy.id

abbrev resolution : StrategyRegistry → ModemFamily → CarrierProfile → Bool → Support → Resolution
resolution registry family carrier tested support = record {
  support = support;
  modem = modem_id (lookup family registry.modems);
  carrier_strategy = carrier_id (lookup carrier registry.carriers);
  tested = tested;
}

unfoldable pub resolve :
    StrategyRegistry
    → ModemFamily
    → CarrierProfile
    → SubscriptionCapability
    → Operation
    → Resolution
resolve registry family carrier subscription operation =
    elim (modem_ceiling (lookup family registry.modems) operation) [
      | some reason ↦
          resolution registry family carrier (contains (family, carrier) registry.ledger)
            (is_unsupported by_modem reason)
      | none ↦ elim (lookup (family, carrier) registry.ledger) [
        | none ↦
            resolution registry family carrier false
              (is_unsupported by_ledger (untested_reason family carrier))
        | some measured ↦
            resolution registry family carrier true (
              measure registry family carrier subscription operation
                (support_of operation measured))
      ]
    ]
