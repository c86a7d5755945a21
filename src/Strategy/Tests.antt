-- ===== src/Strategy/Tests.antt =====
-- The registry that the build ships, and the theorems at it.
use vodoge_edge.Common.{◌≡◌, refl, ◌↔◌, true, false, none, [], ◌∷◌, ok}
use vodoge_edge.Common.Dict.{lookup, insert}
use vodoge_edge.Capability.{
  ModemFamily, CarrierProfile, cellular, has_measurement, family_name, carrier_name,
}
use vodoge_edge.Capability.Keys.{family_key, carrier_key, matrix_key}
use vodoge_edge.Matrix.{into_capability, query}
use vodoge_edge.Matrix.Tests.{document, matrix, bench_usb, document_run}
use vodoge_edge.Strategy.{
  sms_send, support_of, is_supported, SubscriptionCapability, declared_plan, withholds,
  is_authoritative, record_all, ledger_from_matrix, StrategyRegistry, claim_families, with_modem,
  claim_carriers, with_carrier, has_usb, any_drives, drives,
}
use vodoge_edge.Strategy.Resolve.{subscribe, carry, measure, resolve}
use vodoge_edge.Strategy.Shipped.{
  quectel_ec, ec200u, cn_mobile_strategy, cn_unicom_strategy, cn_telecom_strategy,
  international_strategy, registry,
}
use vodoge_edge.Strategy.Layers.{IsPermitted, resolve-is_supported_iff}
use vodoge_edge.Strategy.Measured.{supported-has_measurement}

program : Unit {0}
unfolding lookup insert family_key carrier_key matrix_key into_capability query has_measurement
    family_name carrier_name support_of withholds is_authoritative record_all ledger_from_matrix
    claim_families with_modem claim_carriers with_carrier has_usb any_drives subscribe carry measure
    resolve registry
program = tt

abbrev pub shipped : StrategyRegistry
shipped = record {
  modems =
      (ModemFamily.ec20, quectel_ec)
      ∷ (ModemFamily.ec25_cn, quectel_ec)
      ∷ (ModemFamily.eg25_g, quectel_ec)
      ∷ (ModemFamily.ec200u_cn, ec200u)
      ∷ [];
  carriers =
      (CarrierProfile.cn_mobile, cn_mobile_strategy)
      ∷ (CarrierProfile.cn_unicom, cn_unicom_strategy)
      ∷ (CarrierProfile.cn_telecom, cn_telecom_strategy)
      ∷ (CarrierProfile.generic_international, international_strategy)
      ∷ [];
  ledger = matrix.rules;
}

abbrev open_plan : SubscriptionCapability
open_plan = record {
  sms_send = none;
  sms_receive = none;
  data_plan = none;
  voice = none;
  authority = declared_plan;
}

ledger_run : ledger_from_matrix matrix ≡ matrix.rules
unfolding program
ledger_run = refl

shipped_run :
    (registry (ledger_from_matrix matrix) ≡ ok shipped)
    × (drives shipped bench_usb ≡ true)
    × (drives shipped (record { vendor = 0x05c6; product = 0x90b4 }) ≡ false)
unfolding program
shipped_run = (refl, refl, refl)

sends_run :
    (resolve shipped ModemFamily.ec20 CarrierProfile.cn_telecom open_plan sms_send).support
    ≡ is_supported cellular
unfolding program
sends_run = refl

resolve-is_supported_iff_example :
    ((resolve shipped ModemFamily.ec20 CarrierProfile.cn_telecom open_plan sms_send).support
      ≡ is_supported cellular)
    ↔ IsPermitted shipped ModemFamily.ec20 CarrierProfile.cn_telecom open_plan sms_send cellular
resolve-is_supported_iff_example =
    resolve-is_supported_iff shipped ModemFamily.ec20 CarrierProfile.cn_telecom open_plan sms_send
      cellular

supported-has_measurement_example :
    has_measurement (query matrix ModemFamily.ec20 CarrierProfile.cn_telecom).capability ≡ true
unfolding program
supported-has_measurement_example =
    supported-has_measurement document matrix shipped ModemFamily.ec20 CarrierProfile.cn_telecom
      open_plan sms_send cellular document_run refl sends_run
