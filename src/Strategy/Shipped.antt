-- ===== src/Strategy/Shipped.antt =====
-- The strategies that the build ships, edge-core/src/strategies: modems.rs, carriers.rs, and `registry` of mod.rs.
use vodoge_edge.Common.{Option, none, some, [], ◌∷◌, Result, ◌>>=◌}
use vodoge_edge.Common.Text.{Text, codes}
use vodoge_edge.Capability.{ModemFamily, CarrierProfile, Bearer, cellular}
use vodoge_edge.Strategy.{
  Operation, sms_send, sms_receive, data_use, voice_call, ModemStrategy, CarrierStrategy,
  SupportLedger, StrategyRegistry, StrategyError, new_registry, with_modem, with_carrier,
}

abbrev sms_bearer : Operation → Option Bearer
sms_bearer sms_send = some cellular
sms_bearer sms_receive = some cellular
sms_bearer _ = none

abbrev pub quectel_ec : ModemStrategy
quectel_ec = record {
  id = codes "quectel-ec";
  families = ModemFamily.ec20 ∷ ModemFamily.ec25_cn ∷ ModemFamily.eg25_g ∷ [];
  usb_identities = record { vendor = 0x2c7c; product = 0x0125 } ∷ [];
  ceiling = λ operation. none;
  preferred_bearer = sms_bearer;
}

abbrev ec200u_ceiling : Operation → Option Text
ec200u_ceiling sms_send = none
ec200u_ceiling sms_receive = none
ec200u_ceiling data_use =
    some (codes "this agent brings the bearer up over QMI and the EC200U series exposes none")
ec200u_ceiling voice_call = some (codes "this agent has no voice path at all")

abbrev pub ec200u : ModemStrategy
ec200u = record {
  id = codes "quectel-ec200u";
  families = ModemFamily.ec200u_cn ∷ [];
  usb_identities = record { vendor = 0x2c7c; product = 0x0901 } ∷ [];
  ceiling = ec200u_ceiling;
  preferred_bearer = sms_bearer;
}

abbrev carrier_strategy : Text → CarrierProfile → CarrierStrategy
carrier_strategy id carrier = record {
  id = id;
  carriers = carrier ∷ [];
  bearer = λ operation measured. none;
  refuses = λ operation. none;
}

abbrev pub cn_mobile_strategy : CarrierStrategy
cn_mobile_strategy = carrier_strategy (codes "cn-mobile") CarrierProfile.cn_mobile

abbrev pub cn_unicom_strategy : CarrierStrategy
cn_unicom_strategy = carrier_strategy (codes "cn-unicom") CarrierProfile.cn_unicom

abbrev pub cn_telecom_strategy : CarrierStrategy
cn_telecom_strategy = carrier_strategy (codes "cn-telecom") CarrierProfile.cn_telecom

abbrev pub international_strategy : CarrierStrategy
international_strategy =
    carrier_strategy (codes "generic-international") CarrierProfile.generic_international

unfoldable pub registry : SupportLedger → Result StrategyError StrategyRegistry
registry ledger = with_modem quectel_ec (new_registry ledger) >>= λ r. with_modem ec200u r >>= λ r.
    with_carrier cn_mobile_strategy r >>= λ r. with_carrier cn_unicom_strategy r >>= λ r.
    with_carrier cn_telecom_strategy r >>= λ r. with_carrier international_strategy r
