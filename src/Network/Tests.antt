-- ===== src/Network/Tests.antt =====
-- Networks of the bench, and the theorem at a card of the United States.
use vodoge_edge.Common.{◌≡◌, refl, none, some}
use vodoge_edge.Common.Text.{codes, decimal_digits}
use vodoge_edge.Network.{
  all_digits, digits_value, from_imsi, mnc_digits_from_ef_ad, numeric, find_name, label,
  find_territory, territory, describe, carrier_profile,
}

program : Unit {0}
unfolding decimal_digits all_digits digits_value from_imsi mnc_digits_from_ef_ad numeric find_name
    label find_territory territory describe carrier_profile
program = tt

network_run :
    (describe (record { mcc = 454; mnc = 0 }) ≡ codes "CSL · 中国香港")
    × (describe (record { mcc = 999; mnc = 42 }) ≡ codes "999-42")
    × (numeric (record { mcc = 460; mnc = 0 }) ≡ codes "460-00")
    × (carrier_profile (record { mcc = 460; mnc = 15 }) ≡ codes "CN-Mobile")
    × (carrier_profile (record { mcc = 310; mnc = 260 }) ≡ codes "Generic-International")
    × (from_imsi (codes "310260123456789") 3 ≡ some (record { mcc = 310; mnc = 260 }))
    × (from_imsi (codes "31026+") 3 ≡ none)
unfolding program
network_run = (refl, refl, refl, refl, refl, refl, refl)
