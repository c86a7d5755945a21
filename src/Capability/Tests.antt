-- ===== src/Capability/Tests.antt =====
-- Detection on small inputs, and the theorems at them.
use vodoge_edge.Common.{◌≡◌, refl, true, false, []}
use vodoge_edge.Common.Text.{codes, is_whitespace, is_blank}
use vodoge_edge.Capability.{
  ModemFamily, family_name, family_of, strip_prefix, starts_with_digit, names_model, detect_in,
  detect, detect_name, carrier_name, carrier_of, vertical_name, vertical_of, vertical_eq, custom,
  bearer_name, probe, support_wire, has_measurement,
}

program : Unit {0}
unfolding is_whitespace is_blank family_name family_of strip_prefix starts_with_digit names_model
    detect_in detect detect_name carrier_name carrier_of vertical_name vertical_of vertical_eq
    bearer_name support_wire has_measurement
program = tt

-- The module of the bench, and names read back.
detect_run :
    (detect (codes "EC200U") (codes "EC200UCNAAR03A08M08") ≡ ModemFamily.ec200u_cn)
    × (detect_name (codes "EC20F") [] ≡ codes "EC20")
    × (detect_name (codes " ") [] ≡ codes "unknown")
    × (carrier_name (carrier_of (codes "CN-Telecom")) ≡ codes "CN-Telecom")
    × (vertical_eq (vertical_of (codes "lab")) (custom (codes "lab")) ≡ true)
    × (has_measurement
          (record { sms_mo = probe; sms_mt = probe; data_support = probe; voice = probe })
        ≡ false)
unfolding program
detect_run = (refl, refl, refl, refl, refl, refl)
