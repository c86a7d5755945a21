-- ===== src/Matrix/Tests.antt =====
-- A small document, what is refused, and the theorems at it.
use vodoge_edge.Common.{◌≡◌, refl, ◌&&◌, true, none, some, [], ◌∷◌, ok, err}
use vodoge_edge.Common.Text.{codes, is_whitespace}
use vodoge_edge.Common.Dict.{lookup, insert}
use vodoge_edge.Capability.{ModemFamily, CarrierProfile, cellular, supported}
use vodoge_edge.Capability.Keys.{family_key, carrier_key, matrix_key}
use vodoge_edge.AtPolicy.{trim_left, trim_right}
use vodoge_edge.Usb.{UsbIdentity, hex_digits, parse_hex, parse, split_once, read_usb}
use vodoge_edge.Matrix.{
  RawCapability, RawRule, RawDevice, MatrixDocument, CapabilityMatrix, duplicate_rule,
  duplicate_device, into_capability, probe_all, add_rules, device_usb, lists, add_devices,
  read_devices, from_document, query, admits, find_device, device_gate,
}
use vodoge_edge.Matrix.Rules.{is_ok, first_rule, distinct_rules}
use vodoge_edge.Matrix.Devices.{is_named, well_listed, stated_device}
use vodoge_edge.Matrix.Documents.{
  well_stated, stated_query, stated_gate, from_document-takes, from_document-answers,
}
use vodoge_edge.Matrix.Versions.{
  not_required, satisfied, too_old, version_unreadable, decimal_value, parse_u64, split_dots,
  version_parts, numeric_version, parts_leb, version_check,
}

program : Unit {0}
unfolding is_whitespace trim_left trim_right lookup insert family_key carrier_key matrix_key
    hex_digits parse_hex parse split_once read_usb into_capability add_rules device_usb lists
    add_devices read_devices from_document query admits find_device device_gate first_rule
    distinct_rules is_named well_listed stated_device well_stated stated_query stated_gate
program = tt

abbrev pub nothing_said : RawCapability
nothing_said = record { raw_sms_mo = none; raw_sms_mt = none; raw_data = none; raw_voice = none }

abbrev pub sends : RawCapability
sends = record nothing_said { raw_sms_mo = some (supported cellular) }

abbrev pub ec20_telecom : RawRule
ec20_telecom = record {
  modem_family = ModemFamily.ec20;
  carrier = CarrierProfile.cn_telecom;
  capability = sends;
}

abbrev eg25_telecom : RawRule
eg25_telecom = record {
  modem_family = ModemFamily.eg25_g;
  carrier = CarrierProfile.cn_telecom;
  capability = nothing_said;
}

abbrev bench_device : RawDevice
bench_device = record {
  usb_text = codes "2c7c:0125";
  strategy = codes "quectel-ec";
  is_enabled = true;
  device_note = none;
}

abbrev pub document : MatrixDocument
document = record {
  version = some (codes "hot-1");
  min_agent_version = none;
  fallback = nothing_said;
  rule = eg25_telecom ∷ ec20_telecom ∷ [];
  device = some (bench_device ∷ []);
}

abbrev pub bench_usb : UsbIdentity
bench_usb = record { vendor = 0x2c7c; product = 0x0125 }

abbrev pub matrix : CapabilityMatrix
matrix = record {
  version = codes "hot-1";
  min_agent_version = none;
  rules =
      (
        (ModemFamily.ec20, CarrierProfile.cn_telecom),
        record probe_all { sms_mo = supported cellular },
      )
      ∷ ((ModemFamily.eg25_g, CarrierProfile.cn_telecom), probe_all)
      ∷ [];
  fallback = probe_all;
  devices =
      some (
        record { usb = bench_usb; strategy = codes "quectel-ec"; enabled = true; note = none }
        ∷ []);
}

pub document_run : from_document document ≡ ok matrix
unfolding program
document_run = refl

-- A pair with two rules, and an identity that is listed twice, are refused.
refused_run :
    (from_document (record document { rule = ec20_telecom ∷ ec20_telecom ∷ [] })
      ≡ err (duplicate_rule ModemFamily.ec20 CarrierProfile.cn_telecom))
    × (from_document (record document { device = some (bench_device ∷ bench_device ∷ []) })
        ≡ err (duplicate_device bench_usb))
unfolding program
refused_run = (refl, refl)

-- An agent that is older than asked for, and a version with a label.
version_run :
    (version_check matrix (codes "0.1.0") ≡ not_required)
    × (version_check (record matrix { min_agent_version = some (codes "0.9") }) (codes "0.10.2")
        ≡ satisfied)
    × (version_check (record matrix { min_agent_version = some (codes "1") }) (codes "0.10.2")
        ≡ too_old (codes "1") (codes "0.10.2"))
    × (version_check
          (record matrix { min_agent_version = some (codes "0.1.0-rc1") })
          (codes "0.10.2")
        ≡ version_unreadable (codes "0.1.0-rc1") (codes "0.10.2"))
unfolding version_check numeric_version version_parts split_dots parse_u64 decimal_value parts_leb
    program
version_run = (refl, refl, refl, refl)

from_document-takes_example :
    is_ok (from_document document) ≡ (distinct_rules document.rule && well_stated document.device)
from_document-takes_example = from_document-takes document

from_document-answers_example :
    (query matrix ModemFamily.ec20 CarrierProfile.cn_telecom
      ≡ stated_query document ModemFamily.ec20 CarrierProfile.cn_telecom)
    × (device_gate matrix bench_usb ≡ stated_gate document bench_usb)
from_document-answers_example =
    from_document-answers document matrix ModemFamily.ec20 CarrierProfile.cn_telecom bench_usb
      document_run
