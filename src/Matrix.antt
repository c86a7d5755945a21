-- ===== src/Matrix.antt =====
-- The capability matrix, edge-core/src/matrix.rs: a document, as `serde` gives it, becomes the rules, the fallback and
-- the list of supported devices that the gates and the strategies ask.
use vodoge_edge.Common.{
  ℕ, ◌+◌, ◌*◌, ◌-◌, ◌^◌, Bool, true, false, ◌&&◌, ◌||◌, Option, none, some, List, [], ◌∷◌, ◌++◌,
  if◌then◌else◌, leb, ltb, ◌==◌, Result, ok, err, ◌>>=◌,
}
use vodoge_edge.Common.Text.{Text, codes}
use vodoge_edge.Common.Dict.{Dict, lookup, contains, insert}
use vodoge_edge.Capability.{
  ModemFamily, CarrierProfile, Bearer, BearerSupport, supported, unsupported, probe, Capability,
}
use vodoge_edge.Capability.Keys.{matrix_key}
use vodoge_edge.AtPolicy.{trim}
use vodoge_edge.Usb.{UsbIdentity, usb_eq, parse, split_once}
pub mod Rules
pub mod Devices
pub mod Documents
pub mod Tests
pub mod Versions

pub record RawCapability : Type 0 where
  pub raw_sms_mo : Option BearerSupport
  pub raw_sms_mt : Option BearerSupport
  pub raw_data : Option BearerSupport
  pub raw_voice : Option BearerSupport

pub record RawRule : Type 0 where
  pub modem_family : ModemFamily
  pub carrier : CarrierProfile
  pub capability : RawCapability

pub record RawDevice : Type 0 where
  pub usb_text : Text
  pub strategy : Text
  pub is_enabled : Bool
  pub device_note : Option Text

pub record MatrixDocument : Type 0 where
  pub version : Option Text
  pub min_agent_version : Option Text
  pub fallback : RawCapability
  pub rule : List RawRule
  pub device : Option (List RawDevice)

abbrev pub MatrixKey : Type 0
MatrixKey = ModemFamily × CarrierProfile

pub record SupportedDevice : Type 0 where
  pub usb : UsbIdentity
  pub strategy : Text
  pub enabled : Bool
  pub note : Option Text

pub record CapabilityMatrix : Type 0 where
  pub version : Text
  pub min_agent_version : Option Text
  pub rules : Dict MatrixKey Capability
  pub fallback : Capability
  pub devices : Option (List SupportedDevice)

pub data MatrixError : Type 0 where
  duplicate_rule : (family : ModemFamily) → (carrier : CarrierProfile) → MatrixError
  invalid_device : (usb : Text) → (reason : Text) → MatrixError
  duplicate_device : (usb : UsbIdentity) → MatrixError

abbrev or_else : Option BearerSupport → BearerSupport → BearerSupport
or_else none inherited = inherited
or_else (some value) inherited = value

unfoldable pub into_capability : RawCapability → Capability → Capability
into_capability raw inherited = record {
  sms_mo = or_else raw.raw_sms_mo inherited.sms_mo;
  sms_mt = or_else raw.raw_sms_mt inherited.sms_mt;
  data_support = or_else raw.raw_data inherited.data_support;
  voice = or_else raw.raw_voice inherited.voice;
}

-- `Capability::probe_all`
abbrev pub probe_all : Capability
probe_all = record { sms_mo = probe; sms_mt = probe; data_support = probe; voice = probe }

abbrev pub key_of : RawRule → MatrixKey
key_of rule = (rule.modem_family, rule.carrier)

-- The loop over the rules.
unfoldable pub add_rules :
    Capability
    → List RawRule
    → Dict MatrixKey Capability
    → Result MatrixError (Dict MatrixKey Capability)
add_rules fallback [] rules = ok rules
add_rules fallback (rule ∷ rest) rules =
    let added =
      add_rules fallback rest
        (insert (key_of rule) (into_capability rule.capability fallback) rules) in
    if contains (key_of rule) rules
    then err (duplicate_rule rule.modem_family rule.carrier)
    else added

abbrev pub needs_colon : Text
needs_colon = codes "expected vendor:product, for example 2c7c:0125"

abbrev pub needs_hex : Text
needs_hex = codes "both halves must be hexadecimal"

-- The two `ok_or_else` of the loop over the devices.
unfoldable pub device_usb : Text → Result MatrixError UsbIdentity
device_usb text = elim (split_once 58 text) [
  | none ↦ err (invalid_device text needs_colon)
  | some (vendor, product) ↦ elim (parse vendor product) [
    | none ↦ err (invalid_device text needs_hex)
    | some usb ↦ ok usb
  ]
]

unfoldable pub lists : UsbIdentity → List SupportedDevice → Bool
lists usb [] = false
lists usb (kept ∷ seen) = usb_eq kept.usb usb || lists usb seen

abbrev pub supported_device : RawDevice → UsbIdentity → SupportedDevice
supported_device entry usb = record {
  usb = usb;
  strategy = entry.strategy;
  enabled = entry.is_enabled;
  note = entry.device_note;
}

-- The loop over the devices.
unfoldable pub add_devices :
    List RawDevice → List SupportedDevice → Result MatrixError (List SupportedDevice)
add_devices [] seen = ok seen
add_devices (entry ∷ raw) seen = elim (device_usb entry.usb_text) [
  | err e ↦ err e
  | ok usb ↦
      let added = add_devices raw (seen ++ supported_device entry usb ∷ []) in
      if lists usb seen then err (duplicate_device usb) else added
]

unfoldable pub read_devices :
    Option (List RawDevice) → Result MatrixError (Option (List SupportedDevice))
read_devices none = ok none
read_devices (some raw) = add_devices raw [] >>= λ seen. ok (some seen)

abbrev version_of : Option Text → Text
version_of none = codes "unversioned"
version_of (some version) = version

unfoldable pub from_document : MatrixDocument → Result MatrixError CapabilityMatrix
from_document document =
    add_rules (into_capability document.fallback probe_all) document.rule [] >>= λ rules.
    read_devices document.device >>= λ devices. ok (record {
      version = version_of document.version;
      min_agent_version = document.min_agent_version;
      rules = rules;
      fallback = into_capability document.fallback probe_all;
      devices = devices;
    })

pub data CapabilityOrigin : Type 0 where
  of_rule of_fallback : CapabilityOrigin

pub record CapabilityQuery : Type 0 where
  pub capability : Capability
  pub origin : CapabilityOrigin

unfoldable pub query : CapabilityMatrix → ModemFamily → CarrierProfile → CapabilityQuery
query matrix family carrier = elim (lookup (family, carrier) matrix.rules) [
  | some capability ↦ record { capability = capability; origin = of_rule }
  | none ↦ record { capability = matrix.fallback; origin = of_fallback }
]

pub data DeviceGate : Type 0 where
  not_stated is_on is_off absent : DeviceGate

unfoldable pub admits : DeviceGate → Bool
admits not_stated = true
admits is_on = true
admits is_off = false
admits absent = false

unfoldable pub find_device : UsbIdentity → List SupportedDevice → DeviceGate
find_device usb [] = absent
find_device usb (device ∷ devices) =
    if usb_eq device.usb usb
    then if device.enabled then is_on else is_off
    else find_device usb devices

unfoldable pub device_gate : CapabilityMatrix → UsbIdentity → DeviceGate
device_gate matrix usb = elim matrix.devices [
  | none ↦ not_stated
  | some devices ↦ find_device usb devices
]
