-- ===== src/Matrix/Documents.antt =====
-- What a whole document becomes, edge-core/src/matrix.rs: which are taken, and what the matrix answers then.
use vodoge_edge.Common.{
  ◌≡◌, refl, inl, inr, Bool, true, ◌&&◌, Option, none, some, List, [], arith, ok, Result-cases,
}
use vodoge_edge.Capability.{ModemFamily, CarrierProfile, Capability}
use vodoge_edge.Capability.Keys.{matrix_key}
use vodoge_edge.Usb.{UsbIdentity}
use vodoge_edge.Matrix.{
  RawDevice, MatrixDocument, SupportedDevice, CapabilityMatrix, into_capability, probe_all,
  add_rules, add_devices, read_devices, from_document, of_rule, of_fallback, CapabilityQuery, query,
  DeviceGate, not_stated, find_device, device_gate,
}
use vodoge_edge.Matrix.Rules.{is_ok, first_rule, distinct_rules, add_rules-takes, add_rules-answers}
use vodoge_edge.Matrix.Devices.{well_listed, stated_device, add_devices-takes, add_devices-states}

-- The list of devices, if the document has one, is well formed.
unfoldable pub well_stated : Option (List RawDevice) → Bool
well_stated none = true
well_stated (some raw) = well_listed raw

-- What the document says of an identity.
unfoldable pub stated_gate : MatrixDocument → UsbIdentity → DeviceGate
stated_gate document usb = elim document.device [
  | none ↦ not_stated
  | some raw ↦ stated_device usb raw
]

abbrev pub document_fallback : MatrixDocument → Capability
document_fallback document = into_capability document.fallback probe_all

-- What the document says of a pair: its rule over the fallback, or the fallback.
unfoldable pub stated_query : MatrixDocument → ModemFamily → CarrierProfile → CapabilityQuery
stated_query document family carrier = elim (first_rule (family, carrier) document.rule) [
  | none ↦ record { capability = document_fallback document; origin = of_fallback }
  | some rule ↦ record {
    capability = into_capability rule.capability (document_fallback document);
    origin = of_rule;
  }
]

read_devices-takes :
    (device : Option (List RawDevice)) → is_ok (read_devices device) ≡ well_stated device
unfolding read_devices well_stated
read_devices-takes none = refl
read_devices-takes (some raw) = ground (arith, add_devices-takes raw)

-- A document is taken exactly when no pair has two rules and, if it lists devices, every entry names an identity that
-- no later entry names.
pub from_document-takes :
    (document : MatrixDocument)
    → is_ok (from_document document) ≡ (distinct_rules document.rule && well_stated document.device)
unfolding from_document
from_document-takes document = ground (
  arith,
  add_rules-takes (document_fallback document) document.rule,
  read_devices-takes document.device,
)

read_devices-states :
    (device : Option (List RawDevice)) (out : Option (List SupportedDevice)) (usb : UsbIdentity)
    → read_devices device ≡ ok out
    → (elim out [ none ↦ not_stated | some devices ↦ find_device usb devices ])
      ≡ (elim device [ none ↦ not_stated | some raw ↦ stated_device usb raw ])
unfolding read_devices
read_devices-states none out usb h = ground (arith, h)
read_devices-states (some raw) out usb h = elim (Result-cases (add_devices raw [])) [
  | inl (seen, e) ↦ ground (arith, h, e, add_devices-states usb raw seen e)
  | inr (x, e) ↦ absurd (ground (arith, h, e))
]

-- The parts of an accepted document.
from_document-parts :
    (document : MatrixDocument) (matrix : CapabilityMatrix)
    → from_document document ≡ ok matrix
    → (add_rules (document_fallback document) document.rule [] ≡ ok matrix.rules)
      × (read_devices document.device ≡ ok matrix.devices)
      × (matrix.fallback ≡ document_fallback document)
unfolding from_document
from_document-parts document matrix h =
    elim (Result-cases (add_rules (document_fallback document) document.rule [])) [
      | inr (x, e) ↦ absurd (ground (arith, h, e))
      | inl (rules, e) ↦ elim (Result-cases (read_devices document.device)) [
        | inr (x, f) ↦ absurd (ground (arith, h, e, f))
        | inl (devices, f) ↦
            (ground (arith, h, e, f), ground (arith, h, e, f), ground (arith, h, e, f))
      ]
    ]

pub from_document-rules :
    (document : MatrixDocument) (matrix : CapabilityMatrix)
    → from_document document ≡ ok matrix
    → add_rules (document_fallback document) document.rule [] ≡ ok matrix.rules
from_document-rules document matrix h = (from_document-parts document matrix h).0

-- The matrix of an accepted document answers, for every pair and every identity, what the document says: the rule for
-- the pair over the fallback, or the fallback, and the entry for the identity.
pub from_document-answers :
    (document : MatrixDocument) (matrix : CapabilityMatrix) (family : ModemFamily)
    (carrier : CarrierProfile) (usb : UsbIdentity)
    → from_document document ≡ ok matrix
    → (query matrix family carrier ≡ stated_query document family carrier)
      × (device_gate matrix usb ≡ stated_gate document usb)
unfolding query stated_query device_gate stated_gate
from_document-answers document matrix family carrier usb h =
    let (rules, devices, fallback) = from_document-parts document matrix h in
    (
      ground (
        arith,
        fallback,
        add_rules-answers (document_fallback document) document.rule matrix.rules (family, carrier)
            rules,
      ),
      read_devices-states document.device matrix.devices usb devices,
    )
