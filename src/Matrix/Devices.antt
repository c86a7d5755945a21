-- ===== src/Matrix/Devices.antt =====
-- The supported devices of a document, edge-core/src/matrix.rs: which lists are taken, and what they say of an identity.
use vodoge_edge.Common.{
  ◌≡◌, refl, Bool, true, false, ◌&&◌, ◌||◌, not, Option, none, some, List, [], ◌∷◌, ◌++◌,
  if◌then◌else◌, arith, ok, err, Result-cases, sym, ap, ◌∙◌, ◌⊎◌, inl, inr, Option-cases,
}
use vodoge_edge.Common.Text.{Text}
use vodoge_edge.Usb.{UsbIdentity, usb_eq, read_usb}
use vodoge_edge.Matrix.{
  RawDevice, SupportedDevice, MatrixError, DeviceGate, is_on, is_off, absent, device_usb, lists,
  supported_device, add_devices, find_device,
}
use vodoge_edge.Matrix.Rules.{is_ok}

-- What an entry says of an identity that it may name.
abbrev pub names_usb : UsbIdentity → Option UsbIdentity → Bool
names_usb usb none = false
names_usb usb (some u) = usb_eq u usb

-- Some entry names the identity.
unfoldable pub is_named : UsbIdentity → List RawDevice → Bool
is_named usb [] = false
is_named usb (entry ∷ raw) = names_usb usb (read_usb entry.usb_text) || is_named usb raw

-- Every entry names an identity, and none is named again later.
unfoldable pub well_listed : List RawDevice → Bool
well_listed [] = true
well_listed (entry ∷ raw) = elim (read_usb entry.usb_text) [
  | none ↦ false
  | some usb ↦ not (is_named usb raw) && well_listed raw
]

-- The first entry that names the identity.
unfoldable pub stated_device : UsbIdentity → List RawDevice → DeviceGate
stated_device usb [] = absent
stated_device usb (entry ∷ raw) =
    if names_usb usb (read_usb entry.usb_text)
    then if entry.is_enabled then is_on else is_off
    else stated_device usb raw

usb_eq_sym : (a b : UsbIdentity) → usb_eq a b ≡ usb_eq b a
usb_eq_sym a b = ground arith

usb_eq_trans : (a b c : UsbIdentity) → usb_eq a b ≡ true → usb_eq a c ≡ usb_eq b c
usb_eq_trans a b c h = ground arith

lists-snoc :
    (usb : UsbIdentity) (seen : List SupportedDevice) (d : SupportedDevice)
    → lists usb (seen ++ d ∷ []) ≡ (lists usb seen || usb_eq d.usb usb)
unfolding lists
lists-snoc usb [] d = ground arith
lists-snoc usb (kept ∷ seen) d = ground (arith, lists-snoc usb seen d)

find_device-snoc :
    (usb : UsbIdentity) (seen : List SupportedDevice) (d : SupportedDevice)
    → find_device usb (seen ++ d ∷ [])
      ≡ (if lists usb seen then find_device usb seen else find_device usb (d ∷ []))
unfolding lists find_device
find_device-snoc usb [] d = refl
find_device-snoc usb (kept ∷ seen) d = ground (arith, find_device-snoc usb seen d)

find_device-absent :
    (usb : UsbIdentity) (seen : List SupportedDevice)
    → lists usb seen ≡ false
    → find_device usb seen ≡ absent
unfolding lists find_device
find_device-absent usb [] h = refl
find_device-absent usb (kept ∷ seen) h = ground (arith, find_device-absent usb seen)

-- No entry names an identity that is listed already.
unfoldable new_devices : List RawDevice → List SupportedDevice → Bool
new_devices [] seen = true
new_devices (entry ∷ raw) seen = elim (read_usb entry.usb_text) [
  | none ↦ new_devices raw seen
  | some usb ↦ not (lists usb seen) && new_devices raw seen
]

-- The reading of an entry, as the loop does it.
device_usb-reads :
    (text : Text) → (elim (device_usb text) [ err e ↦ none | ok usb ↦ some usb ]) ≡ read_usb text
unfolding device_usb read_usb
device_usb-reads text = ground arith

device_usb-cases :
    (text : Text)
    → ((usb : UsbIdentity) × (device_usb text ≡ ok usb) × (read_usb text ≡ some usb))
      ⊎ ((e : MatrixError) × (device_usb text ≡ err e) × (read_usb text ≡ none))
device_usb-cases text = elim (Result-cases (device_usb text)) [
  | inl (usb, h) ↦ inl (usb, h, sym (device_usb-reads text) ∙ rw h refl)
  | inr (e, h) ↦ inr (e, h, sym (device_usb-reads text) ∙ rw h refl)
]

new_devices-snoc :
    (usb : UsbIdentity) (d : SupportedDevice) (raw : List RawDevice) (seen : List SupportedDevice)
    → d.usb ≡ usb
    → new_devices raw (seen ++ d ∷ []) ≡ (not (is_named usb raw) && new_devices raw seen)
unfolding new_devices is_named
new_devices-snoc usb d [] seen h = refl
new_devices-snoc usb d (entry ∷ raw) seen h = elim (Option-cases (read_usb entry.usb_text)) [
  | inl e ↦ ground (arith, e, new_devices-snoc usb d raw seen h)
  | inr (u, e) ↦ ground (
    arith,
    e,
    lists-snoc u seen d,
    new_devices-snoc usb d raw seen h,
    usb_eq_sym u usb,
    ap (λ v. usb_eq v u) h,
  )
]

add_devices-is_ok :
    (raw : List RawDevice) (seen : List SupportedDevice)
    → is_ok (add_devices raw seen) ≡ (new_devices raw seen && well_listed raw)
unfolding add_devices new_devices well_listed
add_devices-is_ok [] seen = refl
add_devices-is_ok (entry ∷ raw) seen = elim (device_usb-cases entry.usb_text) [
  | inr (e, h, r) ↦ ground (arith, h, r)
  | inl (usb, h, r) ↦ ground (
    arith,
    h,
    r,
    add_devices-is_ok raw (seen ++ supported_device entry usb ∷ []),
    new_devices-snoc usb (supported_device entry usb) raw seen refl,
  )
]

new_devices-nil : (raw : List RawDevice) → new_devices raw [] ≡ true
unfolding new_devices lists
new_devices-nil [] = refl
new_devices-nil (entry ∷ raw) = elim (Option-cases (read_usb entry.usb_text)) [
  | inl e ↦ ground (arith, e, new_devices-nil raw)
  | inr (u, e) ↦ ground (arith, e, new_devices-nil raw)
]

pub add_devices-takes : (raw : List RawDevice) → is_ok (add_devices raw []) ≡ well_listed raw
add_devices-takes raw = rw (add_devices-is_ok, new_devices-nil)

add_devices-gate :
    (usb : UsbIdentity) (raw : List RawDevice) (seen out : List SupportedDevice)
    → add_devices raw seen ≡ ok out
    → find_device usb out ≡ (if lists usb seen then find_device usb seen else stated_device usb raw)
unfolding add_devices stated_device find_device lists
add_devices-gate usb [] seen out h = ground (arith, find_device-absent usb seen)
add_devices-gate usb (entry ∷ raw) seen out h = elim (device_usb-cases entry.usb_text) [
  | inr (e, g, r) ↦ absurd (ground (arith, g))
  | inl (u, g, r) ↦
      let d = supported_device entry u in
      rw r (
        ground (
          arith,
          g,
          r,
          add_devices-gate usb raw (seen ++ d ∷ []) out,
          lists-snoc usb seen d,
          find_device-snoc usb seen d,
        ))
]

pub add_devices-states :
    (usb : UsbIdentity) (raw : List RawDevice) (out : List SupportedDevice)
    → add_devices raw [] ≡ ok out
    → find_device usb out ≡ stated_device usb raw
unfolding lists
add_devices-states usb raw out h = add_devices-gate usb raw [] out h
