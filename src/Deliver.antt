-- ===== src/Deliver.antt =====
-- Inbound messages, edge-core/src/pdu.rs: the time stamps, addresses and headers of SMS-DELIVER and SMS-STATUS-REPORT.
-- Octets are numbers below 256. A function that indexes returns an Option, whose `none` is a panic.
use vodoge_edge.Common.{
  ℕ, zero, suc, ◌+◌, ◌-◌, ◌*◌, ◌/◌, ◌%◌, Bool, true, false, ◌&&◌, ◌||◌, Option, none, some, List,
  [], ◌∷◌, ◌++◌, if◌then◌else◌, ltb, leb, ◌==◌, length, get_elem?,
}
use vodoge_edge.Common.Text.{Text, codes}
use vodoge_edge.Common.Int.{ℤ, pos, ◌-ℤ◌, ◌+ℤ◌, ◌*ℤ◌, sub_ℕ}
use vodoge_edge.Common.Checked.{◌>>=◌, slice, slice_from}
use vodoge_edge.Gsm7.{decode, decode_septets, unpack_septets}
pub mod Reports
pub mod Calendar
pub mod Total
pub mod Addresses
pub mod Unicode
pub mod Tests

pub record Deliver : Type 0 where
  pub peer : Text
  pub body : Text
  pub concat : Option (ℕ × ℕ × ℕ)
  pub encoding : Text
  pub dcs : Option ℕ
  pub received_at : Option ℤ

-- `{:02X}`
abbrev hex_digit : ℕ → ℕ
hex_digit n = if ltb n 10 then 48 + n else 55 + n

unfoldable pub hex : List ℕ → Text
hex [] = []
hex (b ∷ bytes) = hex_digit (b / 16) ∷ hex_digit (b % 16) ∷ hex bytes

abbrev pub undecodable : List ℕ → Deliver
undecodable pdu = record {
  peer = [];
  body = hex pdu;
  concat = none;
  encoding = codes "unknown";
  dcs = none;
  received_at = none;
}

-- Days since 1970-01-01. The one caller's year is 2000 or more, so the source's negative branch is not needed.
unfoldable pub days_from_civil : ℕ → ℕ → ℕ → ℤ
days_from_civil year month day =
    let shifted = if leb month 2 then year - 1 else year in
    let era = shifted / 400 in
    let year_of_era = shifted - era * 400 in
    let day_of_year = (153 * (if ltb 2 month then month - 3 else month + 9) + 2) / 5 + day - 1 in
    let day_of_era = year_of_era * 365 + year_of_era / 4 - year_of_era / 100 + day_of_year in
    sub_ℕ (era * 146_097 + day_of_era) 719_468

-- Two swapped digits of an octet.
unfoldable pub swapped : ℕ → Option ℕ
swapped byte =
    if ltb 9 (byte % 16) || ltb 9 (byte / 16) then none else some (byte % 16 * 10 + byte / 16)

-- The offset of the last octet, in minutes, and its digits' check.
unfoldable pub zone_minutes : ℕ → Option ℤ
zone_minutes zone =
    let quarters = zone % 8 * 10 + zone / 16 in
    if ltb 9 (zone / 16)
    then none
    else if zone / 8 % 2 == 1
    then some (pos 0 -ℤ pos (quarters * 15))
    else some (pos (quarters * 15))

unfoldable pub in_range : ℕ → ℕ → ℕ → ℕ → ℕ → Bool
in_range month day hour minute second =
    leb 1 month
    && leb month 12
    && leb 1 day
    && leb day 31
    && leb hour 23
    && leb minute 59
    && leb second 60

unfoldable pub millis : ℕ → ℕ → ℕ → ℕ → ℕ → ℕ → ℤ → ℤ
millis year month day hour minute second offset_minutes =
    (days_from_civil (2000 + year) month day *ℤ pos 86_400
      +ℤ pos (hour * 3600)
      +ℤ pos (minute * 60)
      +ℤ pos second
      -ℤ offset_minutes *ℤ pos 60)
    *ℤ pos 1000

-- A field that is not a time is `none`; it never panics.
unfoldable pub decode_timestamp : List ℕ → Option ℤ
decode_timestamp (y ∷ mo ∷ d ∷ h ∷ mi ∷ s ∷ zone ∷ rest) = do
  year ← swapped y
  month ← swapped mo
  day ← swapped d
  hour ← swapped h
  minute ← swapped mi
  second ← swapped s
  if in_range month day hour minute second
      then (zone_minutes zone >>= λ offset. some (millis year month day hour minute second offset))
      else none
decode_timestamp _ = none

-- The digits of an address, at most `digits` of them, appended to `out`.
unfoldable pub address_digits : List ℕ → ℕ → Text → Text
address_digits [] digits out = out
address_digits (byte ∷ bytes) digits out =
    let lo = byte % 16 in
    let hi = byte / 16 in
    let out1 = if leb lo 9 && ltb (length out) digits then out ++ (48 + lo) ∷ [] else out in
    let out2 = if leb hi 9 && ltb (length out1) digits then out1 ++ (48 + hi) ∷ [] else out1 in
    address_digits bytes digits out2

abbrev is_nil : Text → Bool
is_nil [] = true
is_nil (c ∷ cs) = false

unfoldable pub decode_address : List ℕ → ℕ → ℕ → Text
decode_address bytes digits toa =
    let kind = toa / 16 % 8 in
    let out = address_digits bytes digits [] in
    if kind == 5
    then decode_septets (unpack_septets bytes 0 (digits * 4 / 7))
    else if kind == 1 && (if is_nil out then false else true)
    then 43 ∷ out
    else out

-- `chunks(2)` as big-endian units; a single last octet is dropped.
unfoldable pub be_units : List ℕ → List ℕ
be_units [] = []
be_units (hi ∷ []) = []
be_units (hi ∷ lo ∷ bytes) = (hi * 256 + lo) ∷ be_units bytes

abbrev pub is_high : ℕ → Bool
is_high u = leb 0xd800 u && leb u 0xdbff

abbrev pub is_low : ℕ → Bool
is_low u = leb 0xdc00 u && leb u 0xdfff

-- `from_utf16_lossy`: a surrogate without its other half is U+FFFD.
unfoldable pub from_utf16 : List ℕ → Text
from_utf16 [] = []
from_utf16 (u ∷ []) = (if is_high u || is_low u then 0xfffd else u) ∷ []
from_utf16 (u ∷ v ∷ units) =
    let alone = from_utf16 (v ∷ units) in
    let after = from_utf16 units in
    if is_high u && is_low v
    then (0x10000 + (u - 0xd800) * 1024 + (v - 0xdc00)) ∷ after
    else (if is_high u || is_low u then 0xfffd else u) ∷ alone

unfoldable pub decode_ucs2 : List ℕ → Text
decode_ucs2 payload = from_utf16 (be_units payload)

abbrev pub Concat : Type 0
Concat = Option (ℕ × ℕ × ℕ)

-- What one information element says of the parts.
unfoldable pub concat_of : ℕ → List ℕ → Concat → Concat
concat_of iei (ref ∷ total ∷ seq ∷ []) concat =
    if iei == 0x00 then some (ref, total, seq) else concat
concat_of iei (hi ∷ lo ∷ total ∷ seq ∷ []) concat =
    if iei == 0x08 then some (hi * 256 + lo, total, seq) else concat
concat_of iei value concat = concat

-- The loop over the information elements; each round moves on by two octets or more, so the length is enough fuel.
unfoldable pub elements : ℕ → List ℕ → ℕ → Concat → Option Concat
elements zero header offset concat = some concat
elements (suc fuel) header offset concat =
    if ltb (length header) (offset + 2)
    then some concat
    else (get_elem? header offset >>= λ iei. get_elem? header (offset + 1) >>= λ len.
        if ltb (length header) (offset + 2 + len)
        then some concat
        else (slice header (offset + 2) (offset + 2 + len) >>= λ value.
            elements fuel header (offset + 2 + len) (concat_of iei value concat)))

-- The parts, the octets of the header, and the payload.
unfoldable pub split_user_data_header : Bool → List ℕ → Option (Concat × ℕ × List ℕ)
split_user_data_header has_udh [] = some (none, 0, [])
split_user_data_header false (len ∷ rest) = some (none, 0, len ∷ rest)
split_user_data_header true (len ∷ rest) =
    let ud = len ∷ rest in
    if ltb (length ud) (1 + len)
    then some (none, 0, [])
    else (slice ud 1 (1 + len) >>= λ header. slice_from ud (1 + len) >>= λ payload.
        elements (length header) header 0 none >>= λ concat. some (concat, 1 + len, payload))

-- The body and the name of its alphabet, by bits 3 and 2 of the coding scheme.
unfoldable pub body_of : ℕ → List ℕ → List ℕ → ℕ → ℕ → Text × Text
body_of dcs payload ud header_octets udl =
    let alphabet = dcs / 4 % 4 in
    if alphabet == 2
    then (decode_ucs2 payload, codes "ucs2")
    else if alphabet == 1
    then (hex payload, codes "8bit")
    else (decode ud header_octets udl, codes "gsm7")

-- Past the address, at `i`.
unfoldable pub deliver_fields : List ℕ → ℕ → Bool → Text → Option Deliver
deliver_fields pdu i has_udh peer = do
  dcs ← get_elem? pdu (i + 1)
  stamp ← slice pdu (i + 2) (i + 9)
  udl ← get_elem? pdu (i + 9)
  ud ← slice_from pdu (i + 10)
  (concat, header_octets, payload) ← split_user_data_header has_udh ud
  let text = body_of dcs payload ud header_octets udl
  some (record {
    peer = peer;
    body = text.0;
    concat = concat;
    encoding = text.1;
    dcs = some dcs;
    received_at = decode_timestamp stamp;
  })

-- The first octet of the message, behind the service centre's address when that fits.
unfoldable pub message_start : List ℕ → ℕ → ℕ
message_start pdu smsc_len = if ltb (1 + smsc_len) (length pdu) then 1 + smsc_len else 0

unfoldable pub decode_deliver : List ℕ → Option Deliver
decode_deliver [] = some (record (undecodable []) { body = [] })
decode_deliver (smsc_len ∷ rest) =
    let pdu = smsc_len ∷ rest in
    let i = message_start pdu smsc_len in
    if leb (length pdu) (i + 2)
    then some (undecodable pdu)
    else (get_elem? pdu i >>= λ first. get_elem? pdu (i + 1) >>= λ digits.
        get_elem? pdu (i + 2) >>= λ toa.
        let octets = (digits + 1) / 2 in
        if ltb (length pdu) (i + 3 + octets + 10)
        then some (undecodable pdu)
        else (slice pdu (i + 3) (i + 3 + octets) >>= λ address.
            deliver_fields pdu (i + 3 + octets) (first / 64 % 2 == 1)
              (decode_address address digits toa)))
