-- ===== src/Deliver/Tests.antt =====
-- The decoders on small inputs, and the theorems at them.
use vodoge_edge.Common.{
  ℕ, ◌≤◌, ◌≡◌, refl, true, Option, none, some, List, [], ◌∷◌, ◌++◌, is_some, arith,
}
use vodoge_edge.Common.Text.{Text, codes}
use vodoge_edge.Common.Int.{pos, ◌+ℤ◌, ◌-ℤ◌, ◌*ℤ◌}
use vodoge_edge.Common.Checked.{slice, slice_from}
use vodoge_edge.Gsm7.{
  basic, extension, basic_char, drain, unpack_from, unpack_septets, decode_septets, decode,
}
use vodoge_edge.Submit.{bcd_digits, encode_utf16, be_bytes}
use vodoge_edge.Deliver.{
  hex, days_from_civil, swapped, zone_minutes, in_range, millis, decode_timestamp, address_digits,
  decode_address, be_units, from_utf16, decode_ucs2, concat_of, elements, split_user_data_header,
  body_of, deliver_fields, message_start, decode_deliver, Deliver,
}
use vodoge_edge.Deliver.Reports.{delivery_status, report_fields, decode_status_report}
use vodoge_edge.Deliver.Total.{decode_deliver-total}
use vodoge_edge.Deliver.Calendar.{Date, days_of, next_date, days_of-next_date}
use vodoge_edge.Deliver.Unicode.{decode_ucs2-encode_utf16}
use vodoge_edge.Deliver.Addresses.{decode_address-bcd_digits}

program : Unit {0}
unfolding ◌+ℤ◌ ◌-ℤ◌ ◌*ℤ◌ slice slice_from basic extension basic_char drain unpack_from
    unpack_septets decode_septets decode bcd_digits encode_utf16 be_bytes hex days_from_civil
    swapped zone_minutes in_range millis decode_timestamp address_digits decode_address be_units
    from_utf16 decode_ucs2 concat_of elements split_user_data_header body_of deliver_fields
    message_start decode_deliver delivery_status report_fields decode_status_report
program = tt

abbrev stamp : List ℕ
stamp = 0x62 ∷ 0x70 ∷ 0x41 ∷ 0x01 ∷ 0x20 ∷ 0x30 ∷ 0x23 ∷ []

-- "Hi" from +86 13, and the second of two parts in UCS-2.
abbrev plain : List ℕ
plain = 0x00 ∷ 0x04 ∷ 0x04 ∷ 0x91 ∷ 0x68 ∷ 0x31 ∷ 0x00 ∷ 0x00 ∷ stamp ++ 0x02 ∷ 0xc8 ∷ 0x34 ∷ []

abbrev fragment : List ℕ
fragment =
    0x00 ∷ 0x44 ∷ 0x04 ∷ 0x91 ∷ 0x68 ∷ 0x31 ∷ 0x00 ∷ 0x08 ∷ stamp
    ++ 0x08 ∷ 0x05 ∷ 0x00 ∷ 0x03 ∷ 0xc3 ∷ 0x02 ∷ 0x02 ∷ 0x4f ∷ 0x60 ∷ []

abbrev body_and_parts : Option Deliver → Text × Option (ℕ × ℕ × ℕ)
body_and_parts none = ([], none)
body_and_parts (some d) = (d.body, d.concat)

deliver_run :
    (body_and_parts (decode_deliver plain) ≡ (codes "Hi", none))
    × (body_and_parts (decode_deliver fragment) ≡ (codes "你", some (0xc3, 2, 2)))
    × (decode_timestamp stamp ≡ some (pos 1_783_994_523_000))
    × (delivery_status 0x41 ≡ codes "failed")
unfolding program
deliver_run = (refl, refl, refl, refl)

decode_deliver-total_example : is_some (decode_deliver (0x07 ∷ 0x01 ∷ [])) ≡ true
decode_deliver-total_example = decode_deliver-total (0x07 ∷ 0x01 ∷ [])

abbrev leap_day : Date
leap_day = record { year = 2024; month = 2; day = 29 }

days_of-next_date_example : days_of (next_date leap_day) ≡ days_of leap_day +ℤ pos 1
days_of-next_date_example = days_of-next_date leap_day (ground arith)

decode_address-bcd_digits_example :
    (decode_address (bcd_digits (codes "10086")) 5 0x81 ≡ codes "10086")
    × (1 ≤ 5 → decode_address (bcd_digits (codes "10086")) 5 0x91 ≡ codes "+10086")
decode_address-bcd_digits_example =
    decode_address-bcd_digits (codes "10086") (refl, (refl, (refl, (refl, (refl, tt)))))

decode_ucs2-encode_utf16_example : decode_ucs2 (be_bytes (encode_utf16 (codes "你😀"))) ≡ codes "你😀"
decode_ucs2-encode_utf16_example = decode_ucs2-encode_utf16 (codes "你😀") (ground arith)
