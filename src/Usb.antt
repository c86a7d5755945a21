-- ===== src/Usb.antt =====
-- The identity of USB hardware, edge-core/src/strategy.rs: two numbers of 16 bits, read from the hexadecimal text of
-- sysfs.
use vodoge_edge.Common.{
  ℕ, ◌+◌, ◌-◌, ◌*◌, ◌/◌, ◌%◌, ◌^◌, Bool, ◌&&◌, ◌||◌, Option, none, some, [], ◌∷◌, ◌++◌,
  if◌then◌else◌, leb, ltb, ◌==◌,
}
use vodoge_edge.Common.Text.{Text}
use vodoge_edge.AtPolicy.{trim}
pub mod Hex
pub mod Tests

pub record UsbIdentity : Type 0 where
  pub vendor : ℕ
  pub product : ℕ

-- `PartialEq`
abbrev pub usb_eq : UsbIdentity → UsbIdentity → Bool
usb_eq a b = (a.vendor == b.vendor) && (a.product == b.product)

-- `char::to_digit(16)`
abbrev pub hex_value : ℕ → Option ℕ
hex_value c =
    if leb 48 c && leb c 57
    then some (c - 48)
    else if leb 97 c && leb c 102
    then some (c - 87)
    else if leb 65 c && leb c 70
    then some (c - 55)
    else none

-- The digits of `u16::from_str_radix(_, 16)`, with what was read before them.
unfoldable pub hex_digits : ℕ → Text → Option ℕ
hex_digits value [] = some value
hex_digits value (c ∷ text) = elim (hex_value c) [
  | none ↦ none
  | some digit ↦
      let rest = hex_digits (value * 16 + digit) text in
      if ltb (value * 16 + digit) (2 ^ 16) then rest else none
]

-- `u16::from_str_radix(_, 16)`: an empty text is refused, a sign `+` is not.
unfoldable pub parse_hex : Text → Option ℕ
parse_hex [] = none
parse_hex (c ∷ []) = hex_digits 0 (c ∷ [])
parse_hex (c ∷ d ∷ text) = if c == 43 then hex_digits 0 (d ∷ text) else hex_digits 0 (c ∷ d ∷ text)

-- `UsbIdentity::parse`
unfoldable pub parse : Text → Text → Option UsbIdentity
parse vendor product = elim (parse_hex (trim vendor)) [
  | none ↦ none
  | some v ↦ elim (parse_hex (trim product)) [
    | none ↦ none
    | some p ↦ some (record { vendor = v; product = p })
  ]
]

-- `{:04x}`
abbrev pub hex_char : ℕ → ℕ
hex_char d = if ltb d 10 then 48 + d else 87 + d

abbrev pub hex_4 : ℕ → Text
hex_4 n =
    hex_char (n / 4096) ∷ hex_char (n / 256 % 16) ∷ hex_char (n / 16 % 16) ∷ hex_char (n % 16) ∷ []

-- `Display`
unfoldable pub shown : UsbIdentity → Text
shown usb = hex_4 usb.vendor ++ 58 ∷ hex_4 usb.product

-- `split_once`
unfoldable pub split_once : ℕ → Text → Option (Text × Text)
split_once mark [] = none
split_once mark (c ∷ text) =
    let rest = split_once mark text in
    if c == mark
    then some ([], text)
    else elim rest [ none ↦ none | some (before, after) ↦ some (c ∷ before, after) ]

-- The identity in one text, as `from_document` reads it.
unfoldable pub read_usb : Text → Option UsbIdentity
read_usb text = elim (split_once 58 text) [
  | none ↦ none
  | some (vendor, product) ↦ parse vendor product
]
