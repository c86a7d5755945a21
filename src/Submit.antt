-- ===== src/Submit.antt =====
-- Outbound messages: the draft of edge-core/src/sms_draft.rs, and the SUBMIT encoder of edge-modem/src/pdu.rs. Octets
-- are numbers. The accumulator of `pack_gsm7` is below `2 ^ bits`, so the source's `|=` is a sum and fits its `u16`.
use vodoge_edge.Common.{
  ℕ, zero, suc, ◌+◌, ◌-◌, ◌*◌, ◌/◌, ◌%◌, ◌^◌, Bool, true, false, ◌&&◌, ◌||◌, not, Option, none,
  some, List, [], ◌∷◌, ◌++◌, Result, ok, err, ◌>>=◌, if◌then◌else◌, ltb, leb, ◌==◌, length, is_some,
}
use vodoge_edge.Common.Text.{Text, codes, is_whitespace, is_blank}
pub mod Packing
pub mod RoundTrip
pub mod Encoder
pub mod Tests

abbrev pub gsm7_max_septets : ℕ
gsm7_max_septets = 160

abbrev pub ucs2_max_chars : ℕ
ucs2_max_chars = 70

abbrev pub is_in : ℕ → ℕ → ℕ → Bool
is_in lo hi c = leb lo c && leb c hi

-- 'A'..='Z' | 'a'..='z' | '0'..='9' | ' ' | '.' | ',' | '!' | '?' | ':' | '+' | '-'
unfoldable pub gsm7_value : ℕ → Option ℕ
gsm7_value c =
    if is_in 65 90 c
      || is_in 97 122 c
      || is_in 48 57 c
      || c == 32
      || c == 46
      || c == 44
      || c == 33
      || c == 63
      || c == 58
      || c == 43
      || c == 45
    then some c
    else none

unfoldable pub is_gsm7 : Text → Bool
is_gsm7 [] = true
is_gsm7 (c ∷ body) = is_some (gsm7_value c) && is_gsm7 body

pub data Encoding : Type 0 where
  gsm7 ucs2 : Encoding

abbrev pub label : Encoding → Text
label gsm7 = codes "GSM-7"
label ucs2 = codes "UCS-2"

pub record Draft : Type 0 where
  pub encoding : Encoding
  pub units : ℕ
  pub limit : ℕ
  pub over : Bool

-- `encode_utf16`: a code point past 0xffff is two units.
unfoldable pub encode_utf16 : Text → List ℕ
encode_utf16 [] = []
encode_utf16 (c ∷ text) =
    let rest = encode_utf16 text in
    if ltb c 0x10000
    then c ∷ rest
    else (0xd800 + (c - 0x10000) / 1024) ∷ (0xdc00 + (c - 0x10000) % 1024) ∷ rest

unfoldable pub draft : Text → Draft
draft body =
    let septets = is_gsm7 body in
    let units = if septets then length body else length (encode_utf16 body) in
    let limit = if septets then gsm7_max_septets else ucs2_max_chars in
    record {
      encoding = if septets then gsm7 else ucs2;
      units = units;
      limit = limit;
      over = ltb limit units;
    }

pub data PduError : Type 0 where
  empty_destination invalid_destination empty_body : PduError
  too_long : (encoding : Text) (limit : ℕ) → PduError

-- The septets of a body, `None` at the first character that has none.
unfoldable pub septets_of : Text → Option (List ℕ)
septets_of [] = some []
septets_of (c ∷ body) =
    let rest = septets_of body in
    elim (gsm7_value c) [
      | none ↦ none
      | some s ↦ elim rest [ none ↦ none | some ss ↦ some (s ∷ ss) ]
    ]

-- The packing loop.
unfoldable pub pack_from : List ℕ → ℕ → ℕ → List ℕ
pack_from [] acc bits = if ltb 0 bits then acc % 256 ∷ [] else []
pack_from (septet ∷ septets) acc bits =
    let acc' = acc + septet * 2 ^ bits in
    let full = leb 8 (bits + 7) in
    let rest =
      pack_from septets (if full then acc' / 256 else acc') (if full then bits - 1 else bits + 7) in
    if full then acc' % 256 ∷ rest else rest

unfoldable pub pack_gsm7 : Text → Option (List ℕ)
pack_gsm7 body = elim (septets_of body) [ none ↦ none | some ss ↦ some (pack_from ss 0 0) ]

-- `is_ascii_digit`
abbrev pub is_digit : ℕ → Bool
is_digit c = is_in 48 57 c

unfoldable pub digits_only : Text → Text
digits_only [] = []
digits_only (c ∷ text) = let rest = digits_only text in if is_digit c then c ∷ rest else rest

abbrev pub nibble : ℕ → ℕ
nibble c = if is_digit c then c - 48 else 0x0f

-- Two digits to an octet, the first in the low half; an odd last one is filled with 0xf.
unfoldable pub bcd_digits : Text → List ℕ
bcd_digits [] = []
bcd_digits (lo ∷ []) = (nibble lo + 0x0f * 16) ∷ []
bcd_digits (lo ∷ hi ∷ rest) = (nibble lo + nibble hi * 16) ∷ bcd_digits rest

-- `trim`, of the start: what `starts_with` looks at.
unfoldable pub trim_start : Text → Text
trim_start [] = []
trim_start (c ∷ text) = let rest = trim_start text in if is_whitespace c then rest else c ∷ text

unfoldable pub starts_with_plus : Text → Bool
starts_with_plus [] = false
starts_with_plus (c ∷ text) = c == 43

-- The number of digits, the type of address, and the address. White space has no digit, so the digits of the
-- destination are those of its trimmed form.
unfoldable pub encode_address : Text → Result PduError (ℕ × ℕ × List ℕ)
encode_address to =
    let international = starts_with_plus (trim_start to) in
    let digits = digits_only to in
    if is_blank to
    then err empty_destination
    else if length digits == 0 || ltb 20 (length digits)
    then err invalid_destination
    else ok (length digits, (if international then 0x91 else 0x81), bcd_digits digits)

unfoldable pub be_bytes : List ℕ → List ℕ
be_bytes [] = []
be_bytes (u ∷ units) = u / 256 ∷ u % 256 ∷ be_bytes units

-- The user data with its coding scheme and length.
unfoldable pub encode_body : Text → Result PduError (List ℕ)
encode_body body = elim (pack_gsm7 body) [
  | some packed ↦
      if ltb gsm7_max_septets (length body)
      then err (too_long (codes "gsm7") gsm7_max_septets)
      else ok (0 ∷ length body % 256 ∷ packed)
  | none ↦
      let units = encode_utf16 body in
      if ltb ucs2_max_chars (length units)
      then err (too_long (codes "ucs2") ucs2_max_chars)
      else ok (0x08 ∷ length units * 2 % 256 ∷ be_bytes units)
]

unfoldable pub encode_tpdu : Text → Text → ℕ → Result PduError (List ℕ)
encode_tpdu to [] reference = err empty_body
encode_tpdu to (c ∷ cs) reference = do
  (count, toa, address) ← encode_address to
  ud ← encode_body (c ∷ cs)
  ok (0x21 ∷ reference ∷ count ∷ toa ∷ address ++ 0x00 ∷ ud)

unfoldable pub encode_submit : Text → Text → ℕ → Result PduError (List ℕ)
encode_submit to body reference = do tpdu ← encode_tpdu to body reference; ok (0x00 ∷ tpdu)
