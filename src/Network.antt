-- ===== src/Network.antt =====
-- Networks and what they are called, edge-core/src/network.rs. A text is read by its characters, where the code takes
-- bytes: the digits that it asks for are one byte each, and it refuses everything else.
use vodoge_edge.Common.{
  ℕ, ◌+◌, ◌-◌, ◌*◌, ◌%◌, Bool, true, false, ◌&&◌, ◌||◌, not, Option, none, some, List, [], ◌∷◌,
  ◌++◌, if◌then◌else◌, ltb, leb, ◌==◌, get_elem?, take, drop, length, Result, ok, err,
}
use vodoge_edge.Common.Text.{Text, codes, text_eq, decimal_digits}
pub mod Digits
pub mod Tests

pub record Network : Type 0 where
  pub mcc : ℕ
  pub mnc : ℕ

abbrev pub min_mnc_digits : ℕ
min_mnc_digits = 2

abbrev pub max_mnc_digits : ℕ
max_mnc_digits = 3

abbrev plausible_digits : ℕ → Bool
plausible_digits n = leb min_mnc_digits n && leb n max_mnc_digits

abbrev pub is_decimal : ℕ → Bool
is_decimal c = leb 48 c && leb c 57

-- `all(is_ascii_digit)`
unfoldable pub all_digits : Text → Bool
all_digits [] = true
all_digits (c ∷ text) = is_decimal c && all_digits text

-- `parse` of a text of digits.
unfoldable pub digits_value : ℕ → Text → ℕ
digits_value value [] = value
digits_value value (c ∷ text) = digits_value (value * 10 + (c - 48)) text

-- `str::get` of the `n` characters from `start`.
abbrev get_span : Text → ℕ → ℕ → Option Text
get_span text start n =
    if leb (start + n) (length text) then some (take n (drop start text)) else none

unfoldable pub from_imsi : Text → ℕ → Option Network
from_imsi imsi mnc_digits =
    if not (plausible_digits mnc_digits) then none else elim (get_span imsi 0 3) [
      | none ↦ none
      | some mcc ↦ elim (get_span imsi 3 mnc_digits) [
        | none ↦ none
        | some mnc ↦
            if all_digits (mcc ++ mnc)
            then some (record { mcc = digits_value 0 mcc; mnc = digits_value 0 mnc })
            else none
      ]
    ]

pub data EfAdError : Type 0 where
  no_mnc_length_byte : (actual : ℕ) → EfAdError
  implausible_mnc_length : (actual : ℕ) → EfAdError

unfoldable pub mnc_digits_from_ef_ad : List ℕ → Result EfAdError ℕ
mnc_digits_from_ef_ad bytes = elim (get_elem? bytes 3) [
  | none ↦ err (no_mnc_length_byte (length bytes))
  | some byte ↦
      if plausible_digits (byte % 16)
      then ok (byte % 16)
      else err (implausible_mnc_length (byte % 16))
]

-- `{:03}` and `{:02}` of a number of 16 bits.
abbrev pad_3 : ℕ → Text
pad_3 n =
    if ltb n 10
    then codes "00" ++ decimal_digits 5 n []
    else if ltb n 100
    then codes "0" ++ decimal_digits 5 n []
    else decimal_digits 5 n []

abbrev pad_2 : ℕ → Text
pad_2 n = if ltb n 10 then codes "0" ++ decimal_digits 5 n [] else decimal_digits 5 n []

unfoldable pub numeric : Network → Text
numeric network = pad_3 network.mcc ++ codes "-" ++ pad_2 network.mnc

abbrev pub NetworkRow : Type 0
NetworkRow = ℕ × ℕ × Text

abbrev networks : List NetworkRow
networks =
    (460, 0, codes "中国移动")
    ∷ (460, 2, codes "中国移动")
    ∷ (460, 4, codes "中国移动")
    ∷ (460, 7, codes "中国移动")
    ∷ (460, 8, codes "中国移动")
    ∷ (460, 1, codes "中国联通")
    ∷ (460, 6, codes "中国联通")
    ∷ (460, 9, codes "中国联通")
    ∷ (460, 3, codes "中国电信")
    ∷ (460, 5, codes "中国电信")
    ∷ (460, 11, codes "中国电信")
    ∷ (460, 15, codes "中国广电")
    ∷ (460, 20, codes "中国铁通")
    ∷ (454, 0, codes "CSL")
    ∷ (454, 2, codes "CSL")
    ∷ (454, 3, codes "3 HK")
    ∷ (454, 4, codes "3 HK")
    ∷ (454, 6, codes "SmarTone")
    ∷ (454, 10, codes "CSL")
    ∷ (454, 12, codes "CMHK")
    ∷ (454, 16, codes "CMHK")
    ∷ (454, 19, codes "SmarTone")
    ∷ (455, 1, codes "CTM")
    ∷ (455, 3, codes "3 Macau")
    ∷ (466, 92, codes "中華電信")
    ∷ (466, 97, codes "台灣大哥大")
    ∷ (310, 260, codes "T-Mobile")
    ∷ (310, 410, codes "AT&T")
    ∷ (310, 280, codes "AT&T")
    ∷ (311, 480, codes "Verizon")
    ∷ (505, 1, codes "Telstra")
    ∷ (440, 10, codes "NTT docomo")
    ∷ (450, 5, codes "SK Telecom")
    ∷ (525, 1, codes "Singtel")
    ∷ []

abbrev territories : List (ℕ × Text)
territories =
    (310, codes "美国")
    ∷ (311, codes "美国")
    ∷ (460, codes "中国大陆")
    ∷ (454, codes "中国香港")
    ∷ (455, codes "中国澳门")
    ∷ (466, codes "中国台湾")
    ∷ (505, codes "澳大利亚")
    ∷ (440, codes "日本")
    ∷ (450, codes "韩国")
    ∷ (525, codes "新加坡")
    ∷ []

-- The `find` and the `map` of `label`.
unfoldable pub find_name : List NetworkRow → ℕ → ℕ → Option Text
find_name [] mcc mnc = none
find_name ((row_mcc, row_mnc, name) ∷ rows) mcc mnc =
    if row_mcc == mcc && row_mnc == mnc then some name else find_name rows mcc mnc

unfoldable pub label : Network → Text
label network = elim (find_name networks network.mcc network.mnc) [
  | some name ↦ name
  | none ↦ numeric network
]

unfoldable pub find_territory : List (ℕ × Text) → ℕ → Option Text
find_territory [] mcc = none
find_territory ((row_mcc, name) ∷ rows) mcc =
    if row_mcc == mcc then some name else find_territory rows mcc

unfoldable pub territory : Network → Option Text
territory network = find_territory territories network.mcc

unfoldable pub describe : Network → Text
describe network = elim (territory network) [
  | some territory ↦ label network ++ codes " · " ++ territory
  | none ↦ label network
]

unfoldable pub carrier_profile : Network → Text
carrier_profile network =
    if not (network.mcc == 460)
    then codes "Generic-International"
    else if text_eq (label network) (codes "中国移动")
        || text_eq (label network) (codes "中国广电")
        || text_eq (label network) (codes "中国铁通")
    then codes "CN-Mobile"
    else if text_eq (label network) (codes "中国联通")
    then codes "CN-Unicom"
    else if text_eq (label network) (codes "中国电信")
    then codes "CN-Telecom"
    else codes "Generic-International"
