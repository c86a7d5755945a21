-- ===== src/Capability.antt =====
-- What a modem and a carrier can do together, edge-core/src/capability.rs: names of families, carriers and verticals,
-- how a family is detected, and the four supports.
use vodoge_edge.Common.{
  ℕ, Bool, true, false, ◌&&◌, ◌||◌, not, Option, none, some, List, [], ◌∷◌, if◌then◌else◌, leb,
  ◌==◌,
}
use vodoge_edge.Common.Text.{Text, codes, text_eq, is_blank}
pub mod Keys
pub mod Names
pub mod Tests

pub data ModemFamily : Type 0 where
  ec20 ec25_cn eg25_g ec200u_cn ufi103s : ModemFamily
  other : Text → ModemFamily

unfoldable pub family_name : ModemFamily → Text
family_name ModemFamily.ec20 = codes "EC20"
family_name ModemFamily.ec25_cn = codes "EC25-CN"
family_name ModemFamily.eg25_g = codes "EG25-G"
family_name ModemFamily.ec200u_cn = codes "EC200U-CN"
family_name ModemFamily.ufi103s = codes "UFI103S"
family_name (ModemFamily.other value) = value

-- `From<&str>`
unfoldable pub family_of : Text → ModemFamily
family_of value =
    if text_eq value (codes "EC20")
    then ModemFamily.ec20
    else if text_eq value (codes "EC25-CN")
    then ModemFamily.ec25_cn
    else if text_eq value (codes "EG25-G")
    then ModemFamily.eg25_g
    else if text_eq value (codes "EC200U-CN")
    then ModemFamily.ec200u_cn
    else if text_eq value (codes "UFI103S")
    then ModemFamily.ufi103s
    else ModemFamily.other value

abbrev is_ascii_digit : ℕ → Bool
is_ascii_digit c = leb 48 c && leb c 57

-- `strip_prefix`
unfoldable pub strip_prefix : Text → Text → Option Text
strip_prefix source [] = some source
strip_prefix [] (p ∷ prefix) = none
strip_prefix (c ∷ source) (p ∷ prefix) =
    let rest = strip_prefix source prefix in if c == p then rest else none

unfoldable pub starts_with_digit : Text → Bool
starts_with_digit [] = false
starts_with_digit (c ∷ rest) = is_ascii_digit c

unfoldable pub names_model : Text → Text → Bool
names_model source prefix = elim (strip_prefix source prefix) [
  | none ↦ false
  | some rest ↦ not (starts_with_digit rest)
]

-- One round of the loop in `detect`.
unfoldable pub detect_in : Text → Option ModemFamily
detect_in source =
    if names_model source (codes "EG25G") || names_model source (codes "EG25-G")
    then some ModemFamily.eg25_g
    else if names_model source (codes "EC200UCN") || names_model source (codes "EC200U-CN")
    then some ModemFamily.ec200u_cn
    else if names_model source (codes "EC25C") || names_model source (codes "EC25-CN")
    then some ModemFamily.ec25_cn
    else if names_model source (codes "EC20")
    then some ModemFamily.ec20
    else if names_model source (codes "UFI103S")
    then some ModemFamily.ufi103s
    else none

unfoldable pub detect : Text → Text → ModemFamily
detect model revision = elim (detect_in model) [
  | some family ↦ family
  | none ↦ elim (detect_in revision) [ some family ↦ family | none ↦ ModemFamily.other model ]
]

-- `ModemFamily::UNKNOWN`
abbrev pub unknown_family : Text
unknown_family = codes "unknown"

unfoldable pub detect_name : Text → Text → Text
detect_name model revision =
    if is_blank model && is_blank revision
    then unknown_family
    else family_name (detect model revision)

pub data CarrierProfile : Type 0 where
  cn_mobile cn_unicom cn_telecom generic_international : CarrierProfile
  other : Text → CarrierProfile

unfoldable pub carrier_name : CarrierProfile → Text
carrier_name CarrierProfile.cn_mobile = codes "CN-Mobile"
carrier_name CarrierProfile.cn_unicom = codes "CN-Unicom"
carrier_name CarrierProfile.cn_telecom = codes "CN-Telecom"
carrier_name CarrierProfile.generic_international = codes "Generic-International"
carrier_name (CarrierProfile.other value) = value

unfoldable pub carrier_of : Text → CarrierProfile
carrier_of value =
    if text_eq value (codes "CN-Mobile")
    then CarrierProfile.cn_mobile
    else if text_eq value (codes "CN-Unicom")
    then CarrierProfile.cn_unicom
    else if text_eq value (codes "CN-Telecom")
    then CarrierProfile.cn_telecom
    else if text_eq value (codes "Generic-International")
    then CarrierProfile.generic_international
    else CarrierProfile.other value

pub data Vertical : Type 0 where
  cn intl : Vertical
  custom : Text → Vertical

unfoldable pub vertical_name : Vertical → Text
vertical_name cn = codes "cn"
vertical_name intl = codes "intl"
vertical_name (custom value) = value

unfoldable pub vertical_of : Text → Vertical
vertical_of value =
    if text_eq value (codes "cn")
    then cn
    else if text_eq value (codes "intl")
    then intl
    else custom value

-- `PartialEq`
unfoldable pub vertical_eq : Vertical → Vertical → Bool
vertical_eq cn cn = true
vertical_eq intl intl = true
vertical_eq (custom a) (custom b) = text_eq a b
vertical_eq _ _ = false

abbrev pub VerticalId : Type 0
VerticalId = Text

pub data Bearer : Type 0 where
  cellular ims sgs : Bearer

unfoldable pub bearer_name : Bearer → Text
bearer_name cellular = codes "cellular"
bearer_name ims = codes "ims"
bearer_name sgs = codes "sgs"

pub data BearerSupport : Type 0 where
  supported : Bearer → BearerSupport
  unsupported : (reason : Text) → BearerSupport
  probe : BearerSupport

-- `BearerSupport::wire`
unfoldable pub support_wire : BearerSupport → Text
support_wire (supported b) = codes "supported"
support_wire (unsupported reason) = codes "unsupported"
support_wire probe = codes "unknown"

pub record Capability : Type 0 where
  pub sms_mo : BearerSupport
  pub sms_mt : BearerSupport
  pub data_support : BearerSupport
  pub voice : BearerSupport

abbrev is_measured : BearerSupport → Bool
is_measured probe = false
is_measured _ = true

unfoldable pub has_measurement : Capability → Bool
has_measurement c =
    is_measured c.sms_mo
    || is_measured c.sms_mt
    || is_measured c.data_support
    || is_measured c.voice
