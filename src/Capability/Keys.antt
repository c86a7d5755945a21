-- ===== src/Capability/Keys.antt =====
-- The equality and the order of the families and of the profiles, which their maps need: each value is its tag before
-- its text.
use vodoge_edge.Common.{◌≡◌, refl, [], ◌∷◌, if◌then◌else◌, ◌==◌}
use vodoge_edge.Common.Text.{Text}
use vodoge_edge.Common.Keys.{Key, text_key}
use vodoge_edge.Common.Encoded.{encoded_key}
use vodoge_edge.Common.Groups.{pair_key}
use vodoge_edge.Capability.{ModemFamily, CarrierProfile}

abbrev pub family_code : ModemFamily → Text
family_code ModemFamily.ec20 = 0 ∷ []
family_code ModemFamily.ec25_cn = 1 ∷ []
family_code ModemFamily.eg25_g = 2 ∷ []
family_code ModemFamily.ec200u_cn = 3 ∷ []
family_code ModemFamily.ufi103s = 4 ∷ []
family_code (ModemFamily.other value) = 5 ∷ value

abbrev pub coded_family : Text → ModemFamily
coded_family [] = ModemFamily.ec20
coded_family (tag ∷ value) =
    if tag == 0
    then ModemFamily.ec20
    else if tag == 1
    then ModemFamily.ec25_cn
    else if tag == 2
    then ModemFamily.eg25_g
    else if tag == 3
    then ModemFamily.ec200u_cn
    else if tag == 4
    then ModemFamily.ufi103s
    else ModemFamily.other value

pub coded_family-family_code : (f : ModemFamily) → coded_family (family_code f) ≡ f
coded_family-family_code ModemFamily.ec20 = refl
coded_family-family_code ModemFamily.ec25_cn = refl
coded_family-family_code ModemFamily.eg25_g = refl
coded_family-family_code ModemFamily.ec200u_cn = refl
coded_family-family_code ModemFamily.ufi103s = refl
coded_family-family_code (ModemFamily.other value) = refl

instance unfoldable pub family_key : Key ModemFamily
family_key = encoded_key family_code coded_family coded_family-family_code text_key

abbrev pub carrier_code : CarrierProfile → Text
carrier_code CarrierProfile.cn_mobile = 0 ∷ []
carrier_code CarrierProfile.cn_unicom = 1 ∷ []
carrier_code CarrierProfile.cn_telecom = 2 ∷ []
carrier_code CarrierProfile.generic_international = 3 ∷ []
carrier_code (CarrierProfile.other value) = 4 ∷ value

abbrev pub coded_carrier : Text → CarrierProfile
coded_carrier [] = CarrierProfile.cn_mobile
coded_carrier (tag ∷ value) =
    if tag == 0
    then CarrierProfile.cn_mobile
    else if tag == 1
    then CarrierProfile.cn_unicom
    else if tag == 2
    then CarrierProfile.cn_telecom
    else if tag == 3
    then CarrierProfile.generic_international
    else CarrierProfile.other value

pub coded_carrier-carrier_code : (c : CarrierProfile) → coded_carrier (carrier_code c) ≡ c
coded_carrier-carrier_code CarrierProfile.cn_mobile = refl
coded_carrier-carrier_code CarrierProfile.cn_unicom = refl
coded_carrier-carrier_code CarrierProfile.cn_telecom = refl
coded_carrier-carrier_code CarrierProfile.generic_international = refl
coded_carrier-carrier_code (CarrierProfile.other value) = refl

instance unfoldable pub carrier_key : Key CarrierProfile
carrier_key = encoded_key carrier_code coded_carrier coded_carrier-carrier_code text_key

-- The keys of the matrix and of the ledger.
instance unfoldable pub matrix_key : Key (ModemFamily × CarrierProfile)
matrix_key = pair_key
