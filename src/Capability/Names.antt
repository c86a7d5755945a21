-- ===== src/Capability/Names.antt =====
-- Names of families: a detected family is stored under a name that is read back as the same family.
use vodoge_edge.Common.{
  ◌≡◌, refl, Bool, true, false, not, none, some, [], ◌∷◌, ◌++◌, Bool-cases, Option-cases, inl, inr,
  is_some, sym, ap, ◌∙◌, arith,
}
use vodoge_edge.Common.Text.{Text, codes, text_eq}
use vodoge_edge.Common.Keys.{text_eq_iff}
use vodoge_edge.Capability.{
  ModemFamily, family_name, family_of, strip_prefix, starts_with_digit, names_model, detect_in,
  detect,
}

-- A family that has a name of its own.
abbrev is_known : ModemFamily → Bool
is_known (ModemFamily.other value) = false
is_known _ = true

detect_in-is_known :
    (source : Text) (f : ModemFamily) → detect_in source ≡ some f → is_known f ≡ true
unfolding detect_in
detect_in-is_known source f h = ground arith

family_of-known : (f : ModemFamily) → is_known f ≡ true → family_of (family_name f) ≡ f
unfolding family_of family_name
family_of-known ModemFamily.ec20 h = refl
family_of-known ModemFamily.ec25_cn h = refl
family_of-known ModemFamily.eg25_g h = refl
family_of-known ModemFamily.ec200u_cn h = refl
family_of-known ModemFamily.ufi103s h = refl
family_of-known (ModemFamily.other value) h = ground arith

-- A text that is a known name is detected.
known_names :
    (is_some (detect_in (codes "EC20")) ≡ true)
    × (is_some (detect_in (codes "EC25-CN")) ≡ true)
    × (is_some (detect_in (codes "EG25-G")) ≡ true)
    × (is_some (detect_in (codes "EC200U-CN")) ≡ true)
    × (is_some (detect_in (codes "UFI103S")) ≡ true)
unfolding detect_in names_model strip_prefix starts_with_digit
known_names = (refl, refl, refl, refl, refl)

not_named :
    (model name : Text)
    → is_some (detect_in name) ≡ true
    → detect_in model ≡ none
    → text_eq model name ≡ false
not_named model name n h = elim (Bool-cases (text_eq model name)) [
  | inl e ↦ absurd (
      some_not_none (
        sym n
        ∙ ap (λ t. is_some (detect_in t)) (sym ((text_eq_iff model name).0 e))
        ∙ ap is_some h))
  | inr e ↦ e
]
  where
    some_not_none : true ≡ false → ⊥
    some_not_none e = ground arith

undetected_is_other :
    (model : Text) → detect_in model ≡ none → family_of model ≡ ModemFamily.other model
unfolding family_of
undetected_is_other model h =
    let (ec20, ec25, eg25, ec200u, ufi) = known_names in
    ground (
      arith,
      not_named model (codes "EC20") ec20 h,
      not_named model (codes "EC25-CN") ec25 h,
      not_named model (codes "EG25-G") eg25 h,
      not_named model (codes "EC200U-CN") ec200u h,
      not_named model (codes "UFI103S") ufi h,
    )

named_by_itself :
    (model : Text)
    → family_of model ≡ ModemFamily.other model
    → family_of (family_name (ModemFamily.other model)) ≡ ModemFamily.other model
unfolding family_name
named_by_itself model h = h

by_model :
    (model revision : Text) (f : ModemFamily) → detect_in model ≡ some f → detect model revision ≡ f
unfolding detect
by_model model revision f e = ground arith

by_revision :
    (model revision : Text) (f : ModemFamily)
    → detect_in model ≡ none
    → detect_in revision ≡ some f
    → detect model revision ≡ f
unfolding detect
by_revision model revision f e g = ground arith

by_neither :
    (model revision : Text)
    → detect_in model ≡ none
    → detect_in revision ≡ none
    → detect model revision ≡ ModemFamily.other model
unfolding detect
by_neither model revision e g = ground arith

-- What the matrix looks up is what was detected: the name of a detected family, stored and read back, is the same
-- family, also when the model is unknown and its own text is the name.
pub family_of-detect :
    (model revision : Text)
    → family_of (family_name (detect model revision)) ≡ detect model revision
family_of-detect model revision = elim (Option-cases (detect_in model)) [
  | inr (f, e) ↦ rw (by_model model revision f e) (family_of-known f (detect_in-is_known model f e))
  | inl e ↦ elim (Option-cases (detect_in revision)) [
    | inr (f, g) ↦
        rw (by_revision model revision f e g) (family_of-known f (detect_in-is_known revision f g))
    | inl g ↦
        rw (by_neither model revision e g) (named_by_itself model (undetected_is_other model e))
  ]
]

strip_prefix-append : (prefix rest : Text) → strip_prefix (prefix ++ rest) prefix ≡ some rest
unfolding strip_prefix
strip_prefix-append [] rest = ground arith
strip_prefix-append (p ∷ prefix) rest = ground (arith, strip_prefix-append prefix rest)

-- A text that begins with a model's name names it exactly if no digit follows: EC200U is not an EC20, and EC20F is.
pub names_model-append :
    (prefix rest : Text) → names_model (prefix ++ rest) prefix ≡ not (starts_with_digit rest)
unfolding names_model
names_model-append prefix rest = ground (arith, strip_prefix-append prefix rest)
