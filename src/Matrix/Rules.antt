-- ===== src/Matrix/Rules.antt =====
-- The rules of a document, edge-core/src/matrix.rs: which lists are taken, and which rule answers for a pair.
use vodoge_edge.Common.{
  ◌≡◌, refl, Bool, true, false, ◌&&◌, not, Option, none, some, List, [], ◌∷◌, if◌then◌else◌, arith,
  is_some, Result, ok, err,
}
use vodoge_edge.Common.Dict.{Dict, lookup, contains, insert, lookup-insert}
use vodoge_edge.Capability.{Capability}
use vodoge_edge.Capability.Keys.{matrix_key}
use vodoge_edge.Matrix.{RawRule, MatrixKey, key_of, into_capability, add_rules}

abbrev pub is_ok {ℓ} : {E A : Type ℓ} → Result E A → Bool
is_ok (ok a) = true
is_ok (err e) = false

-- Two pairs are the same.
abbrev pub same_key : MatrixKey → MatrixKey → Bool
same_key a b = matrix_key.beq a b

-- The first rule for a pair.
unfoldable pub first_rule : MatrixKey → List RawRule → Option RawRule
first_rule key [] = none
first_rule key (rule ∷ rest) = if same_key (key_of rule) key then some rule else first_rule key rest

-- No pair has two rules.
unfoldable pub distinct_rules : List RawRule → Bool
distinct_rules [] = true
distinct_rules (rule ∷ rest) = not (is_some (first_rule (key_of rule) rest)) && distinct_rules rest

-- No rule is for a pair of the map.
unfoldable new_rules : List RawRule → Dict MatrixKey Capability → Bool
new_rules [] rules = true
new_rules (rule ∷ rest) rules = not (contains (key_of rule) rules) && new_rules rest rules

new_rules-insert :
    (key : MatrixKey) (c : Capability) (rest : List RawRule) (rules : Dict MatrixKey Capability)
    → new_rules rest (insert key c rules)
      ≡ (not (is_some (first_rule key rest)) && new_rules rest rules)
unfolding new_rules first_rule
new_rules-insert key c [] rules = refl
new_rules-insert key c (rule ∷ rest) rules = ground (
  arith,
  lookup-insert key (key_of rule) c rules,
  matrix_key.beq_iff key (key_of rule),
  matrix_key.beq_iff (key_of rule) key,
  new_rules-insert key c rest rules,
)

add_rules-is_ok :
    (fallback : Capability) (raw : List RawRule) (rules : Dict MatrixKey Capability)
    → is_ok (add_rules fallback raw rules) ≡ (new_rules raw rules && distinct_rules raw)
unfolding add_rules new_rules distinct_rules
add_rules-is_ok fallback [] rules = refl
add_rules-is_ok fallback (rule ∷ rest) rules =
    let cap = into_capability rule.capability fallback in
    ground (
      arith,
      add_rules-is_ok fallback rest (insert (key_of rule) cap rules),
      new_rules-insert (key_of rule) cap rest rules,
    )

new_rules-nil : (raw : List RawRule) → new_rules raw [] ≡ true
unfolding new_rules lookup
new_rules-nil [] = refl
new_rules-nil (rule ∷ rest) = new_rules-nil rest

pub add_rules-takes :
    (fallback : Capability) (raw : List RawRule)
    → is_ok (add_rules fallback raw []) ≡ distinct_rules raw
add_rules-takes fallback raw = rw (add_rules-is_ok, new_rules-nil)

-- The capability that a rule, if there is one, states.
abbrev pub stated_by : Capability → Option RawRule → Option Capability
stated_by fallback none = none
stated_by fallback (some rule) = some (into_capability rule.capability fallback)

abbrev or_stated : Option Capability → Option Capability → Option Capability
or_stated none later = later
or_stated (some c) later = some c

add_rules-lookup :
    (fallback : Capability) (raw : List RawRule) (rules out : Dict MatrixKey Capability)
    (key : MatrixKey)
    → add_rules fallback raw rules ≡ ok out
    → lookup key out ≡ or_stated (lookup key rules) (stated_by fallback (first_rule key raw))
unfolding add_rules first_rule
add_rules-lookup fallback [] rules out key h = ground arith
add_rules-lookup fallback (rule ∷ rest) rules out key h =
    let cap = into_capability rule.capability fallback in
    ground (
      arith,
      add_rules-lookup fallback rest (insert (key_of rule) cap rules) out key,
      lookup-insert (key_of rule) key cap rules,
      matrix_key.beq_iff (key_of rule) key,
    )

pub add_rules-answers :
    (fallback : Capability) (raw : List RawRule) (out : Dict MatrixKey Capability) (key : MatrixKey)
    → add_rules fallback raw [] ≡ ok out
    → lookup key out ≡ stated_by fallback (first_rule key raw)
unfolding lookup
add_rules-answers fallback raw out key h = add_rules-lookup fallback raw [] out key h
