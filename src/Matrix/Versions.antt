-- ===== src/Matrix/Versions.antt =====
-- The version of the agent that a document asks for, edge-core/src/matrix.rs: a running agent that is older, or a version
-- that cannot be read, keeps the document out.
use vodoge_edge.Common.{
  ℕ, zero, suc, ◌+◌, ◌-◌, ◌*◌, ◌^◌, Bool, true, false, ◌&&◌, ◌||◌, Option, none, some, List, [],
  ◌∷◌, if◌then◌else◌, ltb, leb, ◌==◌,
}
use vodoge_edge.Common.Text.{Text}
use vodoge_edge.AtPolicy.{trim, is_empty}
use vodoge_edge.Matrix.{CapabilityMatrix}

pub data VersionCheck : Type 0 where
  not_required satisfied : VersionCheck
  too_old : (required running : Text) → VersionCheck
  version_unreadable : (required running : Text) → VersionCheck

abbrev pub version_admits : VersionCheck → Bool
version_admits not_required = true
version_admits satisfied = true
version_admits (too_old required running) = false
version_admits (version_unreadable required running) = false

-- The digits of `u64::from_str`, with what was read before them.
unfoldable pub decimal_value : ℕ → Text → Option ℕ
decimal_value value [] = some value
decimal_value value (c ∷ text) =
    let rest = decimal_value (value * 10 + (c - 48)) text in
    if leb 48 c && leb c 57 && ltb (value * 10 + (c - 48)) (2 ^ 64) then rest else none

-- `u64::from_str`: an empty text is refused, a sign `+` is not.
unfoldable pub parse_u64 : Text → Option ℕ
parse_u64 [] = none
parse_u64 (c ∷ []) = decimal_value 0 (c ∷ [])
parse_u64 (c ∷ d ∷ text) =
    if c == 43 then decimal_value 0 (d ∷ text) else decimal_value 0 (c ∷ d ∷ text)

abbrev onto_first : ℕ → List Text → List Text
onto_first c [] = (c ∷ []) ∷ []
onto_first c (piece ∷ pieces) = (c ∷ piece) ∷ pieces

-- `split('.')`
unfoldable pub split_dots : Text → List Text
split_dots [] = [] ∷ []
split_dots (c ∷ text) =
    let rest = split_dots text in if c == 46 then [] ∷ rest else onto_first c rest

abbrev with_part : Option ℕ → Option (List ℕ) → Option (List ℕ)
with_part (some part) (some parts) = some (part ∷ parts)
with_part _ _ = none

-- The loop of `numeric_version` over the first parts: those that are missing are 0.
unfoldable pub version_parts : ℕ → List Text → Option (List ℕ)
version_parts zero pieces = some []
version_parts (suc n) [] = with_part (some 0) (version_parts n [])
version_parts (suc n) (piece ∷ pieces) = with_part (parse_u64 piece) (version_parts n pieces)

unfoldable pub numeric_version : Text → Option (List ℕ)
numeric_version text =
    if is_empty (trim text) then none else version_parts 3 (split_dots (trim text))

-- `<=` of two arrays of one length.
unfoldable pub parts_leb : List ℕ → List ℕ → Bool
parts_leb (a ∷ older) (b ∷ bs) = ltb a b || (a == b && parts_leb older bs)
parts_leb _ _ = true

abbrev compared : Text → Text → Option (List ℕ) → Option (List ℕ) → VersionCheck
compared required running (some need) (some have) =
    if parts_leb need have then satisfied else too_old required running
compared required running _ _ = version_unreadable required running

unfoldable pub version_check : CapabilityMatrix → Text → VersionCheck
version_check matrix running = elim matrix.min_agent_version [
  | none ↦ not_required
  | some required ↦ compared required running (numeric_version required) (numeric_version running)
]
