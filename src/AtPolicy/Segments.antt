-- ===== src/AtPolicy/Segments.antt =====
-- Chained commands: every segment is read.
use vodoge_edge.Common.{
  ℕ, ◌≡◌, refl, ◌↔◌, Bool, true, false, Option, none, some, List, [], ◌∷◌, ◌++◌, if◌then◌else◌,
  ◌==◌, All, Bool-cases, inl, inr, arith,
}
use vodoge_edge.Common.Text.{Text}
use vodoge_edge.AtPolicy.{
  unrecognised_kind, AtRisk, safe, disruptive, trim, trim_left, trim_right, ascii_uppercase,
  strip_at_prefix, segment_risk, split_segments, first_risk, classify, is_empty,
}

abbrev AllHarmless : List Text → Type 0
AllHarmless = All (λ segment. segment_risk segment ≡ none)

first_risk_iff : (segments : List Text) → (first_risk segments ≡ safe) ↔ AllHarmless segments
unfolding first_risk
first_risk_iff [] = (λ h. tt, λ h. refl)
first_risk_iff (segment ∷ segments) = ground (arith, first_risk_iff segments)

-- Every segment of the command is harmless by itself.
abbrev pub IsHarmless : Text → Type 0
IsHarmless command = elim (strip_at_prefix (ascii_uppercase (trim command))) [
  | none ↦ ⊥
  | some body ↦ AllHarmless (split_segments body)
]

empty_segment : segment_risk [] ≡ none
unfolding segment_risk trim_left trim_right
empty_segment = refl

empty_body : split_segments [] ≡ [] ∷ []
unfolding split_segments
empty_body = refl

body_iff :
    (body : Text)
    → ((if is_empty body then safe else first_risk (split_segments body)) ≡ safe)
      ↔ AllHarmless (split_segments body)
body_iff [] = rw empty_body (λ h. (empty_segment, tt), λ h. refl)
body_iff (c ∷ body) = first_risk_iff (split_segments (c ∷ body))

-- A command is safe exactly if `strip_at_prefix` finds a body, and `segment_risk` no risk in any segment of it.
pub classify-IsHarmless : (command : Text) → (classify command ≡ safe) ↔ IsHarmless command
unfolding classify
classify-IsHarmless command = any_body (strip_at_prefix (ascii_uppercase (trim command)))
  where
    any_body :
        (body : Option Text)
        → ((elim body as (λ b. AtRisk) [
          | none ↦ disruptive unrecognised_kind
          | some b ↦ if is_empty b then safe else first_risk (split_segments b)
        ])
            ≡ safe)
          ↔ (elim body as (λ b. Type 0) [ none ↦ ⊥ | some b ↦ AllHarmless (split_segments b) ])
    any_body none = (λ h. ground arith, λ h. absurd h)
    any_body (some b) = body_iff b

pub some_segment :
    (body : Text)
    → (segment : Text) × (segments : List Text) × (split_segments body ≡ segment ∷ segments)
unfolding split_segments
some_segment [] = ([], [], refl)
some_segment (c ∷ body) =
    let (s, ss, e) = some_segment body in
    elim (Bool-cases (c == 59)) [
      | inl f ↦ ([], s ∷ ss, rw (e, f) refl)
      | inr f ↦ (c ∷ s, ss, rw (e, f) refl)
    ]

pub split_segments-append :
    (xs ys : Text) → split_segments (xs ++ 59 ∷ ys) ≡ split_segments xs ++ split_segments ys
unfolding split_segments
split_segments-append [] ys = let (s, ss, e) = some_segment ys in rw e refl
split_segments-append (x ∷ xs) ys =
    let (s, ss, e) = some_segment xs in
    rw (split_segments-append xs ys, e) (at_semicolon (x == 59) x s ss (split_segments ys))
  where
    at_semicolon :
        (b : Bool) (c : ℕ) (s : Text) (ss ts : List Text)
        → (if b then [] ∷ s ∷ ss ++ ts else (c ∷ s) ∷ ss ++ ts)
          ≡ (if b then [] ∷ s ∷ ss else (c ∷ s) ∷ ss) ++ ts
    at_semicolon true c s ss ts = refl
    at_semicolon false c s ss ts = refl

first_risk-append :
    (xs ys : List Text)
    → (first_risk (xs ++ ys) ≡ safe) ↔ ((first_risk xs ≡ safe) × (first_risk ys ≡ safe))
unfolding first_risk
first_risk-append [] ys = (λ h. (refl, h), λ h. h.1)
first_risk-append (x ∷ xs) ys = ground (arith, first_risk-append xs ys)

-- A chain of two commands is harmless exactly if both are: nothing dangerous hides behind a semicolon.
pub chain_iff :
    (xs ys : Text)
    → (first_risk (split_segments (xs ++ 59 ∷ ys)) ≡ safe)
      ↔ ((first_risk (split_segments xs) ≡ safe) × (first_risk (split_segments ys) ≡ safe))
chain_iff xs ys =
    rw (split_segments-append xs ys) (first_risk-append (split_segments xs) (split_segments ys))
