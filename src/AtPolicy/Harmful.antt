-- ===== src/AtPolicy/Harmful.antt =====
-- Which segments the tables of at_policy.rs hold back, by the text of the segment alone.
use vodoge_edge.Common.{
  ℕ, ◌≡◌, ◌≢◌, refl, sym, ap, ◌∙◌, ◌↔◌, ◌⊎◌, inl, inr, true, false, Option, none, some, List, [],
  ◌∷◌, ◌++◌, ◌==◌, if◌then◌else◌, length, All, is_some, Bool-cases, Option-cases, ==_iff, arith,
}
use vodoge_edge.Common.Text.{Text, codes, text_eq}
use vodoge_edge.Common.Keys.{text_eq_iff}
use vodoge_edge.Capability.{strip_prefix}
use vodoge_edge.AtPolicy.{
  DisruptiveKind, write_risks, bare_risks, trim, is_alphanumeric, split_name, is_write, find_risk,
  longer, longest_risk, bare_risk, extended_risk, segment_risk, is_empty,
}

-- A table has the name.
abbrev pub Listed : Text → List (Text × DisruptiveKind) → Type 0
Listed name [] = ⊥
Listed name ((candidate, kind) ∷ risks) = (candidate ≡ name) ⊎ Listed name risks

abbrev AllAlphanumeric : Text → Type 0
AllAlphanumeric = All (λ c. is_alphanumeric c ≡ true)

-- What holds a segment back: it sets a listed name to a value that is no question, or it begins with a listed letter.
pub data IsHarmful (segment : Text) : Type 0 where
  writes :
      (name value : Text)
      → trim segment ≡ 43 ∷ name ++ 61 ∷ value
      → AllAlphanumeric name
      → Listed name write_risks
      → trim value ≢ codes "?"
      → IsHarmful segment
  acts :
      (name rest : Text) → trim segment ≡ name ++ rest → Listed name bare_risks → IsHarmful segment

pub strip_prefix_iff : (s p rest : Text) → (strip_prefix s p ≡ some rest) ↔ (s ≡ p ++ rest)
unfolding strip_prefix
strip_prefix_iff s [] rest = ground arith
strip_prefix_iff [] (q ∷ p) rest = ground arith
strip_prefix_iff (c ∷ s) (q ∷ p) rest = ground (arith, strip_prefix_iff s p rest, ==_iff c q)

find_risk_iff :
    (name : Text) (risks : List (Text × DisruptiveKind))
    → (is_some (find_risk name risks) ≡ true) ↔ Listed name risks
unfolding find_risk
find_risk_iff name [] = ground arith
find_risk_iff name ((candidate, kind) ∷ risks) =
    ground (arith, find_risk_iff name risks, text_eq_iff candidate name)

split_name-parts :
    (s : Text) → (s ≡ (split_name s).0 ++ (split_name s).1) × AllAlphanumeric (split_name s).0
unfolding split_name
split_name-parts [] = (refl, tt)
split_name-parts (c ∷ s) = ground (arith, split_name-parts s)

split_name-append :
    (name value : Text)
    → AllAlphanumeric name
    → split_name (name ++ 61 ∷ value) ≡ (name, 61 ∷ value)
unfolding split_name
split_name-append [] value a = refl
split_name-append (c ∷ name) value a = rw (split_name-append name value a.1, a.0) refl

-- A value that is no question.
abbrev SetsValue : Text → Type 0
SetsValue rest = (value : Text) × (rest ≡ 61 ∷ value) × (trim value ≢ codes "?")

no_question : (value : Text) → text_eq (trim value) (codes "?") ≡ false → trim value ≢ codes "?"
no_question value h e = ground (arith, h, (text_eq_iff (trim value) (codes "?")).1 e)

is_write-SetsValue : (rest : Text) → is_write rest ≡ true → SetsValue rest
unfolding is_write
is_write-SetsValue rest h = elim (Option-cases (strip_prefix rest (codes "="))) [
  | inl e ↦ absurd (ground (arith, h, e))
  | inr (value, e) ↦ (
    value,
    (strip_prefix_iff rest (codes "=") value).0 e,
    no_question value (ground (arith, h, e)),
  )
]

SetsValue-is_write : (value : Text) → trim value ≢ codes "?" → is_write (61 ∷ value) ≡ true
unfolding is_write
SetsValue-is_write value n = ground (
  arith,
  n,
  (strip_prefix_iff (61 ∷ value) (codes "=") value).1 refl,
  (text_eq_iff (trim value) (codes "?")).0,
)

record SetsListed (extended : Text) : Type 0 where
  name : Text
  value : Text
  parts : extended ≡ name ++ 61 ∷ value
  spelled : AllAlphanumeric name
  listed : Listed name write_risks
  unasked : trim value ≢ codes "?"

extended_risk-SetsListed :
    (extended : Text) → is_some (extended_risk extended) ≡ true → SetsListed extended
unfolding extended_risk
extended_risk-SetsListed extended h = elim (Bool-cases (is_write (split_name extended).1)) [
  | inl w ↦
      let (value, e, n) = is_write-SetsValue (split_name extended).1 w in
      let (whole, spelled) = split_name-parts extended in
      record {
        name = (split_name extended).0;
        value = value;
        parts = whole ∙ ap (λ r. (split_name extended).0 ++ r) e;
        spelled = spelled;
        listed = (find_risk_iff (split_name extended).0 write_risks).0 (ground (arith, h, w));
        unasked = n;
      }
  | inr w ↦ absurd (ground (arith, h, w))
]

SetsListed-extended_risk :
    (name value : Text)
    → AllAlphanumeric name
    → Listed name write_risks
    → trim value ≢ codes "?"
    → is_some (extended_risk (name ++ 61 ∷ value)) ≡ true
unfolding extended_risk
SetsListed-extended_risk name value a l n =
    rw (split_name-append name value a, SetsValue-is_write value n)
      ((find_risk_iff name write_risks).1 l)

-- A listed name begins the segment.
abbrev BeginsListed : Text → List (Text × DisruptiveKind) → Type 0
BeginsListed segment risks =
    (name : Text) × (rest : Text) × (segment ≡ name ++ rest) × Listed name risks

longest_risk-from :
    (segment : Text) (risks : List (Text × DisruptiveKind)) (best : Option (ℕ × DisruptiveKind))
    → is_some (longest_risk segment risks best) ≡ true
    → (is_some best ≡ true) ⊎ BeginsListed segment risks
unfolding longest_risk
longest_risk-from segment [] best h = inl h
longest_risk-from segment ((name, kind) ∷ risks) best h =
    elim (Option-cases (strip_prefix segment name)) [
      | inl e ↦ elim (longest_risk-from segment risks best (ground (arith, h, e))) [
        | inl b ↦ inl b
        | inr (n, rest, q, l) ↦ inr (n, rest, q, inr l)
      ]
      | inr (rest, e) ↦ inr (name, rest, (strip_prefix_iff segment name rest).0 e, inl refl)
    ]

longest_risk-best :
    (segment : Text) (risks : List (Text × DisruptiveKind)) (best : Option (ℕ × DisruptiveKind))
    → is_some best ≡ true
    → is_some (longest_risk segment risks best) ≡ true
unfolding longest_risk
longest_risk-best segment [] best h = h
longest_risk-best segment ((name, kind) ∷ risks) best h =
    elim (Bool-cases (is_some (strip_prefix segment name))) [
      | inl e ↦ rw e (longest_risk-best segment risks (some (longer best (length name, kind))) refl)
      | inr e ↦ rw e (longest_risk-best segment risks best h)
    ]

longest_risk-Listed :
    (segment name rest : Text) (risks : List (Text × DisruptiveKind))
    (best : Option (ℕ × DisruptiveKind))
    → segment ≡ name ++ rest
    → Listed name risks
    → is_some (longest_risk segment risks best) ≡ true
unfolding longest_risk
longest_risk-Listed segment name rest [] best e l = absurd l
longest_risk-Listed segment name rest ((c, kind) ∷ risks) best e (inl p) =
    rw ((strip_prefix_iff segment c rest).1 (e ∙ ap (λ n. n ++ rest) (sym p)))
      (longest_risk-best segment risks (some (longer best (length c, kind))) refl)
longest_risk-Listed segment name rest ((c, kind) ∷ risks) best e (inr l) =
    longest_risk-Listed segment name rest risks
      (if is_some (strip_prefix segment c) then some (longer best (length c, kind)) else best) e l

bare_risk-some : (s : Text) → is_some (bare_risk s) ≡ is_some (longest_risk s bare_risks none)
unfolding bare_risk
bare_risk-some s = ground arith

-- A listed letter is a first one, and no plus sign.
bare_first :
    (name : Text)
    → Listed name bare_risks
    → (c : ℕ) × (more : Text) × (name ≡ c ∷ more) × ((c == 43) ≡ false)
unfolding bare_risks
bare_first name (inl e) = (68, [], sym e, refl)
bare_first name (inr (inl e)) = (65, [], sym e, refl)
bare_first name (inr (inr (inl e))) = (72, [], sym e, refl)
bare_first name (inr (inr (inr (inl e)))) = (79, [], sym e, refl)
bare_first name (inr (inr (inr (inr (inl e))))) = (38, codes "F", sym e, refl)
bare_first name (inr (inr (inr (inr (inr (inl e)))))) = (38, codes "W", sym e, refl)
bare_first name (inr (inr (inr (inr (inr (inr (inl e))))))) = (90, [], sym e, refl)
bare_first name (inr (inr (inr (inr (inr (inr (inr x))))))) = absurd x

IsHarmful-segment_risk : (s : Text) → IsHarmful s → is_some (segment_risk s) ≡ true
unfolding segment_risk strip_prefix
IsHarmful-segment_risk s (writes name value e a l n) =
    rw e (SetsListed-extended_risk name value a l n)
IsHarmful-segment_risk s (acts name rest e l) =
    let (c, more, f, g) = bare_first name l in
    let own = e ∙ ap (λ m. m ++ rest) f in
    rw (own, g, own)
      (bare_risk-some (c ∷ more ++ rest)
        ∙ longest_risk-Listed (c ∷ more ++ rest) name rest bare_risks none
            (sym (ap (λ m. m ++ rest) f)) l)

segment_risk-IsHarmful : (s : Text) → is_some (segment_risk s) ≡ true → IsHarmful s
unfolding segment_risk
segment_risk-IsHarmful s h = elim (Bool-cases (is_empty (trim s))) [
  | inl e ↦ absurd (ground (arith, h, e))
  | inr e ↦ elim (Option-cases (strip_prefix (trim s) (codes "+"))) [
    | inr (extended, f) ↦
        let risky = extended_risk-SetsListed extended (ground (arith, h, e, f)) in
        writes risky.name risky.value
          ((strip_prefix_iff (trim s) (codes "+") extended).0 f ∙ ap (λ x. 43 ∷ x) risky.parts)
          risky.spelled risky.listed risky.unasked
    | inl f ↦
        elim (longest_risk-from (trim s) bare_risks none
          (sym (bare_risk-some (trim s)) ∙ ground (arith, h, e, f))) [
            | inl b ↦ absurd (ground (arith, b))
            | inr (name, rest, q, l) ↦ acts name rest q l
          ]
  ]
]

pub segment_iff : (s : Text) → (segment_risk s ≡ none) ↔ (IsHarmful s → ⊥)
segment_iff s = (
  λ h b. ground (arith, h, IsHarmful-segment_risk s b),
  λ f. elim (Option-cases (segment_risk s)) [
    | inl e ↦ e
    | inr (kind, e) ↦ absurd (f (segment_risk-IsHarmful s (ap is_some e)))
  ],
)
