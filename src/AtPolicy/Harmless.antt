-- ===== src/AtPolicy/Harmless.antt =====
-- Which commands are sent without a second word, by the text of the command alone.
use vodoge_edge.Common.{
  ℕ, ◌≡◌, ◌≢◌, refl, sym, ap, ◌∙◌, ◌↔◌, inl, inr, false, none, some, List, [], ◌∷◌, ◌++◌, ◌==◌, All,
  Bool-cases, Option-cases, ==_iff, arith,
}
use mathlib.Core.Path.{subst}
use vodoge_edge.Common.Text.{Text, codes}
use vodoge_edge.Capability.{strip_prefix}
use vodoge_edge.AtPolicy.{
  safe, trim, ascii_uppercase, starts_with_slash, strip_at_prefix, segment_risk, split_segments,
  classify,
}
use vodoge_edge.AtPolicy.Harmful.{IsHarmful, segment_iff, strip_prefix_iff}
use vodoge_edge.AtPolicy.Segments.{
  IsHarmless, classify-IsHarmless, some_segment, split_segments-append,
}

-- The segments with a semicolon between them.
abbrev pub joined : List Text → Text
joined [] = []
joined (segment ∷ []) = segment
joined (segment ∷ next ∷ segments) = segment ++ 59 ∷ joined (next ∷ segments)

abbrev IsSegment : Text → Type 0
IsSegment = All (λ c. (c == 59) ≡ false)

-- The body as a chain of segments, at least one, none of them harmful.
pub record IsHarmlessChain (body : Text) : Type 0 where
  pub first : Text
  pub others : List Text
  pub chained : body ≡ joined (first ∷ others)
  pub unbroken : All IsSegment (first ∷ others)
  pub harmless : All (λ segment. IsHarmful segment → ⊥) (first ∷ others)

-- The command is `AT` and a chain of harmless segments, and no slash follows the two letters.
pub record IsPlain (command : Text) : Type 0 where
  pub body : Text
  pub attention : ascii_uppercase (trim command) ≡ codes "AT" ++ body
  pub no_repetition : (rest : Text) → body ≢ 47 ∷ rest
  pub chain : IsHarmlessChain body

joined_first : (c : ℕ) (s : Text) (ss : List Text) → joined ((c ∷ s) ∷ ss) ≡ c ∷ joined (s ∷ ss)
joined_first c s [] = refl
joined_first c s (t ∷ ss) = refl

-- The pieces that the split makes, joined, are the text, and none has a semicolon.
split_joined :
    (body : Text) → (joined (split_segments body) ≡ body) × All IsSegment (split_segments body)
unfolding split_segments
split_joined [] = (refl, (tt, tt))
split_joined (c ∷ body) =
    let (s, ss, e) = some_segment body in
    let whole = sym (ap joined e) ∙ (split_joined body).0 in
    let pieces = subst (All IsSegment) e (split_joined body).1 in
    elim (Bool-cases (c == 59)) [
      | inl f ↦
          rw (e, f)
            (ap (λ x. 59 ∷ x) whole ∙ ap (λ x. x ∷ body) (sym ((==_iff c 59).0 f)), (tt, pieces))
      | inr f ↦ rw (e, f) (joined_first c s ss ∙ ap (λ x. c ∷ x) whole, ((f, pieces.0), pieces.1))
    ]

split_unbroken : (s : Text) → IsSegment s → split_segments s ≡ s ∷ []
unfolding split_segments
split_unbroken [] h = refl
split_unbroken (c ∷ s) h = rw (split_unbroken s h.1, h.0) refl

joined_split :
    (first : Text) (others : List Text)
    → All IsSegment (first ∷ others)
    → split_segments (joined (first ∷ others)) ≡ first ∷ others
joined_split first [] h = split_unbroken first h.0
joined_split first (next ∷ others) h =
    split_segments-append first (joined (next ∷ others))
    ∙ rw (split_unbroken first h.0, joined_split next others h.1) refl

AllHarmless-map :
    (segments : List Text)
    → All (λ s. segment_risk s ≡ none) segments ↔ All (λ s. IsHarmful s → ⊥) segments
AllHarmless-map [] = (λ h. h, λ h. h)
AllHarmless-map (s ∷ segments) = (
  λ h. ((segment_iff s).0 h.0, (AllHarmless-map segments).0 h.1),
  λ h. ((segment_iff s).1 h.0, (AllHarmless-map segments).1 h.1),
)

chain_split :
    (body : Text) → All (λ s. segment_risk s ≡ none) (split_segments body) ↔ IsHarmlessChain body
chain_split body = (
  λ h.
      let (s, ss, e) = some_segment body in
      let (whole, pieces) = split_joined body in
      record {
        first = s;
        others = ss;
        chained = sym whole ∙ ap joined e;
        unbroken = subst (All IsSegment) e pieces;
        harmless =
            subst (All (λ x. IsHarmful x → ⊥)) e ((AllHarmless-map (split_segments body)).0 h);
      },
  λ c.
      rw (c.chained, joined_split c.first c.others c.unbroken)
        ((AllHarmless-map (c.first ∷ c.others)).1 c.harmless),
)

starts_iff : (body : Text) → (starts_with_slash body ≡ false) ↔ ((rest : Text) → body ≢ 47 ∷ rest)
unfolding starts_with_slash
starts_iff [] = (λ h rest e. ground (arith, e), λ h. refl)
starts_iff (c ∷ body) = (
  λ h rest e. ground (arith, h, e),
  λ h. elim (Bool-cases (c == 47)) [
    | inl f ↦ absurd (h body (ap (λ x. x ∷ body) ((==_iff c 47).0 f)))
    | inr f ↦ f
  ],
)

no_body :
    (command : Text)
    → strip_at_prefix (ascii_uppercase (trim command)) ≡ none
    → IsHarmless command
    → ⊥
no_body command e = rw (IsHarmless, e) (λ h. h)

IsHarmless-body :
    (command body : Text)
    → strip_at_prefix (ascii_uppercase (trim command)) ≡ some body
    → IsHarmless command ↔ All (λ s. segment_risk s ≡ none) (split_segments body)
IsHarmless-body command body e = rw (IsHarmless, e) (λ h. h, λ h. h)

strip_at_prefix_iff :
    (upper body : Text)
    → (strip_at_prefix upper ≡ some body)
      ↔ ((upper ≡ codes "AT" ++ body) × ((rest : Text) → body ≢ 47 ∷ rest))
unfolding strip_at_prefix
strip_at_prefix_iff upper body = (
  λ h. elim (Option-cases (strip_prefix upper (codes "AT"))) [
    | inl e ↦ absurd (ground (arith, h, e))
    | inr (b, e) ↦
        let same : b ≡ body = ground (arith, h, e) in
        (
          (strip_prefix_iff upper (codes "AT") body).0 (e ∙ ap some same),
          (starts_iff body).0 (ground (arith, h, e)),
        )
  ],
  λ h.
      let f = (starts_iff body).1 h.1 in
      let e = (strip_prefix_iff upper (codes "AT") body).1 h.0 in ground (arith, e, f),
)

-- A command goes out without a second word exactly if, in capitals and with no blank around it, it is `AT` and a chain
-- of segments between semicolons, no slash right after the two letters, and no segment is harmful. A segment is harmful
-- if, with no blank around it, it is a plus sign, a listed name, an equals sign and a value other than a question mark,
-- or if it begins with a listed letter.
pub classify-IsPlain : (command : Text) → (classify command ≡ safe) ↔ IsPlain command
classify-IsPlain command = (
  λ h.
      let upper = ascii_uppercase (trim command) in
      let harmless = (classify-IsHarmless command).0 h in
      elim (Option-cases (strip_at_prefix upper)) [
        | inl e ↦ absurd (no_body command e harmless)
        | inr (body, e) ↦
            let (attention, no_repetition) = (strip_at_prefix_iff upper body).0 e in
            record {
              body = body;
              attention = attention;
              no_repetition = no_repetition;
              chain = (chain_split body).0 ((IsHarmless-body command body e).0 harmless);
            }
      ],
  λ p. (classify-IsHarmless command).1 (
      (IsHarmless-body command p.body (
          (strip_at_prefix_iff (ascii_uppercase (trim command)) p.body).1
            (p.attention, p.no_repetition))).1
        ((chain_split p.body).1 p.chain)),
)
