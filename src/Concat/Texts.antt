-- ===== src/Concat/Texts.antt =====
-- What the texts of assembled messages say of the rows they are made of, and how old the rows of an expired group are.
use vodoge_edge.Common.{
  ℕ, zero, suc, ◌≡◌, refl, ap, true, false, none, some, List, [], ◌∷◌, ◌++◌, if◌then◌else◌, Bool,
  ◌||◌, ◌==◌, All, All-mono, Option-cases, is_some, Bool-cases, inl, inr, arith,
}
use vodoge_edge.Common.Text.{Text}
use vodoge_edge.Common.Int.{ℤ, ◌≤ℤ◌, ◌-ℤ◌, ltb_ℤ, saturating_sub}
use vodoge_edge.Concat.{Row, bodies, missing_marker, find_seq, patched, newest, is_expired}

-- `count` numbers from `first`.
abbrev pub range : ℕ → ℕ → List ℕ
range first zero = []
range first (suc cnt) = first ∷ range (suc first) cnt

-- The bodies one after another.
abbrev pub text_of : List Row → Text
text_of [] = []
text_of (r ∷ rows) = r.part.body ++ text_of rows

pub bodies-text_of : (rows : List Row) → bodies rows ≡ text_of rows
unfolding bodies
bodies-text_of [] = refl
bodies-text_of (r ∷ rows) = ap (λ t. r.part.body ++ t) (bodies-text_of rows)

abbrev pub has_number : ℕ → List Row → Bool
has_number n [] = false
has_number n (r ∷ rows) = r.part.seq == n || has_number n rows

-- The body of the first row of the number `n`.
abbrev pub body_of : ℕ → List Row → Text
body_of n [] = []
body_of n (r ∷ rows) = let rest = body_of n rows in if r.part.seq == n then r.part.body else rest

-- The bodies in the order of the numbers, with a marker where there is none.
abbrev pub marked : ℕ → List Row → List ℕ → Text
marked total rows [] = []
marked total rows (n ∷ ns) =
    (if has_number n rows then body_of n rows else missing_marker n total) ++ marked total rows ns

-- The numbers that no row has.
abbrev pub gaps : List Row → List ℕ → List ℕ
gaps rows [] = []
gaps rows (n ∷ ns) = let rest = gaps rows ns in if has_number n rows then rest else n ∷ rest

find_none : (n : ℕ) (rows : List Row) → find_seq n rows ≡ none → has_number n rows ≡ false
unfolding find_seq
find_none n [] h = refl
find_none n (r ∷ rows) h = ground (arith, h, find_none n rows)

find_some :
    (n : ℕ) (rows : List Row) (r : Row)
    → find_seq n rows ≡ some r
    → (has_number n rows ≡ true) × (body_of n rows ≡ r.part.body)
unfolding find_seq
find_some n [] r h = absurd (ground (arith, h))
find_some n (q ∷ rows) r h = elim (Bool-cases (q.part.seq == n)) [
  | inl e ↦ rw e (refl, ground (arith, h, e))
  | inr e ↦ rw e (find_some n rows r (ground (arith, h, e)))
]

pub patched-marked :
    (cnt seq total : ℕ) (rows : List Row)
    → patched cnt seq total rows ≡ (marked total rows (range seq cnt), gaps rows (range seq cnt))
unfolding patched
patched-marked zero seq total rows = refl
patched-marked (suc cnt) seq total rows = elim (Option-cases (find_seq seq rows)) [
  | inl e ↦ ground (arith, e, find_none seq rows e, patched-marked cnt (suc seq) total rows)
  | inr (r, e) ↦
      let (has, body) = find_some seq rows r e in
      ground (arith, e, has, body, patched-marked cnt (suc seq) total rows)
]

-- A row of the time `t` is older than the grace time, and one without a time is no evidence against it.
abbrev pub IsOld : ℤ → ℤ → Row → Type 0
IsOld now grace r = elim r.part.received_at [
  | none ↦ Unit
  | some t ↦ ltb_ℤ grace (saturating_sub now t) ≡ true
]

abbrev AtMost : ℤ → Row → Type 0
AtMost s r = elim r.part.received_at [ none ↦ Unit | some t ↦ t ≤ℤ s ]

AtMost-mono : (u s : ℤ) (r : Row) → u ≤ℤ s → AtMost u r → AtMost s r
AtMost-mono u s r h a = ground (arith, h, a)

-- No row has a time.
unstamped : (rows : List Row) (s : ℤ) → newest rows ≡ none → All (AtMost s) rows
unfolding newest
unstamped [] s h = tt
unstamped (r ∷ rows) s h = (ground (arith, h), unstamped rows s (ground (arith, h)))

newest-AtMost : (rows : List Row) (s : ℤ) → newest rows ≡ some s → All (AtMost s) rows
unfolding newest
newest-AtMost [] s h = tt
newest-AtMost (r ∷ rows) s h = elim (Option-cases r.part.received_at) [
  | inl e ↦ (rw e tt, newest-AtMost rows s (ground (arith, h, e)))
  | inr (t, e) ↦ elim (Option-cases (newest rows)) [
    | inl f ↦ (rw e (ground (arith, h, e, f)), unstamped rows s f)
    | inr (u, f) ↦ (
      rw e (ground (arith, h, e, f)),
      All-mono (AtMost u) (AtMost s) rows (λ q a. AtMost-mono u s q (ground (arith, h, e, f)) a)
          (newest-AtMost rows u f),
    )
  ]
]

older :
    (now grace s : ℤ) (r : Row)
    → ltb_ℤ grace (saturating_sub now s) ≡ true
    → AtMost s r
    → IsOld now grace r
unfolding saturating_sub ◌-ℤ◌
older now grace s r h a = ground arith

pub is_expired-IsOld :
    (now grace : ℤ) (rows : List Row)
    → is_expired now grace rows ≡ true
    → All (IsOld now grace) rows
unfolding is_expired
is_expired-IsOld now grace rows h = elim (Option-cases (newest rows)) [
  | inl e ↦ absurd (ground (arith, h, e))
  | inr (s, e) ↦
      All-mono (AtMost s) (IsOld now grace) rows
        (λ r a. older now grace s r (ground (arith, h, e)) a) (newest-AtMost rows s e)
]

-- Some row has a time.
abbrev pub is_dated : List Row → Bool
is_dated [] = false
is_dated (r ∷ rows) = is_some r.part.received_at || is_dated rows

newest-is_dated : (rows : List Row) → is_dated rows ≡ is_some (newest rows)
unfolding newest
newest-is_dated [] = refl
newest-is_dated (r ∷ rows) = ground (arith, newest-is_dated rows)

pub is_expired-is_dated :
    (now grace : ℤ) (rows : List Row) → is_expired now grace rows ≡ true → is_dated rows ≡ true
unfolding is_expired
is_expired-is_dated now grace rows h = ground (arith, h, newest-is_dated rows)
