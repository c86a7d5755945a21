-- ===== src/AtGuard/Letters.antt =====
-- The readers of the guard on letters of either case.
use vodoge_edge.Common.{
  ℕ, ◌-◌, ◌≡◌, refl, true, ◌&&◌, ◌||◌, Option, none, some, [], ◌∷◌, if◌then◌else◌, leb, ◌==◌,
  Bool-cases, inl, inr, ap, ◌∙◌, arith,
}
use vodoge_edge.Common.Text.{Text, is_whitespace}
use vodoge_edge.AtPolicy.{trim_left, ascii_uppercase, is_alphanumeric}
use vodoge_edge.AtGuard.{
  skip_ws, is_digit, take_digits, parse_u32, take_u32, to_lower, strip_ci, strip_sign, after_sign,
  ends, is_boundary, ends_or_comma,
}

abbrev to_upper : ℕ → ℕ
to_upper c = if leb 97 c && leb c 122 then c - 32 else c

to_lower-to_upper : (c : ℕ) → to_lower (to_upper c) ≡ to_lower c
to_lower-to_upper c = ground arith

is_digit-to_upper : (c : ℕ) → is_digit (to_upper c) ≡ is_digit c
is_digit-to_upper c = ground arith

digit_stays : (c : ℕ) → is_digit c ≡ true → to_upper c ≡ c
digit_stays c h = ground arith

blank-to_upper : (c : ℕ) → (to_upper c == 32 || to_upper c == 9) ≡ (c == 32 || c == 9)
blank-to_upper c = ground arith

is_whitespace-to_upper : (c : ℕ) → is_whitespace (to_upper c) ≡ is_whitespace c
unfolding is_whitespace
is_whitespace-to_upper c = ground arith

is_alphanumeric-to_upper : (c : ℕ) → is_alphanumeric (to_upper c) ≡ is_alphanumeric c
is_alphanumeric-to_upper c = ground arith

underscore-to_upper : (c : ℕ) → (to_upper c == 95) ≡ (c == 95)
underscore-to_upper c = ground arith

-- A sign that is no letter.
sign-to_upper : (c sign : ℕ) → leb sign 64 ≡ true → (to_upper c == sign) ≡ (c == sign)
sign-to_upper c sign h = ground arith

abbrev pub up_option : Option Text → Option Text
up_option none = none
up_option (some s) = some (ascii_uppercase s)

abbrev pub up_second : Option (ℕ × Text) → Option (ℕ × Text)
up_second none = none
up_second (some (n, s)) = some (n, ascii_uppercase s)

pub skip_ws-up : (s : Text) → skip_ws (ascii_uppercase s) ≡ ascii_uppercase (skip_ws s)
unfolding skip_ws ascii_uppercase
skip_ws-up [] = refl
skip_ws-up (c ∷ s) = elim (Bool-cases (c == 32 || c == 9)) [
  | inl h ↦ rw (blank-to_upper c, h) (skip_ws-up s)
  | inr h ↦ rw (blank-to_upper c, h) refl
]

pub trim_left-up : (s : Text) → trim_left (ascii_uppercase s) ≡ ascii_uppercase (trim_left s)
unfolding trim_left ascii_uppercase
trim_left-up [] = refl
trim_left-up (c ∷ s) = elim (Bool-cases (is_whitespace c)) [
  | inl h ↦ rw (is_whitespace-to_upper c, h) (trim_left-up s)
  | inr h ↦ rw (is_whitespace-to_upper c, h) refl
]

pub strip_ci-up :
    (s prefix : Text) → strip_ci (ascii_uppercase s) prefix ≡ up_option (strip_ci s prefix)
unfolding strip_ci ascii_uppercase
strip_ci-up s [] = refl
strip_ci-up [] (p ∷ prefix) = refl
strip_ci-up (c ∷ s) (p ∷ prefix) = elim (Bool-cases (to_lower c == to_lower p)) [
  | inl h ↦ rw (to_lower-to_upper c, h) (strip_ci-up s prefix)
  | inr h ↦ rw (to_lower-to_upper c, h) refl
]

pub strip_sign-up :
    (sign : ℕ)
    → leb sign 64 ≡ true
    → (s : Text) → strip_sign sign (ascii_uppercase s) ≡ up_option (strip_sign sign s)
unfolding strip_sign ascii_uppercase
strip_sign-up sign small [] = refl
strip_sign-up sign small (c ∷ s) = elim (Bool-cases (c == sign)) [
  | inl h ↦ rw (sign-to_upper c sign small, h) refl
  | inr h ↦ rw (sign-to_upper c sign small, h) refl
]

pub after_sign-up :
    (sign : ℕ)
    → leb sign 64 ≡ true
    → (s : Text) → after_sign sign (ascii_uppercase s) ≡ up_option (after_sign sign s)
after_sign-up sign small s = rw (skip_ws-up s) (strip_sign-up sign small (skip_ws s))

take_digits-up :
    (s : Text)
    → take_digits (ascii_uppercase s) ≡ ((take_digits s).0, ascii_uppercase (take_digits s).1)
unfolding take_digits ascii_uppercase
take_digits-up [] = refl
take_digits-up (c ∷ s) = elim (Bool-cases (is_digit c)) [
  | inl h ↦ rw (digit_stays c h, h, take_digits-up s) refl
  | inr h ↦ rw (is_digit-to_upper c, h) refl
]

abbrev pub read_number : Option ℕ → Text → Option (ℕ × Text)
read_number o rest = elim o [ none ↦ none | some value ↦ some (value, rest) ]

read_number-up :
    (o : Option ℕ) (rest : Text)
    → read_number o (ascii_uppercase rest) ≡ up_second (read_number o rest)
read_number-up none rest = refl
read_number-up (some value) rest = refl

take_u32-up : (s : Text) → take_u32 (ascii_uppercase s) ≡ up_second (take_u32 s)
unfolding take_u32
take_u32-up s =
    ap (λ p. read_number (parse_u32 p.0) p.1) (take_digits-up s)
    ∙ read_number-up (parse_u32 (take_digits s).0) (take_digits s).1

pub skipped_number-up :
    (s : Text) → take_u32 (skip_ws (ascii_uppercase s)) ≡ up_second (take_u32 (skip_ws s))
skipped_number-up s = rw (skip_ws-up s) (take_u32-up (skip_ws s))

pub ends-upper : (s : Text) → ends (ascii_uppercase s) ≡ ends s
unfolding ascii_uppercase
ends-upper [] = refl
ends-upper (c ∷ s) = refl

comma-upper : (s : Text) → ends_or_comma (ascii_uppercase s) ≡ ends_or_comma s
unfolding ascii_uppercase
comma-upper [] = refl
comma-upper (c ∷ s) = sign-to_upper c 44 refl

pub ends-up : (s : Text) → ends (skip_ws (ascii_uppercase s)) ≡ ends (skip_ws s)
ends-up s = rw (skip_ws-up s) (ends-upper (skip_ws s))

pub ends_or_comma-up :
    (s : Text) → ends_or_comma (skip_ws (ascii_uppercase s)) ≡ ends_or_comma (skip_ws s)
ends_or_comma-up s = rw (skip_ws-up s) (comma-upper (skip_ws s))

pub is_boundary-up : (s : Text) → is_boundary (ascii_uppercase s) ≡ is_boundary s
unfolding ascii_uppercase
is_boundary-up [] = refl
is_boundary-up (c ∷ s) = rw (is_alphanumeric-to_upper c, underscore-to_upper c) refl
