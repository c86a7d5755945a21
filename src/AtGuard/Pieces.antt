-- ===== src/AtGuard/Pieces.antt =====
-- The pieces of a command that the guard of at_guard.rs reads: blanks, signs and numbers.
use vodoge_edge.Common.{
  ℕ, ◌<◌, ◌^◌, ◌≡◌, refl, ap, ◌∙◌, true, false, ◌||◌, some, [], ◌∷◌, ◌++◌, ◌==◌, All, arith,
}
use vodoge_edge.Common.Text.{Text}
use vodoge_edge.AtGuard.{
  skip_ws, is_digit, take_digits, parse_digits, parse_u32, take_u32, strip_sign, after_sign, ends,
}
use vodoge_edge.AtGuard.Letters.{read_number}

-- Spaces and tabs.
abbrev pub Blanks : Text → Type 0
Blanks = All (λ c. (c == 32 || c == 9) ≡ true)

abbrev NoDigitFirst : Text → Type 0
NoDigitFirst [] = Unit
NoDigitFirst (c ∷ rest) = is_digit c ≡ false

-- Digits of the number `n`, which fits 32 bits, and something else after them.
pub data Number (n : ℕ) : Text → Text → Type 0 where
  digits :
      (d : ℕ) (ds rest : Text)
      → All (λ c. is_digit c ≡ true) (d ∷ ds)
      → NoDigitFirst rest
      → parse_digits (d ∷ ds) 0 ≡ n
      → n < 2 ^ 32
      → Number n (d ∷ ds) rest

pub skip_ws-past : (ws rest : Text) → Blanks ws → skip_ws (ws ++ rest) ≡ skip_ws rest
unfolding skip_ws
skip_ws-past [] rest b = refl
skip_ws-past (c ∷ ws) rest b = rw (b.0) (skip_ws-past ws rest b.1)

pub skipped :
    (ws : Text) (c : ℕ) (rest : Text)
    → (c == 32 || c == 9) ≡ false
    → Blanks ws
    → skip_ws (ws ++ c ∷ rest) ≡ c ∷ rest
unfolding skip_ws
skipped ws c rest s b = skip_ws-past ws (c ∷ rest) b ∙ rw s refl

pub after_sign-past :
    (sign : ℕ) (ws rest : Text)
    → (sign == 32 || sign == 9) ≡ false
    → Blanks ws
    → after_sign sign (ws ++ sign ∷ rest) ≡ some rest
unfolding strip_sign
after_sign-past sign ws rest s b = rw (skipped ws sign rest s b) (ground arith)

digit_stands : (d : ℕ) → is_digit d ≡ true → (d == 32 || d == 9) ≡ false
digit_stands d h = ground arith

take_digits-past :
    (ds rest : Text)
    → All (λ c. is_digit c ≡ true) ds
    → NoDigitFirst rest
    → take_digits (ds ++ rest) ≡ (ds, rest)
unfolding take_digits
take_digits-past [] [] a n = refl
take_digits-past [] (c ∷ rest) a n = rw n refl
take_digits-past (d ∷ ds) rest a n = rw (take_digits-past ds rest a.1 n, a.0) refl

parse_number :
    (d n : ℕ) (ds : Text) → parse_digits (d ∷ ds) 0 ≡ n → n < 2 ^ 32 → parse_u32 (d ∷ ds) ≡ some n
unfolding parse_u32
parse_number d n ds v small = rw v (ground (arith, small))

number_read :
    (n d : ℕ) (ds rest : Text)
    → All (λ c. is_digit c ≡ true) (d ∷ ds)
    → NoDigitFirst rest
    → parse_digits (d ∷ ds) 0 ≡ n
    → n < 2 ^ 32
    → take_u32 (d ∷ ds ++ rest) ≡ some (n, rest)
unfolding take_u32
number_read n d ds rest a f v small =
    ap (λ p. read_number (parse_u32 p.0) p.1) (take_digits-past (d ∷ ds) rest a f)
    ∙ ap (λ o. read_number o rest) (parse_number d n ds v small)

pub number_past :
    (n : ℕ) (ws ds rest : Text)
    → Blanks ws
    → Number n ds rest
    → take_u32 (skip_ws (ws ++ (ds ++ rest))) ≡ some (n, rest)
number_past n ws _ _ b (digits d ds rest a f v small) =
    ap take_u32 (skipped ws d (ds ++ rest) (digit_stands d a.0) b)
    ∙ number_read n d ds rest a f v small

pub blanks_end : (ws : Text) → Blanks ws → ends (skip_ws ws) ≡ true
unfolding skip_ws
blanks_end [] b = refl
blanks_end (c ∷ ws) b = rw (b.0) (blanks_end ws b.1)
