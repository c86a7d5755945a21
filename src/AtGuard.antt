-- ===== src/AtGuard.antt =====
-- Which console commands the panel asks about before it sends them, `guarded` of edge-core/src/at_guard.rs.
use vodoge_edge.Common.{
  ℕ, ◌+◌, ◌-◌, ◌*◌, ◌^◌, Bool, true, false, ◌&&◌, ◌||◌, not, Option, none, some, List, [], ◌∷◌,
  if◌then◌else◌, ltb, leb, ◌==◌,
}
use vodoge_edge.Common.Text.{Text, codes}
use vodoge_edge.Common.Checked.{◌>>=◌}
use vodoge_edge.AtPolicy.{trim_left, is_alphanumeric}
pub mod Letters
pub mod Cases
pub mod Pieces
pub mod Spellings
pub mod Tests

-- `Channel`
pub data Channel : Type 0 where
  open_channel use_channel close_channel : Channel

pub data Guarded : Type 0 where
  usbnet cfun_reset cfun_down cops crsm_write : ℕ → Guarded
  csim : Guarded
  channel : Channel → Guarded
  qprtpara : Guarded

unfoldable pub skip_ws : Text → Text
skip_ws [] = []
skip_ws (c ∷ s) = let rest = skip_ws s in if c == 32 || c == 9 then rest else c ∷ s

abbrev pub is_digit : ℕ → Bool
is_digit c = leb 48 c && leb c 57

-- `take_while(char::is_ascii_digit)`, and what is left.
unfoldable pub take_digits : Text → Text × Text
take_digits [] = ([], [])
take_digits (c ∷ s) =
    let rest = take_digits s in if is_digit c then (c ∷ rest.0, rest.1) else ([], c ∷ s)

-- `parse` of decimal digits, before its bound.
unfoldable pub parse_digits : Text → ℕ → ℕ
parse_digits [] value = value
parse_digits (c ∷ digits) value = parse_digits digits (value * 10 + (c - 48))

-- The digits as a `u32`: none are no number, and neither are too many.
unfoldable pub parse_u32 : Text → Option ℕ
parse_u32 [] = none
parse_u32 (c ∷ digits) =
    let value = parse_digits (c ∷ digits) 0 in if ltb value (2 ^ 32) then some value else none

unfoldable pub take_u32 : Text → Option (ℕ × Text)
take_u32 s =
    let (digits, rest) = take_digits s in
    elim (parse_u32 digits) [ none ↦ none | some value ↦ some (value, rest) ]

abbrev pub to_lower : ℕ → ℕ
to_lower c = if leb 65 c && leb c 90 then c + 32 else c

unfoldable pub strip_ci : Text → Text → Option Text
strip_ci s [] = some s
strip_ci [] (p ∷ prefix) = none
strip_ci (c ∷ s) (p ∷ prefix) =
    let rest = strip_ci s prefix in if to_lower c == to_lower p then rest else none

-- `skip_ws` and `strip_prefix` of one sign.
unfoldable pub strip_sign : ℕ → Text → Option Text
strip_sign sign [] = none
strip_sign sign (c ∷ s) = if c == sign then some s else none

abbrev pub after_sign : ℕ → Text → Option Text
after_sign sign s = strip_sign sign (skip_ws s)

abbrev pub ends : Text → Bool
ends [] = true
ends (c ∷ s) = false

-- Nothing that goes on with the word: no letter, digit or underscore.
abbrev pub is_boundary : Text → Bool
is_boundary [] = true
is_boundary (c ∷ s) = not (is_alphanumeric c) && not (c == 95)

abbrev pub ends_or_comma : Text → Bool
ends_or_comma [] = true
ends_or_comma (c ∷ s) = c == 44

-- `at+qcfg = "usbnet" , <number>`
unfoldable pub usbnet_of : Text → Option Guarded
usbnet_of rest = do
  value ← after_sign 61 rest
  comma ← strip_ci (skip_ws value) (codes "\"usbnet\"")
  mode ← after_sign 44 comma
  (number, tail) ← take_u32 (skip_ws mode)
  some (usbnet number)

abbrev pub is_down : ℕ → Bool
is_down value = value == 0 || value == 4 || value == 7

-- A second argument that ends the command: 1 resets, and 0 does nothing more.
unfoldable pub cfun_second : ℕ → ℕ → Text → Option Guarded
cfun_second value second tail =
    if second == 1 && ends (skip_ws tail)
    then some (cfun_reset value)
    else if second == 0 && ends (skip_ws tail) && is_down value
    then some (cfun_down value)
    else none

abbrev pub after_comma : ℕ → Option (ℕ × Text) → Option Guarded
after_comma value none = none
after_comma value (some (second, tail)) = cfun_second value second tail

-- What follows the first argument of `at+cfun`: the rest, and what is left of it after a comma.
abbrev pub cfun_more : ℕ → Text → Option Text → Option Guarded
cfun_more value rest none = if ends rest && is_down value then some (cfun_down value) else none
cfun_more value rest (some more) = after_comma value (take_u32 (skip_ws more))

unfoldable pub cfun_tail : ℕ → Text → Option Guarded
cfun_tail value rest = cfun_more value rest (strip_sign 44 rest)

unfoldable pub cfun_of : Text → Option Guarded
cfun_of rest = do
  value ← after_sign 61 rest
  (number, tail) ← take_u32 (skip_ws value)
  cfun_tail number (skip_ws tail)

unfoldable pub cops_of : Text → Option Guarded
cops_of rest = do
  value ← after_sign 61 rest
  (number, tail) ← take_u32 (skip_ws value)
  (if (number == 1 || number == 2) && ends_or_comma (skip_ws tail)
      then some (cops number)
      else none)

unfoldable pub crsm_of : Text → Option Guarded
crsm_of rest = do
  value ← after_sign 61 rest
  (number, tail) ← take_u32 (skip_ws value)
  (if is_boundary tail && (number == 214 || number == 219 || number == 220)
      then some (crsm_write number)
      else none)

-- `at+csim =` and `at+qprtpara =`
unfoldable pub equals_of : Guarded → Text → Option Guarded
equals_of what rest = do value ← after_sign 61 rest; some what

unfoldable pub channel_of : Channel → Text → Option Guarded
channel_of which rest = if is_boundary rest then some (channel which) else none

-- The commands in the order of the source, each with what judges the rest of it.
unfoldable pub verbs : List (Text × (Text → Option Guarded))
verbs =
    (codes "at+qcfg", usbnet_of)
    ∷ (codes "at+cfun", cfun_of)
    ∷ (codes "at+cops", cops_of)
    ∷ (codes "at+crsm", crsm_of)
    ∷ (codes "at+csim", equals_of csim)
    ∷ (codes "at+ccho", channel_of open_channel)
    ∷ (codes "at+cgla", channel_of use_channel)
    ∷ (codes "at+cchc", channel_of close_channel)
    ∷ (codes "at+qprtpara", equals_of qprtpara)
    ∷ []

abbrev pub or_later : Option Text → (Text → Option Guarded) → Option Guarded → Option Guarded
or_later none judge later = later
or_later (some rest) judge later = judge rest

-- The first command that the text begins with judges it, and no later one does.
unfoldable pub first_verb : List (Text × (Text → Option Guarded)) → Text → Option Guarded
first_verb [] c = none
first_verb ((verb, judge) ∷ more) c = or_later (strip_ci c verb) judge (first_verb more c)

unfoldable pub guarded : Text → Option Guarded
guarded command = first_verb verbs (trim_left command)
