-- ===== src/Alert/Run.antt =====
-- Runs of the throttle: each code on its own, how often it is announced, and that no occurrence is lost.
use vodoge_edge.Common.{
  ℕ, ◌+◌, ◌≤◌, ◌≡◌, refl, true, false, Bool-cases, inl, inr, Option, none, some, List, [], ◌∷◌,
  if◌then◌else◌, length, arith,
}
use vodoge_edge.Common.Text.{Text, text_eq}
use vodoge_edge.Common.Keys.{text_key, text_eq_iff}
use vodoge_edge.Common.Dict.{lookup, lookup-insert, lookup-remove}
use vodoge_edge.Common.Int.{ℤ, pos, ◌+ℤ◌, ◌-ℤ◌, ◌≤ℤ◌, ◌<ℤ◌, saturating_sub, ltb_ℤ, InI64}
use vodoge_edge.Alert.{
  Decision, send, suppress, repeat, Seen, AlertThrottle, u32_max, saturating_succ, consider_entry,
  consider, clear,
}

pub data Event : Type 0 where
  occurs : Text → ℤ → Event
  clears : Text → Event

-- What reaches one code.
pub data Signal : Type 0 where
  again : ℤ → Signal
  over : Signal

unfoldable pub signals_of : Text → List Event → List Signal
signals_of code [] = []
signals_of code (occurs c now ∷ es) =
    let rest = signals_of code es in if text_eq c code then again now ∷ rest else rest
signals_of code (clears c ∷ es) =
    let rest = signals_of code es in if text_eq c code then over ∷ rest else rest

-- The decisions on one code in a run of the whole throttle.
unfoldable pub decisions_of : Text → AlertThrottle → List Event → List Decision
decisions_of code t [] = []
decisions_of code t (occurs c now ∷ es) =
    let rest = decisions_of code (consider t c now).0 es in
    if text_eq c code then (consider t c now).1 ∷ rest else rest
decisions_of code t (clears c ∷ es) = decisions_of code (clear t c) es

-- The decisions of a throttle that has one code alone.
unfoldable pub single : ℤ → Option Seen → List Signal → List Decision
single w entry [] = []
single w entry (again now ∷ rest) =
    (consider_entry w entry now).1 ∷ single w (some (consider_entry w entry now).0) rest
single w entry (over ∷ rest) = single w none rest

consider-window :
    (t : AlertThrottle) (c : Text) (now : ℤ) → (consider t c now).0.window_ms ≡ t.window_ms
unfolding consider
consider-window t c now = refl

consider-entry :
    (t : AlertThrottle) (c code : Text) (now : ℤ)
    → lookup code (consider t c now).0.seen ≡ (
        if text_eq c code
        then some (consider_entry t.window_ms (lookup c t.seen) now).0
        else lookup code t.seen)
unfolding consider
consider-entry t c code now =
    lookup-insert c code (consider_entry t.window_ms (lookup c t.seen) now).0 t.seen

consider-decision :
    (t : AlertThrottle) (c : Text) (now : ℤ)
    → (consider t c now).1 ≡ (consider_entry t.window_ms (lookup c t.seen) now).1
unfolding consider
consider-decision t c now = refl

clear-window : (t : AlertThrottle) (c : Text) → (clear t c).window_ms ≡ t.window_ms
unfolding clear
clear-window t c = refl

clear-entry :
    (t : AlertThrottle) (c code : Text)
    → lookup code (clear t c).seen ≡ (if text_eq c code then none else lookup code t.seen)
unfolding clear
clear-entry t c code = lookup-remove c code t.seen

-- Codes are independent: whatever occurs and is cleared in between, the decisions on a code are those of a throttle
-- that sees the occurrences and clearings of this code alone, from the state it had for it.
pub codes_are_independent :
    (code : Text) (t : AlertThrottle) (es : List Event)
    → decisions_of code t es ≡ single t.window_ms (lookup code t.seen) (signals_of code es)
unfolding decisions_of single signals_of
codes_are_independent code t [] = refl
codes_are_independent code t (occurs c now ∷ es) = ground (
  arith,
  codes_are_independent code (consider t c now).0 es,
  consider-window t c now,
  consider-entry t c code now,
  consider-decision t c now,
  text_eq_iff c code,
)
codes_are_independent code t (clears c ∷ es) =
    ground
      (arith, codes_are_independent code (clear t c) es, clear-entry t c code, clear-window t c)

-- The occurrences that a list of decisions tells of: one for each announcement, and those it says it held back.
abbrev pub told : List Decision → ℕ
told [] = 0
told (send ∷ ds) = 1 + told ds
told (suppress ∷ ds) = told ds
told (repeat n ∷ ds) = n + 1 + told ds

abbrev pub held_of : Option Seen → ℕ
held_of none = 0
held_of (some e) = e.held

-- The entry after the times `ts`, with no clearing.
unfoldable pub entry_after : ℤ → Option Seen → List ℤ → Option Seen
entry_after w entry [] = entry
entry_after w entry (now ∷ ts) = entry_after w (some (consider_entry w entry now).0) ts

abbrev pub all_again : List ℤ → List Signal
all_again [] = []
all_again (now ∷ ts) = again now ∷ all_again ts

-- No occurrence is lost: as long as the counter of held ones cannot reach the largest `u32`, the occurrences of a code
-- are those that its announcements tell of and those that are held back still.
pub occurrences_are_told :
    (w : ℤ) (entry : Option Seen) (ts : List ℤ)
    → held_of entry + length ts ≤ u32_max
    → held_of entry + length ts
      ≡ told (single w entry (all_again ts)) + held_of (entry_after w entry ts)
unfolding single entry_after consider_entry
occurrences_are_told w entry [] h = ground arith
occurrences_are_told w none (now ∷ ts) h =
    ground (arith, occurrences_are_told w (some (record { announced_at = now; held = 0 })) ts)
occurrences_are_told w (some e) (now ∷ ts) h = ground (
  arith,
  occurrences_are_told w (some (record { announced_at = now; held = 0 })) ts,
  occurrences_are_told w (some (record e { held = saturating_succ e.held })) ts,
)

-- What a code's signals are answered with, since the last announcement: what was not announced since the last clearing is
-- sent; what was is repeated from a full window on, and held back before.
pub data Spaced (w : ℤ) : Option ℤ → List Signal → List Decision → Type 0 where
  done : {last : Option ℤ} → Spaced w last [] []
  cleared :
      {last : Option ℤ} {signals : List Signal} {ds : List Decision}
      → Spaced w none signals ds
      → Spaced w last (over ∷ signals) ds
  sent :
      {now : ℤ} {signals : List Signal} {ds : List Decision}
      → Spaced w (some now) signals ds
      → Spaced w none (again now ∷ signals) (send ∷ ds)
  repeated :
      {last now : ℤ} {n : ℕ} {signals : List Signal} {ds : List Decision}
      → last +ℤ w ≤ℤ now
      → Spaced w (some now) signals ds
      → Spaced w (some last) (again now ∷ signals) (repeat n ∷ ds)
  held_back :
      {last now : ℤ} {signals : List Signal} {ds : List Decision}
      → now <ℤ last +ℤ w
      → Spaced w (some last) signals ds
      → Spaced w (some last) (again now ∷ signals) (suppress ∷ ds)

abbrev pub last_of : Option Seen → Option ℤ
last_of none = none
last_of (some e) = some e.announced_at

-- The saturated difference is a window only if the true one is, whichever way the clock moved.
elapsed_window :
    (w last now : ℤ)
    → InI64 w
    → pos 0 ≤ℤ w
    → ltb_ℤ (saturating_sub now last) w ≡ false
    → last +ℤ w ≤ℤ now
unfolding saturating_sub ◌-ℤ◌ ◌+ℤ◌
elapsed_window w last now b p h = ground arith

early_window :
    (w last now : ℤ)
    → InI64 w
    → pos 0 ≤ℤ w
    → ltb_ℤ (saturating_sub now last) w ≡ true
    → now <ℤ last +ℤ w
unfolding saturating_sub ◌-ℤ◌ ◌+ℤ◌
early_window w last now b p h = ground arith

single-Spaced :
    (w : ℤ) (entry : Option Seen) (signals : List Signal)
    → InI64 w
    → pos 0 ≤ℤ w
    → Spaced w (last_of entry) signals (single w entry signals)
unfolding single consider_entry
single-Spaced w entry [] b p = done
single-Spaced w entry (over ∷ signals) b p = cleared (single-Spaced w none signals b p)
single-Spaced w none (again now ∷ signals) b p =
    sent (single-Spaced w (some (record { announced_at = now; held = 0 })) signals b p)
single-Spaced w (some e) (again now ∷ signals) b p =
    elim (Bool-cases (ltb_ℤ (saturating_sub now e.announced_at) w)) [
      | inl h ↦ rw h (
          held_back (early_window w e.announced_at now b p h)
            (single-Spaced w (some (record e { held = saturating_succ e.held })) signals b p))
      | inr h ↦ rw h (
          repeated (elapsed_window w e.announced_at now b p h)
            (single-Spaced w (some (record { announced_at = now; held = 0 })) signals b p))
    ]

-- In any run of the throttle, whatever the clock does and whatever else occurs, each occurrence of a code is announced
-- or held back by the announcement of it before: it is sent if there was none since the code was last cleared; it is
-- repeated if that one is at least a window ago; and it is held back if that one is less than a window ago. So no two
-- announcements of a code stand within a window unless the code is cleared between them. The window fits an `i64` and
-- is not negative.
pub decisions-Spaced :
    (code : Text) (t : AlertThrottle) (es : List Event)
    → InI64 t.window_ms
    → pos 0 ≤ℤ t.window_ms
    → Spaced t.window_ms
        (last_of (lookup code t.seen))
        (signals_of code es)
        (decisions_of code t es)
decisions-Spaced code t es b p =
    rw (codes_are_independent code t es)
      (single-Spaced t.window_ms (lookup code t.seen) (signals_of code es) b p)
