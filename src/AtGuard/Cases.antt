-- ===== src/AtGuard/Cases.antt =====
-- Letters of either case: the guard reads a command the same way whatever the case of its letters.
use vodoge_edge.Common.{
  ℕ, ◌≡◌, refl, true, Option, none, some, List, [], ◌∷◌, leb, ap, ◌∙◌, sym, All,
}
use vodoge_edge.Common.Text.{Text, codes}
use vodoge_edge.Common.Checked.{◌>>=◌}
use vodoge_edge.AtPolicy.{trim_left, ascii_uppercase}
use vodoge_edge.AtGuard.{
  Guarded, csim, qprtpara, open_channel, use_channel, close_channel, Channel, skip_ws, take_u32,
  strip_ci, strip_sign, after_sign, usbnet_of, cfun_second, after_comma, cfun_more, or_later,
  cfun_tail, cfun_of, cops_of, crsm_of, equals_of, channel_of, verbs, first_verb, guarded,
}
use vodoge_edge.AtGuard.Letters.{
  up_option, up_second, skip_ws-up, trim_left-up, strip_ci-up, strip_sign-up, after_sign-up,
  skipped_number-up, ends-upper, ends-up, ends_or_comma-up, is_boundary-up,
}

-- What reads a rest without regard to case.
abbrev IsCaseFree : (Text → Option Guarded) → Type 0
IsCaseFree judge = (s : Text) → judge (ascii_uppercase s) ≡ judge s

bind-up :
    (o : Option Text) (judge : Text → Option Guarded)
    → IsCaseFree judge
    → (up_option o >>= judge) ≡ (o >>= judge)
bind-up none judge free = refl
bind-up (some s) judge free = free s

bind_second-up :
    (o : Option (ℕ × Text)) (judge : ℕ × Text → Option Guarded)
    → ((n : ℕ) → IsCaseFree (λ s. judge (n, s)))
    → (up_second o >>= judge) ≡ (o >>= judge)
bind_second-up none judge free = refl
bind_second-up (some (n, s)) judge free = free n s

then_sign :
    (sign : ℕ) (judge : Text → Option Guarded)
    → leb sign 64 ≡ true
    → IsCaseFree judge
    → IsCaseFree (λ s. after_sign sign s >>= judge)
then_sign sign judge small free s =
    rw (after_sign-up sign small s) (bind-up (after_sign sign s) judge free)

then_number :
    (judge : ℕ × Text → Option Guarded)
    → ((n : ℕ) → IsCaseFree (λ s. judge (n, s)))
    → IsCaseFree (λ s. take_u32 (skip_ws s) >>= judge)
then_number judge free s =
    rw (skipped_number-up s) (bind_second-up (take_u32 (skip_ws s)) judge free)

then_word :
    (word : Text) (judge : Text → Option Guarded)
    → IsCaseFree judge
    → IsCaseFree (λ s. strip_ci (skip_ws s) word >>= judge)
then_word word judge free s =
    rw (skip_ws-up s, strip_ci-up (skip_ws s) word) (bind-up (strip_ci (skip_ws s) word) judge free)

usbnet_of-up : IsCaseFree usbnet_of
unfolding usbnet_of
usbnet_of-up =
    then_sign 61 _ refl
      (then_word (codes "\"usbnet\"") _ (then_sign 44 _ refl (then_number _ (λ n s. refl))))

cfun_second-up : (value second : ℕ) → IsCaseFree (cfun_second value second)
unfolding cfun_second
cfun_second-up value second s = rw (ends-up s) refl

after_comma-up :
    (value : ℕ) (o : Option (ℕ × Text)) → after_comma value (up_second o) ≡ after_comma value o
after_comma-up value none = refl
after_comma-up value (some (second, tail)) = cfun_second-up value second tail

cfun_more-up :
    (value : ℕ) (rest : Text) (o : Option Text)
    → cfun_more value (ascii_uppercase rest) (up_option o) ≡ cfun_more value rest o
cfun_more-up value rest none = rw (ends-upper rest) refl
cfun_more-up value rest (some more) =
    rw (skipped_number-up more) (after_comma-up value (take_u32 (skip_ws more)))

cfun_tail-up : (value : ℕ) → IsCaseFree (cfun_tail value)
unfolding cfun_tail
cfun_tail-up value s = rw (strip_sign-up 44 refl s) (cfun_more-up value s (strip_sign 44 s))

cfun_of-up : IsCaseFree cfun_of
unfolding cfun_of
cfun_of-up =
    then_sign 61 _ refl
      (then_number _ (λ n s. ap (cfun_tail n) (skip_ws-up s) ∙ cfun_tail-up n (skip_ws s)))

cops_of-up : IsCaseFree cops_of
unfolding cops_of
cops_of-up = then_sign 61 _ refl (then_number _ (λ n s. rw (ends_or_comma-up s) refl))

crsm_of-up : IsCaseFree crsm_of
unfolding crsm_of
crsm_of-up = then_sign 61 _ refl (then_number _ (λ n s. rw (is_boundary-up s) refl))

equals_of-up : (what : Guarded) → IsCaseFree (equals_of what)
unfolding equals_of
equals_of-up what = then_sign 61 (λ s. some what) refl (λ s. refl)

channel_of-up : (which : Channel) → IsCaseFree (channel_of which)
unfolding channel_of
channel_of-up which s = rw (is_boundary-up s) refl

or_later-up :
    (o : Option Text) (judge : Text → Option Guarded) (later : Option Guarded)
    → IsCaseFree judge
    → or_later (up_option o) judge later ≡ or_later o judge later
or_later-up none judge later free = refl
or_later-up (some rest) judge later free = free rest

first_verb-up :
    (vs : List (Text × (Text → Option Guarded)))
    → All (λ v. IsCaseFree v.1) vs
    → IsCaseFree (first_verb vs)
unfolding first_verb
first_verb-up [] free s = refl
first_verb-up ((verb, judge) ∷ vs) (free, more) s =
    rw (strip_ci-up s verb, first_verb-up vs more s)
      (or_later-up (strip_ci s verb) judge (first_verb vs s) free)

verbs-IsCaseFree : All (λ v. IsCaseFree v.1) verbs
unfolding verbs
verbs-IsCaseFree = (
  usbnet_of-up,
  (
    cfun_of-up,
    (
      cops_of-up,
      (
        crsm_of-up,
        (
          equals_of-up csim,
          (
            channel_of-up open_channel,
            (channel_of-up use_channel, (channel_of-up close_channel, (equals_of-up qprtpara, tt))),
          ),
        ),
      ),
    ),
  ),
)

pub guarded-ascii_uppercase : (command : Text) → guarded (ascii_uppercase command) ≡ guarded command
unfolding guarded
guarded-ascii_uppercase command =
    rw (trim_left-up command) (first_verb-up verbs verbs-IsCaseFree (trim_left command))

-- Two commands that differ in the case of letters alone get the same question, or none.
pub guarded-any_case : (c d : Text) → ascii_uppercase c ≡ ascii_uppercase d → guarded c ≡ guarded d
guarded-any_case c d h = sym (guarded-ascii_uppercase c) ∙ ap guarded h ∙ guarded-ascii_uppercase d
