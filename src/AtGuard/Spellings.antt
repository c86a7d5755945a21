-- ===== src/AtGuard/Spellings.antt =====
-- The spellings of a command that the guard of at_guard.rs asks about: letters of either case, and blanks where the
-- modem takes them.
use vodoge_edge.Common.{
  ℕ, ◌≡◌, refl, ◌⊎◌, inl, inr, sym, ap, ◌∙◌, true, some, [], ◌∷◌, ◌++◌, All, arith,
}
use vodoge_edge.Common.Text.{Text, codes, is_whitespace}
use vodoge_edge.AtPolicy.{trim_left, ascii_uppercase}
use vodoge_edge.AtGuard.{
  Guarded, usbnet, cfun_reset, cfun_down, cops, crsm_write, csim, qprtpara, open_channel,
  use_channel, close_channel, Channel, channel, skip_ws, strip_ci, strip_sign, is_boundary,
  ends_or_comma, usbnet_of, cfun_second, cfun_tail, cfun_of, cops_of, crsm_of, equals_of,
  channel_of, verbs, first_verb, guarded,
}
use vodoge_edge.AtGuard.Pieces.{
  Blanks, Number, skip_ws-past, skipped, after_sign-past, number_past, blanks_end,
}
use vodoge_edge.AtGuard.Cases.{guarded-ascii_uppercase}

-- What may follow the number of `at+cops` and of `at+crsm`.
abbrev EndsOrComma : Text → Type 0
EndsOrComma tail = (tail ≡ []) ⊎ ((rest : Text) × (tail ≡ 44 ∷ rest))

abbrev IsDown : ℕ → Type 0
IsDown n = (n ≡ 0) ⊎ ((n ≡ 4) ⊎ (n ≡ 7))

abbrev IsWrite : ℕ → Type 0
IsWrite n = (n ≡ 214) ⊎ ((n ≡ 219) ⊎ (n ≡ 220))

abbrev pub channel_name : Channel → Text
channel_name open_channel = codes "AT+CCHO"
channel_name use_channel = codes "AT+CGLA"
channel_name close_channel = codes "AT+CCHC"

-- The commands that are asked about, in capitals.
pub data Spells (text : Text) : Guarded → Type 0 where
  usbnet_spelled :
      (n : ℕ) (a b c d ds rest : Text)
      → Blanks a
      → Blanks b
      → Blanks c
      → Blanks d
      → Number n ds rest
      → text
        ≡ codes "AT+QCFG"
          ++ (a ++ (61 ∷ (b ++ (codes "\"USBNET\"" ++ (c ++ (44 ∷ (d ++ (ds ++ rest))))))))
      → Spells text (usbnet n)
  reset_spelled :
      (n : ℕ) (a b ds c d ones e : Text)
      → Blanks a
      → Blanks b
      → Blanks c
      → Blanks d
      → Blanks e
      → Number n ds (c ++ 44 ∷ (d ++ (ones ++ e)))
      → Number 1 ones e
      → text ≡ codes "AT+CFUN" ++ (a ++ (61 ∷ (b ++ (ds ++ (c ++ (44 ∷ (d ++ (ones ++ e))))))))
      → Spells text (cfun_reset n)
  down_spelled :
      (n : ℕ) (a b ds c : Text)
      → Blanks a
      → Blanks b
      → Blanks c
      → IsDown n
      → Number n ds c
      → text ≡ codes "AT+CFUN" ++ (a ++ (61 ∷ (b ++ (ds ++ c))))
      → Spells text (cfun_down n)
  down_spelled_out :
      (n : ℕ) (a b ds c d zeros e : Text)
      → Blanks a
      → Blanks b
      → Blanks c
      → Blanks d
      → Blanks e
      → IsDown n
      → Number n ds (c ++ 44 ∷ (d ++ (zeros ++ e)))
      → Number 0 zeros e
      → text ≡ codes "AT+CFUN" ++ (a ++ (61 ∷ (b ++ (ds ++ (c ++ (44 ∷ (d ++ (zeros ++ e))))))))
      → Spells text (cfun_down n)
  cops_spelled :
      (n : ℕ) (a b ds c tail : Text)
      → Blanks a
      → Blanks b
      → Blanks c
      → (n ≡ 1) ⊎ (n ≡ 2)
      → EndsOrComma tail
      → Number n ds (c ++ tail)
      → text ≡ codes "AT+COPS" ++ (a ++ (61 ∷ (b ++ (ds ++ (c ++ tail)))))
      → Spells text (cops n)
  crsm_spelled :
      (n : ℕ) (a b ds tail : Text)
      → Blanks a
      → Blanks b
      → IsWrite n
      → is_boundary tail ≡ true
      → Number n ds tail
      → text ≡ codes "AT+CRSM" ++ (a ++ (61 ∷ (b ++ (ds ++ tail))))
      → Spells text (crsm_write n)
  csim_spelled :
      (a rest : Text) → Blanks a → text ≡ codes "AT+CSIM" ++ (a ++ (61 ∷ rest)) → Spells text csim
  channel_spelled :
      (which : Channel) (rest : Text)
      → is_boundary rest ≡ true
      → text ≡ channel_name which ++ rest
      → Spells text (channel which)
  qprtpara_spelled :
      (a rest : Text)
      → Blanks a
      → text ≡ codes "AT+QPRTPARA" ++ (a ++ (61 ∷ rest))
      → Spells text qprtpara

cops_tail :
    (c tail : Text) → Blanks c → EndsOrComma tail → ends_or_comma (skip_ws (c ++ tail)) ≡ true
unfolding skip_ws
cops_tail c tail b (inl e) = rw (skip_ws-past c tail b, e) refl
cops_tail c tail b (inr (rest, e)) = rw (skip_ws-past c tail b, e) refl

second_reset : (n : ℕ) (e : Text) → Blanks e → cfun_second n 1 e ≡ some (cfun_reset n)
unfolding cfun_second
second_reset n e b = rw (blanks_end e b) refl

second_down : (n : ℕ) (e : Text) → IsDown n → Blanks e → cfun_second n 0 e ≡ some (cfun_down n)
unfolding cfun_second
second_down n e d b = rw (blanks_end e b) (ground (arith, d))

only_down : (n : ℕ) (c : Text) → IsDown n → Blanks c → cfun_tail n (skip_ws c) ≡ some (cfun_down n)
unfolding cfun_tail skip_ws strip_sign
only_down n [] d b = ground (arith, d)
only_down n (x ∷ c) d b = rw (b.0) (only_down n c d b.1)

more_tail :
    (n m : ℕ) (c d ds e : Text)
    → Blanks c
    → Blanks d
    → Number m ds e
    → cfun_tail n (skip_ws (c ++ 44 ∷ (d ++ (ds ++ e)))) ≡ cfun_second n m e
unfolding cfun_tail strip_sign
more_tail n m c d ds e hc hd v =
    rw (skipped c 44 (d ++ (ds ++ e)) refl hc, number_past m d ds e hd v) refl

first_verb-Spells :
    (text : Text) (what : Guarded) → Spells text what → first_verb verbs text ≡ some what
unfolding first_verb verbs strip_ci usbnet_of cfun_of cops_of crsm_of equals_of channel_of
first_verb-Spells text _ (usbnet_spelled n a b c d ds rest ha hb hc hd v t) =
    rw
      (
        t,
        after_sign-past 61 a _ refl ha,
        skipped b 34 _ refl hb,
        after_sign-past 44 c _ refl hc,
        number_past n d ds rest hd v,
      )
      refl
first_verb-Spells text _ (reset_spelled n a b ds c d ones e ha hb hc hd he v w t) =
    rw (t, after_sign-past 61 a _ refl ha, number_past n b ds _ hb v)
      (more_tail n 1 c d ones e hc hd w ∙ second_reset n e he)
first_verb-Spells text _ (down_spelled n a b ds c ha hb hc h v t) =
    rw (t, after_sign-past 61 a _ refl ha, number_past n b ds _ hb v) (only_down n c h hc)
first_verb-Spells text _ (down_spelled_out n a b ds c d zeros e ha hb hc hd he h v w t) =
    rw (t, after_sign-past 61 a _ refl ha, number_past n b ds _ hb v)
      (more_tail n 0 c d zeros e hc hd w ∙ second_down n e h he)
first_verb-Spells text _ (cops_spelled n a b ds c tail ha hb hc h e v t) =
    rw (t, after_sign-past 61 a _ refl ha, number_past n b ds _ hb v, cops_tail c tail hc e)
      (ground (arith, h))
first_verb-Spells text _ (crsm_spelled n a b ds tail ha hb h e v t) =
    rw (t, after_sign-past 61 a _ refl ha, number_past n b ds _ hb v, e) (ground (arith, h))
first_verb-Spells text _ (csim_spelled a rest ha t) = rw (t, after_sign-past 61 a rest refl ha) refl
first_verb-Spells text _ (channel_spelled open_channel rest h t) = rw (t, h) refl
first_verb-Spells text _ (channel_spelled use_channel rest h t) = rw (t, h) refl
first_verb-Spells text _ (channel_spelled close_channel rest h t) = rw (t, h) refl
first_verb-Spells text _ (qprtpara_spelled a rest ha t) =
    rw (t, after_sign-past 61 a rest refl ha) refl

-- Each spelling begins with a letter.
first_letter : (text : Text) (what : Guarded) → Spells text what → trim_left text ≡ text
unfolding trim_left is_whitespace
first_letter text _ (usbnet_spelled _ _ _ _ _ _ _ _ _ _ _ _ t) = rw t refl
first_letter text _ (reset_spelled _ _ _ _ _ _ _ _ _ _ _ _ _ _ _ t) = rw t refl
first_letter text _ (down_spelled _ _ _ _ _ _ _ _ _ _ t) = rw t refl
first_letter text _ (down_spelled_out _ _ _ _ _ _ _ _ _ _ _ _ _ _ _ _ t) = rw t refl
first_letter text _ (cops_spelled _ _ _ _ _ _ _ _ _ _ _ _ t) = rw t refl
first_letter text _ (crsm_spelled _ _ _ _ _ _ _ _ _ _ t) = rw t refl
first_letter text _ (csim_spelled _ _ _ t) = rw t refl
first_letter text _ (channel_spelled open_channel _ _ t) = rw t refl
first_letter text _ (channel_spelled use_channel _ _ t) = rw t refl
first_letter text _ (channel_spelled close_channel _ _ t) = rw t refl
first_letter text _ (qprtpara_spelled _ _ _ t) = rw t refl

trim_left-past :
    (blanks text : Text)
    → All (λ c. is_whitespace c ≡ true) blanks
    → trim_left (blanks ++ text) ≡ trim_left text
unfolding trim_left
trim_left-past [] text a = refl
trim_left-past (c ∷ blanks) text a = rw (a.0) (trim_left-past blanks text a.1)

-- Each of these commands is asked about, and as what it is, whatever the case of its letters, with any white space before
-- it, and with spaces and tabs around its signs and numbers: the mode of usbnet; `at+cfun` with a second argument 1; `at+cfun`
-- to 0, 4 or 7, alone or with a second argument 0; `at+cops` to 1 or 2, alone or before a comma; `at+crsm` with 214, 219
-- or 220, no word character after it; `at+csim` and `at+qprtpara` with an equals sign; and the three channel commands, no
-- word character after them. Numbers are decimal, of 32 bits.
pub guarded-Spells :
    (command blanks text : Text) (what : Guarded)
    → ascii_uppercase command ≡ blanks ++ text
    → All (λ c. is_whitespace c ≡ true) blanks
    → Spells text what
    → guarded command ≡ some what
unfolding guarded
guarded-Spells command blanks text what e w h =
    sym (guarded-ascii_uppercase command)
    ∙ (ap guarded e
        ∙ (ap (first_verb verbs) (trim_left-past blanks text w ∙ first_letter text what h)
            ∙ first_verb-Spells text what h))
