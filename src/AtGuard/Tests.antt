-- ===== src/AtGuard/Tests.antt =====
-- Commands of the console before the guard, and the theorem at one of them.
use vodoge_edge.Common.{◌≡◌, refl, some, none, [], ◌∷◌, ◌++◌, inr, arith}
use vodoge_edge.Common.Text.{codes, is_whitespace}
use vodoge_edge.AtPolicy.{trim_left, ascii_uppercase}
use vodoge_edge.AtGuard.{
  usbnet, cfun_reset, cfun_down, cops, crsm_write, csim, channel, open_channel, qprtpara, skip_ws,
  take_digits, parse_digits, parse_u32, take_u32, strip_ci, strip_sign, usbnet_of, cfun_second,
  cfun_tail, cfun_of, cops_of, crsm_of, equals_of, channel_of, verbs, first_verb, guarded,
}
use vodoge_edge.AtGuard.Pieces.{Blanks, Number, digits}
use vodoge_edge.AtGuard.Spellings.{down_spelled_out, guarded-Spells}

program : Unit {0}
unfolding is_whitespace trim_left ascii_uppercase skip_ws take_digits parse_digits parse_u32
    take_u32 strip_ci strip_sign usbnet_of cfun_second cfun_tail cfun_of cops_of crsm_of equals_of
    channel_of verbs first_verb guarded
program = tt

asked :
    (guarded (codes "AT+QCFG=\"usbnet\",1") ≡ some (usbnet 1))
    × (guarded (codes " at+cfun = 1 , 1 ") ≡ some (cfun_reset 1))
    × (guarded (codes "AT+CFUN=4,0") ≡ some (cfun_down 4))
    × (guarded (codes "AT+CFUN=7") ≡ some (cfun_down 7))
    × (guarded (codes "AT+COPS=1,2,\"46001\"") ≡ some (cops 1))
    × (guarded (codes "AT+CRSM=214,28589") ≡ some (crsm_write 214))
    × (guarded (codes "AT+CSIM=10,\"00\"") ≡ some csim)
    × (guarded (codes "AT+CCHO=\"A0\"") ≡ some (channel open_channel))
    × (guarded (codes "AT+QPRTPARA=3") ≡ some qprtpara)
unfolding program
asked = (refl, refl, refl, refl, refl, refl, refl, refl, refl)

not_asked :
    (guarded (codes "AT+CFUN?") ≡ none)
    × (guarded (codes "AT+CFUN=1") ≡ none)
    × (guarded (codes "AT+COPS=0") ≡ none)
    × (guarded (codes "AT+CRSM=2140") ≡ none)
    × (guarded (codes "AT+CRSM=176,28589") ≡ none)
    × (guarded (codes "AT+CCHOX") ≡ none)
    × (guarded (codes "AT+CFUN=4294967296") ≡ none)
unfolding program
not_asked = (refl, refl, refl, refl, refl, refl, refl)

-- The expression in the comment of the source has `\s*$`, which takes a line feed too.
line_feed : guarded (codes "AT+CFUN=0" ++ 10 ∷ []) ≡ none
unfolding program
line_feed = refl

-- Only the first command of a chain is looked at.
chained : guarded (codes "AT+CSQ;+CFUN=0") ≡ none
unfolding program
chained = refl

-- Blanks and letters of either case, and a second argument.
spelled : ascii_uppercase (codes " At+cFun = 7, 0") ≡ 32 ∷ codes "AT+CFUN = 7, 0"
unfolding ascii_uppercase
spelled = refl

seven : Number 7 (codes "7") (codes ", 0")
unfolding parse_digits
seven = digits 55 [] (codes ", 0") (refl, tt) refl refl (omega arith)

naught : Number 0 (codes "0") []
unfolding parse_digits
naught = digits 48 [] [] (refl, tt) tt refl (omega arith)

blank : Blanks (codes " ")
blank = (refl, tt)

guarded-Spells_example : guarded (codes " At+cFun = 7, 0") ≡ some (cfun_down 7)
unfolding is_whitespace
guarded-Spells_example =
    guarded-Spells (codes " At+cFun = 7, 0") (codes " ") (codes "AT+CFUN = 7, 0") (cfun_down 7)
      spelled (refl, tt)
      (down_spelled_out 7 (codes " ") (codes " ") (codes "7") [] (codes " ") (codes "0") [] blank
        blank tt blank tt (inr (inr refl)) seven naught refl)
