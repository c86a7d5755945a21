-- ===== src/Gsm7/Tests.antt =====
-- The decoder on small inputs, and the theorem at them.
use vodoge_edge.Common.{◌+◌, ◌*◌, ◌/◌, ◌≡◌, refl, [], ◌∷◌, length, min}
use vodoge_edge.Common.Text.{codes}
use vodoge_edge.Gsm7.{
  basic, extension, basic_char, drain, unpack_from, unpack_septets, header_septets, decode_septets,
  decode,
}
use vodoge_edge.Gsm7.Septets.{number_of, digits, unpack_septets_lem}

program : Unit {0}
unfolding basic extension basic_char drain unpack_from unpack_septets decode_septets decode
program = tt

-- "Hi", a euro sign behind an escape, an escape at the end, and a header of six octets.
decode_run :
    (decode (0xc8 ∷ 0x34 ∷ []) 0 2 ≡ codes "Hi")
    × (decode_septets (0x1b ∷ 0x65 ∷ 0x41 ∷ 0x1b ∷ []) ≡ codes "€A")
    × (length basic ≡ 128)
    × (header_septets 6 ≡ 7)
unfolding program
decode_run = (refl, refl, refl, refl)

unpack_septets_lem_example :
    unpack_septets (0xc8 ∷ 0x34 ∷ []) 1 1
    ≡ digits 1 (min (1 + 1) (8 * 2 / 7)) 0 (number_of (0xc8 ∷ 0x34 ∷ []))
unpack_septets_lem_example = unpack_septets_lem (0xc8 ∷ 0x34 ∷ []) 1 1
