-- ===== src/Usb/Tests.antt =====
-- Identities of the bench, and the theorem at one.
use vodoge_edge.Common.{◌≡◌, refl, none, some}
use vodoge_edge.Common.Text.{codes, is_whitespace}
use vodoge_edge.AtPolicy.{trim_left, trim_right}
use vodoge_edge.Usb.{UsbIdentity, hex_digits, parse_hex, parse, shown, split_once, read_usb}

program : Unit {0}
unfolding is_whitespace trim_left trim_right hex_digits parse_hex parse shown split_once read_usb
program = tt

abbrev bench : UsbIdentity
bench = record { vendor = 0x2c7c; product = 0x0125 }

parse_run :
    (parse (codes "2c7c\n") (codes " 0125") ≡ some bench)
    × (parse (codes "") (codes "0125") ≡ none)
    × (parse (codes "0x2c7c") (codes "0125") ≡ none)
    × (parse (codes "12c7c") (codes "0125") ≡ none)
    × (shown bench ≡ codes "2c7c:0125")
    × (read_usb (codes "2c7c") ≡ none)
unfolding program
parse_run = (refl, refl, refl, refl, refl, refl)
