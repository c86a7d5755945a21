-- ===== src/Gsm7.antt =====
-- The seven-bit alphabet, edge-core/src/gsm7.rs: septets packed across octets, the two tables, and `decode`. Octets
-- and septets are numbers. The accumulator of `unpack_septets` is below `2 ^ bits` before each octet is added above
-- these bits, so the source's `|=` is a sum and fits its `u16`.
use vodoge_edge.Common.{
  ℕ, zero, suc, ◌+◌, ◌-◌, ◌*◌, ◌/◌, ◌%◌, ◌^◌, Bool, true, false, Option, none, some, List, [], ◌∷◌,
  ◌++◌, if◌then◌else◌, ltb, leb, ◌==◌, get_or,
}
use vodoge_edge.Common.Text.{Text, codes}
pub mod Septets
pub mod Tests

-- `BASIC`, in code points: the position is the value.
unfoldable pub basic : List ℕ
basic =
    codes "@£$¥èéùìòÇ"
    ++ 10 ∷ codes "Øø"
    ++ 13 ∷ codes "Åå"
    ++ codes "Δ_ΦΓΛΩΠΨΣΘΞ"
    ++ 27 ∷ codes "ÆæßÉ"
    ++ codes " !"
    ++ 34 ∷ codes "#¤%&"
    ++ 39 ∷ codes "()*+,-./"
    ++ codes "0123456789:;<=>?"
    ++ codes "¡ABCDEFGHIJKLMNOPQRSTUVWXYZÄÖÑÜ§"
    ++ codes "¿abcdefghijklmnopqrstuvwxyzäöñüà"

abbrev pub escape : ℕ
escape = 0x1b

unfoldable pub extension : ℕ → Option ℕ
extension value =
    if value == 0x0a
    then some 0x0c
    else if value == 0x14
    then some 94
    else if value == 0x28
    then some 123
    else if value == 0x29
    then some 125
    else if value == 0x2f
    then some 92
    else if value == 0x3c
    then some 91
    else if value == 0x3d
    then some 126
    else if value == 0x3e
    then some 93
    else if value == 0x40
    then some 124
    else if value == 0x65
    then some 0x20ac
    else none

-- `BASIC[value & 0x7f]`, an index that is always below 128.
unfoldable pub basic_char : ℕ → ℕ
basic_char value = get_or basic (value % 128) 0

-- What the inner loop does to one octet's bits.
pub record Drained : Type 0 where
  pub emitted : List ℕ
  pub acc : ℕ
  pub bits : ℕ
  pub taken : ℕ
  pub finished : Bool

module _ (skip wanted : ℕ) where
  -- `while bits >= 7`; two rounds are enough, for there are at most 14 bits.
  unfoldable pub drain : ℕ → ℕ → ℕ → ℕ → Drained
  drain zero acc bits taken = record {
    emitted = [];
    acc = acc;
    bits = bits;
    taken = taken;
    finished = false;
  }
  drain (suc fuel) acc bits taken =
      let rest = drain fuel (acc / 128) (bits - 7) (taken + 1) in
      if ltb bits 7
      then record { emitted = []; acc = acc; bits = bits; taken = taken; finished = false }
      else if taken == wanted
      then record { emitted = []; acc = acc; bits = bits; taken = taken; finished = true }
      else if leb skip taken
      then record rest { emitted = acc % 128 ∷ rest.emitted }
      else rest

  unfoldable pub unpack_from : List ℕ → ℕ → ℕ → ℕ → List ℕ
  unpack_from [] acc bits taken = []
  unpack_from (byte ∷ bytes) acc bits taken =
      let d = drain 2 (acc + byte * 2 ^ bits) (bits + 8) taken in
      let rest = unpack_from bytes d.acc d.bits d.taken in
      if d.finished then d.emitted else d.emitted ++ rest

unfoldable pub unpack_septets : List ℕ → ℕ → ℕ → List ℕ
unpack_septets packed skip count = unpack_from skip (skip + count) packed 0 0 0

-- `(header_octets * 8).div_ceil(7)`.
abbrev pub header_septets : ℕ → ℕ
header_septets header_octets = (header_octets * 8 + 6) / 7

unfoldable pub decode_septets : List ℕ → Text
decode_septets [] = []
decode_septets (value ∷ []) = if value == escape then [] else basic_char value ∷ []
decode_septets (value ∷ next ∷ rest) =
    let after = decode_septets rest in
    let following = decode_septets (next ∷ rest) in
    if value == escape
    then elim (extension next) [ none ↦ basic_char next ∷ after | some c ↦ c ∷ after ]
    else basic_char value ∷ following

unfoldable pub decode : List ℕ → ℕ → ℕ → Text
decode user_data header_octets udl =
    let skip = header_septets header_octets in
    decode_septets (unpack_septets user_data skip (udl - skip))
