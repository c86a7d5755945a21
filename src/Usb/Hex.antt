-- ===== src/Usb/Hex.antt =====
-- The text of a USB identity, edge-core/src/strategy.rs, is read back as the identity.
use vodoge_edge.Common.{
  ℕ, ◌+◌, ◌*◌, ◌/◌, ◌%◌, ◌^◌, ◌<◌, ◌≡◌, ap, ◌∙◌, false, some, [], ◌∷◌, ◌++◌, arith, ◌==◌,
}
use vodoge_edge.Common.Text.{Text, is_whitespace}
use vodoge_edge.AtPolicy.{trim, trim_left, trim_right}
use vodoge_edge.Usb.{
  UsbIdentity, hex_value, hex_digits, parse_hex, parse, hex_char, hex_4, shown, split_once,
  read_usb,
}

hex_value-hex_char : (d : ℕ) → d < 16 → hex_value (hex_char d) ≡ some d
hex_value-hex_char d h = ground arith

is_whitespace-hex_char : (d : ℕ) → d < 16 → is_whitespace (hex_char d) ≡ false
unfolding is_whitespace
is_whitespace-hex_char d h = ground arith

not_colon : (d : ℕ) → d < 16 → (hex_char d == 58) ≡ false
not_colon d h = ground arith

not_plus : (d : ℕ) → d < 16 → (hex_char d == 43) ≡ false
not_plus d h = ground arith

first_digit : (a : ℕ) → 0 * 16 + a ≡ a
first_digit a = omega arith

hex_digits-next :
    (value d : ℕ) (text : Text)
    → d < 16
    → value * 16 + d < 2 ^ 16
    → hex_digits value (hex_char d ∷ text) ≡ hex_digits (value * 16 + d) text
unfolding hex_digits
hex_digits-next value d text h k = ground (arith, hex_value-hex_char d h)

module _ (a b c d : ℕ) (ha : a < 16) (hb : b < 16) (hc : c < 16) (hd : d < 16) where
  pub four_digits :
      hex_digits 0 (hex_char a ∷ hex_char b ∷ hex_char c ∷ hex_char d ∷ [])
      ≡ some (((a * 16 + b) * 16 + c) * 16 + d)
  unfolding hex_digits
  four_digits =
      hex_digits-next 0 a (hex_char b ∷ hex_char c ∷ hex_char d ∷ []) ha (omega arith)
      ∙ (ap (λ v. hex_digits v (hex_char b ∷ hex_char c ∷ hex_char d ∷ [])) (first_digit a)
          ∙ (hex_digits-next a b (hex_char c ∷ hex_char d ∷ []) hb (omega arith)
              ∙ (hex_digits-next (a * 16 + b) c (hex_char d ∷ []) hc (omega arith)
                  ∙ hex_digits-next ((a * 16 + b) * 16 + c) d [] hd (omega arith))))

  pub trim_four :
      trim (hex_char a ∷ hex_char b ∷ hex_char c ∷ hex_char d ∷ [])
      ≡ hex_char a ∷ hex_char b ∷ hex_char c ∷ hex_char d ∷ []
  unfolding trim_left trim_right
  trim_four = ground (
    arith,
    is_whitespace-hex_char a ha,
    is_whitespace-hex_char b hb,
    is_whitespace-hex_char c hc,
    is_whitespace-hex_char d hd,
  )

  pub split_four :
      (text : Text)
      → split_once 58 ((hex_char a ∷ hex_char b ∷ hex_char c ∷ hex_char d ∷ []) ++ 58 ∷ text)
        ≡ some (hex_char a ∷ hex_char b ∷ hex_char c ∷ hex_char d ∷ [], text)
  unfolding split_once
  split_four text = ground (arith, not_colon a ha, not_colon b hb, not_colon c hc, not_colon d hd)

  pub parse_four :
      parse_hex (hex_char a ∷ hex_char b ∷ hex_char c ∷ hex_char d ∷ [])
      ≡ some (((a * 16 + b) * 16 + c) * 16 + d)
  unfolding parse_hex
  parse_four = ground (arith, not_plus a ha, four_digits)

digits_sum : (n : ℕ) → ((n / 4096 * 16 + n / 256 % 16) * 16 + n / 16 % 16) * 16 + n % 16 ≡ n
digits_sum n = omega arith

high_digit : (n : ℕ) → n < 2 ^ 16 → n / 4096 < 16
high_digit n h = omega arith

digit-lt : (n : ℕ) → n % 16 < 16
digit-lt n = omega arith

trim-hex_4 : (n : ℕ) → n < 2 ^ 16 → trim (hex_4 n) ≡ hex_4 n
trim-hex_4 n h =
    trim_four (n / 4096) (n / 256 % 16) (n / 16 % 16) (n % 16) (high_digit n h) (digit-lt (n / 256))
      (digit-lt (n / 16)) (digit-lt n)

parse_hex-hex_4 : (n : ℕ) → n < 2 ^ 16 → parse_hex (hex_4 n) ≡ some n
parse_hex-hex_4 n h =
    parse_four (n / 4096) (n / 256 % 16) (n / 16 % 16) (n % 16) (high_digit n h)
      (digit-lt (n / 256)) (digit-lt (n / 16)) (digit-lt n)
    ∙ ap some (digits_sum n)

split-hex_4 :
    (n : ℕ) (text : Text) → n < 2 ^ 16 → split_once 58 (hex_4 n ++ 58 ∷ text) ≡ some (hex_4 n, text)
split-hex_4 n text h =
    split_four (n / 4096) (n / 256 % 16) (n / 16 % 16) (n % 16) (high_digit n h)
      (digit-lt (n / 256)) (digit-lt (n / 16)) (digit-lt n) text

-- The text of an identity of two numbers of 16 bits is read back as the same identity.
pub read_usb-shown :
    (usb : UsbIdentity)
    → usb.vendor < 2 ^ 16
    → usb.product < 2 ^ 16
    → read_usb (shown usb) ≡ some usb
unfolding read_usb shown parse
read_usb-shown usb v p = ground (
  arith,
  split-hex_4 usb.vendor (hex_4 usb.product) v,
  ap parse_hex (trim-hex_4 usb.vendor v),
  ap parse_hex (trim-hex_4 usb.product p),
  parse_hex-hex_4 usb.vendor v,
  parse_hex-hex_4 usb.product p,
)
