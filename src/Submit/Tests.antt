-- ===== src/Submit/Tests.antt =====
-- The encoder on small inputs, and the theorems at them.
use vodoge_edge.Common.{◌≡◌, refl, true, not, [], ◌∷◌, ok, err, arith}
use vodoge_edge.Common.Text.{codes, is_whitespace, is_blank}
use vodoge_edge.Gsm7.{decode}
use vodoge_edge.Submit.{
  gsm7_value, is_gsm7, encode_utf16, draft, septets_of, pack_from, pack_gsm7, digits_only,
  bcd_digits, trim_start, starts_with_plus, encode_address, be_bytes, encode_body, encode_tpdu,
  encode_submit,
}
use vodoge_edge.Submit.RoundTrip.{decode-pack_gsm7}
use vodoge_edge.Submit.Encoder.{is_ok, announced_error, encode_submit-draft}

program : Unit {0}
unfolding is_whitespace is_blank gsm7_value is_gsm7 encode_utf16 draft septets_of pack_from
    pack_gsm7 digits_only bcd_digits trim_start starts_with_plus encode_address be_bytes encode_body
    encode_tpdu encode_submit
program = tt

-- The octets of a short message, and of a Chinese one.
encode_run :
    (encode_submit (codes "12345") (codes "Hi") 0
      ≡ ok (
          0x00 ∷ 0x21 ∷ 0x00 ∷ 0x05 ∷ 0x81 ∷ 0x21 ∷ 0x43 ∷ 0xf5 ∷ 0x00 ∷ 0x00 ∷ 0x02 ∷ 0xc8 ∷ 0x34
          ∷ []))
    × (encode_body (codes "你") ≡ ok (0x08 ∷ 2 ∷ 0x4f ∷ 0x60 ∷ []))
unfolding program
encode_run = (refl, refl)

decode-pack_gsm7_example : decode (0xc8 ∷ 0x34 ∷ []) 0 2 ≡ codes "Hi"
unfolding program
decode-pack_gsm7_example = decode-pack_gsm7 (codes "Hi") (0xc8 ∷ 0x34 ∷ []) refl

encode_submit-draft_example :
    (is_ok (encode_submit (codes "12345") (codes "Hi") 7) ≡ not (draft (codes "Hi")).over)
    × ((draft (codes "Hi")).over ≡ true
        → encode_submit (codes "12345") (codes "Hi") 7 ≡ err (announced_error (draft (codes "Hi"))))
unfolding program
encode_submit-draft_example =
    encode_submit-draft (codes "12345") (codes "Hi") 7 refl (λ e. ground arith)
