-- ===== src/Submit/Encoder.antt =====
-- The draft that the operator sees, and what the encoder does.
use vodoge_edge.Common.{
  ℕ, ◌≡◌, refl, Bool, true, false, not, [], ◌∷◌, Result, ok, err, is_some, arith,
}
use vodoge_edge.Common.Text.{Text, codes}
use vodoge_edge.Submit.{
  is_gsm7, gsm7, ucs2, Draft, draft, PduError, too_long, septets_of, pack_gsm7, encode_address,
  encode_body, encode_tpdu, encode_submit,
}

abbrev pub is_ok {ℓ} : {E A : Type ℓ} → Result E A → Bool
is_ok (ok a) = true
is_ok (err e) = false

septets_of-is_gsm7 : (body : Text) → is_some (septets_of body) ≡ is_gsm7 body
unfolding septets_of is_gsm7
septets_of-is_gsm7 [] = refl
septets_of-is_gsm7 (c ∷ body) = ground (arith, septets_of-is_gsm7 body)

-- The error that a draft announces.
abbrev pub announced_error : Draft → PduError
announced_error d = elim d.encoding [
  | gsm7 ↦ too_long (codes "gsm7") d.limit
  | ucs2 ↦ too_long (codes "ucs2") d.limit
]

encode_body-draft :
    (body : Text)
    → (is_ok (encode_body body) ≡ not (draft body).over)
      × ((draft body).over ≡ true → encode_body body ≡ err (announced_error (draft body)))
unfolding encode_body draft pack_gsm7
encode_body-draft body = ground (arith, septets_of-is_gsm7 body)

-- The draft tells the truth: a body that is not empty, for a destination that the encoder accepts, is encoded exactly if
-- the draft is not over its limit, and else refused with the draft's encoding and limit.
pub encode_submit-draft :
    (to body : Text) (reference : ℕ)
    → is_ok (encode_address to) ≡ true
    → (body ≡ [] → ⊥)
    → (is_ok (encode_submit to body reference) ≡ not (draft body).over)
      × ((draft body).over ≡ true
          → encode_submit to body reference ≡ err (announced_error (draft body)))
unfolding encode_submit encode_tpdu
encode_submit-draft to [] reference h g = absurd (g refl)
encode_submit-draft to (c ∷ cs) reference h g = ground (arith, encode_body-draft (c ∷ cs))
