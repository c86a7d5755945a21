-- ===== src/Deliver/Addresses.antt =====
-- A number that the encoder of edge-modem/src/pdu.rs writes is the number that the decoder reads.
use vodoge_edge.Common.{
  ℕ, ◌+◌, ◌-◌, ◌*◌, ◌/◌, ◌%◌, ◌≤◌, ◌≡◌, refl, true, List, [], ◌∷◌, ◌++◌, length, length-append, All,
  ap, ◌∙◌, arith,
}
use vodoge_edge.Common.Text.{Text}
use vodoge_edge.Submit.{is_digit, nibble, bcd_digits, digits_only}
use vodoge_edge.Deliver.{address_digits, decode_address}

abbrev pub AreDigits : Text → Type 0
AreDigits = All (λ c. is_digit c ≡ true)

pub digits_only-AreDigits : (text : Text) → AreDigits (digits_only text)
unfolding digits_only
digits_only-AreDigits [] = tt
digits_only-AreDigits (c ∷ text) = ground (arith, digits_only-AreDigits text)

regroup :
    (out : Text) (lo hi : ℕ) (ds : Text) → ((out ++ lo ∷ []) ++ hi ∷ []) ++ ds ≡ out ++ lo ∷ hi ∷ ds
regroup [] lo hi ds = refl
regroup (x ∷ out) lo hi ds = ap (x ∷◌) (regroup out lo hi ds)

append_nil : (xs : Text) → xs ++ [] ≡ xs
append_nil [] = refl
append_nil (x ∷ xs) = ap (x ∷◌) (append_nil xs)

record HasNibbles (lo hi byte : ℕ) : Type 0 where
  low : 48 + byte % 16 ≡ lo
  high : 48 + byte / 16 ≡ hi
  low_digit : byte % 16 ≤ 9
  high_digit : byte / 16 ≤ 9

two_nibbles :
    (lo hi : ℕ)
    → is_digit lo ≡ true
    → is_digit hi ≡ true
    → HasNibbles lo hi (nibble lo + nibble hi * 16)
two_nibbles lo hi h g = ground arith

two_digits :
    (lo hi byte : ℕ) (bytes : List ℕ) (n : ℕ) (out : Text)
    → HasNibbles lo hi byte
    → length out + 2 ≤ n
    → address_digits (byte ∷ bytes) n out ≡ address_digits bytes n ((out ++ lo ∷ []) ++ hi ∷ [])
unfolding address_digits
two_digits lo hi byte bytes n out b h = ground (arith, length-append out (lo ∷ []))

-- What stands in front is kept, and each digit read is put behind it.
address_digits-bcd :
    (ds out : Text) (n : ℕ)
    → AreDigits ds
    → length out + length ds ≡ n
    → address_digits (bcd_digits ds) n out ≡ out ++ ds
unfolding address_digits bcd_digits
address_digits-bcd [] out n a h = ground (arith, append_nil out)
address_digits-bcd (lo ∷ []) out n a h = ground (arith, length-append out ((48 + (lo - 48)) ∷ []))
address_digits-bcd (lo ∷ hi ∷ ds) out n a h =
    let grown = (out ++ lo ∷ []) ++ hi ∷ [] in
    two_digits lo hi (nibble lo + nibble hi * 16) (bcd_digits ds) n out
      (two_nibbles lo hi a.0 a.1.0) (omega arith)
    ∙ address_digits-bcd ds grown n a.1.1
        (omega (arith, length-append (out ++ lo ∷ []) (hi ∷ []), length-append out (lo ∷ [])))
    ∙ regroup out lo hi ds

-- A national number that the encoder writes, digits and type 0x81, is read back as its digits; and one with type 0x91,
-- when it has a digit, behind a plus sign.
pub decode_address-bcd_digits :
    (ds : Text)
    → AreDigits ds
    → (decode_address (bcd_digits ds) (length ds) 0x81 ≡ ds)
      × (1 ≤ length ds → decode_address (bcd_digits ds) (length ds) 0x91 ≡ 43 ∷ ds)
unfolding decode_address
decode_address-bcd_digits ds a =
    let read = address_digits-bcd ds [] (length ds) a (omega arith) in ground (arith, read)
