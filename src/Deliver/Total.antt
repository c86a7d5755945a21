-- ===== src/Deliver/Total.antt =====
-- No octets make the decoders panic: every index and slice is in range.
use vodoge_edge.Common.{
  ℕ, zero, suc, ◌+◌, ◌-◌, ◌≤◌, ◌≡◌, refl, Bool, true, false, List, [], ◌∷◌, length, is_some, arith,
}
use vodoge_edge.Common.Text.{Text}
use vodoge_edge.Common.Checked.{get_elem-total, slice-total, slice_from-total}
use vodoge_edge.Deliver.{Concat, elements, split_user_data_header, deliver_fields, decode_deliver}
use vodoge_edge.Deliver.Reports.{report_fields, decode_status_report}

elements-total :
    (fuel : ℕ) (header : List ℕ) (offset : ℕ) (concat : Concat)
    → is_some (elements fuel header offset concat) ≡ true
unfolding elements
elements-total zero header offset concat = refl
elements-total (suc fuel) header offset concat =
    grind (arith, elements-total fuel, get_elem-total, slice-total)

-- More fuel than octets that are left does not change what the loop finds.
enough_fuel :
    (fuel : ℕ) (header : List ℕ) (offset : ℕ) (concat : Concat)
    → length header - offset ≤ fuel
    → elements (suc fuel) header offset concat ≡ elements fuel header offset concat
unfolding elements
enough_fuel zero header offset concat h = ground arith
enough_fuel (suc fuel) header offset concat h = grind (arith, enough_fuel fuel)

split-total : (has_udh : Bool) (ud : List ℕ) → is_some (split_user_data_header has_udh ud) ≡ true
unfolding split_user_data_header
split-total has_udh [] = refl
split-total false (len ∷ rest) = refl
split-total true (len ∷ rest) = grind (arith, elements-total, slice-total, slice_from-total)

deliver_fields-total :
    (pdu : List ℕ) (i : ℕ) (has_udh : Bool) (peer : Text)
    → i + 10 ≤ length pdu
    → is_some (deliver_fields pdu i has_udh peer) ≡ true
unfolding deliver_fields
deliver_fields-total pdu i has_udh peer h = grind (
  arith,
  get_elem-total pdu (i + 1) (omega arith),
  slice-total pdu (i + 2) (i + 9) (omega arith) (omega arith),
  get_elem-total pdu (i + 9) (omega arith),
  slice_from-total pdu (i + 10) h,
  split-total,
)

-- Whatever octets arrive, `decode_deliver` returns a message: no index or slice of it is out of range.
pub decode_deliver-total : (pdu : List ℕ) → is_some (decode_deliver pdu) ≡ true
unfolding decode_deliver
decode_deliver-total [] = refl
decode_deliver-total (smsc_len ∷ rest) =
    grind (arith, get_elem-total, slice-total, deliver_fields-total)

report_fields-total :
    (pdu : List ℕ) (i reference : ℕ) (peer : Text)
    → i + 15 ≤ length pdu
    → is_some (report_fields pdu i reference peer) ≡ true
unfolding report_fields
report_fields-total pdu i reference peer h = grind (
  arith,
  slice-total pdu i (i + 7) (omega arith) (omega arith),
  slice-total pdu (i + 7) (i + 14) (omega arith) (omega arith),
  get_elem-total pdu (i + 14) (omega arith),
)

-- Whatever octets arrive, `decode_status_report` returns, with a report or without: no index or slice of it is out of
-- range.
pub decode_status_report-total : (pdu : List ℕ) → is_some (decode_status_report pdu) ≡ true
unfolding decode_status_report
decode_status_report-total [] = refl
decode_status_report-total (smsc_len ∷ rest) =
    grind (arith, get_elem-total, slice-total, report_fields-total)
