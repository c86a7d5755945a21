-- ===== src/Deliver/Reports.antt =====
-- SMS-STATUS-REPORT, `decode_status_report` of edge-core/src/pdu.rs. The outer Option is a panic, the inner one the
-- source's own: the octets are no report.
use vodoge_edge.Common.{
  ℕ, ◌+◌, ◌/◌, ◌%◌, Option, none, some, List, [], ◌∷◌, if◌then◌else◌, ltb, leb, ◌==◌, length,
  get_elem?,
}
use vodoge_edge.Common.Text.{Text, codes}
use vodoge_edge.Common.Int.{ℤ}
use vodoge_edge.Common.Checked.{◌>>=◌, slice}
use vodoge_edge.Deliver.{decode_address, decode_timestamp, message_start}

pub record StatusReport : Type 0 where
  pub reference : ℕ
  pub peer : Text
  pub status : Text
  pub status_code : ℕ
  pub submitted_at : Option ℤ
  pub delivered_at : Option ℤ

unfoldable pub delivery_status : ℕ → Text
delivery_status status =
    if leb status 0x1f
    then codes "delivered"
    else if leb status 0x3f
    then codes "pending"
    else if leb status 0x7f
    then codes "failed"
    else codes "unknown"

-- Past the address, at `i`.
unfoldable pub report_fields : List ℕ → ℕ → ℕ → Text → Option (Option StatusReport)
report_fields pdu i reference peer = do
  submitted ← slice pdu i (i + 7)
  delivered ← slice pdu (i + 7) (i + 14)
  status_code ← get_elem? pdu (i + 14)
  some (
      some (record {
        reference = reference;
        peer = peer;
        status = delivery_status status_code;
        status_code = status_code;
        submitted_at = decode_timestamp submitted;
        delivered_at = decode_timestamp delivered;
      }))

unfoldable pub decode_status_report : List ℕ → Option (Option StatusReport)
decode_status_report [] = some none
decode_status_report (smsc_len ∷ rest) =
    let pdu = smsc_len ∷ rest in
    let i = message_start pdu smsc_len in
    if leb (length pdu) i
    then some none
    else (get_elem? pdu i >>= λ first.
        if first % 4 == 2
        then (if leb (length pdu) (i + 1)
            then some none
            else (get_elem? pdu (i + 1) >>= λ reference.
                if leb (length pdu) (i + 3)
                then some none
                else (get_elem? pdu (i + 2) >>= λ digits. get_elem? pdu (i + 3) >>= λ toa.
                    let octets = (digits + 1) / 2 in
                    if ltb (length pdu) (i + 4 + octets + 15)
                    then some none
                    else (slice pdu (i + 4) (i + 4 + octets) >>= λ address.
                        report_fields pdu (i + 4 + octets) reference
                          (decode_address address digits toa)))))
        else some none)
