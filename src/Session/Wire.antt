-- ===== src/Session/Wire.antt =====
-- Envelopes and payloads of contract/src/lib.rs, as far as a session reads or writes them. Payloads are
-- JSON values on the wire: serde_json's conversions are the parameter `Codec`.
use vodoge_edge.Common.{ℕ, Bool, true, false, Option, none, some, List, Result, ok, err, ◌++◌}
use vodoge_edge.Common.Text.{Text, codes}
use vodoge_edge.Common.Int.{ℤ}
use vodoge_edge.Uplink.Types.{SequenceRange}

pub data MessageKind : Type 0 where
  resume resume_ack uplink_ack uplink_gap uplink_gap_ack ping pong : MessageKind
  command_deliver command_receipt sms_received sms_status_report device_state : MessageKind
  command_result esim_inventory alert proxy_traffic protocol_error : MessageKind

-- `as_str`.
unfoldable pub kind_name : MessageKind → Text
kind_name MessageKind.resume = codes "Resume"
kind_name MessageKind.resume_ack = codes "ResumeAck"
kind_name MessageKind.uplink_ack = codes "UplinkAck"
kind_name MessageKind.uplink_gap = codes "UplinkGap"
kind_name MessageKind.uplink_gap_ack = codes "UplinkGapAck"
kind_name MessageKind.ping = codes "Ping"
kind_name MessageKind.pong = codes "Pong"
kind_name MessageKind.command_deliver = codes "CommandDeliver"
kind_name MessageKind.command_receipt = codes "CommandReceipt"
kind_name MessageKind.sms_received = codes "SmsReceived"
kind_name MessageKind.sms_status_report = codes "SmsStatusReport"
kind_name MessageKind.device_state = codes "DeviceState"
kind_name MessageKind.command_result = codes "CommandResult"
kind_name MessageKind.esim_inventory = codes "EsimInventory"
kind_name MessageKind.alert = codes "Alert"
kind_name MessageKind.proxy_traffic = codes "ProxyTraffic"
kind_name MessageKind.protocol_error = codes "ProtocolError"

unfoldable pub is_sequenced : MessageKind → Bool
is_sequenced MessageKind.sms_received = true
is_sequenced MessageKind.sms_status_report = true
is_sequenced MessageKind.device_state = true
is_sequenced MessageKind.command_result = true
is_sequenced MessageKind.esim_inventory = true
is_sequenced MessageKind.alert = true
is_sequenced MessageKind.proxy_traffic = true
is_sequenced _ = false

pub record Envelope (Value : Type 0) : Type 0 where
  pub v : ℕ
  pub kind : MessageKind
  pub id : Text
  pub ts : ℤ
  pub device_id : Text
  pub seq : Option ℕ
  pub trace_id : Option Text
  pub payload : Value

-- `validate_sequence`, by its two tests.
check_sequence : MessageKind → Bool → Option ℕ → Result Text (Unit {0})
unfolding kind_name
check_sequence kind true none = err (kind_name kind ++ codes " requires seq")
check_sequence kind false (some n) = err (kind_name kind ++ codes " must not have seq")
check_sequence kind true (some n) = ok tt
check_sequence kind false none = ok tt

unfoldable pub validate_sequence : {Value : Type 0} → Envelope Value → Result Text (Unit {0})
unfolding check_sequence is_sequenced
validate_sequence e = check_sequence e.kind (is_sequenced e.kind) e.seq

pub record ResumePayload : Type 0 where
  pub connection_id : Text
  pub last_assigned_seq : ℕ
  pub lowest_retained_seq : Option ℕ
  pub last_acked_seq : ℕ
  pub pending_gap_ids : List Text
  pub capability_matrix_version : Text
  pub card_policy_version : Option Text
  pub edge_version : Option Text
  pub queue_records : Option ℤ
  pub queue_bytes : Option ℤ

pub record ResumeAckPayload : Type 0 where
  pub connection_id : Text
  pub committed_through : ℕ
  pub missing_ranges : List SequenceRange
  pub more_missing : Bool
  pub max_in_flight : ℤ
  pub server_time : ℤ

pub record UplinkAckPayload : Type 0 where
  pub connection_id : Text
  pub committed_through : ℕ
  pub missing_ranges : List SequenceRange
  pub more_missing : Bool
  pub max_in_flight : ℤ

pub record PingPayload : Type 0 where
  pub connection_id : Text
  pub sent_at : ℤ

pub record PongPayload : Type 0 where
  pub connection_id : Text
  pub ping_id : Text
  pub server_time : ℤ

pub record ProtocolErrorPayload : Type 0 where
  pub code : Text
  pub message : Text
  pub related_message_id : Option Text
  pub retryable : Bool
  pub retry_after_ms : Option ℤ

-- serde_json: what a session reads out of a value, with the message of a failure, and what it writes.
pub record Codec (Value : Type 0) : Type 0 where
  pub to_resume_ack : Value → Result Text ResumeAckPayload
  pub to_uplink_ack : Value → Result Text UplinkAckPayload
  pub to_pong : Value → Result Text PongPayload
  pub to_protocol_error : Value → Result Text ProtocolErrorPayload
  pub of_resume : ResumePayload → Value
  pub of_ping : PingPayload → Value
