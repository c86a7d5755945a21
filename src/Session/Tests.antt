-- ===== src/Session/Tests.antt =====
-- Runs of a session on small inputs, and the theorems at them.
use vodoge_edge.Common.{
  ◌*◌, ◌≡◌, refl, true, false, none, some, [], ◌∷◌, Result, ok, err, is_some, arith,
}
use vodoge_edge.Common.Text.{Text, codes, is_blank}
use vodoge_edge.Common.Int.{pos}
use vodoge_edge.Session.Wire.{
  MessageKind, kind_name, is_sequenced, Envelope, validate_sequence, ResumePayload,
  ResumeAckPayload, UplinkAckPayload, PingPayload, PongPayload, ProtocolErrorPayload, Codec,
}
use vodoge_edge.Session.Link.{
  resuming, live, backing_off, ResumeSnapshot, LinkConfig, new_config, LinkSession, new_session,
  timestamp, alloc_id, envelope, idle_expired, doubled_backoff, drop_connection, on_disconnect,
  handshake, poll, send_ping, ping_if_due, nanos_per_sec,
}
use vodoge_edge.Session.Inbound.{
  ignored_stale, on_connection, go_live, on_resume_ack, on_uplink_ack, on_pong, on_protocol_error,
  dispatch, on_inbound,
}
use vodoge_edge.Session.Events.{
  IsSane, IsCoherent, connects, receives, polls, disconnects, step, run, new_session-IsCoherent,
  run-IsCoherent,
}
use vodoge_edge.Session.Cases.{Explains, on_inbound-Explains}
use vodoge_edge.Session.Sends.{Resumes, live_only_by_resume_ack}

program : Unit {0}
unfolding is_blank kind_name is_sequenced validate_sequence new_config timestamp alloc_id envelope
    idle_expired doubled_backoff drop_connection on_disconnect handshake poll send_ping ping_if_due
    on_connection go_live on_resume_ack on_uplink_ack on_pong on_protocol_error dispatch on_inbound
    step run
program = tt

-- Values that are one payload each, so that reading one back is a match.
data Payload : Type 0 where
  resume_ack_of : ResumeAckPayload → Payload
  uplink_ack_of : UplinkAckPayload → Payload
  pong_of : PongPayload → Payload
  protocol_error_of : ProtocolErrorPayload → Payload
  resume_of : ResumePayload → Payload
  ping_of : PingPayload → Payload

abbrev read_resume_ack : Payload → Result Text ResumeAckPayload
read_resume_ack (resume_ack_of p) = ok p
read_resume_ack _ = err (codes "missing field")

abbrev read_uplink_ack : Payload → Result Text UplinkAckPayload
read_uplink_ack (uplink_ack_of p) = ok p
read_uplink_ack _ = err (codes "missing field")

abbrev read_pong : Payload → Result Text PongPayload
read_pong (pong_of p) = ok p
read_pong _ = err (codes "missing field")

abbrev read_protocol_error : Payload → Result Text ProtocolErrorPayload
read_protocol_error (protocol_error_of p) = ok p
read_protocol_error _ = err (codes "missing field")

abbrev codec : Codec Payload
codec = record {
  to_resume_ack = read_resume_ack;
  to_uplink_ack = read_uplink_ack;
  to_pong = read_pong;
  to_protocol_error = read_protocol_error;
  of_resume = resume_of;
  of_ping = ping_of;
}

abbrev snapshot : ResumeSnapshot
snapshot = record {
  last_assigned_seq = 4;
  last_acked_seq = 2;
  lowest_retained_seq = some 3;
  pending_gap_ids = [];
  capability_matrix_version = codes "m1";
  card_policy_version = none;
  edge_version = none;
  queue_records = none;
  queue_bytes = none;
}

abbrev config : LinkConfig
config = record {
  device_id = codes "edge";
  snapshot = snapshot;
  ping_interval = 30 * nanos_per_sec;
  idle_timeout = 90 * nanos_per_sec;
  initial_backoff = 1 * nanos_per_sec;
  max_backoff = 60 * nanos_per_sec;
}

config-IsSane : IsSane config
config-IsSane = record { ordered = omega arith; bounded = omega arith }

abbrev answer : Envelope Payload
answer = record {
  v = 1;
  kind = MessageKind.resume_ack;
  id = codes "m";
  ts = pos 0;
  device_id = codes "edge";
  seq = none;
  trace_id = none;
  payload = resume_ack_of (record {
    connection_id = codes "c1";
    committed_through = 2;
    missing_ranges = [];
    more_missing = false;
    max_in_flight = pos 8;
    server_time = pos 0;
  });
}

abbrev stale_ack : Envelope Payload
stale_ack = record answer {
  kind = MessageKind.uplink_ack;
  payload = uplink_ack_of (record {
    connection_id = codes "c0";
    committed_through = 9;
    missing_ranges = [];
    more_missing = false;
    max_in_flight = pos 8;
  });
}

abbrev connected : LinkSession
connected = run codec (new_session config) (connects (codes "c1") 5 ∷ [])

abbrev opened : LinkSession
opened = run codec (new_session config) (connects (codes "c1") 5 ∷ receives answer 7 ∷ [])

-- The first connection goes live, ignores an acknowledgement of another one, pings, and falls silent.
session_run :
    (connected.phase ≡ resuming)
    × (opened.phase ≡ live)
    × (opened.committed_through ≡ some 2)
    × ((on_inbound codec opened stale_ack 9).1 ≡ ok ignored_stale)
    × (is_some (poll codec opened (40 * nanos_per_sec)).1 ≡ true)
    × ((poll codec opened (100 * nanos_per_sec)).0.phase ≡ backing_off)
unfolding program
session_run = (refl, refl, refl, refl, refl, refl)

-- An identity of the session.
first_id : (alloc_id (new_session config)).1 ≡ codes "00000000-0000-4000-8000-000000000001"
unfolding program
first_id = refl

run-IsCoherent_example : IsCoherent (run codec (new_session config) (polls 3 ∷ disconnects 4 ∷ []))
run-IsCoherent_example =
    run-IsCoherent codec (new_session config) (polls 3 ∷ disconnects 4 ∷ []) config-IsSane
      (new_session-IsCoherent config config-IsSane)

on_inbound-Explains_example :
    Explains opened stale_ack 9
      (on_inbound codec opened stale_ack 9).0
      (on_inbound codec opened stale_ack 9).1
on_inbound-Explains_example = on_inbound-Explains codec opened stale_ack 9

live_only_by_resume_ack_example :
    Resumes codec connected (receives answer 7) (step codec connected (receives answer 7))
unfolding program
live_only_by_resume_ack_example =
    live_only_by_resume_ack codec connected (receives answer 7) (ground arith) refl
