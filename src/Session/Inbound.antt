-- ===== src/Session/Inbound.antt =====
-- Inbound envelopes of edge-uplink/src/session.rs: `on_inbound` and its handlers.
use vodoge_edge.Common.{ℕ, ◌+◌, Bool, false, none, some, Result, ok, err, if◌then◌else◌}
use vodoge_edge.Common.Text.{Text, text_eq}
use vodoge_edge.Session.Wire.{
  MessageKind, kind_name, Envelope, validate_sequence, ResumeAckPayload, UplinkAckPayload,
  PongPayload, ProtocolErrorPayload, Codec,
}
use vodoge_edge.Session.Link.{
  resuming, live, SessionError, not_resuming, not_live, device_mismatch, connection_mismatch,
  unexpected_kind, invalid_envelope, LinkSession, drop_connection,
}

pub data Inbound (Value : Type 0) : Type 0 where
  resumed : ResumeAckPayload → Inbound Value
  acknowledged : UplinkAckPayload → Inbound Value
  ponged : PongPayload → Inbound Value
  failed : ProtocolErrorPayload → Inbound Value
  delivered : Envelope Value → Inbound Value
  ignored_stale : Inbound Value

-- `self.connection_id.as_deref() == Some(id)`.
unfoldable pub on_connection : LinkSession → Text → Bool
on_connection s id = elim s.connection_id [ none ↦ false | some own ↦ text_eq own id ]

-- What a ResumeAck of this connection sets.
unfoldable pub go_live : LinkSession → ResumeAckPayload → ℕ → LinkSession
go_live s ack now = record s {
  phase = live;
  committed_through = some ack.committed_through;
  max_in_flight = some ack.max_in_flight;
  last_recv_at = some now;
  next_ping_at = some (now + s.config.ping_interval);
  backoff = s.config.initial_backoff;
  reconnect_at = none;
}

module _ {Value : Type 0} (codec : Codec Value) where
  abbrev Handled : Type 0
  Handled = LinkSession × Result SessionError (Inbound Value)

  unfoldable pub on_resume_ack : LinkSession → Envelope Value → ℕ → Handled
  on_resume_ack s e now = elim s.phase [
    | resuming ↦ elim (codec.to_resume_ack e.payload) [
      | err reason ↦ (s, err (invalid_envelope reason))
      | ok ack ↦
          if on_connection s ack.connection_id
          then (go_live s ack now, ok (resumed ack))
          else (s, err connection_mismatch)
    ]
    | _ ↦ (s, err not_resuming)
  ]

  unfoldable pub on_uplink_ack : LinkSession → Envelope Value → ℕ → Handled
  on_uplink_ack s e now = elim s.phase [
    | live ↦ elim (codec.to_uplink_ack e.payload) [
      | err reason ↦ (s, err (invalid_envelope reason))
      | ok ack ↦
          if on_connection s ack.connection_id
          then (
            record s { last_recv_at = some now; committed_through = some ack.committed_through },
            ok (acknowledged ack),
          )
          else (s, ok ignored_stale)
    ]
    | _ ↦ (s, err not_live)
  ]

  unfoldable pub on_pong : LinkSession → Envelope Value → ℕ → Handled
  on_pong s e now = elim s.phase [
    | live ↦ elim (codec.to_pong e.payload) [
      | err reason ↦ (s, err (invalid_envelope reason))
      | ok pong ↦
          if on_connection s pong.connection_id
          then (record s { last_recv_at = some now }, ok (ponged pong))
          else (s, ok ignored_stale)
    ]
    | _ ↦ (s, err not_live)
  ]

  unfoldable pub on_protocol_error : LinkSession → Envelope Value → ℕ → Handled
  on_protocol_error s e now = elim (codec.to_protocol_error e.payload) [
    | err reason ↦ (s, err (invalid_envelope reason))
    | ok error ↦ (drop_connection s now, ok (failed error))
  ]

  -- The match on the kind.
  unfoldable pub dispatch : MessageKind → LinkSession → Envelope Value → ℕ → Handled
  dispatch MessageKind.resume_ack s e now = on_resume_ack s e now
  dispatch MessageKind.uplink_ack s e now = on_uplink_ack s e now
  dispatch MessageKind.pong s e now = on_pong s e now
  dispatch MessageKind.protocol_error s e now = on_protocol_error s e now
  dispatch MessageKind.command_deliver s e now = (s, ok (delivered e))
  dispatch other s e now = (s, err (unexpected_kind (kind_name other)))

  unfoldable pub on_inbound : LinkSession → Envelope Value → ℕ → Handled
  on_inbound s e now = elim (validate_sequence e) [
    | err reason ↦ (s, err (invalid_envelope reason))
    | ok u ↦
        if text_eq e.device_id s.config.device_id
        then dispatch e.kind s e now
        else (s, err device_mismatch)
  ]
