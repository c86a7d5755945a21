-- ===== src/Session/Cases.antt =====
-- What one inbound envelope, and one poll, does to a session.
use vodoge_edge.Common.{ℕ, ◌≡◌, true, some, Result, ok, err, is_some, arith}
use vodoge_edge.Common.Text.{Text}
use vodoge_edge.Common.Keys.{text_eq_iff}
use vodoge_edge.Session.Wire.{MessageKind, Envelope, validate_sequence, is_sequenced, Codec}
use vodoge_edge.Session.Link.{resuming, live, LinkSession, SessionError, drop_connection}
use vodoge_edge.Session.Inbound.{
  Inbound, resumed, acknowledged, ponged, failed, delivered, ignored_stale, on_connection, go_live,
  on_resume_ack, on_uplink_ack, on_pong, on_protocol_error, dispatch, on_inbound,
}

-- What a result of `on_inbound` says of the session that it leaves.
abbrev pub Explains :
    {Value : Type 0}
    → LinkSession
    → Envelope Value
    → ℕ
    → LinkSession
    → Result SessionError (Inbound Value)
    → Type 0
Explains s e now s' (err x) = s' ≡ s
Explains s e now s' (ok ignored_stale) = (s' ≡ s) × (s.phase ≡ live)
Explains s e now s' (ok (resumed ack)) =
    (s.phase ≡ resuming) × (s.connection_id ≡ some ack.connection_id) × (s' ≡ go_live s ack now)
Explains s e now s' (ok (acknowledged ack)) =
    (s.phase ≡ live)
    × (s.connection_id ≡ some ack.connection_id)
    × (s' ≡ record s { last_recv_at = some now; committed_through = some ack.committed_through })
Explains s e now s' (ok (ponged pong)) =
    (s.phase ≡ live)
    × (s.connection_id ≡ some pong.connection_id)
    × (s' ≡ record s { last_recv_at = some now })
Explains s e now s' (ok (failed error)) = s' ≡ drop_connection s now
Explains s e now s' (ok (delivered e')) = (s' ≡ s) × (e' ≡ e)

on_connection_iff :
    (s : LinkSession) (id : Text) → on_connection s id ≡ true → s.connection_id ≡ some id
unfolding on_connection
on_connection_iff s id h = grind (arith, text_eq_iff)

module _ {Value : Type 0} (codec : Codec Value) where
  dispatch-Explains :
      (k : MessageKind) (s : LinkSession) (e : Envelope Value) (now : ℕ)
      → Explains s e now (dispatch codec k s e now).0 (dispatch codec k s e now).1
  unfolding dispatch on_resume_ack on_uplink_ack on_pong on_protocol_error
  dispatch-Explains MessageKind.resume_ack s e now = grind (arith, on_connection_iff)
  dispatch-Explains MessageKind.uplink_ack s e now = grind (arith, on_connection_iff)
  dispatch-Explains MessageKind.pong s e now = grind (arith, on_connection_iff)
  dispatch-Explains _ s e now = ground arith

  -- Whatever envelope arrives, and whatever the phase: an error or a stale answer leaves the session as it was, and
  -- only a live session ignores one as stale; a resume answer is taken only while resuming and only with the
  -- session's own connection id, and makes it live; an acknowledgement and a pong are taken only while live and with
  -- that id, and set the time of the last message and, for the first, the committed sequence; a protocol error drops
  -- the connection; a command is handed over and changes nothing.
  pub on_inbound-Explains :
      (s : LinkSession) (e : Envelope Value) (now : ℕ)
      → Explains s e now (on_inbound codec s e now).0 (on_inbound codec s e now).1
  unfolding on_inbound
  on_inbound-Explains s e now = ground (arith, dispatch-Explains e.kind s e now)

  check_kept :
      (e : Envelope Value) → validate_sequence e ≡ ok tt → is_some e.seq ≡ is_sequenced e.kind
  unfolding validate_sequence
  check_kept e h = ground arith

  -- Only an envelope that is addressed to the session's device, and that has a sequence exactly when its kind is
  -- sequenced, is answered without an error.
  pub accepted_envelope :
      (s : LinkSession) (e : Envelope Value) (now : ℕ) (r : Inbound Value)
      → (on_inbound codec s e now).1 ≡ ok r
      → (e.device_id ≡ s.config.device_id) × (is_some e.seq ≡ is_sequenced e.kind)
  unfolding on_inbound validate_sequence
  accepted_envelope s e now r h =
      ground (arith, check_kept e, (text_eq_iff e.device_id s.config.device_id))
