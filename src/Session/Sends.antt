-- ===== src/Session/Sends.antt =====
-- What a session sends, and what makes it live.
use vodoge_edge.Common.{
  ℕ, ◌+◌, ◌≤◌, ◌<◌, ◌≡◌, refl, ◌≢◌, true, false, Option, none, some, ok, err, arith,
}
use vodoge_edge.Common.Text.{Text}
use vodoge_edge.Common.Keys.{text_eq_iff}
use vodoge_edge.Session.Wire.{MessageKind, Envelope, validate_sequence, Codec}
use vodoge_edge.Session.Link.{
  resuming, live, LinkSession, idle_expired, drop_connection, on_disconnect, handshake, poll,
  alloc_id, envelope,
}
use vodoge_edge.Session.Inbound.{
  on_connection, go_live, on_resume_ack, on_uplink_ack, on_pong, on_protocol_error, dispatch,
  on_inbound,
}
use vodoge_edge.Session.Events.{Event, connects, receives, polls, disconnects, step}

-- An envelope of the session: its own device, an identity that the counter made, and valid to send.
pub record IsOwn {Value : Type 0} (s : LinkSession) (e : Envelope Value) : Type 0 where
  pub addressed : e.device_id ≡ s.config.device_id
  pub fresh : e.id ≡ (alloc_id s).1
  pub valid : validate_sequence e ≡ ok tt
  pub untracked : e.seq ≡ none

pub record IsPing {Value : Type 0} (s : LinkSession) (now : ℕ) (s' : LinkSession)
    (e : Envelope Value) : Type 0 where
  pub spaced : s'.next_ping_at ≡ some (now + s.config.ping_interval)
  pub still : s'.phase ≡ s.phase
  pub counted : s'.next_id ≡ s.next_id + 1
  pub pinging : e.kind ≡ MessageKind.ping
  pub own : IsOwn s e

-- What a poll of a connected session may do.
pub data Polls {Value : Type 0} (s : LinkSession) (now : ℕ)
    : LinkSession → Option (Envelope Value) → Type 0 where
  waits :
      (due : ℕ)
      → s.next_ping_at ≡ some due
      → now < due
      → idle_expired s now ≡ false
      → Polls s now s none
  drops : idle_expired s now ≡ true → Polls s now (drop_connection s now) none
  pings :
      (due : ℕ) (s' : LinkSession) (e : Envelope Value)
      → s.next_ping_at ≡ some due
      → due ≤ now
      → idle_expired s now ≡ false
      → IsPing s now s' e
      → Polls s now s' (some e)

module _ {Value : Type 0} (codec : Codec Value) where
  -- The answer `ack` of the envelope, if it is one, is for the session's own connection.
  abbrev pub Resumes : LinkSession → Event Value → LinkSession → Type 0
  Resumes s (receives env now) s' = elim (codec.to_resume_ack env.payload) [
    | err x ↦ ⊥
    | ok ack ↦
        (env.kind ≡ MessageKind.resume_ack)
        × (env.device_id ≡ s.config.device_id)
        × (s.phase ≡ resuming)
        × (on_connection s ack.connection_id ≡ true)
        × (s' ≡ go_live s ack now)
  ]
  Resumes s _ s' = ⊥

  resume_ack-Resumes :
      (s : LinkSession) (env : Envelope Value) (now : ℕ) (k : MessageKind)
      → env.kind ≡ k
      → env.device_id ≡ s.config.device_id
      → s.phase ≢ live
      → (dispatch codec k s env now).0.phase ≡ live
      → Resumes s (receives env now) (dispatch codec k s env now).0
  unfolding dispatch on_resume_ack on_uplink_ack on_pong on_protocol_error drop_connection
  resume_ack-Resumes s env now MessageKind.resume_ack h d p q = ground arith
  resume_ack-Resumes s env now MessageKind.uplink_ack h d p q = ground arith
  resume_ack-Resumes s env now MessageKind.pong h d p q = ground arith
  resume_ack-Resumes s env now MessageKind.protocol_error h d p q = ground arith
  resume_ack-Resumes s env now _ h d p q = ground arith

  -- Only one thing makes a session live that was not: the answer to its own resume request. It was resuming, the
  -- envelope is a resume answer for its device that names its connection, and what the answer commits is taken over.
  pub live_only_by_resume_ack :
      (s : LinkSession) (e : Event Value)
      → s.phase ≢ live
      → (step codec s e).phase ≡ live
      → Resumes s e (step codec s e)
  unfolding step handshake envelope poll on_disconnect drop_connection on_inbound
  live_only_by_resume_ack s (connects id now) p q = ground arith
  live_only_by_resume_ack s (receives env now) p q = ground (
    arith,
    text_eq_iff env.device_id s.config.device_id,
    resume_ack-Resumes s env now env.kind refl,
  )
  live_only_by_resume_ack s (polls now) p q = ground arith
  live_only_by_resume_ack s (disconnects now) p q = ground arith
