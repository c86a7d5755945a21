-- ===== src/Session/Events.antt =====
-- What a session keeps over any sequence of events: connections, messages, polls and drops.
use vodoge_edge.Common.{ℕ, ◌≤◌, ◌≡◌, Bool, true, false, List, [], ◌∷◌, is_some, arith}
use vodoge_edge.Common.Text.{Text}
use vodoge_edge.Session.Wire.{MessageKind, Envelope, Codec}
use vodoge_edge.Session.Link.{
  Phase, idle, resuming, live, backing_off, LinkConfig, LinkSession, new_session, duration_max,
  drop_connection, on_disconnect, handshake, poll,
}
use vodoge_edge.Session.Inbound.{
  on_connection, go_live, on_resume_ack, on_uplink_ack, on_pong, on_protocol_error, dispatch,
  on_inbound,
}

abbrev pub is_up : Phase → Bool
is_up idle = false
is_up resuming = true
is_up live = true
is_up backing_off = false

abbrev pub is_live : Phase → Bool
is_live live = true
is_live _ = false

abbrev pub is_backing_off : Phase → Bool
is_backing_off backing_off = true
is_backing_off _ = false

pub record IsSane (c : LinkConfig) : Type 0 where
  pub ordered : c.initial_backoff ≤ c.max_backoff
  pub bounded : c.max_backoff ≤ duration_max

-- The connection, its start and its last receipt are set exactly while a connection is up, the next ping exactly in the
-- live phase, and the time to reconnect exactly while the session waits for it. A live session has a committed sequence
-- and a window, which may stay set after it. The next wait lies in its range.
pub record IsCoherent (s : LinkSession) : Type 0 where
  pub connected : is_some s.connection_id ≡ is_up s.phase
  pub started : is_some s.origin ≡ is_up s.phase
  pub heard : is_some s.last_recv_at ≡ is_up s.phase
  pub pinging : is_some s.next_ping_at ≡ is_live s.phase
  pub waiting : is_some s.reconnect_at ≡ is_backing_off s.phase
  pub committed : s.phase ≡ live → is_some s.committed_through ≡ true
  pub window : s.phase ≡ live → is_some s.max_in_flight ≡ true
  pub patient : s.config.initial_backoff ≤ s.backoff
  pub capped : s.backoff ≤ s.config.max_backoff

pub data Event (Value : Type 0) : Type 0 where
  connects : Text → ℕ → Event Value
  receives : Envelope Value → ℕ → Event Value
  polls : ℕ → Event Value
  disconnects : ℕ → Event Value

drop-IsCoherent :
    (s : LinkSession) (now : ℕ)
    → IsSane s.config
    → IsCoherent s
    → IsCoherent (drop_connection s now)
unfolding drop_connection
drop-IsCoherent s now c h = ground arith

disconnect-IsCoherent :
    (s : LinkSession) (now : ℕ) → IsSane s.config → IsCoherent s → IsCoherent (on_disconnect s now)
unfolding on_disconnect drop_connection
disconnect-IsCoherent s now c h = ground arith

module _ {Value : Type 0} (codec : Codec Value) where
  unfoldable pub step : LinkSession → Event Value → LinkSession
  step s (connects id now) = (handshake codec s id now).0
  step s (receives e now) = (on_inbound codec s e now).0
  step s (polls now) = (poll codec s now).0
  step s (disconnects now) = on_disconnect s now

  unfoldable pub run : LinkSession → List (Event Value) → LinkSession
  run s [] = s
  run s (e ∷ es) = run (step s e) es

  handshake-IsCoherent :
      (s : LinkSession) (id : Text) (now : ℕ)
      → IsCoherent s
      → IsCoherent (handshake codec s id now).0
  unfolding handshake
  handshake-IsCoherent s id now h = ground arith

  poll-IsCoherent :
      (s : LinkSession) (now : ℕ) → IsSane s.config → IsCoherent s → IsCoherent (poll codec s now).0
  unfolding poll
  poll-IsCoherent s now c h = ground (arith, drop-IsCoherent s now c h)

  dispatch-IsCoherent :
      (k : MessageKind) (s : LinkSession) (e : Envelope Value) (now : ℕ)
      → IsSane s.config
      → IsCoherent s
      → IsCoherent (dispatch codec k s e now).0
  unfolding dispatch on_resume_ack on_uplink_ack on_pong on_protocol_error go_live on_connection
  dispatch-IsCoherent MessageKind.resume_ack s e now c h = ground arith
  dispatch-IsCoherent MessageKind.protocol_error s e now c h =
      ground (arith, drop-IsCoherent s now c h)
  dispatch-IsCoherent _ s e now c h = ground arith

  step-IsCoherent :
      (s : LinkSession) (e : Event Value) → IsSane s.config → IsCoherent s → IsCoherent (step s e)
  unfolding step on_inbound
  step-IsCoherent s (connects id now) c h = handshake-IsCoherent s id now h
  step-IsCoherent s (receives e now) c h = ground (arith, dispatch-IsCoherent e.kind s e now c h)
  step-IsCoherent s (polls now) c h = poll-IsCoherent s now c h
  step-IsCoherent s (disconnects now) c h = disconnect-IsCoherent s now c h

  step-config : (s : LinkSession) (e : Event Value) → (step s e).config ≡ s.config
  unfolding step handshake poll on_disconnect drop_connection on_inbound dispatch on_resume_ack
      on_uplink_ack on_pong on_protocol_error go_live
  step-config s (connects id now) = ground arith
  step-config s (receives e now) = elim e.kind [
    | MessageKind.resume_ack ↦ ground arith
    | MessageKind.uplink_ack ↦ ground arith
    | MessageKind.pong ↦ ground arith
    | MessageKind.protocol_error ↦ ground arith
    | _ ↦ ground arith
  ]
  step-config s (polls now) = ground arith
  step-config s (disconnects now) = ground arith

  -- Whatever events reach a coherent session with a sane configuration: the connection, its start and its last receipt
  -- are set exactly while a connection is up, the next ping exactly in the live phase, and the time to reconnect
  -- exactly while the session waits for it; a live session has a committed sequence and a window, which other phases
  -- may have too; and the next wait stays between the first and the longest. The configuration is sane if the first
  -- wait is at most the longest, and that is one that a duration can hold.
  pub run-IsCoherent :
      (s : LinkSession) (es : List (Event Value))
      → IsSane s.config
      → IsCoherent s
      → IsCoherent (run s es)
  unfolding run
  run-IsCoherent s [] c h = h
  run-IsCoherent s (e ∷ es) c h =
      run-IsCoherent (step s e) es (ground (arith, step-config s e)) (step-IsCoherent s e c h)

pub new_session-IsCoherent : (c : LinkConfig) → IsSane c → IsCoherent (new_session c)
new_session-IsCoherent c h = ground arith
