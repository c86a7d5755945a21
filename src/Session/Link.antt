-- ===== src/Session/Link.antt =====
-- `LinkSession` of edge-uplink/src/session.rs: its state, the handshake, the heartbeat and the backoff.
-- Instants and durations are nanoseconds. `Instant + Duration` and `next_id += 1` panic past the range of
-- their types, which is centuries away; here they do not wrap.
use vodoge_edge.Common.{
  ℕ, zero, suc, ◌+◌, ◌-◌, ◌*◌, ◌/◌, ◌%◌, ◌^◌, Bool, false, Option, none, some, List, [], ◌∷◌, ◌++◌,
  Result, ok, err, length, ltb, leb, if◌then◌else◌, min,
}
use vodoge_edge.Common.Text.{Text, codes, is_blank, decimal_digits}
use vodoge_edge.Common.Int.{ℤ, pos, negsuc}
use vodoge_edge.Session.Wire.{MessageKind, Envelope, ResumePayload, PingPayload, Codec}

abbrev pub nanos_per_sec : ℕ
nanos_per_sec = 1_000_000_000

abbrev pub ping_interval_default : ℕ
ping_interval_default = 30 * nanos_per_sec

abbrev pub idle_timeout_default : ℕ
idle_timeout_default = 90 * nanos_per_sec

abbrev pub initial_backoff_default : ℕ
initial_backoff_default = 1 * nanos_per_sec

abbrev pub max_backoff_default : ℕ
max_backoff_default = 60 * nanos_per_sec

-- `Duration::MAX`.
abbrev pub duration_max : ℕ
duration_max = 2 ^ 64 * nanos_per_sec - 1

pub record ResumeSnapshot : Type 0 where
  pub last_assigned_seq : ℕ
  pub last_acked_seq : ℕ
  pub lowest_retained_seq : Option ℕ
  pub pending_gap_ids : List Text
  pub capability_matrix_version : Text
  pub card_policy_version : Option Text
  pub edge_version : Option Text
  pub queue_records : Option ℤ
  pub queue_bytes : Option ℤ

pub record LinkConfig : Type 0 where
  pub device_id : Text
  pub snapshot : ResumeSnapshot
  pub ping_interval : ℕ
  pub idle_timeout : ℕ
  pub initial_backoff : ℕ
  pub max_backoff : ℕ

pub data Phase : Type 0 where
  idle resuming live backing_off : Phase

pub data SessionError : Type 0 where
  empty_device_id empty_connection_id already_connected not_resuming not_live : SessionError
  device_mismatch connection_mismatch : SessionError
  unexpected_kind : Text → SessionError
  invalid_envelope : Text → SessionError

-- `LinkConfig::new`.
unfoldable pub new_config : Text → ResumeSnapshot → Result SessionError LinkConfig
new_config device_id snapshot =
    if is_blank device_id
    then err empty_device_id
    else ok (record {
      device_id = device_id;
      snapshot = snapshot;
      ping_interval = ping_interval_default;
      idle_timeout = idle_timeout_default;
      initial_backoff = initial_backoff_default;
      max_backoff = max_backoff_default;
    })

pub record LinkSession : Type 0 where
  pub config : LinkConfig
  pub phase : Phase
  pub connection_id : Option Text
  pub committed_through : Option ℕ
  pub max_in_flight : Option ℤ
  pub next_id : ℕ
  pub origin : Option ℕ
  pub next_ping_at : Option ℕ
  pub last_recv_at : Option ℕ
  pub reconnect_at : Option ℕ
  pub backoff : ℕ

abbrev pub new_session : LinkConfig → LinkSession
new_session config = record {
  config = config;
  phase = idle;
  connection_id = none;
  committed_through = none;
  max_in_flight = none;
  next_id = 0;
  origin = none;
  next_ping_at = none;
  last_recv_at = none;
  reconnect_at = none;
  backoff = config.initial_backoff;
}

-- `set_snapshot`.
abbrev pub set_snapshot : LinkSession → ResumeSnapshot → LinkSession
set_snapshot s snapshot = record s { config = record s.config { snapshot = snapshot } }

-- `as i64` of a number of milliseconds: the low 64 bits, read as signed.
as_i64 : ℕ → ℤ
as_i64 n = let w = n % 2 ^ 64 in if ltb w (2 ^ 63) then pos w else negsuc (2 ^ 64 - w - 1)

unfoldable pub timestamp : LinkSession → ℕ → ℤ
unfolding as_i64
timestamp s now = elim s.origin [ none ↦ pos 0 | some origin ↦ as_i64 ((now - origin) / 1_000_000) ]

-- The digits of `{:012}`.
zeros : ℕ → Text
zeros zero = []
zeros (suc n) = b'0' ∷ zeros n

pad12 : ℕ → Text
unfolding zeros decimal_digits
pad12 n = let digits = decimal_digits 20 n [] in zeros (12 - length digits) ++ digits

-- `alloc_id`.
unfoldable pub alloc_id : LinkSession → LinkSession × Text
unfolding pad12
alloc_id s = (
  record s { next_id = s.next_id + 1 },
  codes "00000000-0000-4000-8000-" ++ pad12 (s.next_id + 1),
)

unfoldable pub envelope :
    {Value : Type 0}
    → LinkSession
    → MessageKind
    → Value
    → Option ℕ
    → ℕ
    → LinkSession × Envelope Value
unfolding alloc_id timestamp
envelope s kind payload seq now =
    let (s', id) = alloc_id s in
    (
      s',
      record {
        v = 1;
        kind = kind;
        id = id;
        ts = timestamp s' now;
        device_id = s.config.device_id;
        seq = seq;
        trace_id = none;
        payload = payload;
      },
    )

-- `idle_expired`.
unfoldable pub idle_expired : LinkSession → ℕ → Bool
idle_expired s now = elim s.last_recv_at [
  | none ↦ false
  | some last ↦ leb s.config.idle_timeout (now - last)
]

-- The next wait: `saturating_mul(2)`, capped.
unfoldable pub doubled_backoff : ℕ → ℕ → ℕ
doubled_backoff backoff cap =
    let doubled = min (backoff * 2) duration_max in if ltb cap doubled then cap else doubled

unfoldable pub drop_connection : LinkSession → ℕ → LinkSession
unfolding doubled_backoff
drop_connection s now = record s {
  phase = backing_off;
  connection_id = none;
  origin = none;
  next_ping_at = none;
  last_recv_at = none;
  reconnect_at = some (now + s.backoff);
  backoff = doubled_backoff s.backoff s.config.max_backoff;
}

unfoldable pub on_disconnect : LinkSession → ℕ → LinkSession
on_disconnect s now = elim s.phase [
  | idle ↦ record s { reconnect_at = some (now + s.backoff); phase = backing_off }
  | _ ↦ drop_connection s now
]

module _ {Value : Type 0} (codec : Codec Value) where
  -- The body of `handshake` behind its two checks.
  start_resume : LinkSession → Text → ℕ → LinkSession × Envelope Value
  unfolding envelope
  start_resume s connection_id now =
      let payload : ResumePayload = record {
        connection_id = connection_id;
        last_assigned_seq = s.config.snapshot.last_assigned_seq;
        lowest_retained_seq = s.config.snapshot.lowest_retained_seq;
        last_acked_seq = s.config.snapshot.last_acked_seq;
        pending_gap_ids = s.config.snapshot.pending_gap_ids;
        capability_matrix_version = s.config.snapshot.capability_matrix_version;
        card_policy_version = s.config.snapshot.card_policy_version;
        edge_version = s.config.snapshot.edge_version;
        queue_records = s.config.snapshot.queue_records;
        queue_bytes = s.config.snapshot.queue_bytes;
      } in
      let s' : LinkSession = record s {
        phase = resuming;
        connection_id = some connection_id;
        committed_through = none;
        max_in_flight = none;
        origin = some now;
        next_ping_at = none;
        last_recv_at = some now;
        reconnect_at = none;
      } in
      envelope s' MessageKind.resume (codec.of_resume payload) none now

  open_connection : LinkSession → Text → ℕ → LinkSession × Result SessionError (Envelope Value)
  unfolding start_resume
  open_connection s connection_id now =
      if is_blank connection_id
      then (s, err empty_connection_id)
      else let (s', e) = start_resume s connection_id now in (s', ok e)

  unfoldable pub handshake :
      LinkSession → Text → ℕ → LinkSession × Result SessionError (Envelope Value)
  unfolding open_connection
  handshake s connection_id now = elim s.phase [
    | resuming ↦ (s, err already_connected)
    | live ↦ (s, err already_connected)
    | _ ↦ open_connection s connection_id now
  ]

  -- The ping of `poll`, when it is due on a connection.
  unfoldable pub send_ping : LinkSession → Text → ℕ → LinkSession × Envelope Value
  unfolding envelope
  send_ping s connection_id now =
      let payload : PingPayload = record {
        connection_id = connection_id;
        sent_at = timestamp s now;
      } in
      envelope (record s { next_ping_at = some (now + s.config.ping_interval) }) MessageKind.ping
        (codec.of_ping payload) none now

  unfoldable pub ping_if_due : LinkSession → ℕ → LinkSession × Option (Envelope Value)
  unfolding send_ping
  ping_if_due s now = elim s.next_ping_at [
    | none ↦ (s, none)
    | some due ↦ if ltb now due then (s, none) else elim s.connection_id [
      | none ↦ (s, none)
      | some id ↦ let (s', e) = send_ping s id now in (s', some e)
    ]
  ]

  unfoldable pub poll : LinkSession → ℕ → LinkSession × Option (Envelope Value)
  unfolding ping_if_due
  poll s now = elim s.phase [
    | live ↦ if idle_expired s now then (drop_connection s now, none) else ping_if_due s now
    | _ ↦ (s, none)
  ]
