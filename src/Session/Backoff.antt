-- ===== src/Session/Backoff.antt =====
-- The waits between attempts to connect, over any number of failures in a row.
use vodoge_edge.Common.{ℕ, zero, suc, ◌+◌, ◌*◌, ◌^◌, ◌≤◌, ◌≡◌, ◌≢◌, some, min, arith}
use vodoge_edge.Session.Link.{LinkSession, idle, doubled_backoff, drop_connection, on_disconnect}
use vodoge_edge.Session.Events.{IsSane}

-- The session after `n` failures, one after another, all at `now`.
abbrev pub failures : ℕ → LinkSession → ℕ → LinkSession
failures zero s now = s
failures (suc n) s now = on_disconnect (failures n s now) now

-- Doubling that stops at a limit: the wait after `n` failures that follow the first.
abbrev pub nth_wait : ℕ → ℕ → ℕ → ℕ
nth_wait zero initial limit = initial
nth_wait (suc n) initial limit = min (nth_wait n initial limit * 2) limit

pow_double : (a n : ℕ) → a * 2 ^ suc n ≡ a * 2 ^ n * 2
pow_double a n = grind arith

nth_wait-closed :
    (n initial limit : ℕ) → initial ≤ limit → nth_wait n initial limit ≡ min (initial * 2 ^ n) limit
nth_wait-closed zero initial limit h = ground arith
nth_wait-closed (suc n) initial limit h =
    ground (arith, nth_wait-closed n initial limit h, pow_double initial n)

wait-IsNth :
    (n : ℕ) (s : LinkSession) (now : ℕ)
    → s.phase ≢ idle
    → IsSane s.config
    → s.backoff ≤ s.config.max_backoff
    → ((failures n s now).backoff ≡ nth_wait n s.backoff s.config.max_backoff)
      × ((failures n s now).config ≡ s.config)
      × ((failures n s now).phase ≢ idle)
unfolding on_disconnect drop_connection doubled_backoff
wait-IsNth zero s now p c h = ground arith
wait-IsNth (suc n) s now p c h = ground (arith, wait-IsNth n s now p c h)

-- `n` failures after a first one that found the session on a connection: the wait to the next attempt is the wait it
-- had, doubled `n` times and never above the limit, and it starts at the last failure.
pub failures_wait :
    (n : ℕ) (s : LinkSession) (now : ℕ)
    → s.phase ≢ idle
    → IsSane s.config
    → s.backoff ≤ s.config.max_backoff
    → (failures (suc n) s now).reconnect_at
      ≡ some (now + min (s.backoff * 2 ^ n) s.config.max_backoff)
unfolding on_disconnect drop_connection
failures_wait n s now p c h =
    ground (arith, wait-IsNth n s now p c h, nth_wait-closed n s.backoff s.config.max_backoff h)
