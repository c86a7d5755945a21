-- ===== src/Alert.antt =====
-- The alert throttle of edge-core/src/alert.rs: one code is announced when it starts and then at most once per
-- window, with the number of occurrences held back since.
use vodoge_edge.Common.{
  ℕ, ◌+◌, ◌*◌, ◌-◌, ◌^◌, Bool, Option, none, some, List, [], if◌then◌else◌, min, length,
}
use vodoge_edge.Common.Text.{Text, codes}
use vodoge_edge.Common.Keys.{text_key}
use vodoge_edge.Common.Dict.{Dict, lookup, insert, remove}
use vodoge_edge.Common.Int.{ℤ, pos, max_ℤ, saturating_sub, ltb_ℤ}
pub mod Run
pub mod Tests

-- `DEFAULT_WINDOW_MS`.
abbrev pub default_window_ms : ℤ
default_window_ms = pos (15 * 60 * 1000)

pub data AlertLevel : Type 0 where
  info warning error critical : AlertLevel

-- `wire`.
unfoldable pub wire : AlertLevel → Text
wire AlertLevel.info = codes "info"
wire AlertLevel.warning = codes "warning"
wire AlertLevel.error = codes "error"
wire AlertLevel.critical = codes "critical"

pub data Decision : Type 0 where
  send : Decision
  suppress : Decision
  repeat : (repeats : ℕ) → Decision

pub record Seen : Type 0 where
  pub announced_at : ℤ
  pub held : ℕ

pub record AlertThrottle : Type 0 where
  pub window_ms : ℤ
  pub seen : Dict Text Seen

abbrev pub new_throttle : ℤ → AlertThrottle
new_throttle window_ms = record { window_ms = max_ℤ window_ms (pos 0); seen = [] }

abbrev pub u32_max : ℕ
u32_max = 2 ^ 32 - 1

-- `u32::saturating_add(1)`.
abbrev pub saturating_succ : ℕ → ℕ
saturating_succ n = min (n + 1) u32_max

-- The state of one code after an occurrence at `now`, and the decision.
unfoldable pub consider_entry : ℤ → Option Seen → ℤ → Seen × Decision
consider_entry window_ms none now = (record { announced_at = now; held = 0 }, send)
consider_entry window_ms (some entry) now =
    if ltb_ℤ (saturating_sub now entry.announced_at) window_ms
    then (record entry { held = saturating_succ entry.held }, suppress)
    else (record { announced_at = now; held = 0 }, repeat entry.held)

unfoldable pub consider : AlertThrottle → Text → ℤ → AlertThrottle × Decision
consider t code now =
    let (entry, decision) = consider_entry t.window_ms (lookup code t.seen) now in
    (record t { seen = insert code entry t.seen }, decision)

unfoldable pub clear : AlertThrottle → Text → AlertThrottle
clear t code = record t { seen = remove code t.seen }

unfoldable pub tracked : AlertThrottle → ℕ
tracked t = length t.seen
