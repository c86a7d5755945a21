-- ===== src/Alert/Tests.antt =====
-- Runs of the throttle on small inputs, and the theorems at them.
use vodoge_edge.Common.{◌≡◌, refl, List, [], ◌∷◌, arith}
use vodoge_edge.Common.Text.{codes}
use vodoge_edge.Common.Keys.{text_key}
use vodoge_edge.Common.Dict.{lookup, insert, remove}
use vodoge_edge.Common.Int.{pos, ◌-ℤ◌, ◌+ℤ◌, saturating_sub}
use vodoge_edge.Alert.{
  send, suppress, repeat, AlertThrottle, new_throttle, wire, AlertLevel, consider_entry, consider,
  clear, tracked,
}
use vodoge_edge.Alert.Run.{
  Event, occurs, clears, signals_of, decisions_of, single, entry_after, Spaced, last_of,
  codes_are_independent, decisions-Spaced,
}

program : Unit {0}
unfolding lookup insert remove ◌-ℤ◌ ◌+ℤ◌ saturating_sub wire consider_entry consider clear tracked
    signals_of decisions_of single entry_after
program = tt

abbrev throttle : AlertThrottle
throttle = new_throttle (pos 100)

abbrev day : List Event
day =
    occurs (codes "modem") (pos 1)
    ∷ occurs (codes "sim") (pos 2)
    ∷ occurs (codes "modem") (pos 50)
    ∷ occurs (codes "modem") (pos 101)
    ∷ clears (codes "modem")
    ∷ occurs (codes "modem") (pos 102)
    ∷ []

-- Sent, held, repeated with the one held back, and new after the repair.
throttle_run :
    (decisions_of (codes "modem") throttle day ≡ send ∷ suppress ∷ repeat 1 ∷ send ∷ [])
    × (tracked (consider throttle (codes "modem") (pos 1)).0 ≡ 1)
    × (wire AlertLevel.error ≡ codes "error")
unfolding program
throttle_run = (refl, refl, refl)

codes_are_independent_example :
    decisions_of (codes "modem") throttle day
    ≡ single throttle.window_ms
        (lookup (codes "modem") throttle.seen)
        (signals_of (codes "modem") day)
codes_are_independent_example = codes_are_independent (codes "modem") throttle day

decisions-Spaced_example :
    Spaced throttle.window_ms
      (last_of (lookup (codes "modem") throttle.seen))
      (signals_of (codes "modem") day)
      (decisions_of (codes "modem") throttle day)
decisions-Spaced_example =
    decisions-Spaced (codes "modem") throttle day (ground arith) (ground arith)
