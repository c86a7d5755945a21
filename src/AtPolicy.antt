-- ===== src/AtPolicy.antt =====
-- Which console commands are sent without being told twice, edge-core/src/at_policy.rs.
use vodoge_edge.Common.{
  ℕ, ◌+◌, ◌-◌, Bool, true, false, ◌&&◌, ◌||◌, not, Option, none, some, List, [], ◌∷◌, ◌++◌,
  if◌then◌else◌, ltb, leb, ◌==◌, length, is_some,
}
use vodoge_edge.Common.Text.{Text, codes, text_eq, is_whitespace}
use vodoge_edge.Capability.{strip_prefix}
pub mod Segments
pub mod Harmful
pub mod Harmless
pub mod Tests

pub data DisruptiveKind : Type 0 where
  radio_kind call_kind message_kind ussd_kind card_kind config_kind unrecognised_kind :
      DisruptiveKind

-- `DisruptiveKind::wire`
unfoldable pub kind_wire : DisruptiveKind → Text
kind_wire radio_kind = codes "radio"
kind_wire call_kind = codes "call"
kind_wire message_kind = codes "message"
kind_wire ussd_kind = codes "ussd"
kind_wire card_kind = codes "card"
kind_wire config_kind = codes "config"
kind_wire unrecognised_kind = codes "unrecognised"

-- `DisruptiveKind::reason`
unfoldable pub kind_reason : DisruptiveKind → Text
kind_reason radio_kind = codes "changes radio or registration state"
kind_reason call_kind = codes "originates or controls a voice call"
kind_reason message_kind = codes "submits or deletes messages"
kind_reason ussd_kind = codes "opens a USSD session with the operator"
kind_reason card_kind = codes "changes UICC state, including PIN attempts"
kind_reason config_kind = codes "changes persistent configuration, resets, or power"
kind_reason unrecognised_kind = codes "is not a single recognisable AT command"

pub data AtRisk : Type 0 where
  safe : AtRisk
  disruptive : DisruptiveKind → AtRisk

unfoldable pub disruptive_kind : AtRisk → Option DisruptiveKind
disruptive_kind safe = none
disruptive_kind (disruptive kind) = some kind

unfoldable pub write_risks : List (Text × DisruptiveKind)
write_risks =
    (codes "CFUN", radio_kind)
    ∷ (codes "COPS", radio_kind)
    ∷ (codes "CGATT", radio_kind)
    ∷ (codes "CEREG", radio_kind)
    ∷ (codes "CREG", radio_kind)
    ∷ (codes "QCFG", config_kind)
    ∷ (codes "CGACT", radio_kind)
    ∷ (codes "QIACT", radio_kind)
    ∷ (codes "QIDEACT", radio_kind)
    ∷ (codes "CNMI", message_kind)
    ∷ (codes "CMGS", message_kind)
    ∷ (codes "CMGW", message_kind)
    ∷ (codes "CMSS", message_kind)
    ∷ (codes "CMGD", message_kind)
    ∷ (codes "CNMA", message_kind)
    ∷ (codes "QCMGS", message_kind)
    ∷ (codes "CUSD", ussd_kind)
    ∷ (codes "CPIN", card_kind)
    ∷ (codes "CLCK", card_kind)
    ∷ (codes "CPWD", card_kind)
    ∷ (codes "CSIM", card_kind)
    ∷ (codes "CRSM", card_kind)
    ∷ (codes "CCHO", card_kind)
    ∷ (codes "CCHC", card_kind)
    ∷ (codes "CGLA", card_kind)
    ∷ (codes "QCCID", card_kind)
    ∷ (codes "EGMR", config_kind)
    ∷ (codes "QNVW", config_kind)
    ∷ (codes "QNVFW", config_kind)
    ∷ (codes "QFDEL", config_kind)
    ∷ (codes "QFUPL", config_kind)
    ∷ (codes "QLINUXCMD", config_kind)
    ∷ (codes "CGDCONT", config_kind)
    ∷ (codes "QPRTPARA", config_kind)
    ∷ (codes "QPOWD", config_kind)
    ∷ (codes "CRESET", config_kind)
    ∷ (codes "QFOTADL", config_kind)
    ∷ (codes "CSCA", config_kind)
    ∷ []

unfoldable pub bare_risks : List (Text × DisruptiveKind)
bare_risks =
    (codes "D", call_kind)
    ∷ (codes "A", call_kind)
    ∷ (codes "H", call_kind)
    ∷ (codes "O", call_kind)
    ∷ (codes "&F", config_kind)
    ∷ (codes "&W", config_kind)
    ∷ (codes "Z", config_kind)
    ∷ []

-- `str::trim`
unfoldable pub trim_left : Text → Text
trim_left [] = []
trim_left (c ∷ text) = let rest = trim_left text in if is_whitespace c then rest else c ∷ text

abbrev pub is_empty : Text → Bool
is_empty [] = true
is_empty (c ∷ text) = false

unfoldable pub trim_right : Text → Text
trim_right [] = []
trim_right (c ∷ text) =
    let rest = trim_right text in if is_empty rest && is_whitespace c then [] else c ∷ rest

abbrev pub trim : Text → Text
trim text = trim_right (trim_left text)

unfoldable pub ascii_uppercase : Text → Text
ascii_uppercase [] = []
ascii_uppercase (c ∷ text) = (if leb 97 c && leb c 122 then c - 32 else c) ∷ ascii_uppercase text

unfoldable pub starts_with_slash : Text → Bool
starts_with_slash [] = false
starts_with_slash (c ∷ rest) = c == 47

unfoldable pub strip_at_prefix : Text → Option Text
strip_at_prefix upper = elim (strip_prefix upper (codes "AT")) [
  | none ↦ none
  | some rest ↦ if starts_with_slash rest then none else some rest
]

abbrev pub is_alphanumeric : ℕ → Bool
is_alphanumeric c = (leb 48 c && leb c 57) || (leb 65 c && leb c 90) || (leb 97 c && leb c 122)

unfoldable pub split_name : Text → Text × Text
split_name [] = ([], [])
split_name (c ∷ extended) =
    let rest = split_name extended in
    if is_alphanumeric c then (c ∷ rest.0, rest.1) else ([], c ∷ extended)

unfoldable pub is_write : Text → Bool
is_write rest = elim (strip_prefix rest (codes "=")) [
  | none ↦ false
  | some value ↦ not (text_eq (trim value) (codes "?"))
]

unfoldable pub find_risk : Text → List (Text × DisruptiveKind) → Option DisruptiveKind
find_risk name [] = none
find_risk name ((candidate, kind) ∷ risks) =
    let rest = find_risk name risks in if text_eq candidate name then some kind else rest

-- `max_by_key` by the length of the name: the longest, the last of those that are as long.
unfoldable pub longer : Option (ℕ × DisruptiveKind) → ℕ × DisruptiveKind → ℕ × DisruptiveKind
longer none next = next
longer (some best) next = if ltb next.0 best.0 then best else next

unfoldable pub longest_risk :
    Text → List (Text × DisruptiveKind) → Option (ℕ × DisruptiveKind) → Option (ℕ × DisruptiveKind)
longest_risk segment [] best = best
longest_risk segment ((name, kind) ∷ risks) best =
    longest_risk segment risks
      (if is_some (strip_prefix segment name) then some (longer best (length name, kind)) else best)

unfoldable pub bare_risk : Text → Option DisruptiveKind
bare_risk segment = elim (longest_risk segment bare_risks none) [
  | none ↦ none
  | some (len, kind) ↦ some kind
]

unfoldable pub extended_risk : Text → Option DisruptiveKind
extended_risk extended =
    let (name, rest) = split_name extended in
    if is_write rest then find_risk name write_risks else none

unfoldable pub segment_risk : Text → Option DisruptiveKind
segment_risk segment =
    let trimmed = trim segment in
    if is_empty trimmed then none else elim (strip_prefix trimmed (codes "+")) [
      | some extended ↦ extended_risk extended
      | none ↦ bare_risk trimmed
    ]

-- `split(';')`
unfoldable pub split_segments : Text → List Text
split_segments [] = [] ∷ []
split_segments (c ∷ body) = elim (split_segments body) [
  | [] ↦ [] ∷ []
  | segment ∷ segments ↦ if c == 59 then [] ∷ segment ∷ segments else (c ∷ segment) ∷ segments
]

-- The loop over the segments.
unfoldable pub first_risk : List Text → AtRisk
first_risk [] = safe
first_risk (segment ∷ segments) =
    let rest = first_risk segments in
    elim (segment_risk segment) [ none ↦ rest | some kind ↦ disruptive kind ]

unfoldable pub classify : Text → AtRisk
classify command = elim (strip_at_prefix (ascii_uppercase (trim command))) [
  | none ↦ disruptive unrecognised_kind
  | some body ↦ if is_empty body then safe else first_risk (split_segments body)
]
