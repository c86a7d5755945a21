-- ===== src/AtPolicy/Tests.antt =====
-- Commands of the console, and the theorems at them.
use vodoge_edge.Common.{◌≡◌, refl, ◌↔◌}
use vodoge_edge.Common.Text.{codes, is_whitespace}
use vodoge_edge.Capability.{strip_prefix}
use vodoge_edge.AtPolicy.{
  radio_kind, call_kind, config_kind, unrecognised_kind, kind_wire, kind_reason, safe, disruptive,
  disruptive_kind, write_risks, bare_risks, trim_left, trim_right, ascii_uppercase,
  starts_with_slash, strip_at_prefix, split_name, is_write, find_risk, longer, longest_risk,
  bare_risk, extended_risk, segment_risk, split_segments, first_risk, classify,
}
use vodoge_edge.AtPolicy.Harmless.{IsPlain, classify-IsPlain}

program : Unit {0}
unfolding is_whitespace strip_prefix kind_wire kind_reason disruptive_kind write_risks bare_risks
    trim_left trim_right ascii_uppercase starts_with_slash strip_at_prefix split_name is_write
    find_risk longer longest_risk bare_risk extended_risk segment_risk split_segments first_risk
    classify
program = tt

-- Reads are safe and writes are held back, in any case and behind a semicolon.
classify_run :
    (classify (codes "AT+CFUN?") ≡ safe)
    × (classify (codes "AT+CFUN=?") ≡ safe)
    × (classify (codes " at+csq;+cfun=0 ") ≡ disruptive radio_kind)
    × (classify (codes "AT&W") ≡ disruptive config_kind)
    × (classify (codes "ATD10086;") ≡ disruptive call_kind)
    × (classify (codes "A/") ≡ disruptive unrecognised_kind)
unfolding program
classify_run = (refl, refl, refl, refl, refl, refl)

-- Forms that the table means to hold back and that pass: a command that acts without a value, and a blank before the
-- equals sign.
passes :
    (classify (codes "AT+CRESET") ≡ safe)
    × (classify (codes "AT+QPOWD") ≡ safe)
    × (classify (codes "AT+CFUN =0") ≡ safe)
unfolding program
passes = (refl, refl, refl)

-- A repetition with or without the T, and a chain with an empty segment.
classify_edges :
    (classify (codes "AT/") ≡ disruptive unrecognised_kind)
    × (classify (codes "AT;;+CSQ") ≡ safe)
    × (classify (codes "AT") ≡ safe)
    × (classify (codes "") ≡ disruptive unrecognised_kind)
unfolding program
classify_edges = (refl, refl, refl, refl)

classify-IsPlain_example :
    (classify (codes "AT+CSQ;+CFUN?") ≡ safe) ↔ IsPlain (codes "AT+CSQ;+CFUN?")
classify-IsPlain_example = classify-IsPlain (codes "AT+CSQ;+CFUN?")
