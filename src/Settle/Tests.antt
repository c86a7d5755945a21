-- ===== src/Settle/Tests.antt =====
-- A pass with a known fragment, a whole message and a waiting one, and the theorems at it.
use vodoge_edge.Common.{ℕ, ◌+◌, ◌≡◌, refl, true, false, not, some, List, [], ◌∷◌}
use vodoge_edge.Common.Text.{codes}
use vodoge_edge.Common.Dict.{lookup}
use vodoge_edge.Common.Groups.{push}
use vodoge_edge.Common.Int.{pos, ◌-ℤ◌, saturating_sub}
use vodoge_edge.Concat.{
  stands_alone, alone, collect, queues_of, stamp_ltb, stamp_eq, row_ltb, insert_row, sort_rows,
  sort_queues, least_length, whole_count, pick, bodies, whole_message, rounds, left_over, newest,
  is_expired, missing_marker, find_seq, patched, released, settle_leftovers, settle_group,
  settle_groups, assemble,
}
use vodoge_edge.Settle.{
  InboundFragment, insert_slot, sort_dedup, ready_slots, deletable, partition_seen, pick_all,
  encoding_of, settle_message, settle_messages, settle_inbound,
}
use vodoge_edge.Settle.Cleared.{mem, waiting, deletable_unless_waiting}

program : Unit {0}
unfolding lookup push ◌-ℤ◌ saturating_sub stands_alone alone collect queues_of stamp_ltb stamp_eq
    row_ltb insert_row sort_rows sort_queues least_length whole_count pick bodies whole_message
    rounds left_over newest is_expired missing_marker find_seq patched released settle_leftovers
    settle_group settle_groups assemble insert_slot sort_dedup ready_slots deletable partition_seen
    pick_all encoding_of settle_message settle_messages settle_inbound waiting
program = tt

abbrev fragment : ℕ → ℕ → ℕ → InboundFragment
fragment slot ref seq = record {
  slot = slot;
  encoding = codes "gsm7";
  fingerprint = slot ∷ [];
  part = record {
    sender = codes "10086";
    ref_id = ref;
    total = 2;
    seq = seq;
    body = (96 + seq) ∷ [];
    received_at = some (pos 5);
  };
}

abbrev pass : List InboundFragment
pass = fragment 14 7 2 ∷ fragment 11 3 1 ∷ fragment 12 7 1 ∷ fragment 13 9 1 ∷ []

-- The pair goes, the known fragment too, and the one without its sibling stays.
pass_run :
    (deletable (settle_inbound pass (false ∷ true ∷ []) (pos 9)) ≡ 11 ∷ 12 ∷ 14 ∷ [])
    × (waiting pass (false ∷ true ∷ []) (pos 9) ≡ 13 ∷ [])
    × ((settle_inbound pass (false ∷ true ∷ []) (pos 9)).pending ≡ 1)
unfolding program
pass_run = (refl, refl, refl)

deletable_unless_waiting_example :
    mem 13 (deletable (settle_inbound pass (false ∷ true ∷ []) (pos 9)))
    ≡ not (mem 13 (waiting pass (false ∷ true ∷ []) (pos 9)))
deletable_unless_waiting_example = deletable_unless_waiting pass (false ∷ true ∷ []) (pos 9) 13 refl
