-- ===== src/Concat/Tests.antt =====
-- A pass with a duplicate, a whole message and a lost fragment, and the theorems at it.
use vodoge_edge.Common.{ℕ, ◌+◌, ◌≡◌, refl, some, List, [], ◌∷◌, if◌then◌else◌, length, ltb, All}
use vodoge_edge.Common.Text.{codes, decimal_digits}
use vodoge_edge.Common.Dict.{lookup}
use vodoge_edge.Common.Groups.{push}
use vodoge_edge.Common.Int.{pos, ◌-ℤ◌, saturating_sub}
use vodoge_edge.Concat.{
  ConcatPart, AssembledSms, stands_alone, alone, collect, queues_of, stamp_ltb, stamp_eq, row_ltb,
  insert_row, sort_rows, sort_queues, least_length, whole_count, pick, bodies, whole_message,
  rounds, left_over, newest, is_expired, missing_marker, find_seq, patched, released,
  settle_leftovers, settle_group, settle_groups, assemble, fragment_grace_ms,
}
use vodoge_edge.Concat.Counts.{count, in_sources}
use vodoge_edge.Concat.Partition.{assemble_partitions}
use vodoge_edge.Concat.Whole.{Made, assemble-Made}

program : Unit {0}
unfolding decimal_digits lookup push ◌-ℤ◌ saturating_sub stands_alone alone collect queues_of
    stamp_ltb stamp_eq row_ltb insert_row sort_rows sort_queues least_length whole_count pick bodies
    whole_message rounds left_over newest is_expired missing_marker find_seq patched released
    settle_leftovers settle_group settle_groups assemble
program = tt

abbrev part : ℕ → ℕ → ℕ → ℕ → ConcatPart
part ref total seq stamp = record {
  sender = codes "10086";
  ref_id = ref;
  total = total;
  seq = seq;
  body = (96 + seq) ∷ [];
  received_at = some (pos stamp);
}

abbrev pass : List ConcatPart
pass = part 7 2 2 11 ∷ part 0 1 1 5 ∷ part 7 2 1 10 ∷ part 7 2 1 20 ∷ part 9 3 3 30 ∷ []

abbrev sources_of : List AssembledSms → List (List ℕ)
sources_of [] = []
sources_of (m ∷ ms) = m.sources ∷ sources_of ms

-- The pair of reference 7 is whole, its duplicate and the fragment of 9 wait; a day later they are released.
pass_run :
    (sources_of (assemble pass (pos 40) fragment_grace_ms).0 ≡ (1 ∷ []) ∷ (2 ∷ 0 ∷ []) ∷ [])
    × ((assemble pass (pos 40) fragment_grace_ms).1 ≡ 3 ∷ 4 ∷ [])
    × (sources_of (assemble pass (pos 90_000_000) fragment_grace_ms).0
        ≡ (1 ∷ []) ∷ (2 ∷ 0 ∷ []) ∷ (3 ∷ []) ∷ (4 ∷ []) ∷ [])
    × (missing_marker 1 3 ≡ codes "[missing part 1 of 3]")
unfolding program
pass_run = (refl, refl, refl, refl)

assemble_partitions_example :
    in_sources 3 (assemble pass (pos 40) fragment_grace_ms).0
      + count 3 (assemble pass (pos 40) fragment_grace_ms).1
    ≡ (if ltb 3 (length pass) then 1 else 0)
assemble_partitions_example = assemble_partitions pass (pos 40) fragment_grace_ms 3

assemble-Made_example :
    All (Made pass (pos 40) fragment_grace_ms) (assemble pass (pos 40) fragment_grace_ms).0
assemble-Made_example = assemble-Made (pos 40) fragment_grace_ms pass
