-- ===== src/Concat/Partition.antt =====
-- Every slot of a pass goes to one place: one message, or what stays on the modem.
use vodoge_edge.Common.{
  ℕ, ◌+◌, ◌≡◌, refl, ap, List, [], ◌∷◌, if◌then◌else◌, length, get_elem?, ltb, All, arith,
}
use vodoge_edge.Common.Int.{ℤ}
use vodoge_edge.Concat.{
  ConcatPart, Row, GroupKey, Groups, collect, whole_count, rounds, left_over, settle_leftovers,
  settle_group, settle_groups, assemble,
}
use vodoge_edge.Concat.Counts.{
  count, count-slots, in_rows, in_rows-append, in_map, in_map-queues_of, in_map-sort_queues,
  in_sources, in_sources-append, collect_count, settle_leftovers_count,
}
use vodoge_edge.Concat.Rounds.{rounds_and_left}
use vodoge_edge.Concat.Fits.{
  RowFits, MapFits, collect-MapFits, sorted_queues, sorted_queues-QueuesFit,
}
use vodoge_edge.Concat.{queues_of}

settle_group_count :
    (i : ℕ) (parts : List ConcatPart) (now grace : ℤ) (key : GroupKey) (rows : List Row)
    → All (RowFits parts key) rows
    → in_sources i (settle_group now grace key rows).0
        + in_rows i (settle_group now grace key rows).1
      ≡ in_rows i rows
unfolding settle_group
settle_group_count i parts now grace (sender, (ref, total)) rows a =
    let key : GroupKey = (sender, (ref, total)) in
    let queues = sorted_queues parts key rows in
    let fit = sorted_queues-QueuesFit parts key rows a in
    let whole = whole_count total queues in
    let left = left_over whole queues in
    omega (
      arith,
      rounds_and_left i whole total sender queues fit.sorted fit.numbered,
      settle_leftovers_count i now grace sender total left,
      in_sources-append i (rounds whole 0 sender total queues)
          (settle_leftovers now grace sender total left).0,
      in_map-sort_queues i (queues_of rows []),
      in_map-queues_of i rows [],
    )

settle_groups_count :
    (i : ℕ) (parts : List ConcatPart) (now grace : ℤ) (groups : Groups)
    → MapFits (RowFits parts) groups
    → in_sources i (settle_groups now grace groups).0 + in_rows i (settle_groups now grace groups).1
      ≡ in_map i groups
unfolding settle_groups
settle_groups_count i parts now grace [] h = refl
settle_groups_count i parts now grace ((key, rows) ∷ groups) h = omega (
  arith,
  settle_group_count i parts now grace key rows h.0,
  settle_groups_count i parts now grace groups h.1,
  in_sources-append i (settle_group now grace key rows).0 (settle_groups now grace groups).0,
  in_rows-append i (settle_group now grace key rows).1 (settle_groups now grace groups).1,
)

-- Each slot of the pass is a source of exactly one message, once, or stays on the modem, once, and nothing else is a
-- source or stays: no fragment is lost and none is used twice, whatever duplicates and gaps the pass has.
pub assemble_partitions :
    (parts : List ConcatPart) (now grace : ℤ) (i : ℕ)
    → in_sources i (assemble parts now grace).0 + count i (assemble parts now grace).1
      ≡ (if ltb i (length parts) then 1 else 0)
unfolding assemble
assemble_partitions parts now grace i = ground (
  arith,
  collect_count i 0 parts [],
  settle_groups_count i parts now grace (collect 0 parts []).1
      (collect-MapFits parts 0 parts [] (λ j. ap (get_elem? parts) (omega arith)) tt),
  in_sources-append i (collect 0 parts []).0 (settle_groups now grace (collect 0 parts []).1).0,
  count-slots i (settle_groups now grace (collect 0 parts []).1).1,
)
