-- ===== src/Concat/Rounds.antt =====
-- The whole messages of a group: the rounds take exactly the first `whole` rows of each queue.
use vodoge_edge.Common.{
  ℕ, zero, suc, ◌+◌, ◌≤◌, ◌≡◌, refl, none, some, List, [], ◌∷◌, if◌then◌else◌, get_elem?, take,
  drop, ltb, leb, ◌==◌, arith,
}
use vodoge_edge.Common.Text.{Text}
use vodoge_edge.Common.Keys.{nat_key}
use vodoge_edge.Common.Groups.{lookup-Above}
use vodoge_edge.Common.Dict.{lookup, Above-IsSorted, IsSorted}
use vodoge_edge.Concat.{Row, Queues, queue_at, pick, whole_message, rounds, left_over}
use vodoge_edge.Concat.Counts.{
  in_rows, count-slots, in_rows-append, in_rows-take-drop, in_map, in_sources,
}

-- Every key is between 1 and `total`.
abbrev pub AllBelow : ℕ → Queues → Type 0
AllBelow total [] = Unit
AllBelow total ((k, rows) ∷ m) = (1 ≤ k) × (k ≤ total) × AllBelow total m

module _ (i : ℕ) where
  abbrev at_round : List Row → ℕ → ℕ
  at_round rows r = elim (get_elem? rows r) [ none ↦ 0 | some row ↦ if row.slot == i then 1 else 0 ]

  take_first :
      (n r : ℕ) (rows : List Row)
      → in_rows i (take (suc n) (drop r rows))
        ≡ at_round rows r + in_rows i (take n (drop (suc r) rows))
  take_first zero zero [] = ground arith
  take_first (suc n) zero [] = ground arith
  take_first n zero (x ∷ rows) = ground arith
  take_first zero (suc r) [] = ground arith
  take_first (suc n) (suc r) [] = ground arith
  take_first n (suc r) (x ∷ rows) = take_first n r rows

  -- How often `i` stands in the `n` rounds from `r`, over `count` queues from `seq`.
  abbrev columns : ℕ → ℕ → ℕ → ℕ → Queues → ℕ
  columns n r zero seq queues = 0
  columns n r (suc cnt) seq queues =
      in_rows i (take n (drop r (queue_at seq queues))) + columns n r cnt (suc seq) queues

  columns_none : (r cnt seq : ℕ) (queues : Queues) → columns 0 r cnt seq queues ≡ 0
  columns_none r zero seq queues = refl
  columns_none r (suc cnt) seq queues = omega (arith, columns_none r cnt (suc seq) queues)

  columns_first :
      (n r cnt seq : ℕ) (queues : Queues)
      → columns (suc n) r cnt seq queues
        ≡ in_rows i (pick cnt seq queues r) + columns n (suc r) cnt seq queues
  unfolding pick
  columns_first n r zero seq queues = omega arith
  columns_first n r (suc cnt) seq queues =
      ground (arith, columns_first n r cnt (suc seq) queues, take_first n r (queue_at seq queues))

  rounds_count :
      (n r : ℕ) (sender : Text) (total : ℕ) (queues : Queues)
      → in_sources i (rounds n r sender total queues) ≡ columns n r total 1 queues
  unfolding rounds whole_message
  rounds_count zero r sender total queues = ground (arith, columns_none r total 1 queues)
  rounds_count (suc n) r sender total queues = ground (
    arith,
    rounds_count n (suc r) sender total queues,
    columns_first n r total 1 queues,
    count-slots i (pick total 1 queues r),
  )

  -- What the rounds take, queue by queue.
  abbrev kept : ℕ → Queues → ℕ
  kept whole [] = 0
  kept whole ((k, rows) ∷ m) = in_rows i (take whole rows) + kept whole m

  kept_and_left :
      (whole : ℕ) (m : Queues) → kept whole m + in_rows i (left_over whole m) ≡ in_map i m
  unfolding left_over
  kept_and_left whole [] = refl
  kept_and_left whole ((k, rows) ∷ m) = omega (
    arith,
    kept_and_left whole m,
    in_rows-take-drop i whole rows,
    in_rows-append i (drop whole rows) (left_over whole m),
  )

  columns_empty : (whole cnt seq : ℕ) → columns whole 0 cnt seq [] ≡ 0
  unfolding lookup
  columns_empty whole zero seq = refl
  columns_empty zero (suc cnt) seq = ground (arith, columns_empty zero cnt (suc seq))
  columns_empty (suc whole) (suc cnt) seq = ground (arith, columns_empty (suc whole) cnt (suc seq))

  no_rows : (whole : ℕ) → in_rows i (take whole []) ≡ 0
  no_rows zero = refl
  no_rows (suc whole) = refl

  columns_entry :
      (whole cnt seq k : ℕ) (rows : List Row) (m : Queues)
      → lookup k m ≡ none
      → columns whole 0 cnt seq ((k, rows) ∷ m)
        ≡ columns whole 0 cnt seq m
          + (if leb seq k
              then (if ltb k (seq + cnt) then in_rows i (take whole rows) else 0)
              else 0)
  unfolding lookup
  columns_entry whole zero seq k rows m h = ground arith
  columns_entry whole (suc cnt) seq k rows m h =
      ground (arith, columns_entry whole cnt (suc seq) k rows m h, no_rows whole)

  columns_kept :
      (whole total : ℕ) (m : Queues)
      → IsSorted m
      → AllBelow total m
      → columns whole 0 total 1 m ≡ kept whole m
  columns_kept whole total [] a b = columns_empty whole total 1
  columns_kept whole total ((k, rows) ∷ m) a (p, q, b) = ground (
    arith,
    columns_entry whole total 1 k rows m (lookup-Above k m a),
    columns_kept whole total m (Above-IsSorted k m a) b,
  )

  -- The rounds and what is left over have each row of the queues once.
  pub rounds_and_left :
      (whole total : ℕ) (sender : Text) (m : Queues)
      → IsSorted m
      → AllBelow total m
      → in_sources i (rounds whole 0 sender total m) + in_rows i (left_over whole m) ≡ in_map i m
  rounds_and_left whole total sender m a b = omega (
    arith,
    rounds_count whole 0 sender total m,
    columns_kept whole total m a b,
    kept_and_left whole m,
  )
