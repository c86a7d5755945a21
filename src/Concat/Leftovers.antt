-- ===== src/Concat/Leftovers.antt =====
-- What is left of a group after its whole messages: in the order of the slots, with a number that no row has.
use vodoge_edge.Common.{
  ℕ, zero, suc, ◌+◌, ◌≤◌, ◌<◌, ◌≡◌, ◌≢◌, refl, ◌⊎◌, true, false, List, [], ◌∷◌, min, length, drop,
  ltb, ◌==◌, All, All-append, All-mono, Bool-cases, ==_iff, inl, inr, ap, sym, ◌∙◌, arith,
}
use vodoge_edge.Common.Keys.{nat_key}
use vodoge_edge.Common.Dict.{Above, Above-weaken, Above-IsSorted, IsSorted, lookup}
use vodoge_edge.Concat.{
  ConcatPart, Row, GroupKey, Queues, insert_row, sort_rows, queue_at, least_length, whole_count,
  left_over, slot_ltb,
}
use vodoge_edge.Concat.Fits.{InQueue, MapFits, insert-All}

-- The slots ascend.
abbrev pub Ascends : List Row → Type 0
Ascends [] = Unit
Ascends (r ∷ rows) = All (λ q. r.slot ≤ q.slot) rows × Ascends rows

-- No row has the number `n`.
abbrev pub Lacks : ℕ → List Row → Type 0
Lacks n = All (λ r. r.part.seq ≢ n)

-- A number from 1 to `total` that no row has.
abbrev pub HasGap : ℕ → List Row → Type 0
HasGap total rows = (n : ℕ) × (1 ≤ n) × (n ≤ total) × Lacks n rows

least_length-attained :
    (cnt seq : ℕ) (m : Queues) (least : ℕ)
    → (least_length cnt seq m least ≡ least)
      ⊎ ((n : ℕ) × (seq ≤ n)
          × (n < seq + cnt)
          × (least_length cnt seq m least ≡ length (queue_at n m)))
unfolding least_length
least_length-attained zero seq m least = inl refl
least_length-attained (suc cnt) seq m least =
    elim (least_length-attained cnt (suc seq) m (min least (length (queue_at seq m)))) [
      | inl e ↦ elim (Bool-cases (ltb least (length (queue_at seq m)))) [
        | inl l ↦ inl (e ∙ ground (arith, l))
        | inr l ↦ inr (seq, omega arith, omega arith, e ∙ ground (arith, l))
      ]
      | inr (n, b, c, e) ↦ inr (n, omega arith, omega arith, e)
    ]

-- The number of whole messages is the length of one of the queues.
whole_count-attained :
    (total : ℕ) (m : Queues)
    → 1 ≤ total
    → (n : ℕ) × (1 ≤ n) × (n ≤ total) × (whole_count total m ≡ length (queue_at n m))
unfolding whole_count
whole_count-attained zero m h = absurd (omega arith)
whole_count-attained (suc rest) m h =
    elim (least_length-attained rest 2 m (length (queue_at 1 m))) [
      | inl e ↦ (1, omega arith, omega arith, e)
      | inr (n, b, c, e) ↦ (n, omega arith, omega arith, e)
    ]

drop_whole : (rows : List Row) → drop (length rows) rows ≡ []
drop_whole [] = refl
drop_whole (r ∷ rows) = drop_whole rows

drop-All : (P : Row → Type 0) (n : ℕ) (rows : List Row) → All P rows → All P (drop n rows)
drop-All P zero rows a = a
drop-All P (suc n) [] a = tt
drop-All P (suc n) (x ∷ rows) a = drop-All P n rows a.1

pub queue_at_hit :
    (k seq : ℕ) (rows : List Row) (m : Queues)
    → (k == seq) ≡ true
    → queue_at seq ((k, rows) ∷ m) ≡ rows
unfolding lookup
queue_at_hit k seq rows m e = ground arith

pub queue_at_miss :
    (k seq : ℕ) (rows : List Row) (m : Queues)
    → (k == seq) ≡ false
    → queue_at seq ((k, rows) ∷ m) ≡ queue_at seq m
unfolding lookup
queue_at_miss k seq rows m e = ground arith

module _ (parts : List ConcatPart) (key : GroupKey) where
  pub left_over-All :
      (P : Row → Type 0) (whole : ℕ) (m : Queues)
      → ((k : ℕ) (r : Row) → InQueue parts key k r → P r)
      → MapFits (InQueue parts key) m
      → All P (left_over whole m)
  unfolding left_over
  left_over-All P whole [] f h = tt
  left_over-All P whole ((k, rows) ∷ m) f h =
      All-append P (drop whole rows) (left_over whole m)
        (All-mono (InQueue parts key k) P (drop whole rows) (f k)
          (drop-All (InQueue parts key k) whole rows h.0))
        (left_over-All P whole m f h.1)

  -- Queues of other numbers.
  others :
      (n whole : ℕ) (m : Queues)
      → Above n m
      → MapFits (InQueue parts key) m
      → Lacks n (left_over whole m)
  unfolding left_over
  others n whole [] a h = tt
  others n whole ((k, rows) ∷ m) a h =
      All-append (λ r. r.part.seq ≢ n) (drop whole rows) (left_over whole m)
        (All-mono (InQueue parts key k) (λ r. r.part.seq ≢ n) (drop whole rows)
          (λ r f e. ground (arith, f.numbered, e, a.0))
          (drop-All (InQueue parts key k) whole rows h.0))
        (others n whole m (Above-weaken n k m a.0 a.1) h.1)

  emptied :
      (n whole : ℕ) (m : Queues)
      → whole ≡ length (queue_at n m)
      → IsSorted m
      → MapFits (InQueue parts key) m
      → Lacks n (left_over whole m)
  unfolding left_over
  emptied n whole [] e s h = tt
  emptied n whole ((k, rows) ∷ m) e s h = elim (Bool-cases (k == n)) [
    | inl f ↦
        All-append (λ r. r.part.seq ≢ n) (drop whole rows) (left_over whole m)
          (rw (e, queue_at_hit k n rows m f, drop_whole rows) tt)
          (others n whole m (rw (sym ((==_iff k n).0 f)) s) h.1)
    | inr f ↦
        All-append (λ r. r.part.seq ≢ n) (drop whole rows) (left_over whole m)
          (All-mono (InQueue parts key k) (λ r. r.part.seq ≢ n) (drop whole rows)
            (λ r g q. ground (arith, g.numbered, q, f))
            (drop-All (InQueue parts key k) whole rows h.0))
          (emptied n whole m (e ∙ ap length (queue_at_miss k n rows m f)) (Above-IsSorted k m s)
            h.1)
  ]

  -- Whatever the whole messages of a group leave lacks a number.
  pub left_over-HasGap :
      (m : Queues)
      → 1 ≤ key.1.1
      → IsSorted m
      → MapFits (InQueue parts key) m
      → HasGap key.1.1 (left_over (whole_count key.1.1 m) m)
  left_over-HasGap m b s h =
      let (n, low, high, e) = whole_count-attained key.1.1 m b in
      (n, low, high, emptied n (whole_count key.1.1 m) m e s h)

  insert-Ascends : (r : Row) (rows : List Row) → Ascends rows → Ascends (insert_row slot_ltb r rows)
  unfolding insert_row
  insert-Ascends r [] h = (tt, tt)
  insert-Ascends r (q ∷ rows) h = elim (Bool-cases (slot_ltb r q)) [
    | inl e ↦ rw e (
      (
        ground (arith, e),
        All-mono (λ p. q.slot ≤ p.slot) (λ p. r.slot ≤ p.slot) rows (λ p g. ground (arith, e, g))
            h.0,
      ),
      h,
    )
    | inr e ↦ rw e (
      insert-All parts key (λ p. q.slot ≤ p.slot) slot_ltb r rows (ground (arith, e)) h.0,
      insert-Ascends r rows h.1,
    )
  ]

  pub sort_rows-Ascends : (rows : List Row) → Ascends (sort_rows slot_ltb rows)
  unfolding sort_rows
  sort_rows-Ascends [] = tt
  sort_rows-Ascends (r ∷ rows) = insert-Ascends r (sort_rows slot_ltb rows) (sort_rows-Ascends rows)
