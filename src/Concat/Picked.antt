-- ===== src/Concat/Picked.antt =====
-- The rows of one round: one of each number, of one group.
use vodoge_edge.Common.{
  ℕ, zero, suc, ◌≤◌, ◌<◌, ◌≡◌, refl, some, List, [], ◌∷◌, min, length, get_elem?, ◌==◌, All,
  Bool-cases, ==_iff, inl, inr, sym, arith,
}
use vodoge_edge.Common.Keys.{nat_key, text_key}
use vodoge_edge.Common.Groups.{pair_key}
use vodoge_edge.Common.Dict.{lookup}
use vodoge_edge.Concat.{
  ConcatPart, Row, GroupKey, Queues, queue_at, least_length, whole_count, pick,
}
use vodoge_edge.Concat.Fits.{RowFits, InQueue, MapFits}
use vodoge_edge.Concat.Texts.{range}
use vodoge_edge.Concat.Leftovers.{queue_at_hit, queue_at_miss}

abbrev pub numbers : List Row → List ℕ
numbers [] = []
numbers (r ∷ rows) = r.part.seq ∷ numbers rows

least_length-le :
    (cnt seq : ℕ) (queues : Queues) (least : ℕ) → least_length cnt seq queues least ≤ least
unfolding least_length
least_length-le zero seq queues least = omega arith
least_length-le (suc cnt) seq queues least =
    omega (arith, least_length-le cnt (suc seq) queues (min least (length (queue_at seq queues))))

-- Each of `count` queues from `seq` has a row at `round`.
abbrev pub AllReach : ℕ → ℕ → Queues → ℕ → Type 0
AllReach zero seq queues round = Unit
AllReach (suc cnt) seq queues round =
    (round < length (queue_at seq queues)) × AllReach cnt (suc seq) queues round

least_length-AllReach :
    (cnt seq : ℕ) (queues : Queues) (least round : ℕ)
    → round < least_length cnt seq queues least
    → AllReach cnt seq queues round
unfolding least_length
least_length-AllReach zero seq queues least round h = tt
least_length-AllReach (suc cnt) seq queues least round h = (
  omega (arith, least_length-le cnt (suc seq) queues (min least (length (queue_at seq queues)))),
  least_length-AllReach cnt (suc seq) queues (min least (length (queue_at seq queues))) round h,
)

pub whole_count-AllReach :
    (total : ℕ) (queues : Queues) (round : ℕ)
    → round < whole_count total queues
    → AllReach total 1 queues round
unfolding whole_count
whole_count-AllReach zero queues round h = tt
whole_count-AllReach (suc rest) queues round h = (
  omega (arith, least_length-le rest 2 queues (length (queue_at 1 queues))),
  least_length-AllReach rest 2 queues (length (queue_at 1 queues)) round h,
)

get_at :
    (P : Row → Type 0) (rows : List Row) (n : ℕ)
    → All P rows
    → n < length rows
    → (r : Row) × (get_elem? rows n ≡ some r) × P r
get_at P [] n a h = ground arith
get_at P (x ∷ rows) zero a h = (x, refl, a.0)
get_at P (x ∷ rows) (suc n) a h = get_at P rows n a.1 (omega arith)

module _ (parts : List ConcatPart) (key : GroupKey) where
  queue_at-InQueue :
      (seq : ℕ) (m : Queues)
      → MapFits (InQueue parts key) m
      → All (InQueue parts key seq) (queue_at seq m)
  unfolding lookup
  queue_at-InQueue seq [] h = tt
  queue_at-InQueue seq ((k, rows) ∷ m) h = elim (Bool-cases (k == seq)) [
    | inl e ↦ rw (queue_at_hit k seq rows m e) (rw (sym ((==_iff k seq).0 e)) h.0)
    | inr e ↦ rw (queue_at_miss k seq rows m e) (queue_at-InQueue seq m h.1)
  ]

  pick_step :
      (cnt seq : ℕ) (m : Queues) (round : ℕ) (r : Row)
      → get_elem? (queue_at seq m) round ≡ some r
      → pick (suc cnt) seq m round ≡ r ∷ pick cnt (suc seq) m round
  unfolding pick
  pick_step cnt seq m round r e = ground arith

  pub pick_fits :
      (cnt seq : ℕ) (m : Queues) (round : ℕ)
      → MapFits (InQueue parts key) m
      → AllReach cnt seq m round
      → All (RowFits parts key) (pick cnt seq m round)
        × (numbers (pick cnt seq m round) ≡ range seq cnt)
  unfolding pick
  pick_fits zero seq m round h a = (tt, refl)
  pick_fits (suc cnt) seq m round h a =
      let (r, e, p) =
        get_at (InQueue parts key seq) (queue_at seq m) round (queue_at-InQueue seq m h) a.0 in
      let (fits, numbered) = pick_fits cnt (suc seq) m round h a.1 in
      rw (pick_step cnt seq m round r e) ((p.fits, fits), rw (p.numbered, numbered) refl)
