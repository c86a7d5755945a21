-- ===== src/Concat/Whole.antt =====
-- What each message of a pass is made of.
use vodoge_edge.Common.{
  ℕ, zero, suc, ◌+◌, ◌≤◌, ◌≡◌, ◌≢◌, ap, true, some, List, [], ◌∷◌, get_elem?, All, All-append,
  Bool-cases, inl, inr, arith,
}
use vodoge_edge.Common.Keys.{nat_key, text_key}
use vodoge_edge.Common.Groups.{pair_key, push}
use vodoge_edge.Common.Int.{ℤ}
use vodoge_edge.Concat.{
  ConcatPart, AssembledSms, Row, GroupKey, Groups, Queues, stands_alone, alone, collect, slots,
  sort_rows, whole_count, pick, whole_message, rounds, left_over, is_expired, released, slot_ltb,
  settle_leftovers, settle_group, settle_groups, assemble,
}
use vodoge_edge.Concat.Fits.{
  RowFits, InQueue, MapFits, sort-All, sorted_queues, sorted_queues-QueuesFit, collect-MapFits,
  StandsFrom, StandsFrom-first, StandsFrom-next,
}
use vodoge_edge.Concat.Texts.{
  range, text_of, bodies-text_of, marked, gaps, patched-marked, IsOld, is_expired-IsOld, is_dated,
  is_expired-is_dated,
}
use vodoge_edge.Concat.Picked.{numbers, whole_count-AllReach, pick_fits}
use vodoge_edge.Concat.Leftovers.{
  Ascends, HasGap, left_over-All, left_over-HasGap, sort_rows-Ascends,
}

-- How a message of the pass `parts` may arise.
pub data Made (parts : List ConcatPart) (now grace : ℤ) : AssembledSms → Type 0 where
  of_one :
      (r : Row)
      → get_elem? parts r.slot ≡ some r.part
      → stands_alone r.part ≡ true
      → Made parts now grace (record {
        sender = r.part.sender;
        body = r.part.body;
        parts = 1;
        sources = r.slot ∷ [];
        missing = [];
      })
  of_all :
      (key : GroupKey) (rows : List Row)
      → All (RowFits parts key) rows
      → numbers rows ≡ range 1 key.1.1
      → Made parts now grace (record {
        sender = key.0;
        body = text_of rows;
        parts = key.1.1;
        sources = slots rows;
        missing = [];
      })
  of_expired :
      (key : GroupKey) (rows : List Row)
      → All (RowFits parts key) rows
      → Ascends rows
      → HasGap key.1.1 rows
      → is_dated rows ≡ true
      → All (IsOld now grace) rows
      → Made parts now grace (record {
        sender = key.0;
        body = marked key.1.1 rows (range 1 key.1.1);
        parts = key.1.1;
        sources = slots rows;
        missing = gaps rows (range 1 key.1.1);
      })

whole-Made :
    (parts : List ConcatPart) (now grace : ℤ) (key : GroupKey) (rows : List Row)
    → All (RowFits parts key) rows
    → numbers rows ≡ range 1 key.1.1
    → Made parts now grace (whole_message key.0 key.1.1 rows)
unfolding whole_message
whole-Made parts now grace key rows fits numbered =
    rw (bodies-text_of rows) (of_all key rows fits numbered)

released-Made :
    (parts : List ConcatPart) (now grace : ℤ) (key : GroupKey) (rows : List Row)
    → All (RowFits parts key) rows
    → Ascends rows
    → HasGap key.1.1 rows
    → is_expired now grace rows ≡ true
    → Made parts now grace (released key.0 key.1.1 rows)
unfolding released
released-Made parts now grace key rows fits ascends gap e =
    rw (patched-marked key.1.1 1 key.1.1 rows) (
      of_expired key rows fits ascends gap (is_expired-is_dated now grace rows e)
        (is_expired-IsOld now grace rows e))

module _ (parts : List ConcatPart) (key : GroupKey) where
  module _ (now grace : ℤ) where
    rounds-Made :
        (n round : ℕ) (m : Queues)
        → MapFits (InQueue parts key) m
        → round + n ≤ whole_count key.1.1 m
        → All (Made parts now grace) (rounds n round key.0 key.1.1 m)
    unfolding rounds
    rounds-Made zero round m h b = tt
    rounds-Made (suc n) round m h b =
        let (fits, numbered) =
          pick_fits parts key key.1.1 1 m round h
            (whole_count-AllReach key.1.1 m round (omega arith)) in
        (
          whole-Made parts now grace key (pick key.1.1 1 m round) fits numbered,
          rounds-Made n (suc round) m h (omega arith),
        )

    settle_leftovers-Made :
        (rows : List Row)
        → All (RowFits parts key) rows
        → ((1 ≤ key.1.1) → HasGap key.1.1 rows)
        → All (Made parts now grace) (settle_leftovers now grace key.0 key.1.1 rows).0
    unfolding settle_leftovers
    settle_leftovers-Made [] a g = tt
    settle_leftovers-Made (r ∷ rows) a g =
        elim (Bool-cases (is_expired now grace (sort_rows slot_ltb (r ∷ rows)))) [
          | inl e ↦
              let (n, low, high, lacks) = g (omega (arith, a.0.from_one, a.0.to_total)) in
              rw e (
                released-Made parts now grace key (sort_rows slot_ltb (r ∷ rows))
                    (sort-All parts key (RowFits parts key) slot_ltb (r ∷ rows) a)
                    (sort_rows-Ascends parts key (r ∷ rows))
                    (
                      n,
                      low,
                      high,
                      sort-All parts key (λ q. q.part.seq ≢ n) slot_ltb (r ∷ rows) lacks,
                    )
                    e,
                tt,
              )
          | inr e ↦ rw e tt
        ]

    settle_group-Made :
        (rows : List Row)
        → All (RowFits parts key) rows
        → All (Made parts now grace) (settle_group now grace key rows).0
    unfolding settle_group
    settle_group-Made rows a =
        let m = sorted_queues parts key rows in
        let fit = sorted_queues-QueuesFit parts key rows a in
        let whole = whole_count key.1.1 m in
        All-append (Made parts now grace) (rounds whole 0 key.0 key.1.1 m)
          (settle_leftovers now grace key.0 key.1.1 (left_over whole m)).0
          (rounds-Made whole 0 m fit.fits (omega arith))
          (settle_leftovers-Made (left_over whole m)
            (left_over-All parts key (RowFits parts key) whole m (λ k r f. f.fits) fit.fits)
            (λ b. left_over-HasGap parts key m b fit.sorted fit.fits))

module _ (now grace : ℤ) (parts : List ConcatPart) where
  settle_groups-Made :
      (groups : Groups)
      → MapFits (RowFits parts) groups
      → All (Made parts now grace) (settle_groups now grace groups).0
  unfolding settle_groups
  settle_groups-Made [] h = tt
  settle_groups-Made ((key, rows) ∷ groups) h =
      All-append (Made parts now grace) (settle_group now grace key rows).0
        (settle_groups now grace groups).0 (settle_group-Made parts key now grace rows h.0)
        (settle_groups-Made groups h.1)

  collect-Made :
      (slot : ℕ) (rest : List ConcatPart) (groups : Groups)
      → StandsFrom parts slot rest
      → All (Made parts now grace) (collect slot rest groups).0
  unfolding collect alone
  collect-Made slot [] groups f = tt
  collect-Made slot (p ∷ ps) groups f = elim (Bool-cases (stands_alone p)) [
    | inl e ↦ rw e (
      of_one (record { slot = slot; part = p }) (StandsFrom-first parts slot p ps f) e,
      collect-Made (suc slot) ps groups (StandsFrom-next parts slot p ps f),
    )
    | inr e ↦ rw e (
        collect-Made (suc slot) ps
          (push (p.sender, (p.ref_id, p.total)) (record { slot = slot; part = p }) groups)
          (StandsFrom-next parts slot p ps f))
  ]

  -- Every message that a pass makes is made of parts that stand in its source slots, in one of three ways: it is one
  -- part that is no fragment; it has one fragment of each number from 1 to the total, in order, all of one sender,
  -- reference and total; or it is released from one such group, its fragments in the order of their slots, when one
  -- of them has a time, each that has one is older than the grace time, and some number from 1 to the total has no fragment among them:
  -- it then names the numbers without one, and its text has a marker for each.
  pub assemble-Made : All (Made parts now grace) (assemble parts now grace).0
  unfolding assemble
  assemble-Made =
      All-append (Made parts now grace) (collect 0 parts []).0
        (settle_groups now grace (collect 0 parts []).1).0
        (collect-Made 0 parts [] (λ i. ap (get_elem? parts) (omega arith)))
        (settle_groups-Made (collect 0 parts []).1
          (collect-MapFits parts 0 parts [] (λ i. ap (get_elem? parts) (omega arith)) tt))
