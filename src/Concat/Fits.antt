-- ===== src/Concat/Fits.antt =====
-- What the groups and the queues of `assemble` hold: rows of one sender, reference and total, and of one number.
use vodoge_edge.Common.{
  ℕ, suc, ◌+◌, ◌≤◌, ◌≡◌, refl, ap, ◌∙◌, Bool, false, some, get_elem?, List, [], ◌∷◌, All,
  All-append, Bool-cases, inl, inr, arith,
}
use vodoge_edge.Common.Keys.{Key, nat_key, text_key}
use vodoge_edge.Common.Groups.{pair_key, push, push-IsSorted}
use vodoge_edge.Common.Dict.{Dict, Above, IsSorted}
use vodoge_edge.Concat.{
  ConcatPart, Row, GroupKey, Groups, Queues, stands_alone, collect, queues_of, row_ltb, insert_row,
  sort_rows, sort_queues,
}
use vodoge_edge.Concat.Rounds.{AllBelow}

-- A row of the group `key` in the pass `parts`: its part is the one that stands in its slot, has the key's fields, and
-- a number that its header allows.
pub record RowFits (parts : List ConcatPart) (key : GroupKey) (r : Row) : Type 0 where
  pub stands : get_elem? parts r.slot ≡ some r.part
  pub same_sender : r.part.sender ≡ key.0
  pub same_ref : r.part.ref_id ≡ key.1.0
  pub same_total : r.part.total ≡ key.1.1
  pub from_one : 1 ≤ r.part.seq
  pub to_total : r.part.seq ≤ key.1.1

-- Every entry of a map has rows that fit its key.
abbrev pub MapFits : {K : Type 0} → (K → Row → Type 0) → Dict K (List Row) → Type 0
MapFits P [] = Unit
MapFits P ((k, rows) ∷ m) = All (P k) rows × MapFits P m

pub push-MapFits :
    {K : Type 0} ⦃o : Key K⦄
    → (P : K → Row → Type 0) (k : K) (r : Row) (m : Dict K (List Row)) → P k r
    → MapFits P m
    → MapFits P (push k r m)
unfolding push
push-MapFits P k r [] p h = ((p, tt), tt)
push-MapFits ⦃o = o⦄ P k r ((j, rows) ∷ m) p h = elim (Bool-cases (o.beq j k)) [
  | inl e ↦ rw e (All-append (P j) rows (r ∷ []) h.0 (rw ((o.beq_iff j k).0 e) p, tt), h.1)
  | inr e ↦ elim (Bool-cases (o.lt k j)) [
    | inl l ↦ rw (e, l) ((p, tt), h)
    | inr l ↦ rw (e, l) (h.0, push-MapFits P k r m p h.1)
  ]
]

alone_or_RowFits :
    (parts : List ConcatPart) (slot : ℕ) (p : ConcatPart)
    → stands_alone p ≡ false
    → get_elem? parts slot ≡ some p
    → RowFits parts (p.sender, (p.ref_id, p.total)) (record { slot = slot; part = p })
unfolding stands_alone
alone_or_RowFits parts slot p h e = ground arith

-- From `slot` on, the pass `parts` has the parts `rest`.
abbrev pub StandsFrom : List ConcatPart → ℕ → List ConcatPart → Type 0
StandsFrom parts slot rest = (i : ℕ) → get_elem? parts (slot + i) ≡ get_elem? rest i

pub StandsFrom-next :
    (parts : List ConcatPart) (slot : ℕ) (p : ConcatPart) (rest : List ConcatPart)
    → StandsFrom parts slot (p ∷ rest)
    → StandsFrom parts (suc slot) rest
StandsFrom-next parts slot p rest h i = ap (get_elem? parts) (omega arith) ∙ h (suc i)

pub StandsFrom-first :
    (parts : List ConcatPart) (slot : ℕ) (p : ConcatPart) (rest : List ConcatPart)
    → StandsFrom parts slot (p ∷ rest)
    → get_elem? parts slot ≡ some p
StandsFrom-first parts slot p rest h = ap (get_elem? parts) (omega arith) ∙ h 0

pub collect-MapFits :
    (parts : List ConcatPart) (slot : ℕ) (rest : List ConcatPart) (groups : Groups)
    → StandsFrom parts slot rest
    → MapFits (RowFits parts) groups
    → MapFits (RowFits parts) (collect slot rest groups).1
unfolding collect
collect-MapFits parts slot [] groups f h = h
collect-MapFits parts slot (p ∷ ps) groups f h = elim (Bool-cases (stands_alone p)) [
  | inl e ↦ rw e (collect-MapFits parts (suc slot) ps groups (StandsFrom-next parts slot p ps f) h)
  | inr e ↦ rw e (
      collect-MapFits parts (suc slot) ps
        (push (p.sender, (p.ref_id, p.total)) (record { slot = slot; part = p }) groups)
        (StandsFrom-next parts slot p ps f)
        (push-MapFits (RowFits parts) (p.sender, (p.ref_id, p.total))
          (record { slot = slot; part = p }) groups
          (alone_or_RowFits parts slot p e (StandsFrom-first parts slot p ps f)) h))
]

-- A row of the queue of one number, in a group.
pub record InQueue (parts : List ConcatPart) (key : GroupKey) (seq : ℕ) (r : Row) : Type 0 where
  pub fits : RowFits parts key r
  pub numbered : r.part.seq ≡ seq

module _ (parts : List ConcatPart) (key : GroupKey) where
  queues_of-MapFits :
      (rows : List Row) (queues : Queues)
      → All (RowFits parts key) rows
      → MapFits (InQueue parts key) queues
      → MapFits (InQueue parts key) (queues_of rows queues)
  unfolding queues_of
  queues_of-MapFits [] queues a h = h
  queues_of-MapFits (r ∷ rows) queues a h = queues_of-MapFits rows (push r.part.seq r queues) a.1 (
      push-MapFits (InQueue parts key) r.part.seq r queues (record { fits = a.0; numbered = refl })
        h)

  queues_of-IsSorted :
      (rows : List Row) (queues : Queues) → IsSorted queues → IsSorted (queues_of rows queues)
  unfolding queues_of
  queues_of-IsSorted [] queues h = h
  queues_of-IsSorted (r ∷ rows) queues h =
      queues_of-IsSorted rows (push r.part.seq r queues) (push-IsSorted r.part.seq r queues h)

  pub insert-All :
      (P : Row → Type 0) (lt : Row → Row → Bool) (r : Row) (rows : List Row)
      → P r
      → All P rows
      → All P (insert_row lt r rows)
  unfolding insert_row
  insert-All P lt r [] p h = (p, tt)
  insert-All P lt r (q ∷ rows) p h = elim (Bool-cases (lt r q)) [
    | inl e ↦ rw e (p, h)
    | inr e ↦ rw e (h.0, insert-All P lt r rows p h.1)
  ]

  pub sort-All :
      (P : Row → Type 0) (lt : Row → Row → Bool) (rows : List Row)
      → All P rows
      → All P (sort_rows lt rows)
  unfolding sort_rows
  sort-All P lt [] h = tt
  sort-All P lt (r ∷ rows) h = insert-All P lt r (sort_rows lt rows) h.0 (sort-All P lt rows h.1)

  sort_queues-MapFits :
      (queues : Queues)
      → MapFits (InQueue parts key) queues
      → MapFits (InQueue parts key) (sort_queues queues)
  unfolding sort_queues
  sort_queues-MapFits [] h = tt
  sort_queues-MapFits ((seq, rows) ∷ queues) h =
      (sort-All (InQueue parts key seq) row_ltb rows h.0, sort_queues-MapFits queues h.1)

  sort_queues-Above : (b : ℕ) (queues : Queues) → Above b queues → Above b (sort_queues queues)
  unfolding sort_queues
  sort_queues-Above b [] h = tt
  sort_queues-Above b ((seq, rows) ∷ queues) h = (h.0, sort_queues-Above seq queues h.1)

  sort_queues-IsSorted : (queues : Queues) → IsSorted queues → IsSorted (sort_queues queues)
  unfolding sort_queues
  sort_queues-IsSorted [] h = tt
  sort_queues-IsSorted ((seq, rows) ∷ queues) h = sort_queues-Above seq queues h

  push-AllBelow :
      (total seq : ℕ) (r : Row) (m : Queues)
      → 1 ≤ seq
      → seq ≤ total
      → AllBelow total m
      → AllBelow total (push seq r m)
  unfolding push
  push-AllBelow total seq r [] p q h = (p, q, tt)
  push-AllBelow total seq r ((k, rows) ∷ m) p q h = ground (arith, push-AllBelow total seq r m p q)

  queues_of-AllBelow :
      (rows : List Row) (queues : Queues)
      → All (RowFits parts key) rows
      → AllBelow key.1.1 queues
      → AllBelow key.1.1 (queues_of rows queues)
  unfolding queues_of
  queues_of-AllBelow [] queues a h = h
  queues_of-AllBelow (r ∷ rows) queues a h =
      queues_of-AllBelow rows (push r.part.seq r queues) a.1
        (push-AllBelow key.1.1 r.part.seq r queues a.0.from_one a.0.to_total h)

  sort_queues-AllBelow :
      (total : ℕ) (m : Queues) → AllBelow total m → AllBelow total (sort_queues m)
  unfolding sort_queues
  sort_queues-AllBelow total [] h = tt
  sort_queues-AllBelow total ((k, rows) ∷ m) (p, q, h) = (p, q, sort_queues-AllBelow total m h)

  abbrev pub sorted_queues : List Row → Queues
  sorted_queues rows = sort_queues (queues_of rows [])

  -- The queues that a group of fitting rows is read into.
  pub record QueuesFit (queues : Queues) : Type 0 where
    pub sorted : IsSorted queues
    pub numbered : AllBelow key.1.1 queues
    pub fits : MapFits (InQueue parts key) queues

  pub sorted_queues-QueuesFit :
      (rows : List Row) → All (RowFits parts key) rows → QueuesFit (sorted_queues rows)
  sorted_queues-QueuesFit rows a = record {
    sorted = sort_queues-IsSorted (queues_of rows []) (queues_of-IsSorted rows [] tt);
    numbered = sort_queues-AllBelow key.1.1 (queues_of rows []) (queues_of-AllBelow rows [] a tt);
    fits = sort_queues-MapFits (queues_of rows []) (queues_of-MapFits rows [] a tt);
  }
