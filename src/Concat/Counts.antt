-- ===== src/Concat/Counts.antt =====
-- Where each slot of a pass goes: every step of `assemble` keeps how often a slot stands in its rows.
use vodoge_edge.Common.{
  ℕ, zero, suc, ◌+◌, ◌≡◌, refl, Bool, List, [], ◌∷◌, ◌++◌, if◌then◌else◌, length, take, drop, ltb,
  leb, ◌==◌, arith,
}
use vodoge_edge.Common.Text.{Text}
use vodoge_edge.Common.Keys.{Key, nat_key, text_key}
use vodoge_edge.Common.Groups.{pair_key, push}
use vodoge_edge.Common.Dict.{Dict}
use vodoge_edge.Common.Int.{ℤ}
use vodoge_edge.Concat.{
  ConcatPart, AssembledSms, Row, Groups, Queues, alone, collect, queues_of, row_ltb, insert_row,
  sort_rows, sort_queues, slots, released, slot_ltb, settle_leftovers,
}

-- How often `i` stands in a list.
abbrev pub count : ℕ → List ℕ → ℕ
count i [] = 0
count i (x ∷ xs) = (if x == i then 1 else 0) + count i xs

pub count-append : (i : ℕ) (xs ys : List ℕ) → count i (xs ++ ys) ≡ count i xs + count i ys
count-append i [] ys = omega arith
count-append i (x ∷ xs) ys = omega (arith, count-append i xs ys)

abbrev pub in_rows : ℕ → List Row → ℕ
in_rows i [] = 0
in_rows i (r ∷ rows) = (if r.slot == i then 1 else 0) + in_rows i rows

pub count-slots : (i : ℕ) (rows : List Row) → count i (slots rows) ≡ in_rows i rows
count-slots i [] = refl
count-slots i (r ∷ rows) = omega (arith, count-slots i rows)

pub in_rows-append : (i : ℕ) (xs ys : List Row) → in_rows i (xs ++ ys) ≡ in_rows i xs + in_rows i ys
in_rows-append i [] ys = omega arith
in_rows-append i (x ∷ xs) ys = omega (arith, in_rows-append i xs ys)

pub in_rows-take-drop :
    (i n : ℕ) (rows : List Row) → in_rows i (take n rows) + in_rows i (drop n rows) ≡ in_rows i rows
in_rows-take-drop i zero rows = omega arith
in_rows-take-drop i (suc n) [] = refl
in_rows-take-drop i (suc n) (r ∷ rows) = omega (arith, in_rows-take-drop i n rows)

module _ (lt : Row → Row → Bool) (i : ℕ) where
  in_rows-insert :
      (q : Row) (xs : List Row)
      → in_rows i (insert_row lt q xs) ≡ (if q.slot == i then 1 else 0) + in_rows i xs
  unfolding insert_row
  in_rows-insert q [] = refl
  in_rows-insert q (x ∷ xs) = ground (arith, in_rows-insert q xs)

  pub in_rows-sort : (rows : List Row) → in_rows i (sort_rows lt rows) ≡ in_rows i rows
  unfolding sort_rows
  in_rows-sort [] = refl
  in_rows-sort (r ∷ rows) = omega (arith, in_rows-insert r (sort_rows lt rows), in_rows-sort rows)

-- How often `i` stands in a map of rows.
abbrev pub in_map : {K : Type 0} → ℕ → Dict K (List Row) → ℕ
in_map i [] = 0
in_map i ((k, rows) ∷ m) = in_rows i rows + in_map i m

pub in_map-push :
    {K : Type 0} ⦃o : Key K⦄
    → (i : ℕ) (k : K) (r : Row) (m : Dict K (List Row))
    → in_map i (push k r m) ≡ (if r.slot == i then 1 else 0) + in_map i m
unfolding push
in_map-push i k r [] = ground arith
in_map-push i k r ((j, rows) ∷ m) =
    ground (arith, in_map-push i k r m, in_rows-append i rows (r ∷ []))

pub in_map-queues_of :
    (i : ℕ) (rows : List Row) (queues : Queues)
    → in_map i (queues_of rows queues) ≡ in_rows i rows + in_map i queues
unfolding queues_of
in_map-queues_of i [] queues = omega arith
in_map-queues_of i (r ∷ rows) queues =
    ground
      (arith, in_map-queues_of i rows (push r.part.seq r queues), in_map-push i r.part.seq r queues)

pub in_map-sort_queues : (i : ℕ) (queues : Queues) → in_map i (sort_queues queues) ≡ in_map i queues
unfolding sort_queues
in_map-sort_queues i [] = refl
in_map-sort_queues i ((seq, rows) ∷ queues) =
    omega (arith, in_map-sort_queues i queues, in_rows-sort row_ltb i rows)

-- How often `i` is a source of a list of messages.
abbrev pub in_sources : ℕ → List AssembledSms → ℕ
in_sources i [] = 0
in_sources i (m ∷ ms) = count i m.sources + in_sources i ms

pub in_sources-append :
    (i : ℕ) (xs ys : List AssembledSms)
    → in_sources i (xs ++ ys) ≡ in_sources i xs + in_sources i ys
in_sources-append i [] ys = omega arith
in_sources-append i (x ∷ xs) ys = omega (arith, in_sources-append i xs ys)

-- One for the slots from `slot` on that the parts fill, and none for others.
pub collect_count :
    (i slot : ℕ) (parts : List ConcatPart) (groups : Groups)
    → in_sources i (collect slot parts groups).0 + in_map i (collect slot parts groups).1
      ≡ (if leb slot i then (if ltb i (slot + length parts) then 1 else 0) else 0) + in_map i groups
unfolding collect alone
collect_count i slot [] groups = ground arith
collect_count i slot (p ∷ ps) groups = ground (
  arith,
  collect_count i (suc slot) ps groups,
  collect_count i (suc slot) ps
      (push (p.sender, (p.ref_id, p.total)) (record { slot = slot; part = p }) groups),
  in_map-push i (p.sender, (p.ref_id, p.total)) (record { slot = slot; part = p }) groups,
)

pub settle_leftovers_count :
    (i : ℕ) (now grace : ℤ) (sender : Text) (total : ℕ) (rows : List Row)
    → in_sources i (settle_leftovers now grace sender total rows).0
        + in_rows i (settle_leftovers now grace sender total rows).1
      ≡ in_rows i rows
unfolding settle_leftovers released
settle_leftovers_count i now grace sender total [] = refl
settle_leftovers_count i now grace sender total (r ∷ rows) =
    ground
      (arith, in_rows-sort slot_ltb i (r ∷ rows), count-slots i (sort_rows slot_ltb (r ∷ rows)))
