-- ===== src/Settle/Cleared.antt =====
-- Which slots of a pass may be cleared: those of stored messages and of known ones, and no other.
use vodoge_edge.Common.{
  ℕ, zero, suc, ◌+◌, ◌≤◌, ◌<◌, ◌≡◌, refl, Bool, true, false, Option, none, some, List, [], ◌∷◌,
  ◌++◌, if◌then◌else◌, length, get_elem?, get_or, ltb, ◌==◌, not, arith,
}
use vodoge_edge.Common.Int.{ℤ}
use vodoge_edge.Concat.{AssembledSms, fragment_grace_ms, assemble}
use vodoge_edge.Concat.Counts.{count, count-append, in_sources}
use vodoge_edge.Concat.Partition.{assemble_partitions}
use vodoge_edge.Settle.{
  InboundFragment, insert_slot, sort_dedup, ready_slots, deletable, partition_seen, parts_of,
  slots_of, pick_all, settle_message, settle_messages, settle_inbound,
}

-- How often `i` stands in `xs`, each position taken as often as it is named; the first position is `j`.
abbrev tally : ℕ → ℕ → List ℕ → List ℕ → ℕ
tally i j [] sources = 0
tally i j (x ∷ xs) sources = (if x == i then count j sources else 0) + tally i (suc j) xs sources

module _ (i : ℕ) where
  tally-append :
      (j : ℕ) (xs ss ts : List ℕ) → tally i j xs (ss ++ ts) ≡ tally i j xs ss + tally i j xs ts
  tally-append j [] ss ts = refl
  tally-append j (x ∷ xs) ss ts =
      ground (arith, tally-append (suc j) xs ss ts, count-append j ss ts)

  tally_none : (j : ℕ) (xs : List ℕ) → tally i j xs [] ≡ 0
  tally_none j [] = refl
  tally_none j (x ∷ xs) = ground (arith, tally_none (suc j) xs)

  abbrev hit : Option ℕ → ℕ
  hit none = 0
  hit (some x) = if x == i then 1 else 0

  -- A position before the first one names nothing.
  tally_before : (j s : ℕ) (xs : List ℕ) → s < j → tally i j xs (s ∷ []) ≡ 0
  tally_before j s [] h = refl
  tally_before j s (x ∷ xs) h = ground (arith, tally_before (suc j) s xs)

  tally_one : (j k : ℕ) (xs : List ℕ) → tally i j xs ((j + k) ∷ []) ≡ hit (get_elem? xs k)
  tally_one j k [] = refl
  tally_one j zero (x ∷ xs) = ground (arith, tally_before (suc j) j xs)
  tally_one j (suc k) (x ∷ xs) = ground (arith, tally_one (suc j) k xs)

  pick_all-tally : (xs sources : List ℕ) → count i (pick_all xs sources) ≡ tally i 0 xs sources
  unfolding pick_all
  pick_all-tally xs [] = ground (arith, tally_none 0 xs)
  pick_all-tally xs (s ∷ sources) =
      ground
        (arith, pick_all-tally xs sources, tally_one 0 s xs, tally-append 0 xs (s ∷ []) sources)

  -- Each position named once counts the list once.
  tally_once :
      (j : ℕ) (xs sources : List ℕ)
      → ((k : ℕ) → j ≤ k → k < j + length xs → count k sources ≡ 1)
      → tally i j xs sources ≡ count i xs
  tally_once j [] sources h = refl
  tally_once j (x ∷ xs) sources h = ground (
    arith,
    tally_once (suc j) xs sources (λ k p q. h k (omega arith) (omega arith)),
    h j (omega arith) (omega arith),
  )

abbrev all_sources : List AssembledSms → List ℕ
all_sources [] = []
all_sources (m ∷ ms) = m.sources ++ all_sources ms

-- A slot of the list.
abbrev pub mem : ℕ → List ℕ → Bool
mem i [] = false
mem i (x ∷ xs) = if x == i then true else mem i xs

-- The slots of the fragments that stay on the module.
unfoldable pub waiting : List InboundFragment → List Bool → ℤ → List ℕ
waiting fragments seen now =
    let kept = (partition_seen 0 fragments seen).0 in
    pick_all (slots_of kept) (assemble (parts_of kept) now fragment_grace_ms).1

module _ (i : ℕ) where
  count-all_sources : (ms : List AssembledSms) → count i (all_sources ms) ≡ in_sources i ms
  count-all_sources [] = refl
  count-all_sources (m ∷ ms) =
      omega (arith, count-all_sources ms, count-append i m.sources (all_sources ms))

  ready_slots-tally :
      (kept : List InboundFragment) (ms : List AssembledSms)
      → count i (ready_slots (settle_messages kept ms)) ≡ tally i 0 (slots_of kept) (all_sources ms)
  unfolding ready_slots settle_messages settle_message
  ready_slots-tally kept [] = ground (arith, tally_none i 0 (slots_of kept))
  ready_slots-tally kept (m ∷ ms) = omega (
    arith,
    ready_slots-tally kept ms,
    pick_all-tally i (slots_of kept) m.sources,
    tally-append i 0 (slots_of kept) m.sources (all_sources ms),
    count-append i (pick_all (slots_of kept) m.sources) (ready_slots (settle_messages kept ms)),
  )

  seen_and_kept :
      (index : ℕ) (fs : List InboundFragment) (seen : List Bool)
      → count i (slots_of (partition_seen index fs seen).0)
          + count i (partition_seen index fs seen).1
        ≡ count i (slots_of fs)
  unfolding partition_seen
  seen_and_kept index [] seen = refl
  seen_and_kept index (f ∷ fs) seen = ground (arith, seen_and_kept (suc index) fs seen)

  mem-append : (xs ys : List ℕ) → mem i (xs ++ ys) ≡ (if mem i xs then true else mem i ys)
  mem-append [] ys = refl
  mem-append (x ∷ xs) ys = ground (arith, mem-append xs ys)

  mem-count : (xs : List ℕ) → mem i xs ≡ ltb 0 (count i xs)
  mem-count [] = refl
  mem-count (x ∷ xs) = ground (arith, mem-count xs)

  mem-insert_slot :
      (n : ℕ) (xs : List ℕ) → mem i (insert_slot n xs) ≡ (if n == i then true else mem i xs)
  unfolding insert_slot
  mem-insert_slot n [] = refl
  mem-insert_slot n (x ∷ xs) = ground (arith, mem-insert_slot n xs)

  mem-sort_dedup : (xs : List ℕ) → mem i (sort_dedup xs) ≡ mem i xs
  unfolding sort_dedup
  mem-sort_dedup [] = refl
  mem-sort_dedup (x ∷ xs) = ground (arith, mem-insert_slot x (sort_dedup xs), mem-sort_dedup xs)

length-parts_of : (fs : List InboundFragment) → length (parts_of fs) ≡ length (slots_of fs)
length-parts_of [] = refl
length-parts_of (f ∷ fs) = omega (arith, length-parts_of fs)

-- Every slot of the pass is accounted for, as often as it stands there: known already, in a message to store, or
-- waiting for its siblings.
settle_accounts :
    (i : ℕ) (fs : List InboundFragment) (seen : List Bool) (now : ℤ)
    → count i (settle_inbound fs seen now).already_ours
        + count i (ready_slots (settle_inbound fs seen now).ready)
        + count i (waiting fs seen now)
      ≡ count i (slots_of fs)
unfolding settle_inbound waiting
settle_accounts i fs seen now =
    let kept = (partition_seen 0 fs seen).0 in
    let result = assemble (parts_of kept) now fragment_grace_ms in
    omega (
      arith,
      seen_and_kept i 0 fs seen,
      ready_slots-tally i kept result.0,
      pick_all-tally i (slots_of kept) result.1,
      tally-append i 0 (slots_of kept) (all_sources result.0) result.1,
      tally_once i 0 (slots_of kept) (all_sources result.0 ++ result.1) (λ k p q. ground (
        arith,
        assemble_partitions (parts_of kept) now fragment_grace_ms k,
        count-append k (all_sources result.0) result.1,
        count-all_sources k result.0,
        length-parts_of kept,
      )),
    )

-- A slot that stands once in the pass may be cleared exactly if it does not wait for siblings: a fragment whose message
-- is not whole is never deleted, and every other slot is, known ones included.
pub deletable_unless_waiting :
    (fs : List InboundFragment) (seen : List Bool) (now : ℤ) (i : ℕ)
    → count i (slots_of fs) ≡ 1
    → mem i (deletable (settle_inbound fs seen now)) ≡ not (mem i (waiting fs seen now))
unfolding deletable
deletable_unless_waiting fs seen now i h =
    let s = settle_inbound fs seen now in
    let to_clear = s.already_ours ++ ready_slots s.ready in
    ground (
      arith,
      settle_accounts i fs seen now,
      mem-sort_dedup i to_clear,
      mem-count i to_clear,
      count-append i s.already_ours (ready_slots s.ready),
      mem-count i (waiting fs seen now),
    )

-- A fragment that the ledger has is cleared: its slot is one of the known ones.
seen-already_ours :
    (index k : ℕ) (fs : List InboundFragment) (seen : List Bool) (f : InboundFragment)
    → get_elem? fs k ≡ some f
    → get_or seen (index + k) false ≡ true
    → mem f.slot (partition_seen index fs seen).1 ≡ true
unfolding partition_seen
seen-already_ours index k [] seen f h g = ground arith
seen-already_ours index zero (x ∷ fs) seen f h g = ground arith
seen-already_ours index (suc k) (x ∷ fs) seen f h g =
    ground (arith, seen-already_ours (suc index) k fs seen f)
