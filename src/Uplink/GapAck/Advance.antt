-- ===== src/Uplink/GapAck/Advance.antt =====
-- The loops of `accept_gap`: what they add to the accepted losses, and how far the cursor moves.
use vodoge_edge.Common.{
  ℕ, zero, suc, ◌+◌, ◌-◌, ◌≤◌, ◌<◌, ◌≡◌, refl, ◌⊎◌, inl, inr, Bool, true, false, ◌&&◌, ◌||◌, List,
  [], ◌∷◌, length, ltb, leb, arith, Bool-cases, not,
}
use vodoge_edge.Common.Keys.{nat_key}
use vodoge_edge.Common.Dict.{
  Dict, contains, insert, remove, lookup-insert, lookup-remove, length-remove-lt,
}
use vodoge_edge.Uplink.Types.{SequenceRange, u64_max}
use vodoge_edge.Uplink.Ranges.Cover.{covers}
use vodoge_edge.Uplink.GapAck.{insert_run, insert_ranges, advance_loop}

contains-insert_run :
    (k s n : ℕ) (m : Dict ℕ (Unit {0}))
    → contains n (insert_run k s m) ≡ ((leb s n && ltb n (s + k)) || contains n m)
unfolding insert_run
contains-insert_run zero s n m = ground arith
contains-insert_run (suc k) s n m =
    ground (arith, contains-insert_run k (s + 1) n (insert s tt m), lookup-insert s n tt m)

-- After the loops the accepted losses are those there were and those that the ranges cover.
pub contains-insert_ranges :
    (rs : List SequenceRange) (n : ℕ) (m : Dict ℕ (Unit {0}))
    → contains n (insert_ranges rs m) ≡ (covers rs n || contains n m)
unfolding insert_ranges covers
contains-insert_ranges [] n m = refl
contains-insert_ranges (r ∷ rs) n m = ground (
  arith,
  contains-insert_ranges rs n (insert_run (r.end + 1 - r.start) r.start m),
  contains-insert_run (r.end + 1 - r.start) r.start n m,
)

abbrev pub within : ℕ → ℕ → ℕ → Bool
within c d n = ltb c n && leb n d

-- What a run of the loop from cursor `c` over `m` ends with: it never goes back, passes only
-- accepted losses, takes out exactly those that it passes, and stops where the next sequence is none.
pub record Advanced (c : ℕ) (m : Dict ℕ (Unit {0})) (r : ℕ × Dict ℕ (Unit {0})) : Type 0 where
  pub forward : c ≤ r.0
  pub bounded : r.0 ≤ u64_max
  pub crossed : (n : ℕ) → within c r.0 n ≡ true → contains n m ≡ true
  pub left : (n : ℕ) → contains n r.1 ≡ (contains n m && not (within c r.0 n))
  pub stopped : (r.0 ≡ u64_max) ⊎ (contains (r.0 + 1) m ≡ false)

stay :
    (c : ℕ) (m : Dict ℕ (Unit {0}))
    → c ≤ u64_max
    → (c ≡ u64_max) ⊎ (contains (c + 1) m ≡ false)
    → Advanced c m (c, m)
stay c m b stop = record {
  forward = omega arith;
  bounded = b;
  crossed = λ n h. ground arith;
  left = λ n. ground arith;
  stopped = stop;
}

move_on :
    (c : ℕ) (m : Dict ℕ (Unit {0})) (r : ℕ × Dict ℕ (Unit {0}))
    → contains (c + 1) m ≡ true
    → Advanced (c + 1) (remove (c + 1) m) r
    → Advanced c m r
move_on c m r h a = record {
  forward = ground (arith, a.forward);
  bounded = a.bounded;
  crossed = λ n w. ground (arith, a.crossed n, lookup-remove (c + 1) n m);
  left = λ n. ground (arith, a.left n, a.forward, lookup-remove (c + 1) n m);
  stopped = ground (arith, a.stopped, a.forward, lookup-remove (c + 1) (r.0 + 1) m);
}

-- The fuel that `advance_across_accepted_losses` gives is enough.
pub advance_loop-Advanced :
    (fuel c : ℕ) (m : Dict ℕ (Unit {0}))
    → c ≤ u64_max
    → length m < fuel
    → Advanced c m (advance_loop fuel c m)
unfolding advance_loop
advance_loop-Advanced zero c m b h = absurd (omega arith)
advance_loop-Advanced (suc fuel) c m b h = elim (Bool-cases (ltb c u64_max)) [
  | inr last ↦ rw (last, advance_loop) (stay c m b (inl (ground arith)))
  | inl more ↦ elim (Bool-cases (contains (c + 1) m)) [
    | inr miss ↦ rw (more, miss, advance_loop) (stay c m b (inr miss))
    | inl hit ↦
        rw (more, hit, advance_loop)
          (move_on c m _ hit (
            advance_loop-Advanced fuel (c + 1) (remove (c + 1) m) (ground arith)
              (omega (arith, length-remove-lt (c + 1) m hit))))
  ]
]
