-- ===== src/Uplink/Ack/Crossing.antt =====
-- The loops of `observe_ack`: what lets the cursor pass, and what a pass takes out.
use vodoge_edge.Common.{
  ℕ, zero, suc, ◌+◌, ◌≡◌, Bool, true, false, ◌&&◌, ◌||◌, none, some, ltb, leb, if◌then◌else◌, arith,
  not,
}
use vodoge_edge.Common.Keys.{nat_key}
use vodoge_edge.Common.Dict.{Dict, lookup, contains, remove, lookup-remove}
use vodoge_edge.Uplink.Types.{UplinkRecord}
use vodoge_edge.Uplink.Ranges.Cover.{among}
use vodoge_edge.Uplink.Ack.{first_unresolved, sweep}

-- The sequences from `s` on, `n` of them.
abbrev pub in_run : ℕ → ℕ → ℕ → Bool
in_run n s x = leb s x && ltb x (s + n)

pub none_unresolved :
    (n s x : ℕ) (records : Dict ℕ UplinkRecord) (losses : Dict ℕ (Unit {0}))
    → first_unresolved n s records losses ≡ none
    → in_run n s x ≡ true
    → (contains x records || contains x losses) ≡ true
unfolding first_unresolved
none_unresolved zero s x records losses e w = absurd (ground arith)
none_unresolved (suc n) s x records losses e w =
    ground (arith, none_unresolved n (s + 1) x records losses)

pub some_unresolved :
    (n s y : ℕ) (records : Dict ℕ UplinkRecord) (losses : Dict ℕ (Unit {0}))
    → first_unresolved n s records losses ≡ some y
    → (in_run n s y ≡ true) × (contains y records ≡ false) × (contains y losses ≡ false)
unfolding first_unresolved
some_unresolved zero s y records losses e = cc
some_unresolved (suc n) s y records losses e =
    ground (arith, some_unresolved n (s + 1) y records losses)

-- A pass takes out every record of the run and no other.
pub records-sweep :
    (n s x : ℕ) (records : Dict ℕ UplinkRecord) (losses : Dict ℕ (Unit {0}))
    → lookup x (sweep n s records losses).records
      ≡ (if in_run n s x then none else lookup x records)
unfolding sweep
records-sweep zero s x records losses = ground arith
records-sweep (suc n) s x records losses = ground (
  arith,
  records-sweep n (s + 1) x (remove s records) losses,
  records-sweep n (s + 1) x records (remove s losses),
  lookup-remove s x records,
)

pub losses-sweep :
    (n s x : ℕ) (records : Dict ℕ UplinkRecord) (losses : Dict ℕ (Unit {0}))
    → lookup x (sweep n s records losses).losses
      ≡ (if in_run n s x && not (contains x records) then none else lookup x losses)
unfolding sweep
losses-sweep zero s x records losses = ground arith
losses-sweep (suc n) s x records losses = ground (
  arith,
  losses-sweep n (s + 1) x (remove s records) losses,
  losses-sweep n (s + 1) x records (remove s losses),
  lookup-remove s x records,
  lookup-remove s x losses,
)

-- It reports exactly the records that it took out.
pub deleted-sweep :
    (n s x : ℕ) (records : Dict ℕ UplinkRecord) (losses : Dict ℕ (Unit {0}))
    → among (sweep n s records losses).deleted x ≡ (in_run n s x && contains x records)
unfolding sweep
deleted-sweep zero s x records losses = ground arith
deleted-sweep (suc n) s x records losses = ground (
  arith,
  deleted-sweep n (s + 1) x (remove s records) losses,
  deleted-sweep n (s + 1) x records (remove s losses),
  lookup-remove s x records,
)
