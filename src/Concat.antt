-- ===== src/Concat.antt =====
-- Fragments of concatenated messages, edge-core/src/concat.rs: `assemble` groups the fragments of one pass into whole
-- messages, and says which stay on the modem. A row is a slot together with the part that stands in it, where the
-- source keeps the slot and reads `parts[slot]` again.
use vodoge_edge.Common.{
  ℕ, zero, suc, ◌+◌, ◌-◌, ◌*◌, Bool, true, false, ◌||◌, ◌&&◌, Option, none, some, List, [], ◌∷◌,
  ◌++◌, if◌then◌else◌, min, length, map, get_elem?, drop, ltb, leb, ◌==◌,
}
use vodoge_edge.Common.Text.{Text, codes, text_eq, decimal_digits}
use vodoge_edge.Common.Keys.{nat_key, text_key}
use vodoge_edge.Common.Groups.{pair_key, push}
use vodoge_edge.Common.Dict.{Dict, lookup}
use vodoge_edge.Common.Int.{ℤ, pos, max_ℤ, saturating_sub, ltb_ℤ, eqb_ℤ}
pub mod Counts
pub mod Rounds
pub mod Fits
pub mod Partition
pub mod Leftovers
pub mod Texts
pub mod Picked
pub mod Whole
pub mod Tests

-- `FRAGMENT_GRACE_MS`.
abbrev pub fragment_grace_ms : ℤ
fragment_grace_ms = pos (24 * 60 * 60 * 1000)

pub record ConcatPart : Type 0 where
  pub sender : Text
  pub ref_id : ℕ
  pub total : ℕ
  pub seq : ℕ
  pub body : Text
  pub received_at : Option ℤ

pub record AssembledSms : Type 0 where
  pub sender : Text
  pub body : Text
  pub parts : ℕ
  pub sources : List ℕ
  pub missing : List ℕ

pub record Row : Type 0 where
  pub slot : ℕ
  pub part : ConcatPart

-- (sender, reference, total)
abbrev pub GroupKey : Type 0
GroupKey = Text × (ℕ × ℕ)

abbrev pub Groups : Type 0
Groups = Dict GroupKey (List Row)

abbrev pub Queues : Type 0
Queues = Dict ℕ (List Row)

-- No fragment of anything: a message of its own.
unfoldable pub stands_alone : ConcatPart → Bool
stands_alone p = leb p.total 1 || p.seq == 0 || ltb p.total p.seq

unfoldable pub alone : Row → AssembledSms
alone r = record {
  sender = r.part.sender;
  body = r.part.body;
  parts = 1;
  sources = r.slot ∷ [];
  missing = [];
}

-- The first loop: the messages of one part, and the groups of the others.
unfoldable pub collect : ℕ → List ConcatPart → Groups → List AssembledSms × Groups
collect slot [] groups = ([], groups)
collect slot (p ∷ ps) groups =
    let r : Row = record { slot = slot; part = p } in
    let next = if stands_alone p then groups else push (p.sender, (p.ref_id, p.total)) r groups in
    let rest = collect (suc slot) ps next in
    if stands_alone p then (alone r ∷ rest.0, rest.1) else rest

-- One queue per sequence number.
unfoldable pub queues_of : List Row → Queues → Queues
queues_of [] queues = queues
queues_of (r ∷ rows) queues = queues_of rows (push r.part.seq r queues)

-- The order of `Option<i64>`, in which `None` comes first.
unfoldable pub stamp_ltb : Option ℤ → Option ℤ → Bool
stamp_ltb none none = false
stamp_ltb none (some b) = true
stamp_ltb (some a) none = false
stamp_ltb (some a) (some b) = ltb_ℤ a b

unfoldable pub stamp_eq : Option ℤ → Option ℤ → Bool
stamp_eq none none = true
stamp_eq none (some b) = false
stamp_eq (some a) none = false
stamp_eq (some a) (some b) = eqb_ℤ a b

-- `(received_at, slot)` of one row below that of another.
unfoldable pub row_ltb : Row → Row → Bool
row_ltb a b =
    stamp_ltb a.part.received_at b.part.received_at
    || (stamp_eq a.part.received_at b.part.received_at && ltb a.slot b.slot)

module _ (lt : Row → Row → Bool) where
  unfoldable pub insert_row : Row → List Row → List Row
  insert_row r [] = r ∷ []
  insert_row r (q ∷ rows) = if lt r q then r ∷ q ∷ rows else q ∷ insert_row r rows

  -- `sort_by_key` and `sort_unstable`: no two rows have the same slot, so the order is total.
  unfoldable pub sort_rows : List Row → List Row
  sort_rows [] = []
  sort_rows (r ∷ rows) = insert_row r (sort_rows rows)

unfoldable pub sort_queues : Queues → Queues
sort_queues [] = []
sort_queues ((seq, rows) ∷ queues) = (seq, sort_rows row_ltb rows) ∷ sort_queues queues

abbrev pub queue_at : ℕ → Queues → List Row
queue_at seq queues = elim (lookup seq queues) [ none ↦ [] | some rows ↦ rows ]

-- The least length of the queues of `count` sequence numbers from `seq`, and of `least`.
unfoldable pub least_length : ℕ → ℕ → Queues → ℕ → ℕ
least_length zero seq queues least = least
least_length (suc count) seq queues least =
    least_length count (suc seq) queues (min least (length (queue_at seq queues)))

-- `(1..=total).map(..).min().unwrap_or(0)`.
unfoldable pub whole_count : ℕ → Queues → ℕ
whole_count zero queues = 0
whole_count (suc rest) queues = least_length rest 2 queues (length (queue_at 1 queues))

-- The rows of one round: the one at `round` in each queue. The source's indexing cannot fail in a round below
-- `whole`; here a missing row would be left out.
unfoldable pub pick : ℕ → ℕ → Queues → ℕ → List Row
pick zero seq queues round = []
pick (suc count) seq queues round =
    let rest = pick count (suc seq) queues round in
    elim (get_elem? (queue_at seq queues) round) [ none ↦ rest | some r ↦ r ∷ rest ]

unfoldable pub bodies : List Row → Text
bodies [] = []
bodies (r ∷ rows) = r.part.body ++ bodies rows

abbrev pub slots : List Row → List ℕ
slots [] = []
slots (r ∷ rows) = r.slot ∷ slots rows

unfoldable pub whole_message : Text → ℕ → List Row → AssembledSms
whole_message sender total rows = record {
  sender = sender;
  body = bodies rows;
  parts = total;
  sources = slots rows;
  missing = [];
}

-- `count` rounds from `round`.
unfoldable pub rounds : ℕ → ℕ → Text → ℕ → Queues → List AssembledSms
rounds zero round sender total queues = []
rounds (suc count) round sender total queues =
    whole_message sender total (pick total 1 queues round)
    ∷ rounds count (suc round) sender total queues

-- What the whole rounds leave of each queue.
unfoldable pub left_over : ℕ → Queues → List Row
left_over whole [] = []
left_over whole ((seq, rows) ∷ queues) = drop whole rows ++ left_over whole queues

unfoldable pub newest : List Row → Option ℤ
newest [] = none
newest (r ∷ rows) = elim r.part.received_at [
  | none ↦ newest rows
  | some a ↦ elim (newest rows) [ none ↦ some a | some b ↦ some (max_ℤ a b) ]
]

unfoldable pub is_expired : ℤ → ℤ → List Row → Bool
is_expired now_ms grace_ms rows = elim (newest rows) [
  | none ↦ false
  | some stamp ↦ ltb_ℤ grace_ms (saturating_sub now_ms stamp)
]

unfoldable pub missing_marker : ℕ → ℕ → Text
missing_marker seq total =
    codes "[missing part "
    ++ decimal_digits 3 seq []
    ++ codes " of "
    ++ decimal_digits 3 total []
    ++ codes "]"

unfoldable pub find_seq : ℕ → List Row → Option Row
find_seq seq [] = none
find_seq seq (r ∷ rows) = let rest = find_seq seq rows in if r.part.seq == seq then some r else rest

-- The text with a marker for each gap, and the gaps, from `seq` on for `count` numbers.
unfoldable pub patched : ℕ → ℕ → ℕ → List Row → Text × List ℕ
patched zero seq total rows = ([], [])
patched (suc count) seq total rows =
    let rest = patched count (suc seq) total rows in
    elim (find_seq seq rows) [
      | none ↦ (missing_marker seq total ++ rest.0, seq ∷ rest.1)
      | some r ↦ (r.part.body ++ rest.0, rest.1)
    ]

unfoldable pub released : Text → ℕ → List Row → AssembledSms
released sender total leftovers =
    let text = patched total 1 total leftovers in
    record {
      sender = sender;
      body = text.0;
      parts = total;
      sources = slots leftovers;
      missing = text.1;
    }

abbrev pub Outcome : Type 0
Outcome = List AssembledSms × List Row

abbrev pub slot_ltb : Row → Row → Bool
slot_ltb a b = ltb a.slot b.slot

-- The rest of a group after its whole messages.
unfoldable pub settle_leftovers : ℤ → ℤ → Text → ℕ → List Row → Outcome
settle_leftovers now_ms grace_ms sender total [] = ([], [])
settle_leftovers now_ms grace_ms sender total (r ∷ rows) =
    let leftovers = sort_rows slot_ltb (r ∷ rows) in
    if is_expired now_ms grace_ms leftovers
    then (released sender total leftovers ∷ [], [])
    else ([], leftovers)

unfoldable pub settle_group : ℤ → ℤ → GroupKey → List Row → Outcome
settle_group now_ms grace_ms (sender, (ref, total)) rows =
    let queues = sort_queues (queues_of rows []) in
    let whole = whole_count total queues in
    let rest = settle_leftovers now_ms grace_ms sender total (left_over whole queues) in
    (rounds whole 0 sender total queues ++ rest.0, rest.1)

unfoldable pub settle_groups : ℤ → ℤ → Groups → Outcome
settle_groups now_ms grace_ms [] = ([], [])
settle_groups now_ms grace_ms ((key, rows) ∷ groups) =
    let first = settle_group now_ms grace_ms key rows in
    let rest = settle_groups now_ms grace_ms groups in (first.0 ++ rest.0, first.1 ++ rest.1)

-- The messages, and the slots that stay on the modem.
unfoldable pub assemble : List ConcatPart → ℤ → ℤ → List AssembledSms × List ℕ
assemble parts now_ms grace_ms =
    let collected = collect 0 parts [] in
    let settled = settle_groups now_ms grace_ms collected.1 in
    (collected.0 ++ settled.0, slots settled.1)
