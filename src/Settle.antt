-- ===== src/Settle.antt =====
-- What one pass of collected messages settles into, edge-core/src/settle.rs.
use vodoge_edge.Common.{
  ℕ, zero, suc, Bool, true, false, Option, none, some, List, [], ◌∷◌, ◌++◌, if◌then◌else◌, length,
  get_elem?, get_or, ltb, ◌==◌, map,
}
use vodoge_edge.Common.Text.{Text, codes}
use vodoge_edge.Common.Int.{ℤ}
use vodoge_edge.Concat.{ConcatPart, AssembledSms, fragment_grace_ms, assemble}
pub mod Cleared
pub mod Tests

pub record InboundFragment : Type 0 where
  pub slot : ℕ
  pub encoding : Text
  pub fingerprint : Text
  pub part : ConcatPart

pub record SettledMessage : Type 0 where
  pub message : AssembledSms
  pub encoding : Text
  pub slots : List ℕ
  pub fingerprints : List Text

pub record InboundSettlement : Type 0 where
  pub ready : List SettledMessage
  pub already_ours : List ℕ
  pub pending : ℕ

-- Ascending, and no number twice: `sort_unstable` and `dedup`.
unfoldable pub insert_slot : ℕ → List ℕ → List ℕ
insert_slot n [] = n ∷ []
insert_slot n (x ∷ xs) =
    if ltb n x then n ∷ x ∷ xs else if n == x then x ∷ xs else x ∷ insert_slot n xs

unfoldable pub sort_dedup : List ℕ → List ℕ
sort_dedup [] = []
sort_dedup (x ∷ xs) = insert_slot x (sort_dedup xs)

unfoldable pub ready_slots : List SettledMessage → List ℕ
ready_slots [] = []
ready_slots (m ∷ ms) = m.slots ++ ready_slots ms

unfoldable pub deletable : InboundSettlement → List ℕ
deletable s = sort_dedup (s.already_ours ++ ready_slots s.ready)

-- The first loop: the fragments that the ledger does not have, from position `index`, and the slots of the others.
-- The source keeps four fields of each fragment in four lists.
unfoldable pub partition_seen : ℕ → List InboundFragment → List Bool → List InboundFragment × List ℕ
partition_seen index [] seen = ([], [])
partition_seen index (f ∷ fs) seen =
    let rest = partition_seen (suc index) fs seen in
    if get_or seen index false then (rest.0, f.slot ∷ rest.1) else (f ∷ rest.0, rest.1)

abbrev pub parts_of : List InboundFragment → List ConcatPart
parts_of [] = []
parts_of (f ∷ fs) = f.part ∷ parts_of fs

abbrev pub slots_of : List InboundFragment → List ℕ
slots_of [] = []
slots_of (f ∷ fs) = f.slot ∷ slots_of fs

abbrev pub fingerprints_of : List InboundFragment → List Text
fingerprints_of [] = []
fingerprints_of (f ∷ fs) = f.fingerprint ∷ fingerprints_of fs

-- `sources.iter().filter_map(|source| xs.get(*source))`.
unfoldable pub pick_all {ℓ} : {A : Type ℓ} → List A → List ℕ → List A
pick_all xs [] = []
pick_all xs (source ∷ sources) =
    let rest = pick_all xs sources in elim (get_elem? xs source) [ none ↦ rest | some x ↦ x ∷ rest ]

unfoldable pub encoding_of : List InboundFragment → List ℕ → Text
encoding_of kept [] = codes "unknown"
encoding_of kept (source ∷ sources) = elim (get_elem? kept source) [
  | none ↦ codes "unknown"
  | some f ↦ f.encoding
]

unfoldable pub settle_message : List InboundFragment → AssembledSms → SettledMessage
settle_message kept message = record {
  message = message;
  encoding = encoding_of kept message.sources;
  slots = pick_all (slots_of kept) message.sources;
  fingerprints = pick_all (fingerprints_of kept) message.sources;
}

unfoldable pub settle_messages : List InboundFragment → List AssembledSms → List SettledMessage
settle_messages kept [] = []
settle_messages kept (m ∷ ms) = settle_message kept m ∷ settle_messages kept ms

unfoldable pub settle_inbound : List InboundFragment → List Bool → ℤ → InboundSettlement
settle_inbound fragments seen now =
    let split = partition_seen 0 fragments seen in
    let assembled = assemble (parts_of split.0) now fragment_grace_ms in
    record {
      ready = settle_messages split.0 assembled.0;
      already_ours = split.1;
      pending = length assembled.1;
    }
