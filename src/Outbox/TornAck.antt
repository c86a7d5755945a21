-- ===== src/Outbox/TornAck.antt =====
-- An acknowledgement whose rows are deleted while its cursor is not written.
use vodoge_edge.Common.{
  ℕ, ◌+◌, length, ◌≡◌, refl, sym, ap, ◌∙◌, true, false, List, [], arith, ok, err,
}
use mathlib.Core.Path.{subst}
use vodoge_edge.Common.Keys.{nat_key, text_key}
use vodoge_edge.Common.Dict.{lookup, contains}
use vodoge_edge.Uplink.Types.{UplinkAck}
use vodoge_edge.Uplink.Journal.{UplinkState}
use vodoge_edge.Uplink.Loss.{remove_all}
use vodoge_edge.Uplink.Loss.Removal.{lookup-remove_all}
use vodoge_edge.Uplink.Ack
use vodoge_edge.Uplink.WellFormed.{IsWellFormed}
use vodoge_edge.Uplink.WellFormed.Ack.{Crossed, outcome}
use vodoge_edge.Uplink.WellFormed.Observe.{
  stale, beyond, bad_hint, hinted, blocked, crossed, observe_ack-Observed,
}
use vodoge_edge.Outbox.Tables.{sqlite}
use vodoge_edge.Outbox.{store_error, DurableOutbox, store_ack, observe_ack, from_store}
use vodoge_edge.Outbox.Rows.{records_of-without, deleted, delete_enough}
use vodoge_edge.Outbox.Restart.{from_store-Restarted}
use vodoge_edge.Outbox.Mirror.{stored, All-without, IsSorted-without}
use vodoge_edge.Outbox.Calls.{Mirrored}
use vodoge_edge.Outbox.Torn.{set_cursor_stopped}

-- A journal whose first sequence above the cursor is neither retained nor lost.
abbrev HasHole : UplinkState → Type 0
HasHole s =
    (contains (s.committed_through + 1) s.records ≡ false)
    × (contains (s.committed_through + 1) s.accepted_loss_sequences ≡ false)

-- No acknowledgement moves its cursor.
pub hole_stops :
    (s : UplinkState) (ack : UplinkAck)
    → HasHole s
    → (Ack.observe_ack s ack).0.committed_through ≡ s.committed_through
hole_stops s ack (r, l) = elim (observe_ack-Observed s ack) [
  | stale h e ↦ rw e refl
  | beyond h e ↦ rw e refl
  | bad_hint x h e ↦ rw e refl
  | hinted h v e ↦ rw e refl
  | blocked y i r l e ↦ rw e refl
  | crossed s' ns e c ↦ absurd (ground (arith, c.confirmed (s.committed_through + 1), c.ahead))
]

-- The acknowledgement moves the cursor to its own, and takes out the records of `ns`.
abbrev pub Advances : UplinkState → UplinkAck → UplinkState → List ℕ → Type 0
Advances s ack s' ns = Ack.observe_ack s ack ≡ (s', ok (outcome ack.committed_through ns true))

advanced-Crossed :
    (s : UplinkState) (ack : UplinkAck) (s' : UplinkState) (ns : List ℕ)
    → Advances s ack s' ns
    → Crossed s ack s' ns
advanced-Crossed s ack s' ns a = elim (observe_ack-Observed s ack) [
  | stale h e ↦ absurd (cc)
  | beyond h e ↦ absurd (cc)
  | bad_hint x h e ↦ absurd (cc)
  | hinted h v e ↦ absurd (cc)
  | blocked y i r l e ↦ absurd (cc)
  | crossed t ms e c ↦
      let same_state : t ≡ s' = cc in
      let same_list : ms ≡ ns = cc in
      subst (λ u. Crossed s ack u ns) same_state (subst (λ xs. Crossed s ack t xs) same_list c)
]

-- The first sequence above the cursor is among the deleted, or was lost before.
hole_left :
    (s : UplinkState) (ack : UplinkAck) (s' : UplinkState) (ns : List ℕ)
    → IsWellFormed s
    → Crossed s ack s' ns
    → contains (s.committed_through + 1) (remove_all ns s.records) ≡ false
hole_left s ack s' ns w c =
    let n = s.committed_through + 1 in
    ground (arith, lookup-remove_all ns n s.records, c.reported n, c.confirmed n, c.ahead, w.lost n)

store_ack_stopped :
    (o : DurableOutbox) (ns : List ℕ)
    → o.store.statements_left ≡ length ns
    → store_ack o ns ≡ (record o { store = deleted ns o.store }, err (store_error sqlite))
unfolding store_ack
store_ack_stopped o ns h =
    rw
      (
        delete_enough ns o.store (omega arith),
        set_cursor_stopped (deleted ns o.store) o.state.committed_through o.state.last_allocated
            (omega arith),
      )
      refl

abbrev LeftBehind : DurableOutbox → List ℕ → DurableOutbox → Type 0
LeftBehind o ns o' =
    (o'.state.committed_through ≡ o.state.committed_through)
    × (o'.state.records ≡ remove_all ns o.state.records)
    × (o'.state.accepted_loss_sequences ≡ [])

reopened :
    (o : DurableOutbox) (ns : List ℕ) (limit : ℕ)
    → Mirrored o
    → (o' : DurableOutbox) × (from_store (deleted ns o.store) limit ≡ ok o') × LeftBehind o ns o'
reopened o ns limit m =
    let s = o.state in
    let (o', e, r) =
      from_store-Restarted (deleted ns o.store) limit s.envelope_sequences
        (rw (m.cursor, m.allocated) m.valid.ordered) (IsSorted-without ns o.store.outbox m.sorted)
        (rw (m.cursor, m.allocated) (All-without _ ns o.store.outbox (stored m))) in
    (
      o',
      e,
      (
        r.journal.cursor ∙ m.cursor,
        r.journal.rows ∙ records_of-without ns o.store.outbox ∙ ap (remove_all ns) (sym m.rows),
        r.journal.no_losses,
      ),
    )

-- An acknowledgement advances and its records are deleted, and the machine stops before the cursor is written. A restart
-- succeeds, with the cursor of before, and no acknowledgement that comes then moves it.
pub ack_torn :
    (o : DurableOutbox) (ack : UplinkAck) (s' : UplinkState) (ns : List ℕ) (limit : ℕ)
    → Mirrored o
    → Advances o.state ack s' ns
    → o.store.statements_left ≡ length ns
    → ((observe_ack o ack).1 ≡ err (store_error sqlite))
      × (o' : DurableOutbox) × (from_store (observe_ack o ack).0.store limit ≡ ok o')
      × (o'.state.committed_through ≡ o.state.committed_through)
      × ((later : UplinkAck)
          → (Ack.observe_ack o'.state later).0.committed_through ≡ o.state.committed_through)
unfolding observe_ack lookup
ack_torn o ack s' ns limit m a left =
    let (o', e, (c, r, l)) = reopened o ns limit m in
    let gone = hole_left o.state ack s' ns m.valid (advanced-Crossed o.state ack s' ns a) in
    let hole : HasHole o'.state = rw (c, r, l) (gone, refl) in
    rw (a, store_ack_stopped (record o { state = s' }) ns left)
      (refl, o', e, c, λ later. hole_stops o'.state later hole ∙ c)
