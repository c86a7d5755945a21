-- ===== src/Adoption/Standing.antt =====
-- The mark of a row, edge-store/src/lib.rs, is what the run left since it was last ended or restarted; so a modem that a
-- pass of edge-bin/src/main.rs retires was refused again and again before.
use vodoge_edge.Common.{
  ◌≡◌, refl, sym, inl, inr, Bool, true, false, Option, none, some, List, [], ◌∷◌, if◌then◌else◌,
  arith, Bool-cases,
}
use mathlib.Core.Path.{subst}
use vodoge_edge.Common.Text.{Text, text_eq}
use vodoge_edge.Common.Int.{ℤ}
use vodoge_edge.Common.Keys.{text_key}
use vodoge_edge.Common.Dict.{lookup}
use vodoge_edge.Adoption.{Enforcement, keep, hold, quarantine, unbind}
use vodoge_edge.Adoption.Registry.{RegisteredModem, RegisteredRow, noted}
use vodoge_edge.Adoption.Pass.{LocalModemDiscovery, is_listed}
use vodoge_edge.Adoption.Enforce.{PassInput}
use vodoge_edge.Adoption.Rows.{changed}
use vodoge_edge.Adoption.Pointwise.{row_verdict, row_after_verdict, row_after, entry_after}
use vodoge_edge.Adoption.Runs.{
  Event, pass, adopt, unregister, set_note, reconfirm, run, run-IsRegistry, readable, Sign, ended,
  silent, verdict_sign, pass_sign, confirm_sign, sign, signs, standing, standing_since,
}
use vodoge_edge.Adoption.Entries.{passed_entry, adopted_entry, confirmed, entry_of, apply-lookup}

-- The mark of an entry is the one that the signs tell of.
unfoldable pub Agrees : List Sign → Option RegisteredRow → Type 0
Agrees before none = Unit
Agrees before (some row) =
    (row.gate_failed_since ≡ standing_since before) × (row.gate_failed_passes ≡ standing before)

Agrees-verdict :
    (input : PassInput) (k : Text) (before : List Sign) (row : RegisteredRow) (v : Enforcement)
    → Agrees before (some row)
    → Agrees (verdict_sign input k v ∷ before) (row_after_verdict input k row v)
unfolding Agrees row_after_verdict standing standing_since
Agrees-verdict input k before row keep a = ground (arith, a)
Agrees-verdict input k before row (hold reason) a = a
Agrees-verdict input k before row (quarantine refusal elapsed passes) a = ground (arith, a)
Agrees-verdict input k before row (unbind refusal) a = ground (arith, a)

passed_entry-none :
    (input : PassInput) (k : Text) (d : Option (List LocalModemDiscovery))
    → passed_entry input k d none ≡ none
unfolding passed_entry entry_after
passed_entry-none input k none = refl
passed_entry-none input k (some discoveries) = refl

Agrees-by :
    (before : List Sign) (s s' : Sign) (o o' : Option RegisteredRow)
    → s ≡ s'
    → o ≡ o'
    → Agrees (s' ∷ before) o'
    → Agrees (s ∷ before) o
Agrees-by before s s' o o' es eo a =
    subst (λ s. Agrees (s ∷ before) o) (sym es) (subst (Agrees (s' ∷ before)) (sym eo) a)

Agrees-read :
    (input : PassInput) (k : Text) (before : List Sign) (row : RegisteredRow)
    (d : Option (List LocalModemDiscovery))
    → Agrees before (some row)
    → Agrees (pass_sign input k row d ∷ before) (passed_entry input k d (some row))
unfolding Agrees passed_entry entry_after row_after standing standing_since
Agrees-read input k before row none a = a
Agrees-read input k before row (some discoveries) a =
    elim (Bool-cases (is_listed k input.faults.gates_unreadable)) [
      | inl e ↦
          Agrees-by before (pass_sign input k row (some discoveries)) silent
            (row_after input discoveries k row) (some row) (ground (arith, e)) (ground (arith, e)) a
      | inr e ↦
          let v = row_verdict input discoveries row in
          Agrees-by before (pass_sign input k row (some discoveries)) (verdict_sign input k v)
            (row_after input discoveries k row) (row_after_verdict input k row v)
            (ground (arith, e)) (ground (arith, e)) (Agrees-verdict input k before row v a)
    ]

Agrees-pass :
    (input : PassInput) (k : Text) (before : List Sign) (o : Option RegisteredRow)
    → Agrees before o
    → Agrees (sign (pass input) k o ∷ before) (passed_entry input k (readable input) o)
unfolding Agrees sign
Agrees-pass input k before none a =
    subst (Agrees (silent ∷ before)) (sym (passed_entry-none input k (readable input))) tt
Agrees-pass input k before (some row) a = Agrees-read input k before row (readable input) a

unregistered : (before : List Sign) → Agrees before none
unfolding Agrees
unregistered before = tt

Agrees-if :
    (own : Bool) (before : List Sign) (s s' : Sign) (o o' : Option RegisteredRow)
    → Agrees (s ∷ before) o
    → Agrees (s' ∷ before) o'
    → Agrees ((if own then s else s') ∷ before) (if own then o else o')
Agrees-if true before s s' o o' a b = a
Agrees-if false before s s' o o' a b = b

Agrees-still :
    (own : Bool) (before : List Sign) (o o' : Option RegisteredRow)
    → Agrees before o
    → Agrees before o'
    → Agrees (silent ∷ before) (if own then o else o')
unfolding Agrees standing standing_since
Agrees-still true before none o' a b = tt
Agrees-still true before (some row) o' a b = a
Agrees-still false before o none a b = tt
Agrees-still false before o (some row) a b = b

Agrees-silent :
    (before : List Sign) (o : Option RegisteredRow) → Agrees before o → Agrees (silent ∷ before) o
Agrees-silent before o a = Agrees-still true before o o a a

Agrees-noted :
    (before : List Sign) (remark : Option Text) (o : Option RegisteredRow)
    → Agrees before o
    → Agrees before (changed (noted remark) o)
unfolding Agrees
Agrees-noted before remark none a = tt
Agrees-noted before remark (some row) a = a

Agrees-adopted :
    (before : List Sign) (modem : RegisteredModem) (o : Option RegisteredRow)
    → Agrees (ended ∷ before) (adopted_entry modem o)
unfolding Agrees standing standing_since
Agrees-adopted before modem none = (refl, refl)
Agrees-adopted before modem (some row) = (refl, refl)

Agrees-confirmed :
    (before : List Sign) (refusal : Option Text) (now : ℤ) (o : Option RegisteredRow)
    → Agrees (confirm_sign refusal now ∷ before) (changed (confirmed refusal now) o)
unfolding Agrees standing standing_since
Agrees-confirmed before refusal now none = tt
Agrees-confirmed before none now (some row) = (refl, refl)
Agrees-confirmed before (some message) now (some row) = (refl, refl)

Agrees-event :
    (event : Event) (k : Text) (before : List Sign) (o : Option RegisteredRow)
    → Agrees before o
    → Agrees (sign event k o ∷ before) (entry_of event k o)
unfolding entry_of sign
Agrees-event (pass input) k before o a = Agrees-pass input k before o a
Agrees-event (adopt modem) k before o a =
    Agrees-if (text_eq modem.imei k) before ended silent (adopted_entry modem o) o
      (Agrees-adopted before modem o) (Agrees-silent before o a)
Agrees-event (unregister imei) k before o a =
    Agrees-still (text_eq imei k) before none o (unregistered before) a
Agrees-event (set_note imei remark) k before o a =
    Agrees-still (text_eq imei k) before (changed (noted remark) o) o
      (Agrees-noted before remark o a) a
Agrees-event (reconfirm imei refusal now) k before o a =
    Agrees-if (text_eq imei k) before (confirm_sign refusal now) silent
      (changed (confirmed refusal now) o) o (Agrees-confirmed before refusal now o)
      (Agrees-silent before o a)

-- After any run, the mark of an adopted modem counts the refusals that were mark_row since the mark was last ended or
-- restarted, and dates from the first of them, or from the restart.
pub run-Agrees :
    (events : List Event) (k : Text) → Agrees (signs k events) (lookup k (run events).registered)
unfolding run signs lookup
run-Agrees [] k = unregistered []
run-Agrees (event ∷ events) k =
    subst (Agrees (signs k (event ∷ events)))
      (sym (apply-lookup event k (run events) (run-IsRegistry events)))
      (Agrees-event event k (signs k events) (lookup k (run events).registered)
        (run-Agrees events k))
