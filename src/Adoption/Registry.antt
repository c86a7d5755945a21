-- ===== src/Adoption/Registry.antt =====
-- The table of the adopted modems and the table of the retired ones: their statements in edge-store/src/lib.rs, and the
-- columns of migrations 0015 and 0016. A count of passes is a number here: SQLite keeps 63 bits of it.
use vodoge_edge.Common.{ℕ, ◌+◌, ◌%◌, ◌^◌, Bool, Option, none, some, List, [], ◌∷◌, if◌then◌else◌}
use vodoge_edge.Common.Text.{Text}
use vodoge_edge.Common.Int.{ℤ, leb_ℤ}
use vodoge_edge.Common.Keys.{text_key}
use vodoge_edge.Common.Dict.{Dict, lookup, contains, insert, remove}

pub record RegisteredModem : Type 0 where
  pub imei : Text
  pub registered_at : ℤ
  pub registered_by : Text
  pub usb_device : Option Text
  pub family : Option Text
  pub note : Option Text

-- A row of `registered_modems`.
pub record RegisteredRow : Type 0 where
  pub modem : RegisteredModem
  pub gate_failed_since : Option ℤ
  pub gate_failed_reason : Option Text
  pub gate_failed_passes : ℕ

pub record GateFailure : Type 0 where
  pub since : ℤ
  pub reason : Text
  pub passes : ℕ

pub record Retirement : Type 0 where
  pub retired_imei : Text
  pub first_registered_at : ℤ
  pub first_registered_by : Text
  pub retired_family : Option Text
  pub retired_usb_device : Option Text
  pub retired_at : ℤ
  pub retired_reason : Text
  pub retired_detail : Option Text
  pub matrix_version : Option Text

pub record Registry : Type 0 where
  pub registered : Dict Text RegisteredRow
  pub retirements : Dict Text Retirement

abbrev pub coalesce {ℓ} : {A : Type ℓ} → Option A → Option A → Option A
coalesce none later = later
coalesce (some a) later = some a

abbrev pub unmarked : RegisteredModem → RegisteredRow
unmarked modem = record {
  modem = modem;
  gate_failed_since = none;
  gate_failed_reason = none;
  gate_failed_passes = 0;
}

-- What `register_modem` makes of a row that is there.
abbrev pub adopted_again : RegisteredModem → RegisteredRow → RegisteredRow
adopted_again modem row = unmarked (record row.modem {
  usb_device = modem.usb_device;
  family = coalesce modem.family row.modem.family;
})

unfoldable pub register_modem : RegisteredModem → Registry → Registry
register_modem modem r = elim (lookup modem.imei r.registered) [
  | none ↦ record r { registered = insert modem.imei (unmarked modem) r.registered }
  | some row ↦ record r { registered = insert modem.imei (adopted_again modem row) r.registered }
]

unfoldable pub unregister_modem : Text → Registry → Registry × Bool
unregister_modem imei r =
    (record r { registered = remove imei r.registered }, contains imei r.registered)

-- `UPDATE registered_modems SET … WHERE imei = ?1`
unfoldable pub update_row : Text → (RegisteredRow → RegisteredRow) → Registry → Registry
update_row imei change r = elim (lookup imei r.registered) [
  | none ↦ r
  | some row ↦ record r { registered = insert imei (change row) r.registered }
]

abbrev pub mark_row : Text → ℤ → RegisteredRow → RegisteredRow
mark_row reason now row = record row {
  gate_failed_since = coalesce row.gate_failed_since (some now);
  gate_failed_reason = some reason;
  gate_failed_passes = row.gate_failed_passes + 1;
}

abbrev pub mark_gate_failure : Text → Text → ℤ → Registry → Registry
mark_gate_failure imei reason now = update_row imei (mark_row reason now)

abbrev pub restarted : Text → ℤ → RegisteredRow → RegisteredRow
restarted reason now row = record row {
  gate_failed_since = some now;
  gate_failed_reason = some reason;
  gate_failed_passes = 0;
}

abbrev pub restart_gate_failure : Text → Text → ℤ → Registry → Registry
restart_gate_failure imei reason now = update_row imei (restarted reason now)

abbrev pub cleared : RegisteredRow → RegisteredRow
cleared row = unmarked row.modem

abbrev pub clear_gate_failure : Text → Registry → Registry
clear_gate_failure imei = update_row imei cleared

abbrev pub noted : Option Text → RegisteredRow → RegisteredRow
noted note row = record row { modem = record row.modem { note = note } }

abbrev pub update_registered_modem : Text → Option Text → Registry → Registry × Bool
update_registered_modem imei note r = (update_row imei (noted note) r, contains imei r.registered)

abbrev or_empty : Option Text → Text
or_empty none = []
or_empty (some reason) = reason

-- The row as `gate_failure` reads it: `passes.max(0) as u32`.
abbrev pub failure_of : RegisteredRow → Option GateFailure
failure_of row = elim row.gate_failed_since [
  | none ↦ none
  | some since ↦ some (record {
    since = since;
    reason = or_empty row.gate_failed_reason;
    passes = row.gate_failed_passes % 2 ^ 32;
  })
]

unfoldable pub gate_failure : Text → Registry → Option GateFailure
gate_failure imei r = elim (lookup imei r.registered) [ none ↦ none | some row ↦ failure_of row ]

-- The `ON CONFLICT` of `retire_modem` keeps who adopted the modem first.
abbrev retired_again : Retirement → Option Retirement → Retirement
retired_again retirement none = retirement
retired_again retirement (some before) = record before {
  retired_at = retirement.retired_at;
  retired_reason = retirement.retired_reason;
  retired_detail = retirement.retired_detail;
  matrix_version = retirement.matrix_version;
}

unfoldable pub retire_modem : Retirement → Registry → Registry × Bool
retire_modem retirement r = (
  record {
    registered = remove retirement.retired_imei r.registered;
    retirements =
        insert retirement.retired_imei
          (retired_again retirement (lookup retirement.retired_imei r.retirements)) r.retirements;
  },
  contains retirement.retired_imei r.registered,
)

abbrev pub retired_registration : Text → Registry → Option Retirement
retired_registration imei r = lookup imei r.retirements

abbrev pub forget_retirement : Text → Registry → Registry × Bool
forget_retirement imei r =
    (record r { retirements = remove imei r.retirements }, contains imei r.retirements)

-- `ORDER BY registered_at, imei`: a row goes before those that were registered later; the rows come by their IMEIs.
unfoldable pub insert_ordered : RegisteredModem → List RegisteredModem → List RegisteredModem
insert_ordered modem [] = modem ∷ []
insert_ordered modem (other ∷ modems) =
    let rest = insert_ordered modem modems in
    if leb_ℤ modem.registered_at other.registered_at then modem ∷ other ∷ modems else other ∷ rest

unfoldable pub ordered_rows : Dict Text RegisteredRow → List RegisteredModem
ordered_rows [] = []
ordered_rows ((imei, row) ∷ rows) = insert_ordered row.modem (ordered_rows rows)

abbrev pub registered_modems : Registry → List RegisteredModem
registered_modems r = ordered_rows r.registered
