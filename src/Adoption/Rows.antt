-- ===== src/Adoption/Rows.antt =====
-- The rows of the table of the adopted modems, edge-store/src/lib.rs: what a statement does to one of them, and which
-- rows the pass of edge-bin/src/main.rs reads for an IMEI.
use vodoge_edge.Common.{
  ◌≡◌, refl, ap, ◌∙◌, inl, inr, true, false, Option, none, some, List, [], ◌∷◌, if◌then◌else◌,
  arith, Bool-cases, Option-cases,
}
use mathlib.Core.Path.{subst}
use vodoge_edge.Common.Text.{Text, text_eq}
use vodoge_edge.Common.Keys.{text_key, text_eq_iff}
use vodoge_edge.Common.Dict.{
  Dict, lookup, lookup-insert, IsSorted, Above, Above-IsSorted, Above-weaken,
}
use vodoge_edge.Adoption.Registry.{
  RegisteredModem, RegisteredRow, Registry, update_row, insert_ordered, ordered_rows,
}
use vodoge_edge.Adoption.Enforce.{find_modem}

abbrev pub changed {ℓ} : {A B : Type ℓ} → (A → B) → Option A → Option B
changed f none = none
changed f (some a) = some (f a)

row_changed :
    (imei k : Text) (change : RegisteredRow → RegisteredRow) (r : Registry)
    → lookup k (update_row imei change r).registered ≡ (elim (lookup imei r.registered) [
      | none ↦ lookup k r.registered
      | some row ↦ if text_eq imei k then some (change row) else lookup k r.registered
    ])
unfolding update_row
row_changed imei k change r = elim (Option-cases (lookup imei r.registered)) [
  | inl e ↦ ground (arith, e)
  | inr (row, e) ↦ ground (arith, e, lookup-insert imei k (change row) r.registered)
]

pub update_row-lookup :
    (imei k : Text) (change : RegisteredRow → RegisteredRow) (r : Registry)
    → lookup k (update_row imei change r).registered
      ≡ (if text_eq imei k then changed change (lookup k r.registered) else lookup k r.registered)
unfolding update_row
update_row-lookup imei k change r = elim (Bool-cases (text_eq imei k)) [
  | inl e ↦ ground (
    arith,
    e,
    ap (λ i. lookup i r.registered) ((text_eq_iff imei k).0 e),
    row_changed imei k change r,
  )
  | inr e ↦ ground (arith, e, row_changed imei k change r)
]

-- Every row stands under its own IMEI.
abbrev pub Keyed : Dict Text RegisteredRow → Type 0
Keyed [] = Unit
Keyed ((imei, row) ∷ rows) = (row.modem.imei ≡ imei) × Keyed rows

pub record IsRegistry (r : Registry) : Type 0 where
  pub sorted : IsSorted r.registered
  pub keyed : Keyed r.registered

-- The modems of the list that have the IMEI.
unfoldable pub select_modems : Text → List RegisteredModem → List RegisteredModem
select_modems k [] = []
select_modems k (row ∷ rows) =
    let rest = select_modems k rows in if text_eq row.imei k then row ∷ rest else rest

select_modems-insert_here :
    (k : Text) (m : RegisteredModem) (ms : List RegisteredModem)
    → text_eq m.imei k ≡ true
    → select_modems k ms ≡ []
    → select_modems k (insert_ordered m ms) ≡ m ∷ []
unfolding select_modems insert_ordered
select_modems-insert_here k m [] h s = ground (arith, h)
select_modems-insert_here k m (other ∷ ms) h s =
    ground (arith, h, s, select_modems-insert_here k m ms h)

select_modems-insert_away :
    (k : Text) (m : RegisteredModem) (ms : List RegisteredModem)
    → text_eq m.imei k ≡ false
    → select_modems k (insert_ordered m ms) ≡ select_modems k ms
unfolding select_modems insert_ordered
select_modems-insert_away k m [] h = ground (arith, h)
select_modems-insert_away k m (other ∷ ms) h = ground (arith, h, select_modems-insert_away k m ms h)

abbrev pub row_modems : Option RegisteredRow → List RegisteredModem
row_modems none = []
row_modems (some row) = row.modem ∷ []

row-Above : (k : Text) (rows : Dict Text RegisteredRow) → Above k rows → lookup k rows ≡ none
unfolding lookup
row-Above k [] a = refl
row-Above k ((j, row) ∷ rows) a = ground (
  arith,
  text_key.beq_iff j k,
  text_key.lt_irrefl k,
  row-Above k rows (Above-weaken k j rows a.0 a.1),
)

-- The rows that are read for an IMEI: the one that stands under it.
pub select_modems-ordered_rows :
    (k : Text) (rows : Dict Text RegisteredRow)
    → IsSorted rows
    → Keyed rows
    → select_modems k (ordered_rows rows) ≡ row_modems (lookup k rows)
unfolding ordered_rows lookup select_modems
select_modems-ordered_rows k [] s keyed = refl
select_modems-ordered_rows k ((j, row) ∷ rows) s keyed = elim (Bool-cases (text_eq j k)) [
  | inl e ↦
      let none_here =
        select_modems-ordered_rows k rows (Above-IsSorted j rows s) keyed.1
        ∙ ap row_modems (row-Above k rows (subst (λ i. Above i rows) ((text_eq_iff j k).0 e) s)) in
      select_modems-insert_here k row.modem (ordered_rows rows) (ap (λ i. text_eq i k) keyed.0 ∙ e)
        none_here
      ∙ ground (arith, e)
  | inr e ↦
      select_modems-insert_away k row.modem (ordered_rows rows) (ap (λ i. text_eq i k) keyed.0 ∙ e)
      ∙ (select_modems-ordered_rows k rows (Above-IsSorted j rows s) keyed.1 ∙ ground (arith, e))
]

pub find_modem-select_modems :
    (k : Text) (rows : List RegisteredModem)
    → find_modem k rows ≡ (elim (select_modems k rows) [ [] ↦ none | row ∷ rest ↦ some row ])
unfolding find_modem select_modems
find_modem-select_modems k [] = refl
find_modem-select_modems k (row ∷ rows) = ground (arith, find_modem-select_modems k rows)

pub lookup-Keyed :
    (k : Text) (rows : Dict Text RegisteredRow) (row : RegisteredRow)
    → Keyed rows
    → lookup k rows ≡ some row
    → row.modem.imei ≡ k
unfolding lookup
lookup-Keyed k [] row keyed h = absurd (cc)
lookup-Keyed k ((j, other) ∷ rows) row keyed h = elim (Bool-cases (text_eq j k)) [
  | inl e ↦ ground (arith, e, h, keyed.0, (text_eq_iff j k).0 e)
  | inr e ↦ lookup-Keyed k rows row keyed.1 (ground (arith, e, h))
]
