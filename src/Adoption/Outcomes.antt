-- ===== src/Adoption/Outcomes.antt =====
-- The two outcomes of a pass: it names what it could not read, or it judges every row, `enforce_registration` of
-- edge-bin/src/main.rs.
use vodoge_edge.Common.{
  ◌≡◌, ap, ◌⊎◌, inl, inr, true, false, none, some, List, [], arith, is_some, Bool-cases,
  Option-cases,
}
use vodoge_edge.Common.Text.{Text, codes}
use vodoge_edge.Common.Keys.{text_key}
use vodoge_edge.Common.Dict.{lookup}
use vodoge_edge.Adoption.Registry.{Registry, registered_modems}
use vodoge_edge.Adoption.Pass.{LocalModemDiscovery}
use vodoge_edge.Adoption.Enforce.{PassInput, has_none, enforce_registration}
use vodoge_edge.Adoption.Rows.{IsRegistry}
use vodoge_edge.Adoption.Pointwise.{entry_after}
use vodoge_edge.Adoption.Passes.{enforce_registration-row, empty_rows}

-- What a pass may find unreadable, in the order in which it reads: the candidates; the registry; the inventory, which
-- it reads only if some modem is adopted.
pub data Unread (input : PassInput) (r : Registry) : Text → Type 0 where
  no_candidates : input.discoveries ≡ none → Unread input r (codes "discoveries")
  no_registry :
      is_some input.discoveries ≡ true
      → input.faults.registry_unreadable ≡ true
      → Unread input r (codes "registry")
  no_inventory :
      is_some input.discoveries ≡ true
      → input.faults.registry_unreadable ≡ false
      → has_none (registered_modems r) ≡ false
      → input.faults.inventory_unreadable ≡ true
      → Unread input r (codes "inventory")

-- The pass names what it could not read and does nothing.
pub record Stops (input : PassInput) (r : Registry) (why : Text) : Type 0 where
  pub unread : Unread input r why
  pub told : (enforce_registration input r).unreadable ≡ some why
  pub unplanned : (enforce_registration input r).plan ≡ none
  pub unchanged : (enforce_registration input r).registry ≡ r
  pub kept : (enforce_registration input r).retired ≡ []

-- The pass names nothing, has read the candidates and the registry, and every row is what its own judgement makes of it.
pub record Judges (input : PassInput) (r : Registry) (found : List LocalModemDiscovery)
    : Type 0 where
  pub seen : input.discoveries ≡ some found
  pub read : input.faults.registry_unreadable ≡ false
  pub untold : (enforce_registration input r).unreadable ≡ none
  pub judged :
      (k : Text)
      → lookup k (enforce_registration input r).registry.registered
        ≡ entry_after input found k (lookup k r.registered)

empty_pass :
    (input : PassInput) (found : List LocalModemDiscovery) (k : Text) (r : Registry)
    → IsRegistry r
    → input.discoveries ≡ some found
    → input.faults.registry_unreadable ≡ false
    → has_none (registered_modems r) ≡ true
    → lookup k (enforce_registration input r).registry.registered
      ≡ entry_after input found k (lookup k r.registered)
unfolding enforce_registration entry_after
empty_pass input found k r w d f e =
    ground (arith, d, f, e, empty_rows k r w e, ap (entry_after input found k) (empty_rows k r w e))

-- A pass over a well-formed registry has one of two outcomes. Either it names the first of the candidates, the registry
-- and, if some modem is adopted, the inventory that it could not read, has no plan, changes nothing and retires nothing;
-- or it names nothing, has read the candidates and the registry, and makes of every row of the table exactly what the
-- judgement of that row makes of it: a registry that cannot be read is never taken for an empty one.
pub enforce_registration_cases :
    (input : PassInput) (r : Registry)
    → IsRegistry r
    → ((why : Text) × Stops input r why)
      ⊎ ((found : List LocalModemDiscovery) × Judges input r found)
unfolding enforce_registration
enforce_registration_cases input r w = elim (Option-cases input.discoveries) [
  | inl d ↦ inl (
    codes "discoveries",
    record {
      unread = no_candidates d;
      told = ground (arith, d);
      unplanned = ground (arith, d);
      unchanged = ground (arith, d);
      kept = ground (arith, d);
    },
  )
  | inr (found, d) ↦ elim (Bool-cases input.faults.registry_unreadable) [
    | inl f ↦ inl (
      codes "registry",
      record {
        unread = no_registry (ap is_some d) f;
        told = ground (arith, d, f);
        unplanned = ground (arith, d, f);
        unchanged = ground (arith, d, f);
        kept = ground (arith, d, f);
      },
    )
    | inr f ↦ elim (Bool-cases (has_none (registered_modems r))) [
      | inl e ↦ inr (
        found,
        record {
          seen = d;
          read = f;
          untold = ground (arith, d, f, e);
          judged = λ k. empty_pass input found k r w d f e;
        },
      )
      | inr e ↦ elim (Bool-cases input.faults.inventory_unreadable) [
        | inl g ↦ inl (
          codes "inventory",
          record {
            unread = no_inventory (ap is_some d) f e g;
            told = ground (arith, d, f, e, g);
            unplanned = ground (arith, d, f, e, g);
            unchanged = ground (arith, d, f, e, g);
            kept = ground (arith, d, f, e, g);
          },
        )
        | inr g ↦ inr (
          found,
          record {
            seen = d;
            read = f;
            untold = ground (arith, d, f, e, g);
            judged = λ k. enforce_registration-row input found k r w d f g;
          },
        )
      ]
    ]
  ]
]
