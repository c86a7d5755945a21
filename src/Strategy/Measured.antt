-- ===== src/Strategy/Measured.antt =====
-- The ledger of a matrix, edge-core/src/strategy.rs: what `resolve` supports was measured, so the second gate of
-- edge-core/src/binding.rs passes it too.
use vodoge_edge.Common.{
  ◌≡◌, refl, sym, ap, ◌∙◌, inl, inr, true, Option, none, some, List, [], ◌∷◌, arith, Option-cases,
  Bool-cases, ok,
}
use mathlib.Core.Path.{subst}
use vodoge_edge.Common.Dict.{
  Dict, lookup, contains, insert, lookup-insert, IsSorted, Above, Above-IsSorted, Above-weaken,
  insert-IsSorted,
}
use vodoge_edge.Capability.{ModemFamily, CarrierProfile, Bearer, Capability, has_measurement}
use vodoge_edge.Capability.Keys.{matrix_key}
use vodoge_edge.Matrix.{
  RawRule, MatrixDocument, MatrixKey, CapabilityMatrix, key_of, into_capability, add_rules,
  from_document, query,
}
use vodoge_edge.Matrix.Documents.{document_fallback, from_document-rules}
use vodoge_edge.Strategy.{
  Operation, support_of, is_supported, SubscriptionCapability, SupportLedger, record_all,
  ledger_from_matrix, StrategyRegistry,
}
use vodoge_edge.Strategy.Resolve.{resolve}
use vodoge_edge.Strategy.Layers.{measured_bearer, resolve-permits}

lookup-Above : {V : Type 0} (k : MatrixKey) (m : Dict MatrixKey V) → Above k m → lookup k m ≡ none
unfolding lookup
lookup-Above k [] a = refl
lookup-Above k ((j, w) ∷ m) a = ground (
  arith,
  matrix_key.beq_iff j k,
  matrix_key.lt_irrefl k,
  lookup-Above k m (Above-weaken k j m a.0 a.1),
)

abbrev first_some : Option Capability → Option Capability → Option Capability
first_some none later = later
first_some (some c) later = some c

record_all-lookup :
    (key : MatrixKey) (rules : Dict MatrixKey Capability) (ledger : SupportLedger)
    → IsSorted rules
    → lookup key (record_all rules ledger) ≡ first_some (lookup key rules) (lookup key ledger)
unfolding record_all lookup
record_all-lookup key [] ledger s = refl
record_all-lookup key ((j, w) ∷ rules) ledger s = ground (
  arith,
  record_all-lookup key rules (insert j w ledger) (Above-IsSorted j rules s),
  lookup-insert j key w ledger,
  lookup-Above j rules s,
  matrix_key.beq_iff j key,
)

add_rules-IsSorted :
    (fallback : Capability) (raw : List RawRule) (rules out : Dict MatrixKey Capability)
    → IsSorted rules
    → add_rules fallback raw rules ≡ ok out
    → IsSorted out
unfolding add_rules
add_rules-IsSorted fallback [] rules out s h = subst IsSorted (ground (arith, h)) s
add_rules-IsSorted fallback (rule ∷ rest) rules out s h =
    elim (Bool-cases (contains (key_of rule) rules)) [
      | inl e ↦ absurd (ground (arith, h, e))
      | inr e ↦
          let cap = into_capability rule.capability fallback in
          add_rules-IsSorted fallback rest (insert (key_of rule) cap rules) out
            (insert-IsSorted (key_of rule) cap rules s) (ground (arith, h, e))
    ]

-- The ledger holds what the rules of an accepted document hold.
ledger_from_matrix-lookup :
    (document : MatrixDocument) (matrix : CapabilityMatrix) (key : MatrixKey)
    → from_document document ≡ ok matrix
    → lookup key (ledger_from_matrix matrix) ≡ lookup key matrix.rules
unfolding ledger_from_matrix lookup
ledger_from_matrix-lookup document matrix key h = ground (
  arith,
  record_all-lookup key matrix.rules [] (
      add_rules-IsSorted (document_fallback document) document.rule [] matrix.rules tt
        (from_document-rules document matrix h)),
)

measured_bearer-has_measurement :
    (capability : Capability) (operation : Operation) (bearer : Bearer)
    → measured_bearer (some capability) operation ≡ some bearer
    → has_measurement capability ≡ true
unfolding measured_bearer has_measurement support_of
measured_bearer-has_measurement capability operation bearer h = ground (arith, h)

-- What `resolve` supports, with the ledger of the matrix of an accepted document, the matrix has a measurement of: the
-- second gate never refuses a pair for which some operation is supported.
pub supported-has_measurement :
    (document : MatrixDocument) (matrix : CapabilityMatrix) (registry : StrategyRegistry)
    (family : ModemFamily) (carrier : CarrierProfile) (subscription : SubscriptionCapability)
    (operation : Operation) (bearer : Bearer)
    → from_document document ≡ ok matrix
    → registry.ledger ≡ ledger_from_matrix matrix
    → (resolve registry family carrier subscription operation).support ≡ is_supported bearer
    → has_measurement (query matrix family carrier).capability ≡ true
unfolding query measured_bearer
supported-has_measurement document matrix registry family carrier subscription operation bearer h
      ledger s =
    let p = resolve-permits registry family carrier subscription operation bearer s in
    let found =
      ap (λ l. lookup (family, carrier) l) ledger
      ∙ ledger_from_matrix-lookup document matrix (family, carrier) h in
    elim (Option-cases (lookup (family, carrier) matrix.rules)) [
      | inl e ↦ absurd (ground (arith, found, e, p.was_measured))
      | inr (capability, e) ↦ ground (
        arith,
        e,
        measured_bearer-has_measurement capability operation p.measured
            (sym (ap (λ c. measured_bearer c operation) (found ∙ e)) ∙ p.was_measured),
      )
    ]
