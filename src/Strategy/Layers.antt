-- ===== src/Strategy/Layers.antt =====
-- The four layers of `resolve`, edge-core/src/strategy.rs, and the condition that they amount to.
use vodoge_edge.Common.{
  ◌≡◌, refl, sym, ap, ◌∙◌, ◌↔◌, inl, inr, true, false, Option, none, some, arith, Option-cases,
}
use vodoge_edge.Common.Dict.{lookup}
use vodoge_edge.Capability.{
  ModemFamily, CarrierProfile, Bearer, BearerSupport, supported, unsupported, probe, Capability,
}
use vodoge_edge.Capability.Keys.{family_key, carrier_key, matrix_key}
use vodoge_edge.Strategy.{
  Operation, support_of, is_supported, CarrierStrategy, SubscriptionCapability, withholds,
  is_authoritative, StrategyRegistry,
}
use vodoge_edge.Strategy.Resolve.{modem_ceiling, or_measured, subscribe, carry, measure, resolve}

-- The bearer that a carrier lets an operation have.
unfoldable pub carrier_bearer : Option CarrierStrategy → Operation → Bearer → Option Bearer
carrier_bearer none operation measured = some measured
carrier_bearer (some strategy) operation measured = elim (strategy.refuses operation) [
  | some reason ↦ none
  | none ↦ some (or_measured (strategy.bearer operation measured) measured)
]

-- The bearer that was measured for an operation.
unfoldable pub measured_bearer : Option Capability → Operation → Option Bearer
measured_bearer none operation = none
measured_bearer (some capability) operation = elim (support_of operation capability) [
  | supported bearer ↦ some bearer
  | unsupported reason ↦ none
  | probe ↦ none
]

-- The operation is permitted over the bearer: the hardware has no ceiling, the pair was measured to have it, the carrier
-- does not refuse it and picks this bearer, and the subscription was read and does not withhold it.
pub record IsPermitted (registry : StrategyRegistry) (family : ModemFamily)
    (carrier : CarrierProfile) (subscription : SubscriptionCapability) (operation : Operation)
    (bearer : Bearer) : Type 0 where
  pub no_ceiling : modem_ceiling (lookup family registry.modems) operation ≡ none
  pub measured : Bearer
  pub was_measured :
      measured_bearer (lookup (family, carrier) registry.ledger) operation ≡ some measured
  pub picks : carrier_bearer (lookup carrier registry.carriers) operation measured ≡ some bearer
  pub was_read : is_authoritative subscription.authority ≡ true
  pub not_withheld : withholds subscription operation ≡ false

subscribe_iff :
    (subscription : SubscriptionCapability) (operation : Operation) (b bearer : Bearer)
    → (subscribe subscription operation b ≡ is_supported bearer) ↔ (
        (b ≡ bearer)
        × (is_authoritative subscription.authority ≡ true)
        × (withholds subscription operation ≡ false))
unfolding subscribe
subscribe_iff subscription operation b bearer = ground arith

carry_iff :
    (strategy : Option CarrierStrategy) (subscription : SubscriptionCapability)
    (operation : Operation) (b bearer : Bearer)
    → (carry strategy subscription operation b ≡ is_supported bearer) ↔ (
        (carrier_bearer strategy operation b ≡ some bearer)
        × (is_authoritative subscription.authority ≡ true)
        × (withholds subscription operation ≡ false))
unfolding carry carrier_bearer
carry_iff none subscription operation b bearer =
    ground (arith, subscribe_iff subscription operation b bearer)
carry_iff (some strategy) subscription operation b bearer =
    elim (Option-cases (strategy.refuses operation)) [
      | inl e ↦ ground (
        arith,
        e,
        subscribe_iff subscription operation (or_measured (strategy.bearer operation b) b) bearer,
      )
      | inr (reason, e) ↦ ground (arith, e)
    ]

-- The bearer of a measured support.
abbrev bearer_of : BearerSupport → Option Bearer
bearer_of (supported bearer) = some bearer
bearer_of _ = none

measured_bearer-of :
    (capability : Capability) (operation : Operation)
    → measured_bearer (some capability) operation ≡ bearer_of (support_of operation capability)
unfolding measured_bearer
measured_bearer-of capability operation = ground arith

measure_iff :
    (registry : StrategyRegistry) (family : ModemFamily) (carrier : CarrierProfile)
    (subscription : SubscriptionCapability) (operation : Operation) (support : BearerSupport)
    (bearer : Bearer)
    → (measure registry family carrier subscription operation support ≡ is_supported bearer) ↔ (
        (m : Bearer) × (bearer_of support ≡ some m)
        × (carrier_bearer (lookup carrier registry.carriers) operation m ≡ some bearer)
        × (is_authoritative subscription.authority ≡ true)
        × (withholds subscription operation ≡ false))
unfolding measure
measure_iff registry family carrier subscription operation (supported b) bearer = (
  λ h.
      let (picks, read, held) =
        (carry_iff (lookup carrier registry.carriers) subscription operation b bearer).0 h in
      (b, refl, picks, read, held),
  λ (m, e, picks, read, held).
      (carry_iff (lookup carrier registry.carriers) subscription operation b bearer).1
        (ground (arith, e, picks), read, held),
)
measure_iff registry family carrier subscription operation (unsupported reason) bearer =
    (λ h. absurd (cc), λ (m, e, picks, read, held). absurd (cc))
measure_iff registry family carrier subscription operation probe bearer =
    (λ h. absurd (cc), λ (m, e, picks, read, held). absurd (cc))

pub resolve-permits :
    (registry : StrategyRegistry) (family : ModemFamily) (carrier : CarrierProfile)
    (subscription : SubscriptionCapability) (operation : Operation) (bearer : Bearer)
    → (resolve registry family carrier subscription operation).support ≡ is_supported bearer
    → IsPermitted registry family carrier subscription operation bearer
unfolding resolve
resolve-permits registry family carrier subscription operation bearer h =
    elim (Option-cases (modem_ceiling (lookup family registry.modems) operation)) [
      | inr (reason, e) ↦ absurd (ground (arith, h, e))
      | inl e ↦ elim (Option-cases (lookup (family, carrier) registry.ledger)) [
        | inl f ↦ absurd (ground (arith, h, e, f))
        | inr (capability, f) ↦
            let (m, was, picks, read, held) =
              (measure_iff registry family carrier subscription operation
                  (support_of operation capability) bearer).0
                (ground (arith, h, e, f)) in
            record {
              no_ceiling = e;
              measured = m;
              was_measured =
                  ap (λ c. measured_bearer c operation) f
                  ∙ (measured_bearer-of capability operation ∙ was);
              picks = picks;
              was_read = read;
              not_withheld = held;
            }
      ]
    ]

permits-resolve :
    (registry : StrategyRegistry) (family : ModemFamily) (carrier : CarrierProfile)
    (subscription : SubscriptionCapability) (operation : Operation) (bearer : Bearer)
    → IsPermitted registry family carrier subscription operation bearer
    → (resolve registry family carrier subscription operation).support ≡ is_supported bearer
unfolding resolve measured_bearer
permits-resolve registry family carrier subscription operation bearer p =
    elim (Option-cases (lookup (family, carrier) registry.ledger)) [
      | inl f ↦ absurd (ground (arith, f, p.was_measured))
      | inr (capability, f) ↦ ground (
        arith,
        f,
        p.no_ceiling,
        (measure_iff registry family carrier subscription operation
              (support_of operation capability) bearer).1
            (
              p.measured,
              sym (measured_bearer-of capability operation)
                  ∙ (sym (ap (λ c. measured_bearer c operation) f) ∙ p.was_measured),
              p.picks,
              p.was_read,
              p.not_withheld,
            ),
      )
    ]

-- An operation is supported, over a bearer, exactly when the hardware has no ceiling for it, the ledger has a measurement
-- of it for the pair, the carrier does not refuse it and picks that bearer, and the subscription was read and does not
-- withhold it.
pub resolve-is_supported_iff :
    (registry : StrategyRegistry) (family : ModemFamily) (carrier : CarrierProfile)
    (subscription : SubscriptionCapability) (operation : Operation) (bearer : Bearer)
    → ((resolve registry family carrier subscription operation).support ≡ is_supported bearer)
      ↔ IsPermitted registry family carrier subscription operation bearer
resolve-is_supported_iff registry family carrier subscription operation bearer = (
  resolve-permits registry family carrier subscription operation bearer,
  permits-resolve registry family carrier subscription operation bearer,
)
