-- ===== src/Common/Encoded.antt =====
-- The keys of a type that another one encodes: an equality and an order through the code.
use mathlib.Core.Path.{◌≡◌, sym, ap, ◌∙◌}
use vodoge_edge.Common.Keys.{Key}

abbrev pub encoded_key {ℓ} :
    {A B : Type ℓ} (encode : A → B) (decode : B → A)
    → ((a : A) → decode (encode a) ≡ a)
    → Key B
    → Key A
encoded_key encode decode law o = record {
  beq = λ a b. o.beq (encode a) (encode b);
  lt = λ a b. o.lt (encode a) (encode b);
  beq_iff = λ a b. (
    λ h. sym (law a) ∙ (ap decode ((o.beq_iff (encode a) (encode b)).0 h) ∙ law b),
    λ e. (o.beq_iff (encode a) (encode b)).1 (ap encode e),
  );
  lt_trans = λ a b c. o.lt_trans (encode a) (encode b) (encode c);
  lt_total = λ a b. o.lt_total (encode a) (encode b);
  lt_irrefl = λ a. o.lt_irrefl (encode a);
}
