-- ===== src/Registration/Arbitration.antt =====
-- What the arbitration comes to, without the order in which the sources report.
use vodoge_edge.Common.{
  ℕ, ◌≤◌, ◌≡◌, refl, ◌↔◌, true, false, Option, none, some, List, [], ◌∷◌, ◌++◌, if◌then◌else◌, ltb,
  All, ap, ◌∙◌, sym, arith,
}
use vodoge_edge.Registration.{
  RegistrationSourceKind, serving_system, cereg, cell_location, confidence, RegistrationEvidence,
  RegistrationVerdict, insert_ranked, rank, first_registered, any_unregistered, first_source,
  verdict_of, arbitrate,
}

-- The source of the higher confidence, the first of two that are the same.
abbrev pub better :
    Option RegistrationSourceKind → Option RegistrationSourceKind → Option RegistrationSourceKind
better none o = o
better (some s) none = some s
better (some s) (some t) = if ltb (confidence s) (confidence t) then some t else some s

abbrev pub vote : RegistrationEvidence → Option RegistrationSourceKind
vote e = if e.registered then some e.source else none

abbrev pub best_registered : List RegistrationEvidence → Option RegistrationSourceKind
best_registered [] = none
best_registered (e ∷ evidence) = better (vote e) (best_registered evidence)

abbrev pub best_source : List RegistrationEvidence → Option RegistrationSourceKind
best_source [] = none
best_source (e ∷ evidence) = better (some e.source) (best_source evidence)

-- Descending confidence, none above `n`.
abbrev Descends : ℕ → List RegistrationEvidence → Type 0
Descends n [] = Unit
Descends n (e ∷ ranked) = (confidence e.source ≤ n) × Descends (confidence e.source) ranked

Descends-weaken :
    (n m : ℕ) (ranked : List RegistrationEvidence) → n ≤ m → Descends n ranked → Descends m ranked
Descends-weaken n m [] h d = tt
Descends-weaken n m (e ∷ ranked) h d = (omega (arith, d.0), d.1)

insert_ranked-Descends :
    (n : ℕ) (e : RegistrationEvidence) (ranked : List RegistrationEvidence)
    → confidence e.source ≤ n
    → Descends n ranked
    → Descends n (insert_ranked e ranked)
unfolding insert_ranked
insert_ranked-Descends n e [] h d = (h, tt)
insert_ranked-Descends n e (f ∷ ranked) h d =
    ground (arith, insert_ranked-Descends (confidence f.source) e ranked)

confidence-le : (s : RegistrationSourceKind) → confidence s ≤ 2
unfolding confidence
confidence-le serving_system = omega arith
confidence-le cereg = omega arith
confidence-le cell_location = omega arith

rank-Descends : (evidence : List RegistrationEvidence) → Descends 2 (rank evidence)
unfolding rank
rank-Descends [] = tt
rank-Descends (e ∷ evidence) =
    insert_ranked-Descends 2 e (rank evidence) (confidence-le e.source) (rank-Descends evidence)

abbrev Within : ℕ → Option RegistrationSourceKind → Type 0
Within n none = Unit
Within n (some s) = confidence s ≤ n

first_registered-Within :
    (n : ℕ) (ranked : List RegistrationEvidence)
    → Descends n ranked
    → Within n (first_registered ranked)
unfolding first_registered
first_registered-Within n [] d = tt
first_registered-Within n (e ∷ ranked) d = ground (
  arith,
  first_registered-Within n ranked (Descends-weaken (confidence e.source) n ranked d.0 d.1),
)

insert_registered :
    (n : ℕ) (e : RegistrationEvidence) (ranked : List RegistrationEvidence)
    → Descends n ranked
    → first_registered (insert_ranked e ranked) ≡ better (vote e) (first_registered ranked)
unfolding first_registered insert_ranked
insert_registered n e [] d = ground arith
insert_registered n e (f ∷ ranked) d = ground (
  arith,
  insert_registered (confidence f.source) e ranked d.1,
  first_registered-Within (confidence f.source) ranked d.1,
)

insert_first :
    (n : ℕ) (e : RegistrationEvidence) (ranked : List RegistrationEvidence)
    → first_source (insert_ranked e ranked) ≡ better (some e.source) (first_source ranked)
unfolding first_source insert_ranked
insert_first n e [] = refl
insert_first n e (f ∷ ranked) = ground arith

insert_unregistered :
    (e : RegistrationEvidence) (ranked : List RegistrationEvidence)
    → any_unregistered (insert_ranked e ranked) ≡ any_unregistered (e ∷ ranked)
unfolding any_unregistered insert_ranked
insert_unregistered e [] = refl
insert_unregistered e (f ∷ ranked) = ground (arith, insert_unregistered e ranked)

rank_registered :
    (evidence : List RegistrationEvidence)
    → first_registered (rank evidence) ≡ best_registered evidence
unfolding rank first_registered
rank_registered [] = refl
rank_registered (e ∷ evidence) = ground (
  arith,
  insert_registered 2 e (rank evidence) (rank-Descends evidence),
  rank_registered evidence,
)

rank_first :
    (evidence : List RegistrationEvidence) → first_source (rank evidence) ≡ best_source evidence
unfolding rank first_source
rank_first [] = refl
rank_first (e ∷ evidence) = ground (arith, insert_first 2 e (rank evidence), rank_first evidence)

rank_unregistered :
    (evidence : List RegistrationEvidence)
    → any_unregistered (rank evidence) ≡ any_unregistered evidence
unfolding rank any_unregistered
rank_unregistered [] = refl
rank_unregistered (e ∷ evidence) =
    ground (arith, insert_unregistered e (rank evidence), rank_unregistered evidence)

-- The verdict, read off the evidence as it stands.
abbrev pub abstract_verdict : List RegistrationEvidence → RegistrationVerdict
abstract_verdict [] = arbitrate []
abstract_verdict (e ∷ evidence) =
    verdict_of (best_registered (e ∷ evidence)) (any_unregistered (e ∷ evidence))
      (best_source (e ∷ evidence))

-- The ranking is only a way to find three things: the arbitration is decided by the source of the highest confidence
-- among those that report camped, by whether any does not, and by the source of the highest confidence of all.
pub arbitrate-abstract_verdict :
    (evidence : List RegistrationEvidence) → arbitrate evidence ≡ abstract_verdict evidence
unfolding arbitrate
arbitrate-abstract_verdict [] = refl
arbitrate-abstract_verdict (e ∷ evidence) = ground (
  arith,
  rank_registered (e ∷ evidence),
  rank_unregistered (e ∷ evidence),
  rank_first (e ∷ evidence),
)

better_swap :
    (a b c : Option RegistrationSourceKind) → better a (better b c) ≡ better b (better a c)
unfolding confidence
better_swap a b c = ground arith

registered_swap :
    (xs : List RegistrationEvidence) (a b : RegistrationEvidence) (ys : List RegistrationEvidence)
    → best_registered (xs ++ a ∷ b ∷ ys) ≡ best_registered (xs ++ b ∷ a ∷ ys)
registered_swap [] a b ys = better_swap (vote a) (vote b) (best_registered ys)
registered_swap (x ∷ xs) a b ys = ap (better (vote x)) (registered_swap xs a b ys)

source_swap :
    (xs : List RegistrationEvidence) (a b : RegistrationEvidence) (ys : List RegistrationEvidence)
    → best_source (xs ++ a ∷ b ∷ ys) ≡ best_source (xs ++ b ∷ a ∷ ys)
source_swap [] a b ys = better_swap (some a.source) (some b.source) (best_source ys)
source_swap (x ∷ xs) a b ys = ap (better (some x.source)) (source_swap xs a b ys)

unregistered_swap :
    (xs : List RegistrationEvidence) (a b : RegistrationEvidence) (ys : List RegistrationEvidence)
    → any_unregistered (xs ++ a ∷ b ∷ ys) ≡ any_unregistered (xs ++ b ∷ a ∷ ys)
unfolding any_unregistered
unregistered_swap [] a b ys = ground arith
unregistered_swap (x ∷ xs) a b ys = ground (arith, unregistered_swap xs a b ys)

verdict_swap :
    (xs : List RegistrationEvidence) (a b : RegistrationEvidence) (ys : List RegistrationEvidence)
    → abstract_verdict (xs ++ a ∷ b ∷ ys) ≡ abstract_verdict (xs ++ b ∷ a ∷ ys)
verdict_swap [] a b ys =
    rw (registered_swap [] a b ys, source_swap [] a b ys, unregistered_swap [] a b ys) refl
verdict_swap (x ∷ xs) a b ys =
    rw
      (
        registered_swap (x ∷ xs) a b ys,
        source_swap (x ∷ xs) a b ys,
        unregistered_swap (x ∷ xs) a b ys,
      )
      refl

-- The order of the reports does not matter: two neighbours may change places, and the verdict is the same.
pub arbitrate_swap :
    (xs : List RegistrationEvidence) (a b : RegistrationEvidence) (ys : List RegistrationEvidence)
    → arbitrate (xs ++ a ∷ b ∷ ys) ≡ arbitrate (xs ++ b ∷ a ∷ ys)
arbitrate_swap xs a b ys =
    arbitrate-abstract_verdict (xs ++ a ∷ b ∷ ys)
    ∙ verdict_swap xs a b ys
    ∙ sym (arbitrate-abstract_verdict (xs ++ b ∷ a ∷ ys))

abbrev pub NoneCamped : List RegistrationEvidence → Type 0
NoneCamped = All (λ e. e.registered ≡ false)

no_best :
    (evidence : List RegistrationEvidence) → (best_registered evidence ≡ none) ↔ NoneCamped evidence
no_best [] = (λ h. tt, λ h. refl)
no_best (e ∷ evidence) = ground (arith, no_best evidence)

no_reports : (arbitrate []).recovery_allowed ≡ false
unfolding arbitrate
no_reports = refl

-- Recovery, which interrupts the radio, is allowed exactly if some source reports and none reports camped. An incomplete
-- sample of the cell location is a report that is not camped, so it counts: alone, it allows recovery.
pub recovery_iff :
    (e : RegistrationEvidence) (evidence : List RegistrationEvidence)
    → ((arbitrate []).recovery_allowed ≡ false)
      × (((arbitrate (e ∷ evidence)).recovery_allowed ≡ true) ↔ NoneCamped (e ∷ evidence))
unfolding verdict_of
recovery_iff e evidence =
    (no_reports, ground (arith, arbitrate-abstract_verdict (e ∷ evidence), no_best (e ∷ evidence)))
