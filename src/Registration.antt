-- ===== src/Registration.antt =====
-- Whether a radio is registered, by several sources, edge-core/src/registration.rs.
use vodoge_edge.Common.{
  ℕ, Bool, true, false, ◌&&◌, not, Option, none, some, List, [], ◌∷◌, ◌++◌, if◌then◌else◌, ltb, leb,
  ◌==◌, is_some,
}
use vodoge_edge.Common.Text.{Text, codes, text_eq}
pub mod Arbitration
pub mod Tests

pub data RegistrationSourceKind : Type 0 where
  serving_system cereg cell_location : RegistrationSourceKind

-- `Confidence`, by its order: low, medium, high.
unfoldable pub confidence : RegistrationSourceKind → ℕ
confidence serving_system = 0
confidence cereg = 1
confidence cell_location = 2

unfoldable pub source_name : RegistrationSourceKind → Text
source_name serving_system = codes "serving_system"
source_name cereg = codes "cereg"
source_name cell_location = codes "cell_location"

pub record Plmn : Type 0 where
  pub mcc : Text
  pub mnc : Text

abbrev is_empty_text : Text → Bool
is_empty_text [] = true
is_empty_text (c ∷ cs) = false

unfoldable pub is_complete : Plmn → Bool
is_complete p =
    not (is_empty_text p.mcc)
    && not (is_empty_text p.mnc)
    && not (text_eq p.mcc (codes "0"))
    && not (text_eq p.mnc (codes "0"))

pub record RegistrationEvidence : Type 0 where
  pub source : RegistrationSourceKind
  pub registered : Bool
  pub plmn : Option Plmn
  pub cell_id : Option ℕ

abbrev pub by_serving_system : Bool → Option Plmn → RegistrationEvidence
by_serving_system registered plmn = record {
  source = serving_system;
  registered = registered;
  plmn = plmn;
  cell_id = none;
}

abbrev pub by_cereg : Bool → RegistrationEvidence
by_cereg registered = record {
  source = cereg;
  registered = registered;
  plmn = none;
  cell_id = none;
}

abbrev is_nonzero : Option ℕ → Bool
is_nonzero none = false
is_nonzero (some n) = not (n == 0)

abbrev is_some_complete : Option Plmn → Bool
is_some_complete none = false
is_some_complete (some p) = is_complete p

unfoldable pub by_cell_location : Option Plmn → Option ℕ → RegistrationEvidence
by_cell_location plmn cell_id = record {
  source = cell_location;
  registered = is_some_complete plmn && is_nonzero cell_id;
  plmn = plmn;
  cell_id = cell_id;
}

pub record RegistrationVerdict : Type 0 where
  pub registered : Bool
  pub recovery_allowed : Bool
  pub trusted_source : Option RegistrationSourceKind
  pub conflict : Bool
  pub reason : Text

-- `sort_by_key` by descending confidence, which is stable.
unfoldable pub insert_ranked :
    RegistrationEvidence → List RegistrationEvidence → List RegistrationEvidence
insert_ranked e [] = e ∷ []
insert_ranked e (f ∷ ranked) =
    if ltb (confidence e.source) (confidence f.source)
    then f ∷ insert_ranked e ranked
    else e ∷ f ∷ ranked

unfoldable pub rank : List RegistrationEvidence → List RegistrationEvidence
rank [] = []
rank (e ∷ evidence) = insert_ranked e (rank evidence)

unfoldable pub first_registered : List RegistrationEvidence → Option RegistrationSourceKind
first_registered [] = none
first_registered (e ∷ ranked) =
    let rest = first_registered ranked in if e.registered then some e.source else rest

unfoldable pub any_unregistered : List RegistrationEvidence → Bool
any_unregistered [] = false
any_unregistered (e ∷ ranked) =
    let rest = any_unregistered ranked in if e.registered then rest else true

unfoldable pub first_source : List RegistrationEvidence → Option RegistrationSourceKind
first_source [] = none
first_source (e ∷ ranked) = some e.source

unfoldable pub verdict_of :
    Option RegistrationSourceKind → Bool → Option RegistrationSourceKind → RegistrationVerdict
verdict_of (some winner) unregistered first = record {
  registered = true;
  recovery_allowed = false;
  trusted_source = some winner;
  conflict = unregistered;
  reason =
      source_name winner
      ++ codes " reports camped"
      ++ (if unregistered then codes "; lower-confidence sources disagree" else [])
      ++ codes "; recovery is suppressed";
}
verdict_of none unregistered first = record {
  registered = false;
  recovery_allowed = true;
  trusted_source = first;
  conflict = false;
  reason = codes "all registration sources report not camped; recovery is allowed";
}

unfoldable pub arbitrate : List RegistrationEvidence → RegistrationVerdict
arbitrate [] = record {
  registered = false;
  recovery_allowed = false;
  trusted_source = none;
  conflict = false;
  reason = codes "no registration sources reported";
}
arbitrate (e ∷ evidence) =
    let ranked = rank (e ∷ evidence) in
    verdict_of (first_registered ranked) (any_unregistered ranked) (first_source ranked)
