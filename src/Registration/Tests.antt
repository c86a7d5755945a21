-- ===== src/Registration/Tests.antt =====
-- The arbitration on small inputs, and the theorems at them.
use vodoge_edge.Common.{◌≡◌, refl, ◌↔◌, true, false, some, none, List, [], ◌∷◌}
use vodoge_edge.Common.Text.{codes}
use vodoge_edge.Registration.{
  confidence, source_name, is_complete, RegistrationEvidence, by_serving_system, by_cereg,
  by_cell_location, cell_location, insert_ranked, rank, first_registered, any_unregistered,
  first_source, verdict_of, arbitrate,
}
use vodoge_edge.Registration.Arbitration.{NoneCamped, recovery_iff}

program : Unit {0}
unfolding confidence source_name is_complete by_cell_location insert_ranked rank first_registered
    any_unregistered first_source verdict_of arbitrate
program = tt

abbrev camped : RegistrationEvidence
camped = by_cell_location (some (record { mcc = codes "460"; mnc = codes "01" })) (some 77)

abbrev reports : List RegistrationEvidence
reports = by_serving_system false none ∷ camped ∷ by_cereg false ∷ []

-- The cell wins over the two that search, and no recovery starts.
arbitrate_run :
    ((arbitrate reports).trusted_source ≡ some cell_location)
    × ((arbitrate reports).conflict ≡ true)
    × ((arbitrate (by_cereg false ∷ [])).recovery_allowed ≡ true)
    × ((by_cell_location none (some 77)).registered ≡ false)
unfolding program
arbitrate_run = (refl, refl, refl, refl)

-- An incomplete sample of the cell location.
abbrev sample : RegistrationEvidence
sample = by_cell_location none (some 77)

-- Alone it allows recovery, and against a source that is camped it makes a conflict.
sample_run :
    ((arbitrate (sample ∷ [])).recovery_allowed ≡ true)
    × ((arbitrate (sample ∷ by_cereg true ∷ [])).conflict ≡ true)
unfolding program
sample_run = (refl, refl)

recovery_iff_example :
    ((arbitrate []).recovery_allowed ≡ false)
    × (((arbitrate (sample ∷ [])).recovery_allowed ≡ true) ↔ NoneCamped (sample ∷ []))
recovery_iff_example = recovery_iff sample []
