-- ===== src/Tests/Reports.antt =====
-- The actual state of the nodes at a concrete report.
use car_integrated_service_m.Prelude.{
  Bytes, codes, text_eq, lookup, insert, IsListing, IsListing-refl, none, some, ok, panic, [], ◌∷◌,
  ◌≡◌, refl,
}
use car_integrated_service_m.Config.Deployment.{NodeConfig, DeploymentConfig}
use car_integrated_service_m.Orchestrator.Actual.{update_actual, state_of, report}
use car_integrated_service_m.Orchestrator.Actual.Merge.{
  held_state, latest, report_lem, report_panics,
}

abbrev stopping : DeploymentConfig
stopping = (codes "a", record { state = codes "stopping"; images = [] }) ∷ []

abbrev running : NodeConfig
running = record { state = codes "running"; images = [] }

abbrev reported : DeploymentConfig
reported = (codes "a", running) ∷ []

abbrev in_order : DeploymentConfig → DeploymentConfig
in_order m = m

-- A node that is stopping stays so while it still reports that it runs.
report_test : (report {E = Unit {0}} (some stopping) [] reported in_order).1 ≡ ok (some stopping)
unfolding report text_eq lookup insert
report_test = refl

IsListing-reported : IsListing reported reported
unfolding lookup
IsListing-reported = IsListing-refl (refl, tt)

IsListing-updated : IsListing (in_order (update_actual [] reported)) (update_actual [] reported)
unfolding lookup update_actual text_eq insert
IsListing-updated = IsListing-refl (refl, tt)

report_lem_example :
    ((k : Bytes)
      → lookup k (report {E = Unit {0}} (some stopping) [] reported in_order).0
        ≡ latest [] reported k)
    × (written : DeploymentConfig) × ((report {E = Unit {0}} (some stopping) [] reported in_order).1
        ≡ ok (some written))
    × ((k : Bytes)
        → lookup k written ≡ (elim (latest [] reported k) [
          | none ↦ lookup k stopping
          | some node ↦ some (record node { state = held_state (state_of k stopping) node.state })
        ]))
report_lem_example =
    report_lem stopping [] reported reported in_order IsListing-reported IsListing-updated

report_panics_test : (report {E = Unit {0}} none [] reported in_order).1 ≡ panic
unfolding lookup update_actual text_eq insert
report_panics_test =
    report_panics [] [] [] reported in_order IsListing-updated (codes "a") running refl
