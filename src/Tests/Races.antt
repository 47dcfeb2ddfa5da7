-- ===== src/Tests/Races.antt =====
-- Two tasks for one configuration.
use car_integrated_service_m.Prelude.{[], ◌∷◌}
use mathlib.Core.WellFounded.{Acc}
use car_integrated_service_m.Orchestrator.Tasks.{fresh, Tasks, Step}
use car_integrated_service_m.Orchestrator.Tasks.Ending.{tasks_end}
use car_integrated_service_m.Tests.Orchestration.{engine, parser, settings, running, node}

abbrev two_tasks : Tasks engine
two_tasks = record {
  world = running;
  tasks =
      record { position = fresh node; calls = [] }
      ∷ record { position = fresh node; calls = [] }
      ∷ [];
}

tasks_end_example : Acc (λ u v. Step engine parser settings v u) two_tasks
tasks_end_example = tasks_end engine parser settings two_tasks
