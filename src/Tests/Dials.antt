-- ===== src/Tests/Dials.antt =====
-- A node dials the control plane, at concrete settings.
use car_integrated_service_m.Prelude.{
  Bytes, codes, true, some, ◌++◌, ok, ◌≡◌, refl, last_index, last_index-Lacks,
}
use car_integrated_service_m.Config.Settings.{Config, default}
use car_integrated_service_m.Orchestrator.Run.{control_plane_target}
use car_integrated_service_m.ControlPlane.Serving.{
  Environment, run, until_stopped, stopped, dials_control_plane,
}

abbrev settings : Config
settings = record (default (codes "hpc-1")) { central_node_hostname = codes "hpc-0" }

abbrev env : Environment
env = record { listen = λ addr. true; serve = λ lis. until_stopped }

dials_control_plane_test :
    (addr : Bytes) × (run env (ok settings) ≡ record { served_at = some addr; ending = stopped })
    × (control_plane_target settings ≡ settings.central_node_hostname ++ addr)
unfolding default
dials_control_plane_test =
    dials_control_plane env settings settings refl
      (last_index-Lacks b':' (codes "hpc-0") (unfold last_index in refl)) refl refl
