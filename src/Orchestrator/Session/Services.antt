-- ===== src/Orchestrator/Session/Services.antt =====
-- The services that are registered for a node after it has processed a configuration.
use car_integrated_service_m.Prelude.{
  ℤ, eqb_ℤ, Bytes, text_eq, Bool, true, false, ◌&&◌, List, [], ◌∷◌, if◌then◌else◌,
}
use car_integrated_service_m.Container.{Container}
use car_integrated_service_m.Container.Image.{Image}
use car_integrated_service_m.Container.Manager.{Manager}
use car_integrated_service_m.Config.Settings.{Config}
use car_integrated_service_m.Orchestrator.{HandlerCall, registered, unregistered}

-- Whether a service is registered after some calls of the handlers, given whether it was before.
abbrev pub last_call : List HandlerCall → Bytes → ℤ → Bool → Bool
last_call [] b p was = was
last_call (registered c q ∷ calls) b p was =
    last_call calls b p (if text_eq c b && eqb_ℤ p q then true else was)
last_call (unregistered c q ∷ calls) b p was =
    last_call calls b p (if text_eq c b && eqb_ℤ p q then false else was)
