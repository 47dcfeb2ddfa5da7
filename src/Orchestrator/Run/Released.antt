-- ===== src/Orchestrator/Run/Released.antt =====
-- What is opened is closed again.
use car_integrated_service_m.Prelude.{
  ℕ, ◌==◌, List, [], ◌∷◌, Option, none, some, if◌then◌else◌, ◌≡◌, ◌≢◌,
}
use car_integrated_service_m.Container.Manager.{Manager}
use car_integrated_service_m.Config.Settings.{Config}
use car_integrated_service_m.Config.Bootstrap.{Bootstrap}
use car_integrated_service_m.Orchestrator.Run.{
  Resource, container_manager, connection, proxy, desired_file, Event, opened, closed, killed, Exit,
}

abbrev number : Resource → ℕ
number container_manager = 0
number connection = 1
number proxy = 2
number desired_file = 3

-- What is open after some events, the last that was opened first: `none` where something is closed
-- that is not the last.
abbrev pub open_after : List Resource → List Event → Option (List Resource)
open_after open_ones [] = some open_ones
open_after open_ones (opened r ∷ es) = open_after (r ∷ open_ones) es
open_after [] (closed r ∷ es) = none
open_after (q ∷ open_ones) (closed r ∷ es) =
    let rest = open_after open_ones es in if number q == number r then rest else none

-- Whatever is opened is closed, and only that, in the opposite order.
abbrev pub IsSettled : List Event → Type 0
IsSettled es = (open_ones : List Resource) → open_after open_ones es ≡ some open_ones

-- All is released, unless the process is killed.
pub record IsReleased {World : Type 0} (e : Exit World) : Type 0 where
  pub released : e.ending ≢ killed → IsSettled e.events
