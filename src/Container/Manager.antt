-- ===== src/Container/Manager.antt =====
-- The interface `Manager` of pkg/container/container.go, over the state of a container engine.
-- `none` is an error. An implementation that panics (Container.Docker models where) ends the process
-- inside the call, so that it gives no value: what is proved of a manager is proved of calls that
-- return.
use car_integrated_service_m.Prelude.{ℤ, Bytes, Bool, List, Assoc, Option}
use car_integrated_service_m.Container.{Container}

-- `nat.PortBinding`
pub record PortBinding : Type 0 where
  pub host_ip : Bytes
  pub host_port : Bytes

abbrev pub PortMap : Type 0
PortMap = Assoc (List PortBinding)

pub record Manager : Type 1 where
  pub World : Type 0
  pub containers : World → World × Option (List Container)
  pub start_container : World → Bytes → World × Option (Unit {0})
  pub stop_container : World → Bytes → World × Option (Unit {0})
  -- The bundle ID and the service port of the container that was made or removed.
  pub pull_image_and_create_container :
      World → Bytes → List Bytes → PortMap → Bool → World × Option (Bytes × ℤ)
  pub remove_image_and_container : World → Bytes → Bool → World × Option (Bytes × ℤ)
  pub close : World → World × Option (Unit {0})
