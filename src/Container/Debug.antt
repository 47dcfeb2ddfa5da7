-- ===== src/Container/Debug.antt =====
-- pkg/container/debug_container_manager.go: the manager that emulates a container engine. What it
-- prints is left out. A random ID and the order in which a `range` loop visits the containers are
-- arguments; an `int32` counter is kept as its bits, modulo 2 ^ 32.
pub mod Bundles
pub mod Statuses
use car_integrated_service_m.Prelude.{
  ℕ, ◌+◌, ◌-◌, ◌%◌, ◌^◌, ℤ, negsuc, to_int32, itoa_int, Bytes, codes, text_eq, List, [], ◌∷◌, ◌++◌,
  Option, none, some, Assoc, lookup, insert, erase, if◌then◌else◌, Bool,
}
use car_integrated_service_m.Container.{Container}
use car_integrated_service_m.Container.Manager.{Manager, PortMap}
use car_integrated_service_m.Container.Ports.{format_port_bindings}

abbrev pub status_running : Bytes
status_running = codes "running"

abbrev pub status_exited : Bytes
status_exited = codes "exited"

abbrev pub service_port_base : ℕ
service_port_base = 8080

abbrev pub app_idx_base : ℕ
app_idx_base = 1

pub record VirtualContainer : Type 0 where
  pub app_idx : ℕ
  pub container : Container

pub record DebugContainerManager : Type 0 where
  pub container : Assoc VirtualContainer
  pub next_service_port : ℕ
  pub next_app_idx : ℕ

unfoldable pub new_debug_container_manager : DebugContainerManager
new_debug_container_manager = record {
  container = [];
  next_service_port = service_port_base;
  next_app_idx = app_idx_base;
}

-- `fmt.Sprintf("com.mercedes_benz.app_%d", …)`
abbrev pub bundle_id_of : ℕ → Bytes
bundle_id_of app_idx = codes "com.mercedes_benz.app_" ++ itoa_int (to_int32 app_idx)

-- The containers, in the order of the visit.
unfoldable pub containers_of : Assoc VirtualContainer → List Container
containers_of [] = []
containers_of ((id, vc) ∷ visit) = vc.container ∷ containers_of visit

-- `vc.container.Status = …` through the pointer that the map holds; `none` is an error.
unfoldable pub set_status :
    Bytes → DebugContainerManager → Bytes → DebugContainerManager × Option (Unit {0})
set_status status d id = elim (lookup id d.container) [
  | none ↦ (d, none)
  | some vc ↦ (
    record d {
      container =
          insert id (record vc { container = record vc.container { status = status } }) d.container;
    },
    some tt,
  )
]

abbrev pub start_container :
    DebugContainerManager → Bytes → DebugContainerManager × Option (Unit {0})
start_container = set_status status_running

abbrev pub stop_container :
    DebugContainerManager → Bytes → DebugContainerManager × Option (Unit {0})
stop_container = set_status status_exited

abbrev pub virtual_container : DebugContainerManager → Bytes → Bytes → PortMap → VirtualContainer
virtual_container d id name port_bindings = record {
  app_idx = d.next_app_idx;
  container = record {
    id = id;
    first_name = id;
    image = name;
    ports = format_port_bindings port_bindings;
    status = status_running;
  };
}

-- The first argument behind the state is the random ID. There is no error.
unfoldable pub pull_image_and_create_container :
    DebugContainerManager → Bytes → Bytes → PortMap → DebugContainerManager × Bytes × ℤ
pull_image_and_create_container d id name port_bindings = (
  record {
    container = insert id (virtual_container d id name port_bindings) d.container;
    next_service_port = (d.next_service_port + 1) % 2 ^ 32;
    next_app_idx = (d.next_app_idx + 1) % 2 ^ 32;
  },
  bundle_id_of d.next_app_idx,
  to_int32 d.next_service_port,
)

-- The first container of the visit with the image.
unfoldable pub find_image : Bytes → Assoc VirtualContainer → Option (Bytes × VirtualContainer)
find_image name [] = none
find_image name ((id, vc) ∷ visit) =
    if text_eq vc.container.image name then some (id, vc) else find_image name visit

-- Without such a container the result is an empty ID and the port -1, and still no error.
unfoldable pub remove_image_and_container :
    DebugContainerManager → Assoc VirtualContainer → Bytes → DebugContainerManager × Bytes × ℤ
remove_image_and_container d visit name = elim (find_image name visit) [
  | none ↦ (d, [], negsuc 0)
  | some (id, vc) ↦ (
    record d { container = erase id d.container },
    bundle_id_of vc.app_idx,
    to_int32 ((service_port_base - 1 + vc.app_idx) % 2 ^ 32),
  )
]

-- The emulation as a manager. The number counts the calls; the two functions give the random IDs
-- and the order of a visit at each call.
abbrev pub emulation : (ℕ → Bytes) → (ℕ → Assoc VirtualContainer → Assoc VirtualContainer) → Manager
emulation random_id visit = record {
  World = ℕ × DebugContainerManager;
  containers = λ w. ((w.0 + 1, w.1), some (containers_of (visit w.0 w.1.container)));
  start_container = λ w id. let (d, r) = start_container w.1 id in ((w.0 + 1, d), r);
  stop_container = λ w id. let (d, r) = stop_container w.1 id in ((w.0 + 1, d), r);
  pull_image_and_create_container = λ w name cmd ports verify.
      let (d, id, port) = pull_image_and_create_container w.1 (random_id w.0) name ports in
      ((w.0 + 1, d), some (id, port));
  remove_image_and_container = λ w name verify.
      let (d, id, port) = remove_image_and_container w.1 (visit w.0 w.1.container) name in
      ((w.0 + 1, d), some (id, port));
  close = λ w. ((w.0 + 1, w.1), some tt);
}
