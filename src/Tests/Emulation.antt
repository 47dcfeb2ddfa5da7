-- ===== src/Tests/Emulation.antt =====
-- The emulated container engine and printed ports at concrete inputs.
use car_integrated_service_m.Prelude.{
  ℕ, ◌+◌, Bytes, codes, text_eq, lookup, insert, itoa, itoa_int, to_int32, IsListing,
  IsListing-refl, Assoc, List, [], ◌∷◌, ◌++◌, none, some, ok, join, map, if◌then◌else◌, last_index,
  index_of, slice_to, ◌≡◌, refl, All, ◌⊎◌,
}
use car_integrated_service_m.Container.Image.{Image, parse_image_name}
use car_integrated_service_m.Container.Manager.{PortMap}
use car_integrated_service_m.Container.Ports.{Port, port_text, format_ports, format_port_bindings}
use car_integrated_service_m.Container.Ports.Joined.{
  format_ports_lem, format_port_bindings_lem, binding_texts,
}
use car_integrated_service_m.Container.Debug.{
  VirtualContainer, DebugContainerManager, new_debug_container_manager,
  pull_image_and_create_container, remove_image_and_container, emulation, containers_of,
  status_running, status_exited,
}
use car_integrated_service_m.Container.Debug.Bundles.{pull-remove}
use car_integrated_service_m.Container.Debug.Statuses.{
  Reach, stay, followed, pulled, listed_statuses,
}
use car_integrated_service_m.Container.Reference.{ParseNormalized, parse_fqin}
use car_integrated_service_m.Config.Settings.{default}
use car_integrated_service_m.Config.Deployment.{NodeConfig}
use car_integrated_service_m.Orchestrator.{qualify, parse_images, install_images, process}
use car_integrated_service_m.Orchestrator.Emulation.{emulation_redeploys}

abbrev web : Port
web = record { ip = []; private_port = 80; public_port = 8080; type = codes "tcp" }

abbrev admin : Port
admin = record { ip = codes "10.0.0.1"; private_port = 99; public_port = 9901; type = codes "tcp" }

format_ports_test :
    format_ports (web ∷ admin ∷ []) ≡ codes "0.0.0.0:8080->80/tcp, 10.0.0.1:9901->99/tcp"
unfolding format_ports itoa
format_ports_test = refl

format_ports_lem_test :
    format_ports (web ∷ admin ∷ []) ≡ join (codes ", ") (map port_text (web ∷ admin ∷ []))
format_ports_lem_test = format_ports_lem (web ∷ admin ∷ [])

abbrev bindings : PortMap
bindings =
    (codes "80/tcp", record { host_ip = []; host_port = codes "8080" } ∷ [])
    ∷ (codes "99/tcp", record { host_ip = codes "10.0.0.1"; host_port = codes "9901" } ∷ [])
    ∷ []

format_port_bindings_lem_test :
    format_port_bindings bindings ≡ join (codes ", ") (binding_texts bindings)
format_port_bindings_lem_test = format_port_bindings_lem bindings ((λ e. cc), ((λ e. cc), tt))

abbrev id : Bytes
id = codes "abc"

abbrev app : Bytes
app = codes "docker.io/mbition/hello-world:v2"

abbrev one : DebugContainerManager
one = (pull_image_and_create_container new_debug_container_manager id app []).0

IsListing-one : IsListing one.container one.container
unfolding pull_image_and_create_container new_debug_container_manager insert lookup
IsListing-one = IsListing-refl (refl, tt)

pull_test :
    (pull_image_and_create_container new_debug_container_manager id app []).1
    ≡ codes "com.mercedes_benz.app_1"
unfolding pull_image_and_create_container new_debug_container_manager itoa_int to_int32
pull_test = refl

pull-remove_example :
    let (after, bundle_id, service_port) =
      pull_image_and_create_container new_debug_container_manager id app [] in
    let (removed, bundle_id', service_port') = remove_image_and_container after one.container app in
    (bundle_id' ≡ bundle_id)
    × (service_port' ≡ service_port)
    × ((k : Bytes) → lookup k removed.container ≡ lookup k new_debug_container_manager.container)
unfolding new_debug_container_manager lookup
pull-remove_example =
    pull-remove new_debug_container_manager id app [] one.container IsListing-one refl
      (λ k vc l. cc) stay

Reach-one : Reach new_debug_container_manager one
Reach-one = followed stay (pulled id app [])

listed_statuses_test :
    All
      (λ c. (c.status ≡ status_running) ⊎ (c.status ≡ status_exited))
      (containers_of one.container)
listed_statuses_test = listed_statuses one one.container Reach-one IsListing-one

abbrev parser : ParseNormalized
parser name =
    if text_eq name (codes "mbition/hello-world")
    then some (codes "docker.io/mbition/hello-world", none)
    else none

abbrev random_id : ℕ → Bytes
random_id n = codes "id" ++ itoa n

abbrev in_order : ℕ → Assoc VirtualContainer → Assoc VirtualContainer
in_order n m = m

abbrev node : NodeConfig
node = record { state = codes "running"; images = codes "mbition/hello-world:v2" ∷ [] }

abbrev wanted : List Image
wanted = record { name = codes "docker.io/mbition/hello-world"; version = codes "v2" } ∷ []

-- The image that runs is installed once more.
emulation_redeploys_example :
    let (w, installs) = install_images (emulation random_id in_order) (1 + 1, one) wanted in
    process
      (emulation random_id in_order)
      parser
      (default (codes "hpc-0"))
      (1, one)
      ((codes "hpc-0", node) ∷ [])
    ≡ record { world = w; calls = installs; result = ok tt }
unfolding text_eq parse_images parse_image_name last_index qualify parse_fqin index_of slice_to
    lookup default
emulation_redeploys_example =
    emulation_redeploys random_id in_order parser (default (codes "hpc-0")) 1 one
      ((codes "hpc-0", node) ∷ []) node wanted Reach-one IsListing-one refl refl
