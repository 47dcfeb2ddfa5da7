-- ===== src/Container/Docker.antt =====
-- pkg/container/docker_container_manager.go: the manager that drives a Docker engine. The client of
-- the engine is an argument; each of its calls returns the new state of the engine, and `none` is an
-- error. A result of -1 stands beside each error in the code, and is left out here.
pub mod Bundles
pub mod Removals
use car_integrated_service_m.Prelude.{
  ℤ, negsuc, to_int32, to_uint32, Bytes, codes, text_eq, atoi, Bool, true, false, ◌&&◌, List, [],
  ◌∷◌, Option, none, some, if◌then◌else◌, Outcome, ok, err, panic,
}
use car_integrated_service_m.Container.{Container}
use car_integrated_service_m.Container.Manager.{PortMap, PortBinding}
use car_integrated_service_m.Container.Ports.{Port, format_ports}

abbrev pub bundle_config_file_name : Bytes
bundle_config_file_name = codes "info.json"

pub record BundleConfig : Type 0 where
  pub bundle_id : Bytes

-- What the engine lists of a container.
pub record Summary : Type 0 where
  pub id : Bytes
  pub names : List Bytes
  pub image : Bytes
  pub image_id : Bytes
  pub ports : List Port
  pub status : Bytes

-- A header that the tar reader returns, and the content behind it, `none` if it cannot be read.
pub record TarEntry : Type 0 where
  pub name : Bytes
  pub is_regular : Bool
  pub content : Option Bytes

-- What the tar reader returns, call by call, until the end of the archive or an error.
pub data Archive : Type 0 where
  end_of_file : Archive
  broken : Archive
  next : TarEntry → Archive → Archive

-- The calls of the client of the engine. A listing takes the image whose containers are asked for,
-- or lists the containers of all images, also those that do not run.
pub record Client : Type 1 where
  pub World : Type 0
  pub container_list : World → Option Bytes → World × Option (List Summary)
  pub container_start : World → Bytes → World × Option (Unit {0})
  pub container_stop : World → Bytes → World × Option (Unit {0})
  pub container_remove : World → Bytes → World × Option (Unit {0})
  pub image_remove : World → Bytes → World × Option (Unit {0})
  pub image_pull : World → Bytes → World × Option (Unit {0})
  pub container_create : World → Bytes → List Bytes → PortMap → World × Option Bytes
  pub copy_from_container : World → Bytes → Bytes → World × Option Archive
  -- The port bindings of a container, in the order in which `range` visits them.
  pub container_inspect : World → Bytes → World × Option PortMap
  pub close : World → World × Option (Unit {0})

pub data DockerError : Type 0 where
  engine_error archive_error content_error no_bundle_config not_a_port no_container : DockerError

abbrev pub Unmarshal : Type 0
Unmarshal = Bytes → Option BundleConfig

-- The loop of `bundleConfiguration`.
unfoldable pub read_archive : Unmarshal → Archive → Outcome DockerError BundleConfig
read_archive unmarshal end_of_file = err no_bundle_config
read_archive unmarshal broken = err archive_error
read_archive unmarshal (next entry rest) =
    elim (entry.is_regular && text_eq entry.name bundle_config_file_name) [
      | false ↦ read_archive unmarshal rest
      | true ↦ elim entry.content [
        | none ↦ err content_error
        | some b ↦ elim (unmarshal b) [ none ↦ err content_error | some c ↦ ok c ]
      ]
    ]

-- The loop of `containerServicePort` returns at the first binding. An `int` is cut to an `int32`.
unfoldable pub first_service_port : PortMap → Outcome DockerError ℤ
first_service_port [] = ok (negsuc 0)
first_service_port ((container_port, []) ∷ bindings) = panic
first_service_port ((container_port, binding ∷ others) ∷ bindings) = elim (atoi binding.host_port) [
  | none ↦ err not_a_port
  | some service_port ↦ ok (to_int32 (to_uint32 service_port))
]

-- The loop of `Containers`; a container without a name is a panic.
unfoldable pub containers_of : List Summary → Outcome DockerError (List Container)
containers_of [] = ok []
containers_of (c ∷ container_list) = elim c.names [
  | [] ↦ panic
  | (name ∷ names) ↦ elim (containers_of container_list) [
    | err e ↦ err e
    | panic ↦ panic
    | ok containers ↦ ok (
        record {
          id = c.id;
          first_name = name;
          image = c.image;
          ports = format_ports c.ports;
          status = c.status;
        }
        ∷ containers)
  ]
]

-- `NewDockerContainerManager`: the client, if there can be one and it gets an answer of its engine.
unfoldable pub new_docker_container_manager :
    {Engine : Type 0} → Option Engine → (Engine → Bool) → Option Engine
new_docker_container_manager new_client info = elim new_client [
  | none ↦ none
  | some c ↦ if info c then some c else none
]

module _ (client : Client) (unmarshal : Unmarshal) where
  open client use {
    World, container_list, container_start, container_stop, container_remove, image_remove,
    image_pull, container_create, copy_from_container, container_inspect,
  }

  unfoldable pub bundle_configuration : World → Bytes → World × Outcome DockerError BundleConfig
  bundle_configuration w container_id =
      let (w', r) = copy_from_container w container_id bundle_config_file_name in
      elim r [ none ↦ (w', err engine_error) | some archive ↦ (w', read_archive unmarshal archive) ]

  unfoldable pub container_service_port : World → Bytes → World × Outcome DockerError ℤ
  container_service_port w id =
      let (w', r) = container_inspect w id in
      elim r [ none ↦ (w', err engine_error) | some bindings ↦ (w', first_service_port bindings) ]

  -- The bundle ID and the service port of a container, the first failure first.
  unfoldable pub bundle_of : World → Bytes → World × Outcome DockerError (Bytes × ℤ)
  unfolding bundle_configuration container_service_port
  bundle_of w id =
      let (w', r) = bundle_configuration w id in
      elim r [
        | err e ↦ (w', err e)
        | panic ↦ (w', panic)
        | ok bundle_config ↦
            let (w'', p) = container_service_port w' id in
            elim p [
              | err e ↦ (w'', err e)
              | panic ↦ (w'', panic)
              | ok service_port ↦ (w'', ok (bundle_config.bundle_id, service_port))
            ]
      ]

  unfoldable pub containers : World → World × Outcome DockerError (List Container)
  unfolding containers_of
  containers w =
      let (w', r) = container_list w none in
      elim r [ none ↦ (w', err engine_error) | some list ↦ (w', containers_of list) ]

  unfoldable pub start_container : World → Bytes → World × Outcome DockerError (Unit {0})
  start_container w id =
      let (w', r) = container_start w id in
      elim r [ none ↦ (w', err engine_error) | some _ ↦ (w', ok tt) ]

  unfoldable pub stop_container : World → Bytes → World × Outcome DockerError (Unit {0})
  stop_container w id =
      let (w', r) = container_stop w id in
      elim r [ none ↦ (w', err engine_error) | some _ ↦ (w', ok tt) ]

  -- Without a bundle to verify, the ID is empty and the port -1.
  unfoldable pub verified : World → Bytes → Bool → World × Outcome DockerError (Bytes × ℤ)
  unfolding bundle_of
  verified w id verify_bundle_config =
      if verify_bundle_config then bundle_of w id else (w, ok ([], negsuc 0))

  unfoldable pub create_and_start :
      World → Bytes → List Bytes → PortMap → Bool → World × Outcome DockerError (Bytes × ℤ)
  unfolding verified
  create_and_start w name args port_bindings verify_bundle_config =
      let (w', r) = container_create w name args port_bindings in
      elim r [
        | none ↦ (w', err engine_error)
        | some id ↦
            let (w'', s) = container_start w' id in
            elim s [
              | none ↦ (w'', err engine_error)
              | some _ ↦ verified w'' id verify_bundle_config
            ]
      ]

  -- `image_pull` stands for the call and for reading its result to the end.
  unfoldable pub pull_image_and_create_container :
      World → Bytes → List Bytes → PortMap → Bool → World × Outcome DockerError (Bytes × ℤ)
  unfolding create_and_start
  pull_image_and_create_container w name args port_bindings verify_bundle_config =
      let (w', r) = image_pull w name in
      elim r [
        | none ↦ (w', err engine_error)
        | some _ ↦ create_and_start w' name args port_bindings verify_bundle_config
      ]

  unfoldable pub remove_both : World → Summary → Bytes × ℤ → World × Outcome DockerError (Bytes × ℤ)
  remove_both w c bundle =
      let (w', r) = container_remove w c.id in
      elim r [
        | none ↦ (w', err engine_error)
        | some _ ↦
            let (w'', s) = image_remove w' c.image_id in
            elim s [ none ↦ (w'', err engine_error) | some _ ↦ (w'', ok bundle) ]
      ]

  unfoldable pub remove_first :
      World → List Summary → Bool → World × Outcome DockerError (Bytes × ℤ)
  unfolding verified remove_both
  remove_first w [] verify_bundle_config = (w, err no_container)
  remove_first w (c ∷ container_list) verify_bundle_config =
      let (w', r) = verified w c.id verify_bundle_config in
      elim r [ err e ↦ (w', err e) | panic ↦ (w', panic) | ok bundle ↦ remove_both w' c bundle ]

  unfoldable pub remove_image_and_container :
      World → Bytes → Bool → World × Outcome DockerError (Bytes × ℤ)
  unfolding remove_first
  remove_image_and_container w image_name verify_bundle_config =
      let (w', r) = container_list w (some image_name) in
      elim r [
        | none ↦ (w', err engine_error)
        | some list ↦ remove_first w' list verify_bundle_config
      ]

  unfoldable pub close : World → World × Outcome DockerError (Unit {0})
  close w =
      let (w', r) = client.close w in
      elim r [ none ↦ (w', err engine_error) | some _ ↦ (w', ok tt) ]
