-- ===== src/Orchestrator.antt =====
-- cmd/carisma-orchestrator/app/orchestrator.go: what a node does with a deployment configuration.
-- The calls of the two handlers are results; logging is left out. The proofs are in the modules
-- below.
pub mod Differences
pub mod Plan
pub mod Emulation
pub mod Proxy
pub mod Actual
pub mod Tasks
pub mod Session
pub mod Joining
pub mod Run
use car_integrated_service_m.Prelude.{
  ℤ, Bytes, codes, text_eq, has_prefix, has_suffix, Bool, true, false, not, ◌&&◌, List, [], ◌∷◌,
  ◌++◌, Option, none, some, if◌then◌else◌, select, Assoc, lookup, insert, Outcome, ok, err, panic,
}
use car_integrated_service_m.Container.{Container}
use car_integrated_service_m.Container.Image.{
  Image, parse_image_name, extract_image_list, image_text,
}
use car_integrated_service_m.Container.Manager.{Manager, PortMap}
use car_integrated_service_m.Container.Reference.{ParseNormalized, ReferenceError, parse_fqin}
use car_integrated_service_m.Config.Settings.{Config}
use car_integrated_service_m.Config.Deployment.{DeploymentConfig, NodeConfig}

abbrev pub envoy_container_image_name : Bytes
envoy_container_image_name = codes "envoyproxy/envoy:distroless-v1.27-latest"

abbrev pub unmanaged_container_name_prefix : Bytes
unmanaged_container_name_prefix = codes "/carisma-keep-"

-- `memory[i.Name] = i.Version`, for each image.
unfoldable pub remember : Assoc Bytes → List Image → Assoc Bytes
remember memory [] = memory
remember memory (i ∷ is) = remember (insert i.name i.version memory) is

-- `!found || version != i.Version`
abbrev pub is_missing : Assoc Bytes → Image → Bool
is_missing memory i = elim (lookup i.name memory) [
  | none ↦ true
  | some version ↦ not (text_eq version i.version)
]

unfoldable pub collect_missing : Assoc Bytes → List Image → List Image → List Image
collect_missing memory [] missing = missing
collect_missing memory (i ∷ is) missing =
    collect_missing memory is (if is_missing memory i then missing ++ i ∷ [] else missing)

unfoldable pub diff : List Image → List Image → List Image
unfolding remember collect_missing
diff a b = collect_missing (remember [] a) b []

unfoldable pub is_managed : Container → Bool
is_managed c =
    not (has_prefix c.first_name unmanaged_container_name_prefix)
    && has_prefix c.status (codes "Up")

unfoldable pub parse_images : List Bytes → List Image
parse_images [] = []
parse_images (img ∷ imgs) = parse_image_name img ∷ parse_images imgs

-- The loop that makes the names fully qualified, up to the first error.
unfoldable pub qualify : ParseNormalized → Bytes → List Image → Outcome ReferenceError (List Image)
qualify parse domain [] = ok []
qualify parse domain (i ∷ is) = elim (parse_fqin parse i.name domain) [
  | err e ↦ err e
  | panic ↦ panic
  | ok fqin ↦ elim (qualify parse domain is) [
    | err e ↦ err e
    | panic ↦ panic
    | ok rest ↦ ok (record i { name = fqin } ∷ rest)
  ]
]

-- A call of `hReg` or of `hUnreg`.
pub data HandlerCall : Type 0 where
  registered unregistered : Bytes → ℤ → HandlerCall

-- `strings.HasSuffix(i.Name, container.ParseImageName(envoyContainerImageName).Name)`
unfoldable pub is_middleware : Image → Bool
is_middleware i = has_suffix i.name (parse_image_name envoy_container_image_name).name

module _ (mgr : Manager) where
  open mgr use {World, containers, pull_image_and_create_container, remove_image_and_container}

  -- One image to remove: after an error a second try without the bundle descriptor, and no call.
  unfoldable pub remove_image : World → Image → World × List HandlerCall
  remove_image w i =
      let (w', r) = remove_image_and_container w (image_text i) true in
      elim r [
        | some (bundle_id, service_port) ↦ (w', unregistered bundle_id service_port ∷ [])
        | none ↦ ((remove_image_and_container w' (image_text i) false).0, [])
      ]

  unfoldable pub remove_images : World → List Image → World × List HandlerCall
  remove_images w [] = (w, [])
  remove_images w (i ∷ is) = elim (is_middleware i) [
    | true ↦ remove_images w is
    | false ↦
        let (w', calls) = remove_image w i in
        let (w'', rest) = remove_images w' is in (w'', calls ++ rest)
  ]

  unfoldable pub install_images : World → List Image → World × List HandlerCall
  install_images w [] = (w, [])
  install_images w (i ∷ is) =
      let (w', r) = pull_image_and_create_container w (image_text i) [] [] true in
      let (w'', rest) = install_images w' is in
      elim r [
        | none ↦ (w'', rest)
        | some (bundle_id, service_port) ↦ (w'', registered bundle_id service_port ∷ rest)
      ]

  pub data ProcessError : Type 0 where
    containers_failed : ProcessError
    bad_reference : ReferenceError → ProcessError

  pub record Processed : Type 0 where
    pub world : World
    pub calls : List HandlerCall
    pub result : Outcome ProcessError (Unit {0})

  -- The two loops, for the current and the new images.
  unfoldable pub reconcile : World → List Image → List Image → Processed
  unfolding remove_image remove_images install_images diff
  reconcile w curr_images new_images =
      let (w', removals) = remove_images w (diff new_images curr_images) in
      let (w'', installs) = install_images w' (diff curr_images new_images) in
      record { world = w''; calls = removals ++ installs; result = ok tt }

  unfoldable pub process_node : ParseNormalized → Config → World → NodeConfig → Processed
  unfolding reconcile
  process_node parse cfg w node =
      let (w', r) = containers w in
      elim r [
        | none ↦ record { world = w'; calls = []; result = err containers_failed }
        | some cs ↦
            elim (qualify parse cfg.default_container_registry_domain (parse_images node.images)) [
              | err e ↦ record { world = w'; calls = []; result = err (bad_reference e) }
              | panic ↦ record { world = w'; calls = []; result = panic }
              | ok new_images ↦ reconcile w' (extract_image_list (select is_managed cs)) new_images
            ]
      ]

  -- A configuration that does not name this node changes nothing.
  unfoldable pub process : ParseNormalized → Config → World → DeploymentConfig → Processed
  unfolding process_node
  process parse cfg w dplm_cfg = elim (lookup cfg.node_hostname dplm_cfg) [
    | none ↦ record { world = w; calls = []; result = ok tt }
    | some node ↦ process_node parse cfg w node
  ]
