-- ===== src/Orchestrator/Emulation.antt =====
-- The orchestrator on the emulated container engine.
use car_integrated_service_m.Prelude.{
  ℕ, ◌+◌, Bytes, codes, lookup, has_prefix, List, [], ◌∷◌, some, Assoc, IsListing, false, not,
  select, All, ok, ◌≡◌, ◌∙◌, ◌⊎◌, inl, inr, refl, ap, arith,
}
use car_integrated_service_m.Container.{Container}
use car_integrated_service_m.Container.Image.{Image, extract_image_list}
use car_integrated_service_m.Container.Debug.{
  VirtualContainer, DebugContainerManager, new_debug_container_manager, status_running,
  status_exited, containers_of, emulation,
}
use car_integrated_service_m.Container.Debug.Statuses.{Reach, listed_statuses}
use car_integrated_service_m.Container.Manager.{Manager}
use car_integrated_service_m.Container.Reference.{ParseNormalized}
use car_integrated_service_m.Config.Settings.{Config}
use car_integrated_service_m.Config.Deployment.{DeploymentConfig, NodeConfig}
use car_integrated_service_m.Orchestrator.{
  is_managed, diff, qualify, parse_images, remove_images, install_images, reconcile, process_node,
  process, Processed,
}
use car_integrated_service_m.Orchestrator.Differences.{is_current, diff_lem}

not_up :
    (status : Bytes)
    → (status ≡ status_running) ⊎ (status ≡ status_exited)
    → has_prefix status (codes "Up") ≡ false
unfolding has_prefix
not_up status (inl e) = ap (λ s. has_prefix s (codes "Up")) e
not_up status (inr e) = ap (λ s. has_prefix s (codes "Up")) e

-- A container whose status is that of the emulation is not taken for a managed one.
not_managed : (c : Container) → has_prefix c.status (codes "Up") ≡ false → is_managed c ≡ false
unfolding is_managed
not_managed c h = ground (arith, h)

select-is_managed :
    (cs : List Container)
    → All (λ c. (c.status ≡ status_running) ⊎ (c.status ≡ status_exited)) cs
    → select is_managed cs ≡ []
select-is_managed [] h = refl
select-is_managed (c ∷ cs) h = rw (not_managed c (not_up c.status h.0)) (select-is_managed cs h.1)

select-always : (xs : List Image) → select (λ i. not (is_current [] i)) xs ≡ xs
select-always [] = refl
select-always (x ∷ xs) = ap (λ ys. x ∷ ys) (select-always xs)

-- Nothing removed, and the images installed.
abbrev installed : (mgr : Manager) → mgr.World → List Image → Processed mgr
installed mgr w is =
    let (w', installs) = install_images mgr w is in
    record { world = w'; calls = installs; result = ok tt }

-- Without current images nothing is removed, and all wanted images are installed.
reconcile_fresh :
    (mgr : Manager) (w : mgr.World) (wanted : List Image)
    → reconcile mgr w [] wanted ≡ (
        let (w', installs) = install_images mgr w wanted in
        record { world = w'; calls = installs; result = ok tt })
unfolding reconcile remove_images diff
reconcile_fresh mgr w wanted =
    let missing : diff [] wanted ≡ wanted = diff_lem [] wanted ∙ select-always wanted in
    ap (installed mgr w) missing

module _ (random_id : ℕ → Bytes) (visit : ℕ → Assoc VirtualContainer → Assoc VirtualContainer)
    (parse : ParseNormalized) (cfg : Config) where
  -- On the emulated engine, whatever was called before and in any order of visit, a configuration
  -- that names this node, with image names that can be qualified, removes nothing and installs every
  -- configured image, also those that run already.
  pub emulation_redeploys :
      (calls : ℕ) (d : DebugContainerManager) (dplm_cfg : DeploymentConfig) (node : NodeConfig)
      (wanted : List Image)
      → Reach new_debug_container_manager d
      → IsListing (visit calls d.container) d.container
      → lookup cfg.node_hostname dplm_cfg ≡ some node
      → qualify parse cfg.default_container_registry_domain (parse_images node.images) ≡ ok wanted
      → let (w, installs) = install_images (emulation random_id visit) (calls + 1, d) wanted in
        process (emulation random_id visit) parse cfg (calls, d) dplm_cfg
        ≡ record { world = w; calls = installs; result = ok tt }
  unfolding process process_node extract_image_list
  emulation_redeploys calls d dplm_cfg node wanted r listing l q =
      let unmanaged =
        select-is_managed (containers_of (visit calls d.container))
          (listed_statuses d (visit calls d.container) r listing) in
      rw (process, l, process_node, q, unmanaged)
        (reconcile_fresh (emulation random_id visit) (calls + 1, d) wanted)
