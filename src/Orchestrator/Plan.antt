-- ===== src/Orchestrator/Plan.antt =====
-- What `process` of cmd/carisma-orchestrator/app/orchestrator.go asks of a container manager, as one
-- list of requests.
use car_integrated_service_m.Prelude.{
  lookup, Bool, true, false, not, ◌&&◌, List, [], ◌∷◌, ◌++◌, map, none, some, select, any, ◌||◌,
  All, All-imp, ok, err, ◌≡◌, ◌∙◌, refl, sym, ap, append_assoc, arith,
}
use car_integrated_service_m.Container.{Container}
use car_integrated_service_m.Container.Image.{Image, image_text, extract_image_list}
use car_integrated_service_m.Container.Manager.{Manager}
use car_integrated_service_m.Container.Reference.{ParseNormalized}
use car_integrated_service_m.Config.Settings.{Config}
use car_integrated_service_m.Config.Deployment.{DeploymentConfig, NodeConfig}
use car_integrated_service_m.Orchestrator.{
  is_managed, is_middleware, qualify, parse_images, HandlerCall, registered, unregistered,
  remove_image, remove_images, install_images, ProcessError, reconcile, process_node, process,
}
use car_integrated_service_m.Orchestrator.Differences.{image_eq, diff_unique, IsUniquelyNamed}

pub data Request : Type 0 where
  remove install : Image → Request

-- The requests that turn the current images into the wanted ones: first to remove each current image
-- that is not wanted and is not the middleware, then to install each wanted one that is not current.
abbrev pub plan : List Image → List Image → List Request
plan curr wanted =
    map remove (select (λ i. not (any (image_eq i) wanted) && not (is_middleware i)) curr)
    ++ map install (select (λ i. not (any (image_eq i) curr)) wanted)

-- The images of the managed containers that run.
abbrev pub running_images : List Container → List Image
running_images cs = extract_image_list (select is_managed cs)

select-none : (p : Image → Bool) (is : List Image) → All (λ i. p i ≡ false) is → select p is ≡ []
select-none p [] h = refl
select-none p (i ∷ is) h = ground (arith, h.0, select-none p is h.1)

module _ (mgr : Manager) where
  open mgr use {World, pull_image_and_create_container, remove_image_and_container}

  -- A removal is tried again without the bundle descriptor if it fails, and then no handler is told.
  abbrev pub perform : World → Request → World × List HandlerCall
  perform w (remove i) =
      let first = remove_image_and_container w (image_text i) true in
      elim first.1 [
        | some b ↦ (first.0, unregistered b.0 b.1 ∷ [])
        | none ↦ ((remove_image_and_container first.0 (image_text i) false).0, [])
      ]
  perform w (install i) =
      let first = pull_image_and_create_container w (image_text i) [] [] true in
      elim first.1 [ none ↦ (first.0, []) | some b ↦ (first.0, registered b.0 b.1 ∷ []) ]

  abbrev pub perform_all : World → List Request → World × List HandlerCall
  perform_all w [] = (w, [])
  perform_all w (r ∷ rs) =
      let step = perform w r in let rest = perform_all step.0 rs in (rest.0, step.1 ++ rest.1)

  perform_all-append :
      (w : World) (rs ss : List Request)
      → let before = perform_all w rs in
        let after = perform_all before.0 ss in
        perform_all w (rs ++ ss) ≡ (after.0, before.1 ++ after.1)
  perform_all-append w [] ss = refl
  perform_all-append w (r ∷ rs) ss =
      let step = perform w r in
      let before = perform_all step.0 rs in
      ap (λ p. (p.0, step.1 ++ p.1)) (perform_all-append step.0 rs ss)
      ∙ ap (λ cs. ((perform_all before.0 ss).0, cs))
          (sym (append_assoc step.1 before.1 (perform_all before.0 ss).1))

  remove_image_lem : (w : World) (i : Image) → remove_image mgr w i ≡ perform w (remove i)
  unfolding remove_image
  remove_image_lem w i = ground arith

  remove_images_lem :
      (w : World) (p : Image → Bool) (xs : List Image)
      → remove_images mgr w (select p xs)
        ≡ perform_all w (map remove (select (λ i. p i && not (is_middleware i)) xs))
  unfolding remove_images
  remove_images_lem w p [] = refl
  remove_images_lem w p (i ∷ xs) = ground (
    arith,
    remove_image_lem w i,
    remove_images_lem w p xs,
    remove_images_lem (remove_image mgr w i).0 p xs,
  )

  install_images_lem :
      (w : World) (xs : List Image) → install_images mgr w xs ≡ perform_all w (map install xs)
  unfolding install_images
  install_images_lem w [] = refl
  install_images_lem w (i ∷ xs) =
      ground (
        arith,
        install_images_lem (pull_image_and_create_container w (image_text i) [] [] true).0 xs,
      )

  reconcile_lem :
      (w : World) (curr wanted : List Image)
      → IsUniquelyNamed curr
      → IsUniquelyNamed wanted
      → let p = reconcile mgr w curr wanted in
        (p.result ≡ ok tt) × ((p.world, p.calls) ≡ perform_all w (plan curr wanted))
  unfolding reconcile
  reconcile_lem w curr wanted uc uw =
      let gone = λ (i : Image). not (any (image_eq i) wanted) in
      let missing = select (λ i. not (any (image_eq i) curr)) wanted in
      let removals = map remove (select (λ i. gone i && not (is_middleware i)) curr) in
      (
        refl,
        rw (diff_unique wanted curr uw, diff_unique curr wanted uc)
            (rw
              (remove_images_lem w gone curr, install_images_lem (perform_all w removals).0 missing)
              (sym (perform_all-append w removals (map install missing)))),
      )

  module _ (parse : ParseNormalized) (cfg : Config) where
    process_node-reconcile :
        (w w' : World) (node : NodeConfig) (cs : List Container) (wanted : List Image)
        → mgr.containers w ≡ (w', some cs)
        → qualify parse cfg.default_container_registry_domain (parse_images node.images) ≡ ok wanted
        → process_node mgr parse cfg w node ≡ reconcile mgr w' (running_images cs) wanted
    unfolding process_node
    process_node-reconcile w w' node cs wanted e q = ground (arith, e, q)

    -- For any container manager, whatever of its calls fail: where this node is named in a
    -- configuration whose image names can be qualified, the containers can be listed, and no name
    -- stands twice among the images that run and are managed nor among the configured ones,
    -- `process` returns no error, and leaves the engine, and calls the handlers, as the requests of
    -- the plan do: to remove each such image that is not configured and not middleware, and then to
    -- install each configured image that does not run.
    pub process_lem :
        (w w' : World) (dplm_cfg : DeploymentConfig) (node : NodeConfig) (cs : List Container)
        (wanted : List Image)
        → lookup cfg.node_hostname dplm_cfg ≡ some node
        → mgr.containers w ≡ (w', some cs)
        → qualify parse cfg.default_container_registry_domain (parse_images node.images) ≡ ok wanted
        → IsUniquelyNamed (running_images cs)
        → IsUniquelyNamed wanted
        → let p = process mgr parse cfg w dplm_cfg in
          (p.result ≡ ok tt)
          × ((p.world, p.calls) ≡ perform_all w' (plan (running_images cs) wanted))
    unfolding process
    process_lem w w' dplm_cfg node cs wanted l e q uc uw =
        rw (process, l, process_node-reconcile w w' node cs wanted e q)
          (reconcile_lem w' (running_images cs) wanted uc uw)

    -- For any container manager: where this node is named in a configuration whose image names can be
    -- qualified, the containers can be listed, and no name stands twice among the images that run and
    -- are managed nor among the configured ones, if each such image is configured or middleware, and
    -- each configured one runs, `process` does nothing more than list the containers.
    pub process_settled :
        (w w' : World) (dplm_cfg : DeploymentConfig) (node : NodeConfig) (cs : List Container)
        (wanted : List Image)
        → lookup cfg.node_hostname dplm_cfg ≡ some node
        → mgr.containers w ≡ (w', some cs)
        → qualify parse cfg.default_container_registry_domain (parse_images node.images) ≡ ok wanted
        → IsUniquelyNamed (running_images cs)
        → IsUniquelyNamed wanted
        → All (λ i. any (image_eq i) wanted || is_middleware i ≡ true) (running_images cs)
        → All (λ i. any (image_eq i) (running_images cs) ≡ true) wanted
        → let p = process mgr parse cfg w dplm_cfg in
          (p.result ≡ ok tt) × (p.world ≡ w') × (p.calls ≡ [])
    process_settled w w' dplm_cfg node cs wanted l e q uc uw kept present =
        let (fine, done) = process_lem w w' dplm_cfg node cs wanted l e q uc uw in
        let nothing : plan (running_images cs) wanted ≡ [] =
          rw (select-none _ (running_images cs) kept', select-none _ wanted present') refl in
        let same = done ∙ ap (perform_all w') nothing in
        (fine, ap (λ p. p.0) same, ap (λ p. p.1) same)
      where
        kept' :
            All
              (λ i. not (any (image_eq i) wanted) && not (is_middleware i) ≡ false)
              (running_images cs)
        kept' = All-imp _ _ (λ i h. ground (arith, h)) (running_images cs) kept

        present' : All (λ i. not (any (image_eq i) (running_images cs)) ≡ false) wanted
        present' = All-imp _ _ (λ i h. ground (arith, h)) wanted present

    -- If `process` returns an error, nothing was removed or installed, and no handler was called:
    -- only the containers were listed.
    pub process_rejects :
        (w : World) (dplm_cfg : DeploymentConfig) (e : ProcessError mgr)
        → (process mgr parse cfg w dplm_cfg).result ≡ err e
        → ((process mgr parse cfg w dplm_cfg).world ≡ (mgr.containers w).0)
          × ((process mgr parse cfg w dplm_cfg).calls ≡ [])
    unfolding process process_node reconcile
    process_rejects w dplm_cfg e h = ground arith
