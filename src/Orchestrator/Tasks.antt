-- ===== src/Orchestrator/Tasks.antt =====
-- `process` of cmd/carisma-orchestrator/app/orchestrator.go as a task that makes one call of the
-- container manager at a step, so that several can go on at once: on the central node a change of the
-- file and a message of the registry are handled by different goroutines, without a lock. Each call of
-- the manager is one step here, though the manager of Docker makes a bounded number of calls of its
-- client in it, between which those of other tasks can fall.
pub mod Ending
use car_integrated_service_m.Prelude.{
  Bytes, List, [], ◌∷◌, ◌++◌, Option, none, some, Bool, true, false, select, Outcome, ok, err,
  panic, ◌≡◌,
}
use car_integrated_service_m.Container.Image.{Image, image_text, extract_image_list}
use car_integrated_service_m.Container.Manager.{Manager}
use car_integrated_service_m.Container.Reference.{ParseNormalized, ReferenceError}
use car_integrated_service_m.Config.Settings.{Config}
use car_integrated_service_m.Config.Deployment.{NodeConfig}
use car_integrated_service_m.Orchestrator.{
  is_managed, is_middleware, diff, qualify, parse_images, HandlerCall, registered, unregistered,
  ProcessError, containers_failed, bad_reference,
}

module _ (mgr : Manager) where
  open mgr use {World, containers, pull_image_and_create_container, remove_image_and_container}

  -- Where a task stands: before the list of containers; in the loop that removes images, with those
  -- left and the current and the new images; before the second try to remove an image; in the loop
  -- that installs images; or at its end.
  pub data Position : Type 0 where
    fresh : NodeConfig → Position
    removing : List Image → List Image → List Image → Position
    retrying : Image → List Image → List Image → List Image → Position
    installing : List Image → Position
    finished : Outcome (ProcessError mgr) (Unit {0}) → Position

  abbrev pub is_finished : Position → Bool
  is_finished (finished r) = true
  is_finished p = false

  pub record Task : Type 0 where
    pub position : Position
    pub calls : List HandlerCall

  -- Several tasks on one container manager.
  pub record Tasks : Type 0 where
    pub world : World
    pub tasks : List Task

  module _ (parse : ParseNormalized) (cfg : Config) where
    unfoldable pub advance_fresh : World → NodeConfig → World × Position
    unfolding diff
    advance_fresh w node =
        let (w', r) = containers w in
        elim r [
          | none ↦ (w', finished (err containers_failed))
          | some cs ↦
              let curr = extract_image_list (select is_managed cs) in
              elim (qualify parse cfg.default_container_registry_domain
                (parse_images node.images)) [
                  | err e ↦ (w', finished (err (bad_reference e)))
                  | panic ↦ (w', finished panic)
                  | ok wanted ↦ (w', removing (diff wanted curr) curr wanted)
                ]
        ]

    unfoldable pub advance : World → Position → World × Position × List HandlerCall
    unfolding advance_fresh diff
    advance w (fresh node) = let (w', p) = advance_fresh w node in (w', p, [])
    advance w (removing [] curr wanted) = (w, installing (diff curr wanted), [])
    advance w (removing (i ∷ is) curr wanted) = elim (is_middleware i) [
      | true ↦ (w, removing is curr wanted, [])
      | false ↦
          let (w', r) = remove_image_and_container w (image_text i) true in
          elim r [
            | some (bundle_id, service_port) ↦
                (w', removing is curr wanted, unregistered bundle_id service_port ∷ [])
            | none ↦ (w', retrying i is curr wanted, [])
          ]
    ]
    advance w (retrying i is curr wanted) =
        ((remove_image_and_container w (image_text i) false).0, removing is curr wanted, [])
    advance w (installing []) = (w, finished (ok tt), [])
    advance w (installing (i ∷ is)) =
        let (w', r) = pull_image_and_create_container w (image_text i) [] [] true in
        elim r [
          | none ↦ (w', installing is, [])
          | some (bundle_id, service_port) ↦
              (w', installing is, registered bundle_id service_port ∷ [])
        ]
    advance w (finished r) = (w, finished r, [])

    pub data Step : Tasks → Tasks → Type 0 where
      advancing :
          {s : Tasks} (before after : List Task) (t : Task) (w : World) (p : Position)
          (calls : List HandlerCall)
          → s.tasks ≡ before ++ t ∷ after
          → is_finished t.position ≡ false
          → advance s.world t.position ≡ (w, p, calls)
          → Step s (record {
            world = w;
            tasks = before ++ record { position = p; calls = t.calls ++ calls } ∷ after;
          })

    pub data Reach (s : Tasks) : Tasks → Type 0 where
      started : Reach s s
      followed : {t u : Tasks} → Reach s t → Step t u → Reach s u
