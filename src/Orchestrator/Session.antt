-- ===== src/Orchestrator/Session.antt =====
-- cmd/carisma-orchestrator/app/app.go: the deployment configurations that a node receives, reads from
-- its file and reports, and the services that it announces. What is sent on the channels of the
-- registries is a result; an error of sending is only logged, and is left out.
pub mod Echo
pub mod Forced
pub mod Services
pub mod Distribution
use car_integrated_service_m.Prelude.{
  ℤ, pos, Bytes, text_eq, Bool, true, false, List, [], ◌∷◌, ◌++◌, map, select, Option, none, some,
  if◌then◌else◌, Outcome, ok, err, panic,
}
use car_integrated_service_m.Container.{Container}
use car_integrated_service_m.Container.Image.{Image, extract_image_list, image_text}
use car_integrated_service_m.Container.Manager.{Manager}
use car_integrated_service_m.Container.Reference.{ParseNormalized}
use car_integrated_service_m.Config.Settings.{Config}
use car_integrated_service_m.Config.Deployment.{
  DeploymentConfig, deployment_config_from_json, json, node_state_running,
}
use car_integrated_service_m.Registry.Node.{
  DeploymentMessage, state_type_desired, state_type_actual,
}
use car_integrated_service_m.Registry.Service.{ServiceAnnouncement, registration_state_registered}
use car_integrated_service_m.Orchestrator.{
  is_managed, HandlerCall, registered, unregistered, ProcessError, process,
}

-- What the package for JSON does with deployment configurations: the value and whether there is an
-- error, and the text or an error.
pub record Codec : Type 0 where
  pub unmarshal : Bytes → DeploymentConfig × Bool
  pub marshal : DeploymentConfig → Option Bytes

abbrev pub registration_state_unregistered : ℤ
registration_state_unregistered = pos 1

-- The two handlers that `Run` gives to the orchestrator.
unfoldable pub announcement : HandlerCall → ServiceAnnouncement
announcement (registered bundle_id service_port) = record {
  bundle_id = bundle_id;
  local_port = service_port;
  registration_state = registration_state_registered;
}
announcement (unregistered bundle_id service_port) = record {
  bundle_id = bundle_id;
  local_port = service_port;
  registration_state = registration_state_unregistered;
}

unfoldable pub announcements : List HandlerCall → List ServiceAnnouncement
unfolding announcement
announcements [] = []
announcements (c ∷ calls) = announcement c ∷ announcements calls

-- `fmt.Sprintf("%s:%s", img.Name, img.Version)`, for each image.
unfoldable pub image_texts : List Image → List Bytes
image_texts [] = []
image_texts (i ∷ is) = image_text i ∷ image_texts is

module _ (mgr : Manager) (parse : ParseNormalized) (cfg : Config) (codec : Codec) where
  open mgr use {World, containers}

  -- The state after some configurations, the calls of the handlers, and whether a panic has ended
  -- the program.
  pub record Session : Type 0 where
    pub world : World
    pub calls : List HandlerCall
    pub crashed : Bool

  -- `orchestrator.process`, whose error is only logged.
  unfoldable pub apply : World → DeploymentConfig → Session
  apply w dplm_cfg =
      let p = process mgr parse cfg w dplm_cfg in
      record {
        world = p.world;
        calls = p.calls;
        crashed = elim p.result [ panic ↦ true | _ ↦ false ];
      }

  -- The loop over the received messages, until the stream ends; none of its messages is told apart
  -- by its type.
  unfoldable pub receive : World → List DeploymentMessage → Session
  unfolding apply
  receive w [] = record { world = w; calls = []; crashed = false }
  receive w (msg ∷ msgs) =
      let (dplm_cfg, failed) = deployment_config_from_json codec.unmarshal msg.json in
      elim failed [
        | true ↦ receive w msgs
        | false ↦
            let s = apply w dplm_cfg in
            elim s.crashed [
              | true ↦ s
              | false ↦
                  let rest = receive s.world msgs in record rest { calls = s.calls ++ rest.calls }
            ]
      ]

  -- The handler of a change of the file with the desired configuration: what it sends, and what the
  -- configuration does on this node.
  unfoldable pub handle_file_diff : World → Bytes → Bytes → List DeploymentMessage × Session
  unfolding apply
  handle_file_diff w a b =
      if text_eq a b
      then ([], record { world = w; calls = []; crashed = false })
      else let (dplm_cfg, failed) = deployment_config_from_json codec.unmarshal b in
        if failed
        then ([], record { world = w; calls = []; crashed = false })
        else (record { json = b; state_type = state_type_desired } ∷ [], apply w dplm_cfg)

  abbrev pub actual_config : List Container → DeploymentConfig
  actual_config cs =
      (
        cfg.node_hostname,
        record {
          state = node_state_running;
          images = image_texts (extract_image_list (select is_managed cs));
        },
      )
      ∷ []

  -- What a tick sends, and whether the goroutine goes on.
  unfoldable pub tick : World → World × List DeploymentMessage × Bool
  unfolding image_texts
  tick w =
      let (w', r) = containers w in
      elim r [
        | none ↦ (w', [], false)
        | some cs ↦
            let (j, failed) = json codec.marshal (actual_config cs) in
            if failed
            then (w', [], true)
            else (w', record { json = j; state_type = state_type_actual } ∷ [], true)
      ]
