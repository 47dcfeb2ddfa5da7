-- ===== src/Orchestrator/Session/Distribution.antt =====
-- A desired configuration on its way from the file of the central node to another node.
use car_integrated_service_m.Prelude.{
  Bytes, text_eq, false, List, [], ◌∷◌, ◌++◌, lookup, some, ok, ◌≡◌, ◌∙◌, refl, ap, arith,
}
use car_integrated_service_m.Container.{Container}
use car_integrated_service_m.Container.Image.{Image}
use car_integrated_service_m.Container.Manager.{Manager}
use car_integrated_service_m.Container.Reference.{ParseNormalized}
use car_integrated_service_m.Config.Settings.{Config}
use car_integrated_service_m.Config.Deployment.{
  DeploymentConfig, NodeConfig, deployment_config_from_json,
}
use car_integrated_service_m.Registry.Node.{
  DeploymentMessage, NodeRegistry, NodeAddr, Header, StreamEnd, identify, open_channel,
  state_type_desired,
}
use car_integrated_service_m.Registry.Node.Channel.{open_channel_relays}
use car_integrated_service_m.Orchestrator.{parse_images, qualify}
use car_integrated_service_m.Orchestrator.Differences.{IsUniquelyNamed}
use car_integrated_service_m.Orchestrator.Plan.{plan, running_images, perform_all, process_lem}
use car_integrated_service_m.Orchestrator.Session.{Codec, apply, receive, handle_file_diff}
use car_integrated_service_m.Orchestrator.Session.Echo.{receive_one}

module _ (mgr : Manager) (parse : ParseNormalized) (cfg : Config) (codec : Codec) where
  -- A changed file that can be decoded is sent as it is.
  handle_file_diff_sent :
      (w : mgr.World) (a b : Bytes) (d : DeploymentConfig)
      → text_eq a b ≡ false
      → codec.unmarshal b ≡ (d, false)
      → (handle_file_diff mgr parse cfg codec w a b).0
        ≡ record { json = b; state_type = state_type_desired } ∷ []
  unfolding handle_file_diff deployment_config_from_json
  handle_file_diff_sent w a b d changed decoded = ground arith

  -- What follows is received in the state that the messages before have left.
  pub receive-append :
      (w : mgr.World) (xs ys : List DeploymentMessage)
      → (receive mgr parse cfg codec w xs).crashed ≡ false
      → let later = receive mgr parse cfg codec (receive mgr parse cfg codec w xs).world ys in
        ((receive mgr parse cfg codec w (xs ++ ys)).world ≡ later.world)
        × ((receive mgr parse cfg codec w (xs ++ ys)).crashed ≡ later.crashed)
  unfolding receive
  receive-append w [] ys alive = (refl, refl)
  receive-append w (msg ∷ xs) ys alive = ground (
    arith,
    receive-append w xs ys,
    receive-append
        (apply mgr parse cfg codec w (deployment_config_from_json codec.unmarshal msg.json).0).world
        xs ys,
  )

module _ (central_mgr : Manager) (central_parse : ParseNormalized) (central_cfg : Config)
    (codec : Codec) where
  -- Where the encoder succeeds on every configuration and the channel of the central node is that
  -- of a registered node: when its file changes to a text that is decoded, exactly that text is
  -- written to the broker. If a node with any container manager, after any messages that have not
  -- crashed it, is sent what was written and no other message, and the configuration names this node,
  -- with image names that can be qualified, the containers can be listed, and no name stands twice
  -- among the configured images nor among those that run, then it asks its manager to remove and to
  -- install exactly what the plan for the configuration says.
  pub distribution :
      (w : central_mgr.World) (a b : Bytes) (d : DeploymentConfig) (s : NodeRegistry)
      (header : Header) (addr : NodeAddr) (end : StreamEnd) (mgr : Manager)
      (parse : ParseNormalized) (cfg : Config) (v v' : mgr.World) (before : List DeploymentMessage)
      (node : NodeConfig) (cs : List Container) (wanted : List Image)
      → ((c : DeploymentConfig) → (j : Bytes) × (codec.marshal c ≡ some j))
      → identify s header ≡ ok addr
      → text_eq a b ≡ false
      → codec.unmarshal b ≡ (d, false)
      → (receive mgr parse cfg codec v before).crashed ≡ false
      → mgr.containers (receive mgr parse cfg codec v before).world ≡ (v', some cs)
      → lookup cfg.node_hostname d ≡ some node
      → qualify parse cfg.default_container_registry_domain (parse_images node.images) ≡ ok wanted
      → IsUniquelyNamed (running_images cs)
      → IsUniquelyNamed wanted
      → let sent = (handle_file_diff central_mgr central_parse central_cfg codec w a b).0 in
        let written = (open_channel codec.marshal s header sent end).1 in
        let p = receive mgr parse cfg codec v (before ++ written) in
        (written ≡ record { json = b; state_type = state_type_desired } ∷ [])
        × (p.crashed ≡ false)
        × (p.world ≡ (perform_all mgr v' (plan (running_images cs) wanted)).0)
  distribution w a b d s header addr end mgr parse cfg v v' before node cs wanted total known
        changed decoded alive listed named q unique unique' =
      let msg : DeploymentMessage = record { json = b; state_type = state_type_desired } in
      let earlier = (receive mgr parse cfg codec v before).world in
      let sent =
        handle_file_diff_sent central_mgr central_parse central_cfg codec w a b d changed decoded in
      let (result, done) =
        process_lem mgr parse cfg earlier v' d node cs wanted named listed q unique unique' in
      let (crashed, world) = receive_one mgr parse cfg codec earlier msg d decoded result in
      let (world_after, crashed_after) =
        receive-append mgr parse cfg codec v before (msg ∷ []) alive in
      rw (sent, open_channel_relays codec.marshal s header (msg ∷ []) end addr total known)
        (refl, crashed_after ∙ crashed, world_after ∙ world ∙ ap (λ p. p.0) done)
