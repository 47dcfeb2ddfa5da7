-- ===== src/Xds/Server.antt =====
-- The goroutines of `RegisterServer` of cmd/carisma-control-plane/app/xds/server.go, one for new
-- nodes and one for new services, as steps on a shared state. The mutex that they take makes a step
-- atomic. Both channels are unbuffered: a send completes only if the goroutine still receives.
pub mod Stall
pub mod Admission
use car_integrated_service_m.Prelude.{
  ℕ, zero, negsuc, List, [], ◌∷◌, ◌++◌, Bool, true, false, Outcome, ok, err, panic,
}
use car_integrated_service_m.Registry.Node.{NodeAddr}
use car_integrated_service_m.Registry.Service.{ServiceConfigSnapshot}
use car_integrated_service_m.Config.Settings.{Config}
use car_integrated_service_m.Xds.Clusters.{XdsError}
use car_integrated_service_m.Xds.Snapshots.{SnapshotLibrary, Visits, Server, generate_snapshots}

-- Whether a goroutine waits for the next message, has returned, or has panicked, which ends the
-- process.
pub data LoopState : Type 0 where
  running returned crashed : LoopState

abbrev pub after : Outcome XdsError (Unit {0}) → LoopState
after (ok _) = running
after (err e) = returned
after panic = crashed

-- The messages that the registries send.
pub data Message : Type 0 where
  new_node : NodeAddr → Message
  new_services : ServiceConfigSnapshot → Message

module _ {Any : Type 0} (lib : SnapshotLibrary Any) where
  pub record ControlPlane : Type 0 where
    pub server : Server lib
    pub nodes_loop : LoopState
    pub services_loop : LoopState

  unfoldable pub new_server : lib.Cache → Server lib
  new_server cache = record {
    snapshot_version = negsuc 0;
    cache = cache;
    nodes = [];
    services = [];
  }

  -- A message on `channelNodes`: the state after it, and whether it was received.
  unfoldable pub receive_node :
      Config → (ℕ → Visits) → NodeAddr → ControlPlane → ControlPlane × Bool
  receive_node cfg visits addr p = elim p.nodes_loop [
    | running ↦
        let x : Server lib = record p.server { nodes = p.server.nodes ++ addr ∷ [] } in
        let (x', r) = generate_snapshots lib cfg visits x in
        (record p { server = x'; nodes_loop = after r }, true)
    | _ ↦ (p, false)
  ]

  -- A message on `channelServices`.
  unfoldable pub receive_services :
      Config → (ℕ → Visits) → ServiceConfigSnapshot → ControlPlane → ControlPlane × Bool
  receive_services cfg visits services p = elim p.services_loop [
    | running ↦
        let x : Server lib = record p.server { services = services } in
        let (x', r) = generate_snapshots lib cfg visits x in
        (record p { server = x'; services_loop = after r }, true)
    | _ ↦ (p, false)
  ]

  unfoldable pub receive : Config → (ℕ → Visits) → Message → ControlPlane → ControlPlane × Bool
  unfolding receive_node receive_services
  receive cfg visits (new_node a) p = receive_node cfg visits a p
  receive cfg visits (new_services s) p = receive_services cfg visits s p

  -- A run from a state: each message arrives with some order of visits.
  pub data Reach (cfg : Config) (p : ControlPlane) : ControlPlane → Type 0 where
    here : Reach cfg p p
    next :
        {q : ControlPlane} (visits : ℕ → Visits) (m : Message)
        → Reach cfg p q
        → Reach cfg p (receive cfg visits m q).0
