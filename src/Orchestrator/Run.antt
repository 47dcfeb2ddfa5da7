-- ===== src/Orchestrator/Run.antt =====
-- `Run` of cmd/carisma-orchestrator/app/app.go and, for a node that looks for the central node,
-- `handleDiscovery` of discovery.go: what is opened and closed, in which order. What the
-- environment answers is an argument, and so is what the node does between starting and ending.
-- Errors that are only logged are left out.
pub mod Released
pub mod Dialling
use car_integrated_service_m.Prelude.{
  itoa_int, Bytes, Bool, true, false, List, [], ◌∷◌, ◌++◌, Option, none, some, take, ◌&&◌, not, map,
  text_eq, if◌then◌else◌, Outcome, ok, err, panic,
}
use car_integrated_service_m.Container.Manager.{Manager}
use car_integrated_service_m.Container.Reference.{ParseNormalized}
use car_integrated_service_m.Config.Settings.{Config, ConfigError}
use car_integrated_service_m.Config.Bootstrap.{Bootstrap}
use car_integrated_service_m.Registry.Node.{join_host_port}
use car_integrated_service_m.Discovery.{Gob, MessageError, discover}
use car_integrated_service_m.Orchestrator.Proxy.{run_envoy, stop_envoy}

-- The buffer of `ReadPacketWithTimeout` takes this many bytes of a packet.
abbrev pub read_packet : Bytes → Bytes
read_packet = take 1024

-- The discovery of a node that is not the central one, from the packets up to an error of reading.
unfoldable pub discover_central_node : Gob → Config → List Bytes → Outcome MessageError Config
discover_central_node gob cfg packets =
    if text_eq cfg.central_node_hostname []
    then elim (discover gob cfg.central_node_hostname (map read_packet packets)) [
      | err e ↦ err e
      | panic ↦ panic
      | ok hostname ↦ ok (record cfg { central_node_hostname = hostname })
    ]
    else ok cfg

-- `net.JoinHostPort(cfg.CentralNodeHostname, strconv.Itoa(cfg.GRPCPort))`
unfoldable pub control_plane_target : Config → Bytes
control_plane_target cfg = join_host_port cfg.central_node_hostname (itoa_int cfg.grpc_port)

pub data Resource : Type 0 where
  container_manager connection proxy desired_file : Resource

pub data Event : Type 0 where
  opened closed : Resource → Event

-- How the function ends. The process is killed where a panic is one of another goroutine; then no
-- deferred call runs.
pub data Ending : Type 0 where
  returned panicked killed : Ending

-- What `NewFileWatcher` gives: an error of making a watcher; an error of adding the file to it, behind
-- which the watcher stays open; or the file watcher.
pub data Watching : Type 0 where
  not_made not_added watched : Watching

-- What the environment answers: the container manager, the packets that arrive during discovery,
-- whether a client for a target can be made, the ID that the node registry replies, whether the
-- channels of services and of nodes are opened, and how the file of the desired state is
-- watched. If the channel of nodes is not opened, another goroutine may panic first.
pub record Environment (World : Type 0) : Type 0 where
  pub new_manager : Option World
  pub packets : List Bytes
  pub new_client : Bytes → Bool
  pub register : Option Bytes
  pub open_service_channel : Bool
  pub open_node_channel : Bool
  pub new_file_watcher : Watching
  pub other_goroutine_first : Bool

pub record Exit (World : Type 0) : Type 0 where
  pub world : World
  pub events : List Event
  pub ending : Ending

-- The rest of a function behind the call that opens a resource.
unfoldable pub opening : {World : Type 0} → Resource → Exit World → Exit World
opening r e = record e { events = opened r ∷ e.events }

-- The rest of a function behind a `defer` that closes a resource, which runs also at a panic.
unfoldable pub deferring : {World : Type 0} → Resource → (World → World) → Exit World → Exit World
deferring r release e = elim e.ending [
  | killed ↦ e
  | _ ↦ record { world = release e.world; events = e.events ++ closed r ∷ []; ending = e.ending }
]

module _ (mgr : Manager) (parse : ParseNormalized) (gob : Gob) (format : Bootstrap → Bytes) where
  open mgr use {World}

  module _ (env : Environment World) (work : Config → World → World × Ending) where
    -- From the goroutines and the main loop on. A channel that is not opened is a nil interface,
    -- of which the first use panics.
    unfoldable pub run_loops : Config → World → Exit World
    run_loops cfg w =
        if env.open_node_channel
        then (let (w', ending) = work cfg w in record { world = w'; events = []; ending = ending })
        else record {
          world = w;
          events = [];
          ending = if env.other_goroutine_first then killed else panicked;
        }

    -- From the channel of services on.
    unfoldable pub run_channels : Config → World → Exit World
    unfolding run_loops opening deferring
    run_channels cfg w = elim env.open_service_channel [
      | false ↦ record { world = w; events = []; ending = returned }
      | true ↦ elim cfg.enable_central_mode [
        | false ↦ run_loops cfg w
        | true ↦ elim env.new_file_watcher [
          | not_made ↦ record { world = w; events = []; ending = returned }
          | not_added ↦ opening desired_file (record { world = w; events = []; ending = returned })
          | watched ↦ opening desired_file (deferring desired_file (λ v. v) (run_loops cfg w))
        ]
      ]
    ]

    -- From the registration on.
    unfoldable pub run_registered : Config → World → Exit World
    unfolding run_channels opening deferring
    run_registered cfg w = elim env.register [
      | none ↦ record { world = w; events = []; ending = returned }
      | some id ↦
          let (w', r) = run_envoy mgr parse cfg format id w in
          elim r [
            | err e ↦ record { world = w'; events = []; ending = returned }
            | panic ↦ record { world = w'; events = []; ending = panicked }
            | ok _ ↦
                opening proxy
                  (deferring proxy (λ v. (stop_envoy mgr parse cfg v).0) (run_channels cfg w'))
          ]
    ]

    -- From the discovery on.
    unfoldable pub run_discovery : Config → World → Exit World
    unfolding run_registered opening deferring discover_central_node
    run_discovery cfg w =
        let discovered : Outcome MessageError Config =
          if cfg.enable_discovery && not cfg.enable_central_mode
          then discover_central_node gob cfg env.packets
          else ok cfg in
        elim discovered [
          | err e ↦ record { world = w; events = []; ending = returned }
          | panic ↦ record { world = w; events = []; ending = panicked }
          | ok cfg' ↦ elim (env.new_client (control_plane_target cfg')) [
            | false ↦ record { world = w; events = []; ending = returned }
            | true ↦ opening connection (deferring connection (λ v. v) (run_registered cfg' w))
          ]
        ]

    -- From the container manager on. A proxy that still runs is stopped first.
    unfoldable pub run_manager : Config → World → Exit World
    unfolding run_discovery
    run_manager cfg w =
        let (w', r) = stop_envoy mgr parse cfg w in
        elim r [
          | panic ↦ record { world = w'; events = []; ending = panicked }
          | _ ↦ run_discovery cfg w'
        ]

    -- `none` where the function returns before there is a container manager; the client of an engine
    -- that does not answer is not closed then.
    unfoldable pub run : Outcome ConfigError Config → Option (Exit World)
    unfolding run_manager opening deferring
    run (err e) = none
    run panic = none
    run (ok cfg) = elim env.new_manager [
      | none ↦ none
      | some w ↦ some (
          opening container_manager
            (deferring container_manager (λ v. (mgr.close v).0) (run_manager cfg w)))
    ]
