-- ===== src/Lib.antt =====
-- The car-integrated service mesh: nodes in a car that register with a central node, announce the
-- services of the app bundles they run, and get from it the deployment to run and the configuration
-- of their Envoy proxies.
--
-- Parts, and the files that model them (paths are those of the repository):
--   Config.Deployment      pkg/config/deployment.go: states and images of the nodes
--   Config.Settings        pkg/config/config.go: settings from defaults, a file and the command line
--   Config.Bootstrap       pkg/config/config.go: the bootstrap configuration of a proxy
--   Container              pkg/container/container.go: a container
--   Container.Image        pkg/container/image.go: image names with a version
--   Container.Reference    pkg/container/docker_container_manager.go, ParseFQIN
--   Container.Manager      pkg/container/container.go: the interface of container managers
--   Container.Ports        formatPorts and formatPortBindings of the two managers
--   Container.Docker       pkg/container/docker_container_manager.go: the manager of an engine
--   Container.Debug        pkg/container/debug_container_manager.go: the emulated engine
--   Registry.Node          pkg/registry/node_regisry.go: the registry of nodes
--   Registry.Node.Registering   the same file: registrations of several nodes at once
--   Registry.Node.Streams  the same file: the open channels of all nodes around one broker
--   Registry.Service       pkg/registry/service_regisry.go: the registry of services
--   Xds.Clusters           cmd/carisma-control-plane/app/xds/cds.go
--   Xds.Routes, Listeners, Snapshots   cmd/carisma-control-plane/app/xds/resource.go
--   Xds.Server             cmd/carisma-control-plane/app/xds/server.go
--   ControlPlane           cmd/carisma-control-plane/app/app.go: the mutex and the channels that the
--                          registries and the xDS server share, and what Run answers
--   Orchestrator           cmd/carisma-orchestrator/app/orchestrator.go
--   Orchestrator.Tasks     the same file: several configurations processed at once
--   Orchestrator.Actual    cmd/carisma-orchestrator/app/app.go, the actual state of all nodes
--   Orchestrator.Session   cmd/carisma-orchestrator/app/app.go: the configurations that a node receives,
--                          reads from its file and reports, and the services that it announces
--   Orchestrator.Run       cmd/carisma-orchestrator/app/app.go: what Run opens and closes; and the search
--                          of discovery.go
--   Orchestrator.Proxy     cmd/carisma-orchestrator/app/envoy.go: starting and stopping the proxy
--   Broker                 pkg/channel/broker.go: the relay of messages to many readers
--   Discovery              pkg/udp/message.go, cmd/carisma-orchestrator/app/discovery.go
--   Discovery.Socket       pkg/udp/broadcast.go: how the socket is opened
--   Discovery.Broadcast    pkg/udp/broadcast.go, and the broadcasts of discovery.go
--   Watcher                pkg/io/file_watcher.go: the changes of a file
--   Logging                pkg/logging: where a logged text goes, and the name of its file
--   StatusManager          cmd/carisma-status-manager/app/app.go: the pages that show containers
-- The files below these hold the proofs; Prelude holds what all share, and Tests the runs at
-- concrete inputs.
--
-- How the parts interact: a node registers (Registry.Node.register) and uses its ID to open the
-- channels of the two registries (open_channel of each). The service registry keeps a snapshot of
-- ports by node and bundle, which the xDS server (Xds.Server.receive) takes with the addresses of the
-- nodes and turns into one set of resources for each proxy. On a node the orchestrator
-- (Orchestrator.process) compares a deployment configuration with the containers that a manager
-- lists, and removes and installs images through the interface Manager, which the emulated engine
-- implements.
--
-- Correspondence: a function keeps its name, in lower case with underscores. State is passed and
-- returned; a pair of a value and an error is an Option or an Outcome, and a run-time panic is the
-- result `panic`. Text is a list of bytes. A Go map is an association list; a function that ranges
-- over one takes the sequence of the entries it visits, and IsListing says that such a sequence is a
-- full visit. A stream is the list of its messages and the way it ends.
--
-- Arguments of the model, for code outside the repository: the JSON decoder and encoder, the parser
-- of image references, the encoder `gob`, the encoder of Envoy messages and the snapshot cache
-- (Xds.Snapshots.SnapshotLibrary), the client of the Docker engine (Container.Docker.Client), random
-- container IDs, the numbers of the log levels and whether one is written. What is proved of the
-- orchestrator holds for any container manager, also where its calls fail: Orchestrator.Plan says what
-- is asked of the manager. A manager that panics gives no value, and ends the process.
--
-- Bounds: numbers of nodes are below 2 ^ 63, the range of Go's int. An `int32` counter is kept as its
-- bits modulo 2 ^ 32. Printing a number n recurses on fuel n + 1, which is more than its digits. There
-- is fuel too in Watcher.wait_until_find, the one loop that need not end: it gives no result while it
-- still waits. Every other loop is over a list or down from an index.
--
-- Goroutines: each is reduced to steps between the points where it can wait, and a step relation has
-- them in any order: Broker, Registry.Node.Registering, Registry.Node.Streams, ControlPlane,
-- Orchestrator.Tasks and Watcher. What happens under the mutex, and a call of a
-- container manager, is one step. The other modules have one goroutine at a time.
--
-- Not modelled: zerolog behind Logging, and what the other functions log; gRPC and HTTP servers,
-- deadlines, the command line parser, generated protocol buffer code, the order among the readers of
-- the mutex, which of the two loops of a central node receives a message, the goroutines of a web
-- socket against each other, and constant fields of the messages for Envoy.
mod Prelude
pub mod Config
pub mod Container
pub mod Registry
pub mod Xds
pub mod Orchestrator
pub mod Discovery
pub mod Broker
pub mod Watcher
pub mod StatusManager
pub mod Logging
pub mod ControlPlane
mod Tests
