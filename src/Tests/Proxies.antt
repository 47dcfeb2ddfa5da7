-- ===== src/Tests/Proxies.antt =====
-- The control plane at concrete inputs.
use car_integrated_service_m.Prelude.{
  ℕ, pos, Bytes, codes, ◌≡◌, ◌↔◌, refl, List, [], ◌∷◌, ◌++◌, Option, none, some, arith, ok, err,
  true, false, if◌then◌else◌, text_eq, Assoc, lookup, insert, lookup-insert, IsListing,
  IsListing-refl,
}
use car_integrated_service_m.Config.Settings.{Config, default}
use car_integrated_service_m.Registry.Node.{NodeAddr}
use car_integrated_service_m.Registry.Service.{ServiceConfigSnapshot}
use car_integrated_service_m.Registry.Service.Snapshots.{has}
use car_integrated_service_m.Xds.Clusters.{
  XdsError, generate_cluster_name, make_endpoints, make_clusters,
}
use car_integrated_service_m.Xds.Clusters.Names.{generate_cluster_name_lem}
use car_integrated_service_m.Xds.Clusters.Endpoints.{
  make_endpoints_fails, make_clusters_lem, first_busy, endpoints_error,
}
use car_integrated_service_m.Xds.Routes.{make_routes}
use car_integrated_service_m.Xds.Routes.Bundles.{make_routes_lem, configuration, route_to}
use car_integrated_service_m.Xds.Listeners.{HttpConnectionManager}
use car_integrated_service_m.Xds.Snapshots.{
  SnapshotLibrary, Resources, Visits, Server, generate_snapshots, next_version,
}
use car_integrated_service_m.Xds.Snapshots.Stall.{generate_snapshots_busy}
use car_integrated_service_m.Xds.Server.{ControlPlane, running, new_services, receive, here}
use car_integrated_service_m.Xds.Server.Stall.{services_stall}

pub get-set_memory :
    {V : Type 0} (c c' : Assoc V) (n m : Bytes) (s : V)
    → ◌≡◌ {A = Option (Assoc V)} (some (insert n s c)) (some c')
    → lookup m c' ≡ (if text_eq n m then some s else lookup m c)
get-set_memory c c' n m s h = ground (arith, lookup-insert n m s c)

-- A snapshot library that keeps the resources in memory.
abbrev pub memory_library : SnapshotLibrary HttpConnectionManager
memory_library = record {
  pack = λ m. some m;
  Snapshot = Resources HttpConnectionManager;
  Cache = Assoc (Resources HttpConnectionManager);
  new_snapshot = λ v r. some r;
  set_snapshot = λ c n s. some (insert n s c);
  get_snapshot = λ c n. lookup n c;
  get-set = λ c c' n m s h. get-set_memory c c' n m s h;
}

abbrev node_0 : Bytes
node_0 = codes "node-0"

abbrev app : Bytes
app = codes "com.app"

abbrev services : ServiceConfigSnapshot
services = (node_0, (app, pos 80 ∷ []) ∷ []) ∷ []

abbrev pub nodes : List NodeAddr
nodes = record { host = codes "hpc-0"; port = pos 8000 } ∷ []

abbrev pub settings : Config
settings = default (codes "hpc-0")

generate_cluster_name_lem_test :
    ((generate_cluster_name app true ≡ generate_cluster_name (codes "local_com.app") true)
      ↔ (app ≡ codes "local_com.app"))
    × ((generate_cluster_name app false ≡ generate_cluster_name (codes "local_com.app") false)
        ↔ (app ≡ codes "local_com.app"))
    × ((generate_cluster_name app true ≡ generate_cluster_name (codes "local_com.app") false)
        ↔ (codes "local_com.app" ≡ codes "local_" ++ app))
generate_cluster_name_lem_test = generate_cluster_name_lem app (codes "local_com.app")

-- The two names are one.
name_clash : generate_cluster_name app true ≡ generate_cluster_name (codes "local_com.app") false
name_clash = generate_cluster_name_lem_test.2.1 refl

make_endpoints_fails_test : make_endpoints nodes node_0 (pos 80 ∷ []) ≡ err (endpoints_error node_0)
make_endpoints_fails_test = make_endpoints_fails nodes node_0 (pos 80 ∷ [])

make_clusters_lem_test :
    make_clusters nodes services node_0 (pos 8000)
    ≡ elim (first_busy services) [ none ↦ ok [] | some n ↦ err (endpoints_error n) ]
make_clusters_lem_test = make_clusters_lem nodes node_0 (pos 8000) services

make_routes_lem_example :
    make_routes services node_0
    ≡ configuration (codes "grpc_route") (codes "grpc_vhost") (route_to true app ∷ [])
      ∷ configuration (codes "local_grpc_route") (codes "local_grpc_vhost") (route_to true app ∷ [])
      ∷ []
unfolding text_eq
make_routes_lem_example = make_routes_lem services node_0

-- One node, one service on it.
abbrev server : Server memory_library
server = record { snapshot_version = pos 0; cache = []; nodes = nodes; services = services }

abbrev visits : ℕ → Visits
visits i = record { for_clusters = services; for_routes = services }

services-has : has services node_0 app (pos 80) ≡ true
unfolding has lookup text_eq
services-has = refl

services-IsListing : IsListing services services
unfolding lookup
services-IsListing = IsListing-refl (refl, tt)

generate_snapshots_busy_test :
    (e : XdsError) × (generate_snapshots memory_library settings visits server
      ≡ (record server { snapshot_version = next_version (pos 0) }, err e))
generate_snapshots_busy_test =
    generate_snapshots_busy memory_library settings visits server node_0 app (pos 80) (λ e. cc)
      services-IsListing services-has

abbrev plane : ControlPlane memory_library
plane = record {
  server = record server { services = [] };
  nodes_loop = running;
  services_loop = running;
}

services_stall_example :
    let q = (receive memory_library settings visits (new_services services) plane).0 in
    (q.server.cache ≡ [])
    × (receive memory_library settings visits (new_services []) q ≡ (q, false))
services_stall_example =
    services_stall memory_library settings visits services plane _ node_0 app (pos 80) visits []
      refl (λ e. cc) services-IsListing services-has here
