-- ===== src/Xds/Routes.antt =====
-- `makeRoutes` of cmd/carisma-control-plane/app/xds/resource.go: the routes that one node's proxy
-- is told of. The debug log is left out.
pub mod Bundles
use car_integrated_service_m.Prelude.{
  ℤ, Bytes, codes, text_eq, not, true, false, List, [], ◌∷◌, ◌++◌, if◌then◌else◌, Assoc,
}
use car_integrated_service_m.Registry.Service.{ServiceConfigSnapshot}
use car_integrated_service_m.Xds.Clusters.{generate_cluster_name}

abbrev pub grpc_route_name : Bytes
grpc_route_name = codes "grpc_route"

abbrev pub local_grpc_route_name : Bytes
local_grpc_route_name = codes "local_grpc_route"

abbrev pub grpc_vhost_name : Bytes
grpc_vhost_name = codes "grpc_vhost"

abbrev pub local_grpc_vhost_name : Bytes
local_grpc_vhost_name = codes "local_grpc_vhost"

-- A gRPC route: calls whose path has the prefix go to the cluster.
pub record Route : Type 0 where
  pub prefix : Bytes
  pub cluster : Bytes

-- A route configuration with its one virtual host.
pub record RouteConfiguration : Type 0 where
  pub name : Bytes
  pub vhost_name : Bytes
  pub domains : List Bytes
  pub routes : List Route

-- The variables of the loops.
pub record RouteLists : Type 0 where
  pub routes : List Route
  pub local_routes : List Route

unfoldable pub add_route : Bytes → Bytes → Bytes → RouteLists → RouteLists
add_route local_node_id node_id bundle_id acc =
    let r : Route = record {
      prefix = codes "/" ++ bundle_id;
      cluster = generate_cluster_name bundle_id (text_eq node_id local_node_id);
    } in
    if not (text_eq node_id local_node_id)
    then record acc { routes = acc.routes ++ r ∷ [] }
    else record acc { local_routes = acc.local_routes ++ r ∷ [] }

unfoldable pub route_bundles : Bytes → Bytes → Assoc (List ℤ) → RouteLists → RouteLists
unfolding add_route
route_bundles local_node_id node_id [] acc = acc
route_bundles local_node_id node_id ((bundle_id, ports) ∷ rest) acc =
    route_bundles local_node_id node_id rest (add_route local_node_id node_id bundle_id acc)

unfoldable pub route_nodes : Bytes → ServiceConfigSnapshot → RouteLists → RouteLists
unfolding route_bundles
route_nodes local_node_id [] acc = acc
route_nodes local_node_id ((node_id, service_config) ∷ rest) acc =
    route_nodes local_node_id rest (route_bundles local_node_id node_id service_config acc)

-- `visit` is what the two `range` loops see of the services.
unfoldable pub make_routes : ServiceConfigSnapshot → Bytes → List RouteConfiguration
make_routes visit local_node_id =
    let acc = route_nodes local_node_id visit (record { routes = []; local_routes = [] }) in
    record {
      name = grpc_route_name;
      vhost_name = grpc_vhost_name;
      domains = codes "*" ∷ [];
      routes = acc.routes ++ acc.local_routes;
    }
    ∷ record {
      name = local_grpc_route_name;
      vhost_name = local_grpc_vhost_name;
      domains = codes "*" ∷ [];
      routes = acc.local_routes;
    }
    ∷ []
