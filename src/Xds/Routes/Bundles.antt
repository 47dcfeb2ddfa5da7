-- ===== src/Xds/Routes/Bundles.antt =====
-- The routes of one node's proxy against the bundles of all nodes.
use car_integrated_service_m.Prelude.{
  ℤ, Bytes, codes, text_eq, true, false, Bool, List, [], ◌∷◌, ◌++◌, map, if◌then◌else◌, Assoc, ◌≡◌,
  refl, append_assoc, append-nil, arith,
}
use mathlib.Core.List.{map-append}
use car_integrated_service_m.Registry.Service.{ServiceConfigSnapshot}
use car_integrated_service_m.Xds.Clusters.{generate_cluster_name}
use car_integrated_service_m.Xds.Routes.{
  Route, RouteLists, RouteConfiguration, add_route, route_bundles, route_nodes, make_routes,
}

-- The bundle IDs of the nodes that are the given one, or that are another, in the order of a visit.
abbrev pub bundle_ids : Bool → Bytes → ServiceConfigSnapshot → List Bytes
bundle_ids is_local local_node_id [] = []
bundle_ids is_local local_node_id ((node_id, config) ∷ rest) =
    let more = bundle_ids is_local local_node_id rest in
    let here : List Bytes = map (λ e. e.0) config in
    if text_eq node_id local_node_id
    then (if is_local then here ++ more else more)
    else (if is_local then more else here ++ more)

abbrev pub route_to : Bool → Bytes → Route
route_to is_local bundle_id = record {
  prefix = codes "/" ++ bundle_id;
  cluster = generate_cluster_name bundle_id is_local;
}

bundles_lem :
    (local_node_id node_id : Bytes) (config : Assoc (List ℤ)) (acc : RouteLists)
    → let is_local = text_eq node_id local_node_id in
      let added = map (route_to is_local) (map (λ (e : Bytes × List ℤ). e.0) config) in
      route_bundles local_node_id node_id config acc ≡ (
        if is_local
        then record acc { local_routes = acc.local_routes ++ added }
        else record acc { routes = acc.routes ++ added })
unfolding route_bundles
bundles_lem local_node_id node_id [] acc =
    ground (arith, append-nil acc.routes, append-nil acc.local_routes)
bundles_lem local_node_id node_id ((b, ports) ∷ rest) acc =
    let is_local = text_eq node_id local_node_id in
    let r = route_to is_local b in
    let later = map (route_to is_local) (map (λ (e : Bytes × List ℤ). e.0) rest) in
    ground (
      arith,
      bundles_lem local_node_id node_id rest (add_route local_node_id node_id b acc),
      append_assoc acc.routes (r ∷ []) later,
      append_assoc acc.local_routes (r ∷ []) later,
    )

nodes_lem :
    (local_node_id : Bytes) (visit : ServiceConfigSnapshot) (acc : RouteLists)
    → route_nodes local_node_id visit acc ≡ record {
      routes = acc.routes ++ map (route_to false) (bundle_ids false local_node_id visit);
      local_routes = acc.local_routes ++ map (route_to true) (bundle_ids true local_node_id visit);
    }
unfolding route_nodes
nodes_lem local_node_id [] acc = ground (arith, append-nil acc.routes, append-nil acc.local_routes)
nodes_lem local_node_id ((n, config) ∷ rest) acc =
    let ids : List Bytes = map (λ (e : Bytes × List ℤ). e.0) config in
    let others = bundle_ids false local_node_id rest in
    let locals = bundle_ids true local_node_id rest in
    ground (
      arith,
      bundles_lem local_node_id n config acc,
      nodes_lem local_node_id rest (route_bundles local_node_id n config acc),
      append_assoc acc.routes (map (route_to false) ids) (map (route_to false) others),
      append_assoc acc.local_routes (map (route_to true) ids) (map (route_to true) locals),
      map-append (route_to false) ids others,
      map-append (route_to true) ids locals,
    )

abbrev pub configuration : Bytes → Bytes → List Route → RouteConfiguration
configuration name vhost_name routes = record {
  name = name;
  vhost_name = vhost_name;
  domains = codes "*" ∷ [];
  routes = routes;
}

-- In any order of visit there are two route configurations, each for any domain. The one named
-- `local_grpc_route` has one route for each bundle of the node itself, to the local cluster of the
-- bundle; the one named `grpc_route` has one route for each bundle of another node, to the cluster of
-- the bundle that is not local, and behind these the local ones.
pub make_routes_lem :
    (visit : ServiceConfigSnapshot) (local_node_id : Bytes)
    → let remote = map (route_to false) (bundle_ids false local_node_id visit) in
      let local = map (route_to true) (bundle_ids true local_node_id visit) in
      make_routes visit local_node_id
      ≡ configuration (codes "grpc_route") (codes "grpc_vhost") (remote ++ local)
        ∷ configuration (codes "local_grpc_route") (codes "local_grpc_vhost") local
        ∷ []
unfolding make_routes
make_routes_lem visit local_node_id =
    rw (nodes_lem local_node_id visit (record { routes = []; local_routes = [] })) refl
