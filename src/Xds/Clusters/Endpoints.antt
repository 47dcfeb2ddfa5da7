-- ===== src/Xds/Clusters/Endpoints.antt =====
-- Which services make it into clusters.
use car_integrated_service_m.Prelude.{
  ℤ, Bytes, ◌≡◌, ◌∙◌, refl, List, [], ◌∷◌, Option, none, some, arith, Assoc, lookup, IsListing, ok,
  err, ◌≢◌, true,
}
use car_integrated_service_m.Registry.Node.{NodeAddr, get_node_idx}
use car_integrated_service_m.Registry.Service.{ServiceConfigSnapshot, service_config}
use car_integrated_service_m.Registry.Service.Snapshots.{has}
use car_integrated_service_m.Xds.Clusters.{
  XdsError, Progress, not_a_number, invalid_node_id, make_endpoints, add_cluster, visit_bundles,
  visit_nodes, make_clusters, cluster_ports,
}

-- The error of `make_endpoints`, which it returns whatever nodes there are.
abbrev pub endpoints_error : Bytes → XdsError
endpoints_error node_id = elim (get_node_idx node_id) [
  | none ↦ not_a_number
  | some z ↦ invalid_node_id
]

-- `make_endpoints` returns an error for every node ID, also for that of a registered node.
pub make_endpoints_fails :
    (nodes : List NodeAddr) (node_id : Bytes) (ports : List ℤ)
    → make_endpoints nodes node_id ports ≡ err (endpoints_error node_id)
unfolding make_endpoints
make_endpoints_fails nodes node_id ports = ground arith

-- The first node in a visit that has a bundle.
unfoldable pub first_busy : ServiceConfigSnapshot → Option Bytes
first_busy [] = none
first_busy ((node_id, []) ∷ rest) = first_busy rest
first_busy ((node_id, bundle ∷ bundles) ∷ rest) = some node_id

module _ (nodes : List NodeAddr) (local_node_id : Bytes) (ingress_port : ℤ) where
  visit_nodes_nothing_seen :
      (visit : ServiceConfigSnapshot) (p : Progress)
      → p.seen ≡ []
      → visit_nodes nodes local_node_id ingress_port visit p
        ≡ elim (first_busy visit) [ none ↦ ok p | some n ↦ err (endpoints_error n) ]
  unfolding visit_nodes visit_bundles add_cluster first_busy
  visit_nodes_nothing_seen [] p e = refl
  visit_nodes_nothing_seen ((n, []) ∷ rest) p e = visit_nodes_nothing_seen rest p e
  visit_nodes_nothing_seen ((n, (b, ports) ∷ bundles) ∷ rest) p e =
      ground
        (arith, make_endpoints_fails nodes n (cluster_ports local_node_id ingress_port n ports))

  -- Whatever the registered nodes are, no cluster is ever made: with no bundle on any node the result
  -- is empty, and else it is an error, that of the first node with a bundle.
  pub make_clusters_lem :
      (visit : ServiceConfigSnapshot)
      → make_clusters nodes visit local_node_id ingress_port
        ≡ elim (first_busy visit) [ none ↦ ok [] | some n ↦ err (endpoints_error n) ]
  unfolding make_clusters
  make_clusters_lem visit =
      ground (arith, visit_nodes_nothing_seen visit (record { clusters = []; seen = [] }) refl)

busy_at :
    (visit : ServiceConfigSnapshot) (n : Bytes) (c : Assoc (List ℤ))
    → lookup n visit ≡ some c
    → c ≢ []
    → first_busy visit ≢ none
unfolding lookup first_busy
busy_at [] n c e ne = cc
busy_at ((m, []) ∷ rest) n c e ne = ground (arith, busy_at rest n c)
busy_at ((m, x ∷ xs) ∷ rest) n c e ne = cc

config_of_has :
    (services : ServiceConfigSnapshot) (n b : Bytes) (p : ℤ)
    → has services n b p ≡ true
    → (lookup n services ≡ some (service_config services n)) × (service_config services n ≢ [])
unfolding has lookup
config_of_has services n b p h = (ground arith, ground arith)

-- In a listing of a snapshot some node is busy if any port is registered.
pub first_busy-has :
    {visit services : ServiceConfigSnapshot} (n b : Bytes) (p : ℤ)
    → IsListing visit services
    → has services n b p ≡ true
    → first_busy visit ≢ none
first_busy-has {visit} {services} n b p l h =
    let (e, ne) = config_of_has services n b p h in
    busy_at visit n (service_config services n) (l.same n ∙ e) ne
