-- ===== src/Xds/Clusters.antt =====
-- cmd/carisma-control-plane/app/xds/cds.go: the clusters that one node's proxy is told of. The
-- fields of a cluster that are the same constant for each (its discovery type, time-out, balancing
-- policy and HTTP2 options) are left out, and so is the debug log. The proofs are in the modules
-- below.
pub mod Names
pub mod Endpoints
use car_integrated_service_m.Prelude.{
  to_uint32, ℕ, suc, ◌+◌, ◌-◌, ◌%◌, ◌^◌, ℤ, pos, negsuc, ltb_ℤ, Bytes, codes, text_eq, any, Bool,
  true, false, not, ◌||◌, List, [], ◌∷◌, ◌++◌, map, Option, none, some, if◌then◌else◌, length,
  Assoc, Outcome, ok, err, panic,
}
use car_integrated_service_m.Registry.Node.{NodeAddr, get_node_idx, node_at}
use car_integrated_service_m.Registry.Service.{ServiceConfigSnapshot}

-- `fmt.Sprintf` with the two formats
unfoldable pub generate_cluster_name : Bytes → Bool → Bytes
generate_cluster_name bundle_id is_local =
    if is_local
    then codes "local_" ++ bundle_id ++ codes "_cluster"
    else bundle_id ++ codes "_cluster"

-- A locality with its one endpoint.
pub record Endpoint : Type 0 where
  pub address : Bytes
  pub port_value : ℕ

pub record Cluster : Type 0 where
  pub name : Bytes
  pub endpoints : List Endpoint

pub data XdsError : Type 0 where
  not_a_number invalid_node_id marshal_failed snapshot_failed : XdsError

abbrev endpoint_at : Bytes → ℤ → Endpoint
endpoint_at node_address port = record { address = node_address; port_value = to_uint32 port }

unfoldable pub make_endpoints : List NodeAddr → Bytes → List ℤ → Outcome XdsError (List Endpoint)
make_endpoints nodes node_id ports = elim (get_node_idx node_id) [
  | none ↦ err not_a_number
  | some node_idx ↦
      let count = pos (length nodes) in
      if not (ltb_ℤ node_idx count) || ltb_ℤ node_idx count
      then err invalid_node_id
      else elim (node_at {E = XdsError} nodes node_idx) [
        | ok addr ↦ ok (map (endpoint_at addr.host) ports)
        | err e ↦ err e
        | panic ↦ panic
      ]
]

-- The variables of the loops: the clusters so far, and the names seen.
pub record Progress : Type 0 where
  pub clusters : List Cluster
  pub seen : List Bytes

abbrev pub cluster_id : Bytes → Bytes → Bytes → Bytes
cluster_id local_node_id node_id bundle_id =
    if text_eq node_id local_node_id
    then generate_cluster_name bundle_id true
    else generate_cluster_name bundle_id false

abbrev pub cluster_ports : Bytes → ℤ → Bytes → List ℤ → List ℤ
cluster_ports local_node_id ingress_port node_id instances =
    if text_eq node_id local_node_id then instances else ingress_port ∷ []

-- The body of the inner loop, from the test of `seen` on.
unfoldable pub add_cluster :
    List NodeAddr → Bytes → Bytes → List ℤ → Progress → Outcome XdsError Progress
unfolding make_endpoints
add_cluster nodes node_id name ports p =
    if any (text_eq name) p.seen then ok p else elim (make_endpoints nodes node_id ports) [
      | ok endpoints ↦ ok (record {
        clusters = p.clusters ++ record { name = name; endpoints = endpoints } ∷ [];
        seen = p.seen ++ name ∷ [];
      })
      | err e ↦ err e
      | panic ↦ panic
    ]

module _ (nodes : List NodeAddr) (local_node_id : Bytes) (ingress_port : ℤ) where
  unfoldable pub visit_bundles : Bytes → Assoc (List ℤ) → Progress → Outcome XdsError Progress
  visit_bundles node_id [] p = ok p
  visit_bundles node_id ((bundle_id, instances) ∷ rest) p =
      elim (add_cluster nodes node_id (cluster_id local_node_id node_id bundle_id)
        (cluster_ports local_node_id ingress_port node_id instances) p) [
          | ok p' ↦ visit_bundles node_id rest p'
          | err e ↦ err e
          | panic ↦ panic
        ]

  unfoldable pub visit_nodes : ServiceConfigSnapshot → Progress → Outcome XdsError Progress
  visit_nodes [] p = ok p
  visit_nodes ((node_id, service_config) ∷ rest) p = elim (visit_bundles node_id service_config p) [
    | ok p' ↦ visit_nodes rest p'
    | err e ↦ err e
    | panic ↦ panic
  ]

-- `visit` is what the two `range` loops see of the services.
unfoldable pub make_clusters :
    List NodeAddr → ServiceConfigSnapshot → Bytes → ℤ → Outcome XdsError (List Cluster)
make_clusters nodes visit local_node_id ingress_port =
    elim (visit_nodes nodes local_node_id ingress_port visit
      (record { clusters = []; seen = [] })) [
        | ok p ↦ ok p.clusters
        | err e ↦ err e
        | panic ↦ panic
      ]
