-- ===== src/Orchestrator/Joining.antt =====
-- The registration of a node in `Run` of cmd/carisma-orchestrator/app/app.go, with the registry that
-- answers it.
use car_integrated_service_m.Prelude.{
  ℕ, ◌-◌, ◌^◌, ◌≤◌, ℤ, pos, negsuc, ◌≤ℤ◌, ◌<ℤ◌, to_int32, to_uint32, Bytes, List, [], ◌∷◌, some,
  length, get_elem?, max_int, ok, ◌≡◌, ◌↔◌, refl, ◌∙◌, ap, arith,
}
use car_integrated_service_m.Config.Settings.{Config}
use car_integrated_service_m.Registry.Node.{
  NodeAddr, NodeRegistry, RegisterRequest, register, validate_node_id, identify, node_at,
}
use car_integrated_service_m.Registry.Node.Ids.{register_lem, register_keeps}

-- The message to the registry, with `int32(cfg.IngressPort)`.
unfoldable pub register_request : Config → RegisterRequest
register_request cfg = record {
  address = cfg.node_hostname;
  port = to_int32 (to_uint32 cfg.ingress_port);
}

-- The port of a node reaches the registry if and only if it is an `int32`.
pub register_request_port :
    (cfg : Config)
    → ((register_request cfg).port ≡ cfg.ingress_port)
      ↔ ((negsuc (2 ^ 31 - 1) ≤ℤ cfg.ingress_port) × (cfg.ingress_port <ℤ pos (2 ^ 31)))
unfolding register_request to_int32 to_uint32
register_request_port cfg = by_sign cfg.ingress_port
  where
    by_sign :
        (z : ℤ) → (to_int32 (to_uint32 z) ≡ z) ↔ ((negsuc (2 ^ 31 - 1) ≤ℤ z) × (z <ℤ pos (2 ^ 31)))
    by_sign (pos n) = ground arith
    by_sign (negsuc n) = ground arith

-- Registrations of other nodes.
abbrev pub register_all : NodeRegistry → List RegisterRequest → NodeRegistry
register_all s [] = s
register_all s (r ∷ rs) = register_all (register s r).registry rs

register_all-keeps :
    (s : NodeRegistry) (rs : List RegisterRequest) (id : Bytes) (i : ℕ)
    → validate_node_id s id ≡ ok (pos i)
    → (validate_node_id (register_all s rs) id ≡ ok (pos i))
      × (get_elem? (register_all s rs).nodes i ≡ get_elem? s.nodes i)
register_all-keeps s [] id i h = (h, refl)
register_all-keeps s (r ∷ rs) id i h =
    let (valid, same) = register_keeps s r id i h in
    let (valid', same') = register_all-keeps (register s r).registry rs id i valid in
    (valid', same' ∙ same)

identify-at :
    (s : NodeRegistry) (id : Bytes) (i : ℕ) (a : NodeAddr)
    → validate_node_id s id ≡ ok (pos i)
    → get_elem? s.nodes i ≡ some a
    → identify s (some (id ∷ [])) ≡ ok a
unfolding identify node_at
identify-at s id i a valid found = ground (arith, valid, found)

-- While fewer than 2 ^ 63 nodes are registered and the ingress port of a node is an `int32`: with the
-- ID that the node gets when it registers, the registry takes its channel for that of the node's
-- hostname and ingress port, whatever nodes register in between.
pub joined_node :
    (s : NodeRegistry) (cfg : Config) (rs : List RegisterRequest)
    → length s.nodes ≤ max_int
    → negsuc (2 ^ 31 - 1) ≤ℤ cfg.ingress_port
    → cfg.ingress_port <ℤ pos (2 ^ 31)
    → let j = register s (register_request cfg) in
      identify (register_all j.registry rs) (some (j.id ∷ []))
      ≡ ok (record { host = cfg.node_hostname; port = cfg.ingress_port })
unfolding register_request
joined_node s cfg rs room low high =
    let r = register_request cfg in
    let j = register s r in
    let (valid, found, is_sent) = register_lem s r room in
    let (valid', same) = register_all-keeps j.registry rs j.id (length s.nodes) valid in
    let port = (register_request_port cfg).1 (low, high) in
    identify-at (register_all j.registry rs) j.id (length s.nodes) _ valid' (
      same
      ∙ found
      ∙ ap some (is_sent ∙ ap (λ p. record { host = cfg.node_hostname; port = p }) port))
