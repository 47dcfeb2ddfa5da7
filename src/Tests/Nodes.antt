-- ===== src/Tests/Nodes.antt =====
-- The node registry at concrete inputs.
use mathlib.Core.List.{Perm}
use car_integrated_service_m.Prelude.{
  ℕ, pos, Bytes, codes, ◌≡◌, ◌≢◌, ◌↔◌, refl, [], ◌∷◌, Option, none, some, arith, ok, err, panic,
  length, get_elem?, ◌<◌, atoi, itoa, split, last_part, itoa_int,
}
use car_integrated_service_m.Config.Deployment.{DeploymentConfig}
use car_integrated_service_m.Config.Settings.{default}
use car_integrated_service_m.Orchestrator.Joining.{register_request, register_all, joined_node}
use car_integrated_service_m.Registry.Node.{
  NodeRegistry, RegisterRequest, Header, DeploymentMessage, register, validate_node_id,
  get_node_idx, format_node_id, open_channel, eof, addr_string, join_host_port, state_type_desired,
  identify, invalid_node_id, node_at,
}
use car_integrated_service_m.Registry.Node.Ids.{
  addr_of, validate_node_id_lem, register_lem, register_keeps, get_node_idx-format_node_id,
  get_node_idx_nonneg,
}
use car_integrated_service_m.Registry.Node.Registering.{
  Registering, nothing_registered, add, send, adding, sending, Reach, started, followed,
}
use car_integrated_service_m.Registry.Node.Registering.Order.{Reach-IsComplete, order_lost}
use car_integrated_service_m.Registry.Node.Channel.{open_channel_no_panic, open_channel_relays}

abbrev hpc_0 : RegisterRequest
hpc_0 = record { address = codes "hpc-0"; port = pos 8000 }

abbrev hpc_1 : RegisterRequest
hpc_1 = record { address = codes "fe80::1"; port = pos 8000 }

abbrev one_node : NodeRegistry
one_node = record { nodes = addr_of hpc_0 ∷ [] }

register_test : (register one_node hpc_1).id ≡ codes "node-1"
unfolding register format_node_id itoa
register_test = refl

addr_string_test : addr_string (some (addr_of hpc_1)) ≡ codes "[fe80::1]:8000"
unfolding addr_string join_host_port itoa_int
addr_string_test = refl

get_node_idx_test :
    (get_node_idx (codes "node-12") ≡ some (pos 12))
    × (get_node_idx (codes "node") ≡ none)
    × (get_node_idx (codes "node--5") ≡ some (pos 5))
unfolding get_node_idx last_part split atoi
get_node_idx_test = (refl, refl, refl)

validate_node_id_test :
    (validate_node_id one_node (codes "node-0") ≡ ok (pos 0))
    × (validate_node_id one_node (codes "node-1") ≡ err invalid_node_id)
unfolding validate_node_id get_node_idx last_part split atoi
validate_node_id_test = (refl, refl)

get_node_idx-format_node_id_test : get_node_idx (format_node_id 12) ≡ some (pos 12)
get_node_idx-format_node_id_test = get_node_idx-format_node_id 12 (omega arith)

get_node_idx_nonneg_test : (n : ℕ) × (pos 12 ≡ pos n)
get_node_idx_nonneg_test = get_node_idx_nonneg (codes "node-12") (pos 12) get_node_idx_test.0

validate_node_id_lem_test : (validate_node_id one_node (codes "node-0") ≡ ok (pos 0)) ↔ (
    (i : ℕ) × (pos 0 ≡ pos i)
    × (get_node_idx (codes "node-0") ≡ some (pos i))
    × (i < length one_node.nodes))
validate_node_id_lem_test = validate_node_id_lem one_node (codes "node-0") (pos 0)

register_lem_example :
    let p = register one_node hpc_1 in
    (validate_node_id p.registry p.id ≡ ok (pos 1))
    × (get_elem? p.registry.nodes 1 ≡ some p.new_node)
    × (p.new_node ≡ addr_of hpc_1)
register_lem_example = register_lem one_node hpc_1 (omega arith)

register_keeps_test :
    (validate_node_id (register one_node hpc_1).registry (codes "node-0") ≡ ok (pos 0))
    × (get_elem? (register one_node hpc_1).registry.nodes 0 ≡ get_elem? one_node.nodes 0)
register_keeps_test = register_keeps one_node hpc_1 (codes "node-0") 0 validate_node_id_test.0

-- An encoder that never fails.
abbrev encode : DeploymentConfig → Option Bytes
encode d = some (codes "{}")

abbrev header : Header
header = some (codes "node-0" ∷ [])

abbrev desired : DeploymentMessage
desired = record { json = codes "{}"; state_type = state_type_desired }

identify_test : identify one_node header ≡ ok (addr_of hpc_0)
unfolding identify node_at validate_node_id get_node_idx last_part split atoi
identify_test = refl

open_channel_no_panic_test : (open_channel encode one_node none (desired ∷ []) eof).0 ≢ panic
open_channel_no_panic_test = open_channel_no_panic encode one_node none (desired ∷ []) eof

open_channel_relays_example :
    open_channel encode one_node header (desired ∷ desired ∷ []) eof
    ≡ (ok tt, desired ∷ desired ∷ [])
open_channel_relays_example =
    open_channel_relays encode one_node header (desired ∷ desired ∷ []) eof (addr_of hpc_0)
      (λ d. (codes "{}", refl)) identify_test

-- Two handlers have added their addresses, and the second has sent its own.
abbrev second_sent : Registering
second_sent = send (addr_of hpc_1) (addr_of hpc_0 ∷ []) (add hpc_1 (add hpc_0 nothing_registered))

second_sent-Reach : Reach second_sent
unfolding add register
second_sent-Reach =
    followed (followed (followed started (adding hpc_0)) (adding hpc_1))
      (sending (addr_of hpc_0 ∷ []) (addr_of hpc_1) [] refl)

Reach-IsComplete_example :
    Perm (addr_of hpc_0 ∷ addr_of hpc_1 ∷ []) (addr_of hpc_1 ∷ addr_of hpc_0 ∷ [])
unfolding add send register
Reach-IsComplete_example = Reach-IsComplete second_sent second_sent-Reach

order_lost_test :
    (c : Registering) × Reach c
    × (c.unsent ≡ [])
    × (c.registry.nodes ≡ addr_of hpc_0 ∷ addr_of hpc_1 ∷ [])
    × (c.received ≡ addr_of hpc_1 ∷ addr_of hpc_0 ∷ [])
order_lost_test = order_lost hpc_0 hpc_1

-- The second node registers, and then two more.
joined_node_example :
    identify
      (register_all
        (register one_node (register_request (default (codes "hpc-1")))).registry
        (hpc_0 ∷ hpc_1 ∷ []))
      (some ((register one_node (register_request (default (codes "hpc-1")))).id ∷ []))
    ≡ ok (record { host = codes "hpc-1"; port = pos 8000 })
unfolding default
joined_node_example =
    joined_node one_node (default (codes "hpc-1")) (hpc_0 ∷ hpc_1 ∷ []) (omega arith) (omega arith)
      (omega arith)
