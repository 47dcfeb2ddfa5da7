-- ===== src/Registry/Node.antt =====
-- pkg/registry/node_regisry.go: the addresses of the registered nodes, node IDs, and the channel
-- on which a node exchanges deployment configurations. What is sent on `chanNodes` and what is
-- written to the broker are results. The proofs are in the modules below.
pub mod Ids
pub mod Channel
pub mod Registering
pub mod Streams
use car_integrated_service_m.Prelude.{
  ℕ, zero, suc, ◌+◌, ℤ, pos, negsuc, ltb_ℤ, Bytes, codes, Bool, true, false, ◌||◌, List, [], ◌∷◌,
  ◌++◌, Option, none, some, if◌then◌else◌, length, get_elem?, any, ◌==◌, split, last_part, atoi,
  itoa, itoa_int, Outcome, ok, err, panic, ◌>>=◌,
}
use car_integrated_service_m.Config.Deployment.{
  DeploymentConfig, json, deployment_config_for_starting_node, deployment_config_for_stopped_node,
}

pub record NodeAddr : Type 0 where
  pub host : Bytes
  pub port : ℤ

abbrev pub network : NodeAddr → Bytes
network a = codes "tcp"

-- `net.JoinHostPort`: a host with a colon stands in brackets.
unfoldable pub join_host_port : Bytes → Bytes → Bytes
join_host_port host port =
    if any (λ c. c == b':') host
    then codes "[" ++ host ++ codes "]:" ++ port
    else host ++ codes ":" ++ port

-- The receiver may be a nil pointer.
unfoldable pub addr_string : Option NodeAddr → Bytes
addr_string none = codes "<nil>"
addr_string (some a) = join_host_port a.host (itoa_int a.port)

-- The last part always exists, so the index expression does not panic; `none` is Atoi's error.
unfoldable pub get_node_idx : Bytes → Option ℤ
get_node_idx node_id = atoi (last_part (split b'-' node_id))

-- `fmt.Sprintf("node-%v", newNodeIdx)`
unfoldable pub format_node_id : ℕ → Bytes
format_node_id idx = codes "node-" ++ itoa idx

pub record NodeRegistry : Type 0 where
  pub nodes : List NodeAddr

abbrev pub new_node_registry : NodeRegistry
new_node_registry = record { nodes = [] }

pub record RegisterRequest : Type 0 where
  pub address : Bytes
  pub port : ℤ

pub record Registration : Type 0 where
  pub registry : NodeRegistry
  -- what `chanNodes` is sent
  pub new_node : NodeAddr
  -- the `Id` of the response
  pub id : Bytes

unfoldable pub register : NodeRegistry → RegisterRequest → Registration
register s r =
    let new_node : NodeAddr = record { host = r.address; port = r.port } in
    let nodes = s.nodes ++ new_node ∷ [] in
    record {
      registry = record s { nodes = nodes };
      new_node = new_node;
      id = format_node_id (length s.nodes);
    }

pub data ValidationError : Type 0 where
  not_a_number invalid_node_id : ValidationError

-- `len(s.nodes)-1` in Go's signed integers
abbrev pub last_idx : List NodeAddr → ℤ
last_idx [] = negsuc 0
last_idx (a ∷ nodes) = pos (length nodes)

unfoldable pub validate_node_id : NodeRegistry → Bytes → Outcome ValidationError ℤ
validate_node_id s node_id = elim (get_node_idx node_id) [
  | none ↦ err not_a_number
  | some idx ↦
      if ltb_ℤ idx (pos 0) || ltb_ℤ (last_idx s.nodes) idx then err invalid_node_id else ok idx
]

-- `nodes[idx]`, which panics out of range.
unfoldable pub node_at {ℓ} : {E : Type ℓ} → List NodeAddr → ℤ → Outcome E NodeAddr
node_at nodes (negsuc n) = panic
node_at nodes (pos i) = elim (get_elem? nodes i) [ none ↦ panic | some a ↦ ok a ]

-- The enum of the message is open: any int32 can arrive.
abbrev pub state_type_desired : ℤ
state_type_desired = pos 0

abbrev pub state_type_actual : ℤ
state_type_actual = pos 1

pub record DeploymentMessage : Type 0 where
  pub json : Bytes
  pub state_type : ℤ

-- How the stream of a client ends: cleanly, or by a transport error.
pub data StreamEnd : Type 0 where
  eof broken : StreamEnd

pub data ChannelError : Type 0 where
  missing_header : ChannelError
  invalid_node : ValidationError → ChannelError
  receive_failed : ChannelError

-- The value of the header field: `none` without metadata, else all values that were sent.
abbrev pub Header : Type 0
Header = Option (List Bytes)

-- `if j, err := dplmCfg.JSON(); err != nil { s.broker.Write(…) }`
unfoldable pub announce :
    (DeploymentConfig → Option Bytes) → DeploymentConfig → List DeploymentMessage
announce marshal dplm_cfg =
    let (j, failed) = json marshal dplm_cfg in
    if failed then record { json = j; state_type = state_type_actual } ∷ [] else []

-- The loop over `stream.Recv()`: what it writes to the broker.
unfoldable pub relay :
    (DeploymentConfig → Option Bytes) → Bytes → List DeploymentMessage → List DeploymentMessage
relay marshal hostname [] = announce marshal (deployment_config_for_stopped_node hostname)
relay marshal hostname (m ∷ ms) = m ∷ relay marshal hostname ms

abbrev pub stream_result : StreamEnd → Outcome ChannelError (Unit {0})
stream_result eof = ok tt
stream_result broken = err receive_failed

-- The header's value, its registered index and the address of the node.
unfoldable pub identify : NodeRegistry → Header → Outcome ChannelError NodeAddr
identify s none = err missing_header
identify s (some []) = err missing_header
identify s (some (node_id ∷ _)) = elim (validate_node_id s node_id) [
  | panic ↦ panic
  | err e ↦ err (invalid_node e)
  | ok idx ↦ node_at s.nodes idx
]

-- The handler, run to its end: its result, and what it wrote to the broker, in order.
unfoldable pub open_channel :
    (DeploymentConfig → Option Bytes)
    → NodeRegistry
    → Header
    → List DeploymentMessage
    → StreamEnd
    → Outcome ChannelError (Unit {0}) × List DeploymentMessage
open_channel marshal s header msgs end = elim (identify s header) [
  | panic ↦ (panic, [])
  | err e ↦ (err e, [])
  | ok addr ↦ (
    stream_result end,
    announce marshal (deployment_config_for_starting_node addr.host)
        ++ relay marshal addr.host msgs,
  )
]
