-- ===== src/Config/Deployment.antt =====
-- pkg/config/deployment.go: the state of every node and the container images that run on it.
-- `json.Unmarshal` and `json.MarshalIndent` are arguments of the functions that call them.
use car_integrated_service_m.Prelude.{
  Bytes, codes, Assoc, Bool, true, false, List, [], ◌∷◌, Option, none, some, if◌then◌else◌,
}

-- A node state is any text; four of them have names.
abbrev pub NodeState : Type 0
NodeState = Bytes

abbrev pub node_state_starting : NodeState
node_state_starting = codes "starting"

abbrev pub node_state_running : NodeState
node_state_running = codes "running"

abbrev pub node_state_stopping : NodeState
node_state_stopping = codes "stopping"

abbrev pub node_state_stopped : NodeState
node_state_stopped = codes "stopped"

pub record NodeConfig : Type 0 where
  pub state : NodeState
  pub images : List Bytes

-- The value that a missing map key reads as.
abbrev pub zero_node_config : NodeConfig
zero_node_config = record { state = []; images = [] }

abbrev pub DeploymentConfig : Type 0
DeploymentConfig = Assoc NodeConfig

-- The value and whether the error is not nil; `unmarshal` returns what it had decoded at an error.
unfoldable pub deployment_config_from_json :
    (Bytes → DeploymentConfig × Bool) → Bytes → DeploymentConfig × Bool
deployment_config_from_json unmarshal str =
    let (dplm_cfg, failed) = unmarshal str in if failed then (dplm_cfg, true) else (dplm_cfg, false)

unfoldable pub json : (DeploymentConfig → Option Bytes) → DeploymentConfig → Bytes × Bool
json marshal d = elim (marshal d) [ none ↦ ([], true) | some j ↦ (j, false) ]

unfoldable pub deployment_config_for_starting_node : Bytes → DeploymentConfig
deployment_config_for_starting_node hostname =
    (hostname, record { state = node_state_starting; images = [] }) ∷ []

unfoldable pub deployment_config_for_stopped_node : Bytes → DeploymentConfig
deployment_config_for_stopped_node hostname =
    (hostname, record { state = node_state_stopped; images = [] }) ∷ []
