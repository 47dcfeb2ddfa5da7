-- ===== src/Orchestrator/Actual.antt =====
-- cmd/carisma-orchestrator/app/app.go: how the central node keeps the actual state of all nodes.
-- Reading and writing the file of the state is left out; a map that can be nil is an Option.
pub mod Merge
pub mod Keeping
use car_integrated_service_m.Prelude.{
  ℕ, Bytes, length, text_eq, ◌==◌, ◌&&◌, ◌||◌, Bool, true, false, List, [], ◌∷◌, Option, none, some,
  Assoc, lookup, insert, if◌then◌else◌, Outcome, ok, err, panic,
}
use car_integrated_service_m.Config.Deployment.{
  NodeState, NodeConfig, DeploymentConfig, zero_node_config, node_state_starting,
  node_state_running, node_state_stopping, node_state_stopped,
}

-- The cases `NodeStateRunning` and `NodeStateStopped` of the switch.
unfoldable pub is_reported : NodeState → Bool
is_reported state = text_eq state node_state_running || text_eq state node_state_stopped

-- The loop over a received configuration, in the order of the visit: the nodes it updates.
unfoldable pub update_actual : DeploymentConfig → Assoc NodeConfig → DeploymentConfig
unfolding is_reported
update_actual actual [] = actual
update_actual actual ((hostname, node) ∷ visit) =
    update_actual (if is_reported node.state then insert hostname node actual else actual) visit

-- Whether the loop asks for the desired configuration to be sent again.
unfoldable pub requests_diff : ℕ → Assoc NodeConfig → Bool
requests_diff count [] = false
requests_diff count ((hostname, node) ∷ visit) =
    let rest = requests_diff count visit in
    (text_eq node.state node_state_starting && count == 1) || rest

-- A missing key reads as an empty state.
abbrev pub state_of : Bytes → DeploymentConfig → NodeState
state_of hostname cfg = elim (lookup hostname cfg) [
  | none ↦ zero_node_config.state
  | some node ↦ node.state
]

-- The two tests, with the state in the previous configuration.
unfoldable pub settle : NodeState → NodeConfig → NodeConfig
settle prev node =
    if text_eq prev node_state_stopping && text_eq node.state node_state_running
    then record node { state = node_state_stopping }
    else if text_eq prev node_state_starting && text_eq node.state node_state_stopped
    then record node { state = node_state_starting }
    else node

-- The loop over the actual states, which overwrites those of the previous configuration.
unfoldable pub merge_into : DeploymentConfig → Assoc NodeConfig → DeploymentConfig
unfolding settle
merge_into prev [] = prev
merge_into prev ((hostname, node) ∷ visit) =
    merge_into (insert hostname (settle (state_of hostname prev) node) prev) visit

-- Nothing can be written to a nil map, which the decoder leaves at an error.
unfoldable pub merge :
    {E : Type 0} → Option DeploymentConfig → Assoc NodeConfig → Outcome E (Option DeploymentConfig)
unfolding merge_into
merge none [] = ok none
merge none (e ∷ visit) = panic
merge (some prev) visit = ok (some (merge_into prev visit))

-- What a received configuration does, with the configuration that was read from the file: the
-- actual states, and the configuration to write. The visits are those of the two loops; that of the
-- second depends on the updated states.
unfoldable pub report :
    {E : Type 0}
    → Option DeploymentConfig
    → DeploymentConfig
    → Assoc NodeConfig
    → (DeploymentConfig → Assoc NodeConfig)
    → DeploymentConfig × Outcome E (Option DeploymentConfig)
unfolding update_actual merge
report prev actual visit order =
    let actual' = update_actual actual visit in (actual', merge prev (order actual'))
