-- ===== src/Registry/Node/Channel.antt =====
-- The handler of a node's channel: what it answers and what it writes to the broker.
use car_integrated_service_m.Prelude.{
  ℤ, Bytes, ◌≡◌, ◌≢◌, refl, List, [], ◌∷◌, Option, none, some, arith, get_elem?-some, Outcome, ok,
  err, panic,
}
use car_integrated_service_m.Config.Deployment.{
  DeploymentConfig, json, deployment_config_for_stopped_node, deployment_config_for_starting_node,
}
use car_integrated_service_m.Registry.Node.{
  NodeAddr, NodeRegistry, Header, DeploymentMessage, StreamEnd, ChannelError, ValidationError,
  announce, relay, stream_result, identify, open_channel, validate_node_id, node_at,
}
use car_integrated_service_m.Registry.Node.Ids.{validate_node_id_lem}

-- An index that was validated names a node: the index expression does not panic.
identify-valid :
    (s : NodeRegistry) (id : Bytes) (ids : List Bytes) (z : ℤ)
    → validate_node_id s id ≡ ok z
    → (a : NodeAddr) × (identify s (some (id ∷ ids)) ≡ ok a)
      × (node_at {E = ChannelError} s.nodes z ≡ ok a)
unfolding identify node_at
identify-valid s id ids z h =
    let (i, e, idx, lt) = (validate_node_id_lem s id z).0 h in
    let (a, found) = get_elem?-some s.nodes i lt in (a, ground arith, ground arith)

identify_no_panic : (s : NodeRegistry) (header : Header) → identify s header ≢ panic
unfolding identify
identify_no_panic s none = cc
identify_no_panic s (some []) = cc
identify_no_panic s (some (id ∷ ids)) = by_validation (validate_node_id s id) refl
  where
    by_validation :
        (o : Outcome ValidationError ℤ)
        → validate_node_id s id ≡ o
        → identify s (some (id ∷ ids)) ≢ panic
    by_validation (ok z) e = ground (arith, (identify-valid s id ids z e).1)
    by_validation (err f) e = ground arith
    by_validation panic e = absurd (unfold validate_node_id in ground arith)

module _ (marshal : DeploymentConfig → Option Bytes) where
  -- Whatever header a client sends, the handler of a node's channel does not panic.
  pub open_channel_no_panic :
      (s : NodeRegistry) (header : Header) (msgs : List DeploymentMessage) (end : StreamEnd)
      → (open_channel marshal s header msgs end).0 ≢ panic
  unfolding open_channel
  open_channel_no_panic s header msgs end = ground (arith, identify_no_panic s header)

  pub announce-nil :
      (d : DeploymentConfig) {j : Bytes} → marshal d ≡ some j → announce marshal d ≡ []
  unfolding announce json
  announce-nil d e = ground arith

  relay-messages :
      (hostname : Bytes) (msgs : List DeploymentMessage)
      → announce marshal (deployment_config_for_stopped_node hostname) ≡ []
      → relay marshal hostname msgs ≡ msgs
  unfolding relay
  relay-messages hostname [] e = e
  relay-messages hostname (m ∷ ms) e = rw (relay-messages hostname ms e)

  -- Where the JSON encoder succeeds, as it does on every deployment configuration, the handler
  -- writes the messages of an identified node to the broker, in order, and nothing else: the
  -- configurations for a starting and for a stopped node are not distributed.
  pub open_channel_relays :
      (s : NodeRegistry) (header : Header) (msgs : List DeploymentMessage) (end : StreamEnd)
      (a : NodeAddr)
      → ((d : DeploymentConfig) → (j : Bytes) × (marshal d ≡ some j))
      → identify s header ≡ ok a
      → open_channel marshal s header msgs end ≡ (stream_result end, msgs)
  unfolding open_channel
  open_channel_relays s header msgs end a total known =
      let starting = deployment_config_for_starting_node a.host in
      let stopped = deployment_config_for_stopped_node a.host in
      rw (
        known,
        open_channel,
        announce-nil starting (total starting).1,
        relay-messages a.host msgs (announce-nil stopped (total stopped).1),
      )

  -- A client without a node ID in its header, or with one that is not accepted, gets an error, and
  -- nothing is written to the broker.
  pub open_channel_rejects :
      (s : NodeRegistry) (header : Header) (msgs : List DeploymentMessage) (end : StreamEnd)
      (e : ChannelError)
      → identify s header ≡ err e
      → open_channel marshal s header msgs end ≡ (err e, [])
  unfolding open_channel
  open_channel_rejects s header msgs end e bad = ground arith
