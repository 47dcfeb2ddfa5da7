-- ===== src/Tests/Streams.antt =====
-- The channels of the node registry at a concrete run.
use car_integrated_service_m.Prelude.{
  ◌≤◌, pos, Bytes, codes, ◌≡◌, refl, [], ◌∷◌, ◌++◌, map, All, Option, some, arith, ok, length, atoi,
  last_part, split, sym,
}
use car_integrated_service_m.Broker.{new_broker, read, accept, write, relay, receive}
use car_integrated_service_m.Broker.Order.{Sublist}
use car_integrated_service_m.Config.Deployment.{
  DeploymentConfig, deployment_config_for_starting_node,
}
use car_integrated_service_m.Registry.Node.{
  NodeRegistry, NodeAddr, Header, DeploymentMessage, identify, validate_node_id, get_node_idx,
  node_at, state_type_desired,
}
use car_integrated_service_m.Registry.Node.Channel.{announce-nil}
use car_integrated_service_m.Registry.Node.Streams.{
  Channel, Registry, new_channel, looping, opening, announcing, taking, copying, accepting,
  relaying, Reach, started, followed, write_all,
}
use car_integrated_service_m.Registry.Node.Streams.Relayed.{
  IsRelayed, log, Reach-IsRelayed, Reach-in_order,
}
use car_integrated_service_m.Registry.Node.Streams.Merging.{Merges}
use car_integrated_service_m.Registry.Node.Streams.Bounds.{waiting_messages}
use car_integrated_service_m.Registry.Node.Streams.Buffers.{HoldsBuffers, buffers_leak}

abbrev hpc_0 : NodeAddr
hpc_0 = record { host = codes "hpc-0"; port = pos 8000 }

abbrev nodes : NodeRegistry
nodes = record { nodes = hpc_0 ∷ [] }

abbrev header : Header
header = some (codes "node-0" ∷ [])

abbrev marshal : DeploymentConfig → Option Bytes
marshal d = some (codes "{}")

header_test : identify nodes header ≡ ok hpc_0
unfolding identify validate_node_id get_node_idx atoi last_part split node_at
header_test = refl

abbrev desired : DeploymentMessage
desired = record { json = codes "{}"; state_type = state_type_desired }

abbrev opened : Channel
opened = new_channel nodes header hpc_0

abbrev relayed : Channel
relayed = record opened { phase = looping; taken = desired ∷ []; written = desired ∷ [] }

-- The client's message is relayed and sent to it.
abbrev last : Registry
last = record {
  broker = receive 0 (relay desired [] (write desired (accept 0 (read new_broker))));
  channels = relayed ∷ [];
}

Reach-last : Reach marshal last
unfolding new_broker read accept write write_all relay
Reach-last =
    followed
      (followed
        (followed
          (followed
            (followed (followed started (opening nodes header hpc_0 header_test (omega arith)))
              (accepting 0 refl))
            (announcing [] [] opened [] refl refl
              (sym (announce-nil marshal (deployment_config_for_starting_node hpc_0.host) refl))
              (omega arith)))
          (taking [] [] (record opened { phase = looping }) desired refl refl (omega arith)))
        (relaying desired [] refl))
      (copying [] [] relayed 0 refl (omega arith) refl)

Reach-IsRelayed_example : IsRelayed marshal last
Reach-IsRelayed_example = Reach-IsRelayed marshal last Reach-last

Reach-in_order_example :
    Merges (map Channel.written last.channels) (log marshal last.broker)
    × All (λ ws. Sublist ws (log marshal last.broker)) (map Channel.written last.channels)
    × All (λ ch. Sublist (ch.received ++ ch.buffer) (log marshal last.broker)) last.broker.listeners
Reach-in_order_example = Reach-in_order marshal last Reach-last

buffers_leak_example : (s : Registry) × Reach marshal s × HoldsBuffers 3 s
buffers_leak_example =
    buffers_leak marshal nodes header hpc_0 header_test (λ d. (codes "{}", refl)) 3

waiting_messages_example :
    All (λ ch. length ch.buffer ≤ 5) last.broker.listeners
    × (length last.broker.listeners ≤ length last.channels)
    × (length last.broker.source ≤ 1)
waiting_messages_example = waiting_messages marshal last Reach-last
