-- ===== src/Registry/Node/Streams/Bounds.antt =====
-- How many messages can wait in the node registry.
use car_integrated_service_m.Prelude.{◌≤◌, length, All, Bytes, Option, arith}
use car_integrated_service_m.Broker.Bounds.{Reach-bounds}
use car_integrated_service_m.Config.Deployment.{DeploymentConfig}
use car_integrated_service_m.Registry.Node.Streams.{Registry, Reach}
use car_integrated_service_m.Registry.Node.Streams.Relayed.{Reach-IsRelayed}

-- Whatever clients send, and however slowly they receive: at most five messages wait in the buffer of
-- each channel that was ever opened, there is at most one buffer for each such channel, and at most
-- one message waits to be relayed.
pub waiting_messages :
    (marshal : DeploymentConfig → Option Bytes) (s : Registry)
    → Reach marshal s
    → All (λ ch. length ch.buffer ≤ 5) s.broker.listeners
      × (length s.broker.listeners ≤ length s.channels)
      × (length s.broker.source ≤ 1)
waiting_messages marshal s r =
    let i = Reach-IsRelayed marshal s r in
    let (few, fewer, full) = Reach-bounds s.broker i.steps in (full, omega (arith, i.buffers), few)
