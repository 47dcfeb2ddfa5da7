-- ===== src/Broker/Bounds.antt =====
-- How many messages can wait in a broker.
use car_integrated_service_m.Prelude.{◌≤◌, length, length-append, List, [], ◌∷◌, All, ap, arith}
use car_integrated_service_m.Broker.{
  Listener, Broker, new_broker, buffer_size, read, accept, write, relay, receive, reading,
  accepting, writing, relaying, receiving, Reach, started, followed,
}
use car_integrated_service_m.Broker.Order.{IsServed, Reach-listeners}

module _ {ℓ} {T : Type ℓ} where
  -- The channels of the broker hold one each.
  pub Reach-channels : (b : Broker T) → Reach b → (length b.source ≤ 1) × (b.destinations ≤ 1)
  unfolding new_broker read accept write relay receive
  Reach-channels _ started = omega arith
  Reach-channels _ (followed {b = b} r (reading room)) = ((Reach-channels b r).0, omega arith)
  Reach-channels _ (followed {b = b} r (accepting n e)) =
      ((Reach-channels b r).0, omega (arith, (Reach-channels b r).1))
  Reach-channels _ (followed {b = b} r (writing msg room)) =
      (omega (arith, length-append b.source (msg ∷ [])), (Reach-channels b r).1)
  Reach-channels _ (followed {b = b} r (relaying msg rest e)) =
      (omega (arith, (Reach-channels b r).0, ap length e), (Reach-channels b r).1)
  Reach-channels _ (followed {b = b} r (receiving i)) = Reach-channels b r

  buffer-le :
      (relayed : List T) (listeners : List (Listener T))
      → All (IsServed relayed) listeners
      → All (λ ch. length ch.buffer ≤ buffer_size) listeners
  buffer-le relayed [] h = tt
  buffer-le relayed (ch ∷ listeners) h = (h.0.1, buffer-le relayed listeners h.1)

  -- At most one message waits to be relayed, one buffer to be accepted, and five messages in each
  -- buffer to be received.
  pub Reach-bounds :
      (b : Broker T)
      → Reach b
      → (length b.source ≤ 1)
        × (b.destinations ≤ 1)
        × All (λ ch. length ch.buffer ≤ buffer_size) b.listeners
  Reach-bounds b r =
      let (few, fewer) = Reach-channels b r in
      (few, fewer, buffer-le b.relayed b.listeners (Reach-listeners b r))
