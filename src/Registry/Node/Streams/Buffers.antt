-- ===== src/Registry/Node/Streams/Buffers.antt =====
-- The buffers that closed channels leave behind.
use car_integrated_service_m.Prelude.{
  ℕ, zero, suc, Bytes, Option, some, false, [], ◌∷◌, length, All, ◌≡◌, refl, ap, sym, arith, ok,
}
use car_integrated_service_m.Broker.{Broker, new_broker, read, accept}
use car_integrated_service_m.Config.Deployment.{DeploymentConfig}
use car_integrated_service_m.Registry.Node.{
  NodeAddr, NodeRegistry, Header, DeploymentMessage, eof, identify,
}
use car_integrated_service_m.Registry.Node.Channel.{announce-nil}
use car_integrated_service_m.Registry.Node.Streams.{
  looping, ended, Channel, Registry, new_channel, write_all, new_registry, opening, announcing,
  ending, stopping, accepting, Reach, started, followed,
}

-- Each channel has ended, and both of its goroutines have returned.
abbrev pub IsClosed : Channel → Type 0
IsClosed c = (c.phase ≡ ended eof) × (c.copying ≡ false)

-- All channels are closed, nothing is on its way, and the broker holds this many buffers.
pub record HoldsBuffers (n : ℕ) (s : Registry) : Type 0 where
  pub held : length s.broker.listeners ≡ n
  pub closed : All IsClosed s.channels
  pub accepted : s.broker.destinations ≡ 0
  pub relayed : s.broker.source ≡ []

module _ (marshal : DeploymentConfig → Option Bytes) (nodes : NodeRegistry) (header : Header)
    (addr : NodeAddr) (identified : identify nodes header ≡ ok addr) where
  -- A channel is opened and closed, without a message.
  open_and_close :
      ((d : DeploymentConfig) → (j : Bytes) × (marshal d ≡ some j))
      → (n : ℕ) (s : Registry) → Reach marshal s
      → HoldsBuffers n s
      → (t : Registry) × Reach marshal t × HoldsBuffers (suc n) t
  unfolding read accept write_all
  open_and_close encodes n s r h =
      let c : Channel = new_channel nodes header addr in
      let b1 : Broker DeploymentMessage = read s.broker in
      let b2 : Broker DeploymentMessage = accept 0 b1 in
      let s1 : Registry = record { broker = b1; channels = c ∷ s.channels } in
      let s2 : Registry = record { broker = b2; channels = c ∷ s.channels } in
      let c3 : Channel = record c { phase = looping } in
      let s3 : Registry = record { broker = b2; channels = c3 ∷ s.channels } in
      let c4 : Channel = record c { phase = ended eof } in
      let s4 : Registry = record { broker = b2; channels = c4 ∷ s.channels } in
      let c5 : Channel = record c4 { copying = false } in
      let s5 : Registry = record { broker = b2; channels = c5 ∷ s.channels } in
      let quiet = λ (d : DeploymentConfig). sym (announce-nil marshal d (encodes d).1) in
      let r1 : Reach marshal s1 =
        followed r (opening nodes header addr identified (omega (arith, h.accepted))) in
      let r2 : Reach marshal s2 = followed r1 (accepting 0 (ap suc h.accepted)) in
      let r3 : Reach marshal s3 =
        followed r2 (
          announcing [] s.channels c [] refl refl (quiet _) (omega (arith, ap length h.relayed))) in
      let r4 : Reach marshal s4 =
        followed r3 (
          ending [] s.channels c3 eof [] refl refl (quiet _)
            (omega (arith, ap length h.relayed))) in
      (
        s5,
        followed r4 (stopping [] s.channels c4 refl),
        record {
          held = ap suc h.held;
          closed = ((refl, refl), h.closed);
          accepted = refl;
          relayed = h.relayed;
        },
      )

  -- Where the encoder succeeds and there is a node: for any number, the registry can get to a state in
  -- which every channel is closed and its goroutines have returned, and the broker still holds that
  -- many buffers.
  pub buffers_leak :
      ((d : DeploymentConfig) → (j : Bytes) × (marshal d ≡ some j))
      → (n : ℕ) → (s : Registry) × Reach marshal s × HoldsBuffers n s
  unfolding new_broker
  buffers_leak encodes zero =
      (new_registry, started, record { held = refl; closed = tt; accepted = refl; relayed = refl })
  buffers_leak encodes (suc n) =
      let (s, r, h) = buffers_leak encodes n in open_and_close encodes n s r h
