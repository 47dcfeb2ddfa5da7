-- ===== src/Broker.antt =====
-- pkg/channel/broker.go: a relay of messages from one channel to many. A channel is the list of the
-- messages in its buffer; the goroutines are steps that are taken in any order. Beside the code's
-- state, the lists `received` and `relayed` record what a reader has taken and what the broker has
-- handed out. `Stop` ends the steps of the broker.
pub mod Order
pub mod Pace
pub mod Bounds
use car_integrated_service_m.Prelude.{
  ℕ, zero, suc, length, ltb, List, [], ◌∷◌, ◌++◌, map, if◌then◌else◌, ◌≡◌, ◌<◌,
}

-- The buffer of a channel that `Read` returns, and what its reader has taken from it.
pub record Listener {ℓ} (T : Type ℓ) : Type ℓ where
  pub buffer : List T
  pub received : List T

-- The length of the channel `destinations`, the buffer of `source`, and the map `listeners`.
pub record Broker {ℓ} (T : Type ℓ) : Type ℓ where
  pub destinations : ℕ
  pub source : List T
  pub listeners : List (Listener T)
  pub relayed : List T

-- `make(chan T, 5)`
abbrev pub buffer_size : ℕ
buffer_size = 5

module _ {ℓ} {T : Type ℓ} where
  unfoldable pub new_broker : Broker T
  new_broker = record { destinations = 0; source = []; listeners = []; relayed = [] }

  -- `select { case ch <- msg: default: }`: a full channel does not get the message.
  unfoldable pub offer : T → Listener T → Listener T
  offer msg ch =
      if ltb (length ch.buffer) buffer_size
      then record ch { buffer = ch.buffer ++ msg ∷ [] }
      else ch

  -- A reader takes the first message, if there is one.
  unfoldable pub take_message : Listener T → Listener T
  take_message ch = elim ch.buffer [
    | [] ↦ ch
    | (msg ∷ buffer) ↦ record { buffer = buffer; received = ch.received ++ msg ∷ [] }
  ]

  unfoldable pub take_at : ℕ → List (Listener T) → List (Listener T)
  unfolding take_message
  take_at i [] = []
  take_at zero (ch ∷ listeners) = take_message ch ∷ listeners
  take_at (suc i) (ch ∷ listeners) = ch ∷ take_at i listeners

  -- The send of `Read`; the channel `destinations` holds one.
  unfoldable pub read : Broker T → Broker T
  read b = record b { destinations = suc b.destinations }

  -- The first case of `Listen`.
  unfoldable pub accept : ℕ → Broker T → Broker T
  accept n b = record b {
    destinations = n;
    listeners = record { buffer = []; received = [] } ∷ b.listeners;
  }

  -- The send of `Write`; the channel `source` holds one.
  unfoldable pub write : T → Broker T → Broker T
  write msg b = record b { source = b.source ++ msg ∷ [] }

  -- The second case of `Listen`.
  unfoldable pub relay : T → List T → Broker T → Broker T
  unfolding offer
  relay msg rest b = record b {
    source = rest;
    listeners = map (offer msg) b.listeners;
    relayed = b.relayed ++ msg ∷ [];
  }

  unfoldable pub receive : ℕ → Broker T → Broker T
  unfolding take_at
  receive i b = record b { listeners = take_at i b.listeners }

  -- A step of the broker or of a goroutine that uses it.
  pub data Step : Broker T → Broker T → Type ℓ where
    reading : {b : Broker T} → b.destinations < 1 → Step b (read b)
    accepting : {b : Broker T} (n : ℕ) → b.destinations ≡ suc n → Step b (accept n b)
    writing : {b : Broker T} (msg : T) → length b.source < 1 → Step b (write msg b)
    relaying :
        {b : Broker T} (msg : T) (rest : List T) → b.source ≡ msg ∷ rest → Step b (relay msg rest b)
    receiving : {b : Broker T} (i : ℕ) → Step b (receive i b)

  pub data Reach : Broker T → Type ℓ where
    started : Reach new_broker
    followed : {b c : Broker T} → Reach b → Step b c → Reach c
