-- ===== src/Registry/Node/Streams.antt =====
-- The open channels of nodes (`OpenChannel` of pkg/registry/node_regisry.go) around one broker: each
-- has the handler's goroutine, which takes the messages of its client and writes them to the broker,
-- and the one that copies what the broker relays to the client. Their steps come in any order. A
-- client's messages, the header and the end of its stream are the environment's choice; an error of
-- sending is only logged, and is left out. The channels stand in the order of their calls of `Read`,
-- the last one first, and so do the broker's listeners: those not yet accepted lack one.
pub mod Merging
pub mod Handlers
pub mod Relayed
pub mod Buffers
pub mod Bounds
use car_integrated_service_m.Prelude.{
  ℕ, suc, ◌+◌, ◌≤◌, ◌<◌, ◌≡◌, length, Bytes, Bool, true, false, List, [], ◌∷◌, ◌++◌, Option, ok,
}
use car_integrated_service_m.Broker.{Broker, new_broker, read, write, accept, relay, receive}
use car_integrated_service_m.Config.Deployment.{
  DeploymentConfig, deployment_config_for_starting_node, deployment_config_for_stopped_node,
}
use car_integrated_service_m.Registry.Node.{
  NodeAddr, NodeRegistry, Header, DeploymentMessage, StreamEnd, announce, identify,
}

-- Where the handler stands: before the initial announcement, in the loop, or at its end.
pub data Phase : Type 0 where
  starting looping : Phase
  ended : StreamEnd → Phase

-- Beside the state of the two goroutines, what the handler has taken from the client and what it has
-- written to the broker.
pub record Channel : Type 0 where
  pub registry : NodeRegistry
  pub header : Header
  pub addr : NodeAddr
  pub phase : Phase
  pub copying : Bool
  pub taken : List DeploymentMessage
  pub written : List DeploymentMessage

pub record Registry : Type 0 where
  pub broker : Broker DeploymentMessage
  pub channels : List Channel

abbrev pub new_channel : NodeRegistry → Header → NodeAddr → Channel
new_channel s header addr = record {
  registry = s;
  header = header;
  addr = addr;
  phase = starting;
  copying = true;
  taken = [];
  written = [];
}

-- Messages that one handler writes one after the other.
unfoldable pub write_all :
    List DeploymentMessage → Broker DeploymentMessage → Broker DeploymentMessage
write_all [] b = b
write_all (m ∷ ms) b = write_all ms (write m b)

-- The channel `source` holds one message.
abbrev pub HasSpace : List DeploymentMessage → Broker DeploymentMessage → Type 0
HasSpace ms b = length b.source + length ms ≤ 1

abbrev pub new_registry : Registry
unfolding new_broker
new_registry = record { broker = new_broker; channels = [] }

-- The registry behind a step of the handler of `c`, which writes some messages.
abbrev pub after_write :
    Registry → List Channel → Channel → List Channel → List DeploymentMessage → Registry
after_write s before c after ms = record {
  broker = write_all ms s.broker;
  channels = before ++ record c { written = c.written ++ ms } ∷ after;
}

module _ (marshal : DeploymentConfig → Option Bytes) where
  pub data Step : Registry → Registry → Type 0 where
    -- A handler identifies the node and has `Read` send a new buffer to the broker.
    opening :
        {s : Registry} (nodes : NodeRegistry) (header : Header) (addr : NodeAddr)
        → identify nodes header ≡ ok addr
        → s.broker.destinations < 1
        → Step s (record {
          broker = read s.broker;
          channels = new_channel nodes header addr ∷ s.channels;
        })
    -- The initial announcement, if there is one.
    announcing :
        {s : Registry} (before after : List Channel) (c : Channel) (ms : List DeploymentMessage)
        → s.channels ≡ before ++ c ∷ after
        → c.phase ≡ starting
        → ms ≡ announce marshal (deployment_config_for_starting_node c.addr.host)
        → HasSpace ms s.broker
        → Step s (after_write s before (record c { phase = looping }) after ms)
    -- The loop takes a message of the client and writes it.
    taking :
        {s : Registry} (before after : List Channel) (c : Channel) (m : DeploymentMessage)
        → s.channels ≡ before ++ c ∷ after
        → c.phase ≡ looping
        → HasSpace (m ∷ []) s.broker
        → Step s (after_write s before (record c { taken = c.taken ++ m ∷ [] }) after (m ∷ []))
    -- The stream ends: the last announcement, if there is one.
    ending :
        {s : Registry} (before after : List Channel) (c : Channel) (end : StreamEnd)
        (ms : List DeploymentMessage)
        → s.channels ≡ before ++ c ∷ after
        → c.phase ≡ looping
        → ms ≡ announce marshal (deployment_config_for_stopped_node c.addr.host)
        → HasSpace ms s.broker
        → Step s (after_write s before (record c { phase = ended end }) after ms)
    -- The copying goroutine takes a message from its buffer, if there is one.
    copying :
        {s : Registry} (before after : List Channel) (c : Channel) (i : ℕ)
        → s.channels ≡ before ++ c ∷ after
        → length before ≡ s.broker.destinations + i
        → c.copying ≡ true
        → Step s (record s { broker = receive i s.broker })
    -- It returns once the context of the stream is done, or that which the handler cancels.
    stopping :
        {s : Registry} (before after : List Channel) (c : Channel)
        → s.channels ≡ before ++ c ∷ after
        → Step s (record s { channels = before ++ record c { copying = false } ∷ after })
    -- The steps of `Listen`.
    accepting :
        {s : Registry} (n : ℕ)
        → s.broker.destinations ≡ suc n
        → Step s (record s { broker = accept n s.broker })
    relaying :
        {s : Registry} (m : DeploymentMessage) (rest : List DeploymentMessage)
        → s.broker.source ≡ m ∷ rest
        → Step s (record s { broker = relay m rest s.broker })

  pub data Reach : Registry → Type 0 where
    started : Reach new_registry
    followed : {s t : Registry} → Reach s → Step s t → Reach t
