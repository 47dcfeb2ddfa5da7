-- ===== src/Registry/Node/Registering.antt =====
-- `Register` of pkg/registry/node_regisry.go as several handlers run it: the address is added while
-- the mutex is held, and sent on the channel of nodes after it was released. So the handlers are
-- steps that are taken in any order.
pub mod Order
use car_integrated_service_m.Prelude.{List, [], ◌∷◌, ◌++◌, ◌≡◌}
use car_integrated_service_m.Registry.Node.{
  NodeAddr, NodeRegistry, RegisterRequest, new_node_registry, register,
}

-- The registry, the addresses that handlers have added and not sent yet, and what the receiver of
-- the channel has got.
pub record Registering : Type 0 where
  pub registry : NodeRegistry
  pub unsent : List NodeAddr
  pub received : List NodeAddr

abbrev pub nothing_registered : Registering
nothing_registered = record { registry = new_node_registry; unsent = []; received = [] }

-- A handler, up to `s.mu.Unlock()`.
unfoldable pub add : RegisterRequest → Registering → Registering
unfolding register
add r c =
    let p = register c.registry r in
    record c { registry = p.registry; unsent = c.unsent ++ p.new_node ∷ [] }

-- `s.chanNodes <- newNode` of a handler, which leaves the addresses of the others.
unfoldable pub send : NodeAddr → List NodeAddr → Registering → Registering
send new_node others c = record c { unsent = others; received = c.received ++ new_node ∷ [] }

pub data Step : Registering → Registering → Type 0 where
  adding : {c : Registering} (r : RegisterRequest) → Step c (add r c)
  sending :
      {c : Registering} (before : List NodeAddr) (new_node : NodeAddr) (after : List NodeAddr)
      → c.unsent ≡ before ++ new_node ∷ after
      → Step c (send new_node (before ++ after) c)

pub data Reach : Registering → Type 0 where
  started : Reach nothing_registered
  followed : {c d : Registering} → Reach c → Step c d → Reach d
