-- ===== src/Discovery/Broadcast.antt =====
-- pkg/udp/broadcast.go, and what cmd/carisma-orchestrator/app/discovery.go does with it in central
-- mode. The socket is what the package `net` documents of one: no packet is sent after it is closed.
-- It is opened in Discovery.Socket; debug logs are left out.
pub mod Announcing
use car_integrated_service_m.Prelude.{
  itoa_int, Bytes, codes, Bool, true, false, List, [], ◌∷◌, ◌++◌, Option, none, some, ◌&&◌, not,
  if◌then◌else◌, Outcome, ok, err, panic,
}
use car_integrated_service_m.Config.Settings.{Config}
use car_integrated_service_m.Registry.Node.{join_host_port}
use car_integrated_service_m.Discovery.{BroadcastMessage, Gob, MessageError, bytes_of}

abbrev pub default_udp_broadcast_addr : Bytes
default_udp_broadcast_addr = codes "255.255.255.255"

-- A packet that was sent: its destination and its data.
pub record Packet : Type 0 where
  pub destination : Bytes
  pub data_bytes : Bytes

pub record BroadcastService : Type 0 where
  pub closed : Bool
  pub sent : List Packet

-- Whether there is an error: a second call is one.
unfoldable pub close : BroadcastService → BroadcastService × Bool
close b = (record b { closed = true }, b.closed)

-- `WriteTo`, while the network takes packets or not: whether the packet was sent.
unfoldable pub write_to : BroadcastService → Bool → Packet → BroadcastService × Bool
write_to b takes packet =
    if takes && not b.closed then (record b { sent = b.sent ++ packet ∷ [] }, true) else (b, false)

-- What wakes the loop: the end of the context, or a tick, with what the network then does.
pub data Wake : Type 0 where
  done : Wake
  ticked : Bool → Wake

pub data BroadcastError : Type 0 where
  no_bytes : MessageError → BroadcastError
  write_failed : BroadcastError

-- `udp.NewBroadcastMessage(net.JoinHostPort(cfg.NodeHostname, strconv.Itoa(cfg.GRPCPort)))`
unfoldable pub discovery_msg : Config → BroadcastMessage
discovery_msg cfg = record { hostname = join_host_port cfg.node_hostname (itoa_int cfg.grpc_port) }

module _ (gob : Gob) (resolves : Bytes → Bool) where
  -- The loop, as often as it is woken. No result means that it waits again. An address that does not
  -- resolve is a panic.
  unfoldable pub repeatedly_write_message :
      Bytes
      → BroadcastMessage
      → List Wake
      → BroadcastService
      → BroadcastService × Option (Outcome BroadcastError (Unit {0}))
  unfolding write_to
  repeatedly_write_message port msg [] b = (b, none)
  repeatedly_write_message port msg (done ∷ wakes) b = (b, some (ok tt))
  repeatedly_write_message port msg (ticked takes ∷ wakes) b =
      let addr = join_host_port default_udp_broadcast_addr port in
      elim (resolves addr) [
        | false ↦ (b, some panic)
        | true ↦ elim (bytes_of gob msg) [
          | err e ↦ (b, some (err (no_bytes e)))
          | panic ↦ (b, some panic)
          | ok sent_bytes ↦
              let (b', written) =
                write_to b takes (record { destination = addr; data_bytes = sent_bytes }) in
              elim written [
                | false ↦ (b', some (err write_failed))
                | true ↦ repeatedly_write_message port msg wakes b'
              ]
        ]
      ]

  -- `handleDiscovery` of the central node: the goroutine is woken some times before the function
  -- returns, and with that closes the socket, and some times after.
  unfoldable pub handle_discovery : Config → List Wake → List Wake → BroadcastService
  unfolding discovery_msg repeatedly_write_message close
  handle_discovery cfg before after =
      let (b, r) =
        repeatedly_write_message (itoa_int cfg.udp_port) (discovery_msg cfg) before
          (record { closed = false; sent = [] }) in
      let (b', _) = close b in
      elim r [
        | none ↦ (repeatedly_write_message (itoa_int cfg.udp_port) (discovery_msg cfg) after b').0
        | some _ ↦ b'
      ]
