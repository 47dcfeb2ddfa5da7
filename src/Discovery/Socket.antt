-- ===== src/Discovery/Socket.antt =====
-- `NewBroadcastService` of pkg/udp/broadcast.go: the options with which the socket is opened. What the
-- network does is an argument; the function that sets the options runs while the socket is opened.
use car_integrated_service_m.Prelude.{
  itoa_int, Bytes, Bool, true, false, List, [], ◌∷◌, Option, none, some, if◌then◌else◌, ◌≡◌, ◌↔◌,
  ◌⊎◌, arith,
}
use car_integrated_service_m.Config.Settings.{Config}
use car_integrated_service_m.Registry.Node.{join_host_port}
use car_integrated_service_m.Discovery.Broadcast.{BroadcastService}

pub data SocketOption : Type 0 where
  reuse_addr reuse_port : SocketOption

-- Whether the raw connection can be used, an option can be set, and a packet connection with some
-- options can be opened at an address.
pub record Network : Type 0 where
  pub control : Bool
  pub sets : SocketOption → Bool
  pub listens : List SocketOption → Bytes → Bool

-- The function given to `c.Control`, which gives up at the first error without telling.
unfoldable pub set_options : (SocketOption → Bool) → List SocketOption
set_options sets =
    if sets reuse_addr
    then (if sets reuse_port then reuse_addr ∷ reuse_port ∷ [] else reuse_addr ∷ [])
    else []

-- `lc.Control`: the options that are set, or an error.
unfoldable pub control_options : Network → Config → Option (List SocketOption)
unfolding set_options
control_options net cfg =
    if cfg.enable_debug_mode
    then (if net.control then some (set_options net.sets) else none)
    else some []

unfoldable pub new_broadcast_service : Network → Config → Option BroadcastService
unfolding control_options
new_broadcast_service net cfg = elim (control_options net cfg) [
  | none ↦ none
  | some options ↦
      if net.listens options (join_host_port [] (itoa_int cfg.udp_port))
      then some (record { closed = false; sent = [] })
      else none
]

-- A service is opened outside debug mode if its port can be listened at without options; and in debug
-- mode, whether or not the options can be set, if the raw connection can be used and the port be
-- listened at with those that are set.
pub new_broadcast_service_lem :
    (net : Network) (cfg : Config)
    → (new_broadcast_service net cfg ≡ some (record { closed = false; sent = [] })) ↔ (
        ((cfg.enable_debug_mode ≡ false)
          × (net.listens [] (join_host_port [] (itoa_int cfg.udp_port)) ≡ true))
        ⊎ ((cfg.enable_debug_mode ≡ true)
            × (net.control ≡ true)
            × (net.listens (set_options net.sets) (join_host_port [] (itoa_int cfg.udp_port))
                ≡ true)))
unfolding new_broadcast_service
new_broadcast_service_lem net cfg = ground arith
