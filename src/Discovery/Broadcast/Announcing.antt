-- ===== src/Discovery/Broadcast/Announcing.antt =====
-- What the central node broadcasts.
use car_integrated_service_m.Prelude.{
  ℕ, zero, suc, itoa_int, Bytes, Bool, true, false, List, [], ◌∷◌, ◌++◌, Option, none, some,
  Outcome, ok, ◌≡◌, ◌∙◌, refl, arith, append_assoc, append-nil,
}
use car_integrated_service_m.Config.Settings.{Config}
use car_integrated_service_m.Registry.Node.{join_host_port}
use car_integrated_service_m.Discovery.{BroadcastMessage, Gob, bytes_of}
use car_integrated_service_m.Discovery.Broadcast.{
  BroadcastError, BroadcastService, Packet, Wake, done, ticked, default_udp_broadcast_addr,
  write_to, repeatedly_write_message, discovery_msg, handle_discovery,
}

-- `n` ticks at which the network takes a packet.
abbrev pub good_ticks : ℕ → List Wake
good_ticks zero = []
good_ticks (suc n) = ticked true ∷ good_ticks n

abbrev pub copies : ℕ → Packet → List Packet
copies zero p = []
copies (suc n) p = p ∷ copies n p

module _ (gob : Gob) (resolves : Bytes → Bool) where
  -- On a closed socket nothing is sent, whatever wakes the loop.
  closed_silent :
      (port : Bytes) (msg : BroadcastMessage) (wakes : List Wake) (b : BroadcastService)
      → b.closed ≡ true
      → (repeatedly_write_message gob resolves port msg wakes b).0.sent ≡ b.sent
  unfolding repeatedly_write_message write_to
  closed_silent port msg [] b h = refl
  closed_silent port msg (done ∷ wakes) b h = refl
  closed_silent port msg (ticked takes ∷ wakes) b h = ground (arith, h)

  -- The central node sends no packet after the function that starts its broadcasts has returned: if
  -- that is before the first tick, it never sends any.
  pub handle_discovery_silent :
      (cfg : Config) (before after : List Wake)
      → ((handle_discovery gob resolves cfg before after).sent
          ≡ (handle_discovery gob resolves cfg before []).sent)
        × ((handle_discovery gob resolves cfg [] after).sent ≡ [])
  unfolding handle_discovery
  handle_discovery_silent cfg before after =
      (by_result _ refl, closed_silent (itoa_int cfg.udp_port) (discovery_msg cfg) after _ refl)
    where
      loop : BroadcastService × Option (Outcome BroadcastError (Unit {0}))
      loop =
          repeatedly_write_message gob resolves (itoa_int cfg.udp_port) (discovery_msg cfg) before
            (record { closed = false; sent = [] })

      by_result :
          (r : Option (Outcome BroadcastError (Unit {0})))
          → loop.1 ≡ r
          → (handle_discovery gob resolves cfg before after).sent
            ≡ (handle_discovery gob resolves cfg before []).sent
      by_result none e =
          rw (handle_discovery, e)
            (closed_silent (itoa_int cfg.udp_port) (discovery_msg cfg) after _ refl)
      by_result (some r) e = rw (handle_discovery, e) refl

  module _ (port : Bytes) (msg : BroadcastMessage) (sent_bytes : Bytes) where
    abbrev packet : Packet
    packet = record {
      destination = join_host_port default_udp_broadcast_addr port;
      data_bytes = sent_bytes;
    }

    tick_sends :
        (wakes : List Wake) (sent : List Packet)
        → resolves (join_host_port default_udp_broadcast_addr port) ≡ true
        → bytes_of gob msg ≡ ok sent_bytes
        → repeatedly_write_message gob resolves port msg
            (ticked true ∷ wakes)
            (record { closed = false; sent = sent })
          ≡ repeatedly_write_message gob resolves port msg wakes
              (record { closed = false; sent = sent ++ packet ∷ [] })
    unfolding repeatedly_write_message write_to
    tick_sends wakes sent reached encoded = rw (repeatedly_write_message, reached, encoded) refl

    -- On an open socket, if the address resolves and the message has bytes, each tick at which the
    -- network takes a packet sends the message once, and the loop goes on.
    pub repeatedly_write_message_lem :
        (n : ℕ) (sent : List Packet)
        → resolves (join_host_port default_udp_broadcast_addr port) ≡ true
        → bytes_of gob msg ≡ ok sent_bytes
        → repeatedly_write_message gob resolves port msg
            (good_ticks n)
            (record { closed = false; sent = sent })
          ≡ (record { closed = false; sent = sent ++ copies n packet }, none)
    repeatedly_write_message_lem zero sent reached encoded =
        unfold repeatedly_write_message in rw (append-nil sent) refl
    repeatedly_write_message_lem (suc n) sent reached encoded =
        tick_sends (good_ticks n) sent reached encoded
        ∙ repeatedly_write_message_lem n (sent ++ packet ∷ []) reached encoded
        ∙ rw (append_assoc sent (packet ∷ []) (copies n packet)) refl
