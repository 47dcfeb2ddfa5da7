-- ===== src/Registry/Node/Streams/Handlers.antt =====
-- What the handlers of the open channels write, whatever their order.
use car_integrated_service_m.Prelude.{
  Bytes, Option, List, [], ◌∷◌, ◌++◌, append_assoc, append-nil, All, ◌≡◌, refl, ◌∙◌, sym, ap, subst,
  ok, false,
}
use car_integrated_service_m.Config.Deployment.{
  DeploymentConfig, deployment_config_for_starting_node, deployment_config_for_stopped_node,
}
use car_integrated_service_m.Registry.Node.{
  NodeAddr, NodeRegistry, Header, DeploymentMessage, StreamEnd, announce, identify, open_channel,
  stream_result,
}
use car_integrated_service_m.Registry.Node
use car_integrated_service_m.Registry.Node.Streams.{Phase, starting, looping, ended, Channel}

module _ (marshal : DeploymentConfig → Option Bytes) where
  -- What the handler of a channel has written, by how far it is: at its end, the result and all
  -- messages are those of the handler alone.
  abbrev pub HasWritten : Phase → Channel → Type 0
  HasWritten starting c = (c.written ≡ []) × (c.taken ≡ [])
  HasWritten looping c =
      c.written ≡ announce marshal (deployment_config_for_starting_node c.addr.host) ++ c.taken
  HasWritten (ended e) c =
      open_channel marshal c.registry c.header c.taken e ≡ (stream_result e, c.written)

  abbrev pub IsHandled : Channel → Type 0
  IsHandled c = (identify c.registry c.header ≡ ok c.addr) × HasWritten c.phase c

  relay-append :
      (host : Bytes) (ms : List DeploymentMessage)
      → Node.relay marshal host ms
        ≡ ms ++ announce marshal (deployment_config_for_stopped_node host)
  unfolding Node.relay
  relay-append host [] = refl
  relay-append host (m ∷ ms) = ap (λ r. m ∷ r) (relay-append host ms)

  open_channel_identified :
      (s : NodeRegistry) (header : Header) (addr : NodeAddr) (ms : List DeploymentMessage)
      (end : StreamEnd)
      → identify s header ≡ ok addr
      → open_channel marshal s header ms end ≡ (
        stream_result end,
        announce marshal (deployment_config_for_starting_node addr.host)
            ++ Node.relay marshal addr.host ms,
      )
  unfolding open_channel
  open_channel_identified s header addr ms end h = rw (open_channel, h) refl

  -- Replacing one channel.
  pub All-replaced :
      (P : Channel → Type 0) (before after : List Channel) (c d : Channel)
      → (P c → P d)
      → All P (before ++ c ∷ after)
      → All P (before ++ d ∷ after)
  All-replaced P [] after c d f h = (f h.0, h.1)
  All-replaced P (b ∷ before) after c d f h = (h.0, All-replaced P before after c d f h.1)

  pub announced-IsHandled :
      (c : Channel) (ms : List DeploymentMessage)
      → c.phase ≡ starting
      → ms ≡ announce marshal (deployment_config_for_starting_node c.addr.host)
      → IsHandled c
      → IsHandled (record c { phase = looping; written = c.written ++ ms })
  announced-IsHandled c ms at_start e h =
      let (w, t) : HasWritten starting c = subst (λ p. HasWritten p c) at_start h.1 in
      (h.0, rw (w, t, e) (sym (append-nil _)))

  pub taken-IsHandled :
      (c : Channel) (m : DeploymentMessage)
      → c.phase ≡ looping
      → IsHandled c
      → IsHandled (record c { taken = c.taken ++ m ∷ []; written = c.written ++ m ∷ [] })
  taken-IsHandled c m in_loop h =
      let w : HasWritten looping c = subst (λ p. HasWritten p c) in_loop h.1 in
      let next : Channel = record c { taken = c.taken ++ m ∷ []; written = c.written ++ m ∷ [] } in
      (
        h.0,
        subst (λ p. HasWritten p next) (sym in_loop)
            (ap (λ ws. ws ++ m ∷ []) w ∙ append_assoc _ c.taken (m ∷ [])),
      )

  pub ended-IsHandled :
      (c : Channel) (end : StreamEnd) (ms : List DeploymentMessage)
      → c.phase ≡ looping
      → ms ≡ announce marshal (deployment_config_for_stopped_node c.addr.host)
      → IsHandled c
      → IsHandled (record c { phase = ended end; written = c.written ++ ms })
  ended-IsHandled c end ms in_loop e h =
      let w : HasWritten looping c = subst (λ p. HasWritten p c) in_loop h.1 in
      (
        h.0,
        open_channel_identified c.registry c.header c.addr c.taken end h.0
            ∙ ap (λ ws. (stream_result end, ws))
                (ap (λ ws. announce marshal (deployment_config_for_starting_node c.addr.host) ++ ws)
                    (relay-append c.addr.host c.taken)
                  ∙ sym (append_assoc _ c.taken _)
                  ∙ sym (
                      ap
                        (λ ws.
                          ws ++ announce marshal (deployment_config_for_stopped_node c.addr.host))
                        w)
                  ∙ sym (ap (λ ws. c.written ++ ws) e)),
      )

  pub stopped-HasWritten :
      (p : Phase) (c : Channel) → HasWritten p c → HasWritten p (record c { copying = false })
  stopped-HasWritten starting c h = h
  stopped-HasWritten looping c h = h
  stopped-HasWritten (ended e) c h = h
