-- ===== src/Orchestrator/Run/Dialling.antt =====
-- The address at which a node reaches for the central node that it has discovered.
use car_integrated_service_m.Prelude.{
  ◌≤◌, ℕ, zero, suc, itoa_int, Bytes, codes, true, false, List, [], ◌∷◌, ◌++◌, take, map, any, ◌==◌,
  length, length-append, Lacks, All, append_assoc, ok, text_eq, ◌≡◌, ◌≢◌, ◌∙◌, refl, sym, ap, arith,
}
use car_integrated_service_m.Config.Settings.{Config}
use car_integrated_service_m.Registry.Node.{join_host_port}
use car_integrated_service_m.Discovery.{
  BroadcastMessage, Gob, bytes_of, is_carisma_message, discover,
}
use car_integrated_service_m.Discovery.Messages.{IsFaithful, broadcast_lem}
use car_integrated_service_m.Discovery.Broadcast.{discovery_msg}
use car_integrated_service_m.Orchestrator.Run.{
  read_packet, discover_central_node, control_plane_target,
}

take_all : (n : ℕ) (s : Bytes) → length s ≤ n → take n s ≡ s
take_all zero [] h = refl
take_all zero (c ∷ s) h = absurd (omega arith)
take_all (suc n) [] h = refl
take_all (suc n) (c ∷ s) h = ap (λ t. c ∷ t) (take_all n s (omega arith))

any_colon-append : (s t : Bytes) → any (λ c. c == b':') (s ++ b':' ∷ t) ≡ true
any_colon-append [] t = refl
any_colon-append (c ∷ s) t = ground (arith, any_colon-append s t)

no_colon : (s : Bytes) → Lacks b':' s → any (λ c. c == b':') s ≡ false
no_colon [] h = refl
no_colon (c ∷ s) h = ground (arith, no_colon s h.1)

-- Packets that are no messages are passed over.
discover_first :
    (gob : Gob) (g : BroadcastMessage) (b hostname : Bytes) (before later : List Bytes)
    → IsFaithful gob
    → bytes_of gob g ≡ ok b
    → length b ≤ 1024
    → All (λ msg. is_carisma_message (read_packet msg) ≡ false) before
    → discover gob hostname (map read_packet (before ++ b ∷ later)) ≡ ok g.hostname
unfolding discover
discover_first gob g b hostname [] later faithful encoded short noise =
    let (b', encoded', is_message, _, decoded) = broadcast_lem gob g faithful in
    ground (arith, take_all 1024 b short)
discover_first gob g b hostname (msg ∷ before) later faithful encoded short noise =
    ground (arith, discover_first gob g b hostname before later faithful encoded short noise.1)

join_host_port-plain :
    (host port : Bytes) → Lacks b':' host → join_host_port host port ≡ host ++ b':' ∷ port
unfolding join_host_port
join_host_port-plain host port h =
    rw (join_host_port, no_colon host h) (append_assoc host (codes ":") port)

-- A host that already has a port gets another.
join_host_port_twice :
    (host port other : Bytes)
    → Lacks b':' host
    → join_host_port (join_host_port host port) other
      ≡ codes "[" ++ (host ++ b':' ∷ port) ++ codes "]:" ++ other
unfolding join_host_port
join_host_port_twice host port other h =
    rw (join_host_port-plain host port h) (rw (join_host_port, any_colon-append host port) refl)

longer :
    (host port other : Bytes)
    → codes "[" ++ (host ++ b':' ∷ port) ++ codes "]:" ++ other ≢ host ++ b':' ∷ other
longer host port other e = omega (
  arith,
  ap length e,
  length-append (host ++ b':' ∷ port ++ codes "]:") other,
  length-append (host ++ b':' ∷ port) (codes "]:"),
  length-append host (b':' ∷ port),
  length-append host (b':' ∷ other),
)

-- A node without a central node takes it from the first message of the program that arrives, if
-- `gob` decodes what it encodes and the message fits into a packet. Where this is the message that
-- the central node, of a host without a colon, broadcasts, the node then dials the host and the port
-- of the message as if they were one host: the target is not the host with the node's port.
pub dialled_target :
    (gob : Gob) (central node : Config) (b : Bytes) (before later : List Bytes)
    → IsFaithful gob
    → bytes_of gob (discovery_msg central) ≡ ok b
    → length b ≤ 1024
    → All (λ msg. is_carisma_message (read_packet msg) ≡ false) before
    → node.central_node_hostname ≡ []
    → Lacks b':' central.node_hostname
    → (cfg : Config) × (discover_central_node gob node (before ++ b ∷ later) ≡ ok cfg)
      × (control_plane_target cfg
          ≡ codes "["
            ++ (central.node_hostname ++ b':' ∷ itoa_int central.grpc_port)
            ++ codes "]:"
            ++ itoa_int node.grpc_port)
      × (control_plane_target cfg ≢ join_host_port central.node_hostname (itoa_int node.grpc_port))
unfolding discover_central_node control_plane_target discovery_msg text_eq
dialled_target gob central node b before later faithful encoded short noise unset plain =
    let host = central.node_hostname in
    let port = itoa_int central.grpc_port in
    let found : discover gob node.central_node_hostname (map read_packet (before ++ b ∷ later))
        ≡ ok (join_host_port host port) =
      discover_first gob (discovery_msg central) b _ before later faithful encoded short noise in
    (
      record node { central_node_hostname = join_host_port host port },
      rw (discover_central_node, unset) (ground (arith, found, unset)),
      join_host_port_twice host port (itoa_int node.grpc_port) plain,
      λ e. longer host port (itoa_int node.grpc_port) (
          sym (join_host_port_twice host port (itoa_int node.grpc_port) plain)
          ∙ e
          ∙ join_host_port-plain host (itoa_int node.grpc_port) plain),
    )
