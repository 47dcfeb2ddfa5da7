-- ===== src/Xds/Server/Admission.antt =====
-- The control plane when a node registers.
use car_integrated_service_m.Prelude.{
  ◌≤◌, ◌+◌, All, List, some, sym, subst, ◌<◌, ℕ, ◌≡◌, refl, ap, arith, ok, true, length,
  length-append, max_int, IsListing, [], ◌∷◌, ◌++◌,
}
use car_integrated_service_m.Config.Settings.{Config}
use car_integrated_service_m.Registry.Node.{
  NodeAddr, NodeRegistry, RegisterRequest, register, format_node_id,
}
use car_integrated_service_m.Registry.Node.Ids.{addr_of}
use car_integrated_service_m.Xds.Snapshots.{
  SnapshotLibrary, Visits, Server, next_version, generate_node_id, generate_snapshots,
}
use car_integrated_service_m.Xds.Snapshots.Idle.{IsReady, IsServed, IsIdle}
use car_integrated_service_m.Xds.Snapshots.Rounds.{generate_snapshots_idle}
use car_integrated_service_m.Xds.Server.{running, ControlPlane, receive_node}

module _ {Any : Type 0} (lib : SnapshotLibrary Any) (cfg : Config) where
  receive_node_runs :
      (visits : ℕ → Visits) (a : NodeAddr) (p : ControlPlane lib) (x : Server lib)
      → p.nodes_loop ≡ running
      → generate_snapshots lib cfg visits (record p.server { nodes = p.server.nodes ++ a ∷ [] })
        ≡ (x, ok tt)
      → receive_node lib cfg visits a p ≡ (record p { server = x; nodes_loop = running }, true)
  unfolding receive_node
  receive_node_runs visits a p x waits ran =
      rw (waits, receive_node, ap (λ q. q.1) ran, ap (λ q. q.0) ran) refl

  -- While no service is registered, fewer than 2^63-1 nodes are, the snapshot library does its
  -- part, and the server's nodes are those of the registry: a registration is received by the
  -- waiting goroutine, which goes on waiting. The nodes are again those of the registry, and the
  -- cache holds a snapshot of the new version under the ID of every node, of which the reply has the
  -- last.
  pub receive_node-register :
      (visits : ℕ → Visits) (s : NodeRegistry) (r : RegisterRequest) (p : ControlPlane lib)
      → IsReady lib
      → p.nodes_loop ≡ running
      → p.server.nodes ≡ s.nodes
      → length s.nodes < max_int
      → IsIdle p.server.services
      → ((i : ℕ) → IsListing (visits i).for_clusters p.server.services)
      → let reg = register s r in
        let (q, received) = receive_node lib cfg visits reg.new_node p in
        (received ≡ true)
        × (q.nodes_loop ≡ running)
        × (q.server.nodes ≡ reg.registry.nodes)
        × (q.server.services ≡ p.server.services)
        × (reg.id ≡ format_node_id (length s.nodes))
        × ((i : ℕ)
            → i ≤ length s.nodes
            → IsServed lib cfg
                (next_version p.server.snapshot_version)
                (visits i).for_routes
                q.server.cache
                (format_node_id i))
  receive_node-register visits s r p ready waits same few idle listing =
      let a = (register s r).new_node in
      let x : Server lib = record p.server { nodes = p.server.nodes ++ a ∷ [] } in
      let size = length-append p.server.nodes (a ∷ []) in
      let (cache, ran, served) =
        generate_snapshots_idle lib cfg visits x ready idle listing
          (omega (arith, size, ap length same)) in
      rw (receive_node_runs visits a p _ waits ran) (
        refl,
        refl,
        unfold register in ap (λ ns. ns ++ addr_of r ∷ []) same,
        refl,
        unfold register in refl,
        λ i h.
            unfold format_node_id in
            unfold generate_node_id in served i (omega (arith, size, ap length same)),
      )

  -- One node after the other registers, each with some order of visits of the round that follows.
  abbrev pub admit_all :
      List (RegisterRequest × (ℕ → Visits))
      → NodeRegistry
      → ControlPlane lib
      → NodeRegistry × ControlPlane lib
  admit_all [] s p = (s, p)
  admit_all ((r, visits) ∷ rs) s p =
      admit_all rs (register s r).registry (receive_node lib cfg visits (register s r).new_node p).0

  -- Under its ID, each node of the registry has a snapshot.
  abbrev pub HasSnapshots : NodeRegistry → ControlPlane lib → Type 0
  HasSnapshots s p =
      (i : ℕ)
      → i < length s.nodes
      → (snapshot : lib.Snapshot) × (lib.get_snapshot p.server.cache (format_node_id i)
          ≡ some snapshot)

  length-register :
      (s : NodeRegistry) (r : RegisterRequest)
      → length (register s r).registry.nodes ≡ length s.nodes + 1
  unfolding register
  length-register s r = length-append s.nodes (addr_of r ∷ [])

  -- While no service is registered and the snapshot library does its part, any nodes can register
  -- one after the other, up to 2^63-1 in all: the goroutine goes on waiting, the server's nodes stay
  -- those of the registry, and if each node had a snapshot under its ID before, each has one after.
  pub admit_all_lem :
      (rs : List (RegisterRequest × (ℕ → Visits))) (s : NodeRegistry) (p : ControlPlane lib)
      → IsReady lib
      → p.nodes_loop ≡ running
      → p.server.nodes ≡ s.nodes
      → length s.nodes + length rs ≤ max_int
      → IsIdle p.server.services
      → All
          (λ (r : RegisterRequest × (ℕ → Visits)).
            (i : ℕ) → IsListing (r.1 i).for_clusters p.server.services)
          rs
      → HasSnapshots s p
      → let (s', p') = admit_all rs s p in
        (p'.nodes_loop ≡ running) × (p'.server.nodes ≡ s'.nodes) × HasSnapshots s' p'
  admit_all_lem [] s p ready waits same few idle listing snapshots = (waits, same, snapshots)
  admit_all_lem ((r, visits) ∷ rs) s p ready waits same few idle listing snapshots =
      let (_, waits', same', services, _, served) =
        receive_node-register visits s r p ready waits same (omega arith) idle listing.0 in
      let q = (receive_node lib cfg visits (register s r).new_node p).0 in
      admit_all_lem rs (register s r).registry q ready waits' same'
        (omega (arith, length-register s r)) (subst IsIdle (sym services) idle)
        (subst
          (λ v.
            All (λ (r : RegisterRequest × (ℕ → Visits)). (i : ℕ) → IsListing (r.1 i).for_clusters v)
              rs)
          (sym services) listing.1)
        (λ i h. let it = served i (omega (arith, length-register s r)) in (it.snapshot, it.stored))
