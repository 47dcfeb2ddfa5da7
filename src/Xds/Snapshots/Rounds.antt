-- ===== src/Xds/Snapshots/Rounds.antt =====
-- The loop over the nodes in a mesh without services.
use car_integrated_service_m.Prelude.{
  ◌<◌, ◌≤◌, ◌+◌, ℕ, zero, suc, ℤ, ltb, Bytes, ◌≡◌, ◌∙◌, refl, ap, subst, List, some, ok, arith,
  none, Bool, true, false, length, max_int, if◌then◌else◌, IsListing,
}
use car_integrated_service_m.Config.Settings.{Config}
use car_integrated_service_m.Registry.Node.{NodeAddr}
use car_integrated_service_m.Registry.Service.{ServiceConfigSnapshot}
use car_integrated_service_m.Xds.Clusters.Endpoints.{first_busy}
use car_integrated_service_m.Xds.Snapshots.{
  SnapshotLibrary, Visits, Server, next_version, generate_node_id, generate_snapshot, generate_from,
  generate_snapshots,
}
use car_integrated_service_m.Xds.Snapshots.Idle.{
  IsReady, IsServed, IsIdle, first_busy-IsIdle, other_node, generate_snapshot_idle,
}

module _ {Any : Type 0} (lib : SnapshotLibrary Any) (cfg : Config) where
  open lib use {Cache, Snapshot, get_snapshot, set_snapshot, get-set}

  kept-IsServed :
      {version : ℤ} {visit : ServiceConfigSnapshot} {c c' : Cache} {node_id : Bytes}
      → get_snapshot c' node_id ≡ get_snapshot c node_id
      → IsServed lib cfg version visit c node_id
      → IsServed lib cfg version visit c' node_id
  kept-IsServed same served = record {
    listeners = served.listeners;
    snapshot = served.snapshot;
    made = served.made;
    packed = served.packed;
    stored = same ∙ served.stored;
  }

  module _ (version : ℤ) (nodes : List NodeAddr) (visits : ℕ → Visits) where
    generate_from_next :
        (rounds i : ℕ) (c c' : Cache)
        → generate_snapshot lib cfg version nodes (visits i) i c ≡ (c', ok tt)
        → generate_from lib cfg version nodes visits (suc rounds) i c
          ≡ generate_from lib cfg version nodes visits rounds (suc i) c'
    unfolding generate_from
    generate_from_next rounds i c c' ran =
        rw (generate_from, ap (λ p. p.1) ran, ap (λ p. p.0) ran) refl

    set_kept :
        (i j : ℕ) (c c' : Cache) (s : Snapshot)
        → set_snapshot c (generate_node_id i) s ≡ some c'
        → j < i
        → i ≤ max_int
        → get_snapshot c' (generate_node_id j) ≡ get_snapshot c (generate_node_id j)
    set_kept i j c c' s set lt h =
        get-set c c' (generate_node_id i) (generate_node_id j) s set
        ∙ ap (λ b. if b then some s else get_snapshot c (generate_node_id j)) (other_node j i lt h)

    -- The rounds from node `i` on serve each of their nodes, and keep what the cache holds for the
    -- nodes before.
    generate_from_idle :
        IsReady lib
        → ((j : ℕ) → first_busy (visits j).for_clusters ≡ none)
        → (rounds i : ℕ) (cache : Cache) → i + rounds ≤ max_int
        → (cache' : Cache) × (generate_from lib cfg version nodes visits rounds i cache
            ≡ (cache', ok tt))
          × ((j : ℕ)
              → j < i
              → get_snapshot cache' (generate_node_id j) ≡ get_snapshot cache (generate_node_id j))
          × ((j : ℕ)
              → i ≤ j
              → j < i + rounds
              → IsServed lib cfg version (visits j).for_routes cache' (generate_node_id j))
    generate_from_idle ready idle zero i cache few =
        (cache, unfold generate_from in refl, λ j h. refl, λ j h h'. absurd (omega arith))
    generate_from_idle ready idle (suc rounds) i cache few =
        let (c, s, ran, set, served) =
          generate_snapshot_idle lib cfg version nodes ready (visits i) i cache (idle i) in
        let (c', rest, kept, later) =
          generate_from_idle ready idle rounds (suc i) c (omega arith) in
        (
          c',
          generate_from_next rounds i cache c ran ∙ rest,
          λ j h. kept j (omega arith) ∙ set_kept i j cache c s set h (omega arith),
          λ j h h'. first_or_later c' served kept later j h h' (ltb i j) refl,
        )
      where
        first_or_later :
            {c : Cache} (c' : Cache)
            → IsServed lib cfg version (visits i).for_routes c (generate_node_id i)
            → ((j : ℕ)
                → j < suc i
                → get_snapshot c' (generate_node_id j) ≡ get_snapshot c (generate_node_id j))
            → ((j : ℕ)
                → suc i ≤ j
                → j < suc i + rounds
                → IsServed lib cfg version (visits j).for_routes c' (generate_node_id j))
            → (j : ℕ) → i ≤ j
            → j < i + suc rounds
            → (b : Bool) → ltb i j ≡ b
            → IsServed lib cfg version (visits j).for_routes c' (generate_node_id j)
        first_or_later c' served kept later j h h' true lt = later j (ground arith) (omega arith)
        first_or_later c' served kept later j h h' false lt =
            let same : i ≡ j = ground arith in
            subst (λ k. IsServed lib cfg version (visits k).for_routes c' (generate_node_id k)) same
              (kept-IsServed (kept i (omega arith)) served)

  -- Without a service, and with a library that does its part, generating snapshots succeeds: the
  -- version moves on, and the cache holds a snapshot of it for every node.
  pub generate_snapshots_idle :
      (visits : ℕ → Visits) (x : Server lib)
      → IsReady lib
      → IsIdle x.services
      → ((i : ℕ) → IsListing (visits i).for_clusters x.services)
      → length x.nodes ≤ max_int
      → (cache : Cache) × (generate_snapshots lib cfg visits x
          ≡ (record x { snapshot_version = next_version x.snapshot_version; cache = cache }, ok tt))
        × ((i : ℕ)
            → i < length x.nodes
            → IsServed lib cfg
                (next_version x.snapshot_version)
                (visits i).for_routes
                cache
                (generate_node_id i))
  generate_snapshots_idle visits x ready idle listing few =
      let (cache, ran, _, served) =
        generate_from_idle (next_version x.snapshot_version) x.nodes visits ready
          (λ j. first_busy-IsIdle (visits j).for_clusters x.services (listing j) idle)
          (length x.nodes) 0 x.cache (omega arith) in
      (
        cache,
        unfold generate_snapshots in ground arith,
        λ i h. served i (omega arith) (omega arith),
      )
