-- ===== src/Xds/Snapshots/Stall.antt =====
-- Snapshots of a mesh with a service.
use car_integrated_service_m.Prelude.{
  ◌<◌, ℕ, zero, suc, ℤ, Bytes, ◌≡◌, ◌≢◌, refl, List, [], ◌∷◌, Option, none, some, Outcome, ok, err,
  panic, arith, true, IsListing, length,
}
use car_integrated_service_m.Config.Settings.{Config}
use car_integrated_service_m.Registry.Node.{NodeAddr}
use car_integrated_service_m.Registry.Service.Snapshots.{has}
use car_integrated_service_m.Xds.Clusters.{XdsError}
use car_integrated_service_m.Xds.Clusters.Endpoints.{
  first_busy, first_busy-has, make_clusters_lem, endpoints_error,
}
use car_integrated_service_m.Xds.Listeners.{Listener, make_http_listener}
use car_integrated_service_m.Xds.Snapshots.{
  SnapshotLibrary, Visits, Server, next_version, generate_node_id, generate_snapshot, generate_from,
  generate_snapshots,
}

length_pos : (nodes : List NodeAddr) → nodes ≢ [] → 0 < length nodes
length_pos [] ne = absurd (ne refl)
length_pos (a ∷ nodes) ne = omega arith

module _ {Any : Type 0} (lib : SnapshotLibrary Any) (cfg : Config) where
  open lib use {pack, Cache}

  -- The listeners do not panic.
  make_http_listener_no_panic : make_http_listener pack cfg ≢ panic
  unfolding make_http_listener
  make_http_listener_no_panic = ground arith

  -- The round of a node in a mesh with a bundle ends in an error and leaves the cache alone.
  generate_snapshot_busy :
      (version : ℤ) (nodes : List NodeAddr) (visits : Visits) (i : ℕ) (cache : Cache) (n : Bytes)
      → first_busy visits.for_clusters ≡ some n
      → (e : XdsError) × (generate_snapshot lib cfg version nodes visits i cache ≡ (cache, err e))
  generate_snapshot_busy version nodes visits i cache n busy =
      by_listener (make_http_listener pack cfg) refl
    where
      by_listener :
          (o : Outcome XdsError (List (Listener Any)))
          → make_http_listener pack cfg ≡ o
          → (e : XdsError) × (generate_snapshot lib cfg version nodes visits i cache
              ≡ (cache, err e))
      by_listener (err e) l = (e, unfold generate_snapshot in ground arith)
      by_listener panic l = absurd (make_http_listener_no_panic l)
      by_listener (ok ls) l = (
        endpoints_error n,
        unfold generate_snapshot in
            ground (
              arith,
              make_clusters_lem nodes (generate_node_id i) cfg.ingress_port visits.for_clusters,
            ),
      )

  -- Nor does the loop get past its first round.
  generate_from_busy :
      (version : ℤ) (nodes : List NodeAddr) (visits : ℕ → Visits) (rounds : ℕ) (cache : Cache)
      (n : Bytes)
      → 0 < rounds
      → first_busy (visits 0).for_clusters ≡ some n
      → (e : XdsError) × (generate_from lib cfg version nodes visits rounds 0 cache
          ≡ (cache, err e))
  generate_from_busy version nodes visits zero cache n some_round busy = absurd (omega arith)
  generate_from_busy version nodes visits (suc rounds) cache n some_round busy =
      let (e, stopped) = generate_snapshot_busy version nodes (visits 0) 0 cache n busy in
      (e, unfold generate_from in ground arith)

  -- With a node and any registered port, generating snapshots ends in an error. No node gets a
  -- snapshot: the cache is as it was, and only the version has moved on.
  pub generate_snapshots_busy :
      (visits : ℕ → Visits) (x : Server lib) (n b : Bytes) (p : ℤ)
      → x.nodes ≢ []
      → IsListing (visits 0).for_clusters x.services
      → has x.services n b p ≡ true
      → (e : XdsError) × (generate_snapshots lib cfg visits x
          ≡ (record x { snapshot_version = next_version x.snapshot_version }, err e))
  generate_snapshots_busy visits x n b p some_node listing registered =
      by_first (first_busy (visits 0).for_clusters) refl
    where
      by_first :
          (o : Option Bytes)
          → first_busy (visits 0).for_clusters ≡ o
          → (e : XdsError) × (generate_snapshots lib cfg visits x
              ≡ (record x { snapshot_version = next_version x.snapshot_version }, err e))
      by_first none idle = absurd (first_busy-has n b p listing registered idle)
      by_first (some m) busy =
          let (e, stopped) =
            generate_from_busy (next_version x.snapshot_version) x.nodes visits (length x.nodes)
              x.cache m (length_pos x.nodes some_node) busy in
          (e, unfold generate_snapshots in ground arith)
