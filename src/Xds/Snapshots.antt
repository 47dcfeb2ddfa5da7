-- ===== src/Xds/Snapshots.antt =====
-- `generateSnapshots` of cmd/carisma-control-plane/app/xds/resource.go. The snapshots and their
-- cache are those of go-control-plane, behind the interface below; the debug log is left out.
pub mod Stall
pub mod Idle
pub mod Rounds
use car_integrated_service_m.Prelude.{
  ℕ, zero, suc, ◌+◌, ◌-◌, ◌^◌, ◌==◌, ℤ, pos, negsuc, Bytes, codes, text_eq, itoa, itoa_int, List,
  [], ◌∷◌, ◌++◌, Option, none, some, length, if◌then◌else◌, Outcome, ok, err, panic, ◌≡◌,
}
use car_integrated_service_m.Registry.Node.{NodeAddr}
use car_integrated_service_m.Registry.Service.{ServiceConfigSnapshot}
use car_integrated_service_m.Config.Settings.{Config}
use car_integrated_service_m.Xds.Clusters.{Cluster, XdsError, snapshot_failed, make_clusters}
use car_integrated_service_m.Xds.Routes.{RouteConfiguration, make_routes}
use car_integrated_service_m.Xds.Listeners.{HttpConnectionManager, Listener, make_http_listener}

-- `fmt.Sprintf("node-%v", id)`
unfoldable pub generate_node_id : ℕ → Bytes
generate_node_id id = codes "node-" ++ itoa id

-- What a snapshot is made of, by resource type.
pub record Resources (Any : Type 0) : Type 0 where
  pub clusters : List Cluster
  pub routes : List RouteConfiguration
  pub listeners : List (Listener Any)

-- What the program uses of go-control-plane: `none` is an error. A snapshot that was set for a node
-- is the one that the cache holds for it, until another is set.
pub record SnapshotLibrary (Any : Type 0) : Type 1 where
  pub pack : HttpConnectionManager → Option Any
  pub Snapshot : Type 0
  pub Cache : Type 0
  pub new_snapshot : Bytes → Resources Any → Option Snapshot
  pub set_snapshot : Cache → Bytes → Snapshot → Option Cache
  pub get_snapshot : Cache → Bytes → Option Snapshot
  pub get-set :
      (c c' : Cache) (n m : Bytes) (s : Snapshot)
      → set_snapshot c n s ≡ some c'
      → get_snapshot c' m ≡ (if text_eq n m then some s else get_snapshot c m)

-- What the loops of one round see of the services: for the clusters, and for the routes.
pub record Visits : Type 0 where
  pub for_clusters : ServiceConfigSnapshot
  pub for_routes : ServiceConfigSnapshot

-- `x.snapshotVersion++`
abbrev pub next_version : ℤ → ℤ
next_version (pos n) = if n == 2 ^ 63 - 1 then negsuc (2 ^ 63 - 1) else pos (n + 1)
next_version (negsuc zero) = pos 0
next_version (negsuc (suc n)) = negsuc n

-- `fmt.Sprintf("%v.0", x.snapshotVersion)`
unfoldable pub version_text : ℤ → Bytes
version_text v = itoa_int v ++ codes ".0"

module _ {Any : Type 0} (lib : SnapshotLibrary Any) where
  open lib use {pack, Snapshot, Cache, new_snapshot, set_snapshot}

  pub record Server : Type 0 where
    pub snapshot_version : ℤ
    pub cache : Cache
    pub nodes : List NodeAddr
    pub services : ServiceConfigSnapshot

  -- A failure to set the snapshot is logged at the level that panics.
  unfoldable pub store_snapshot :
      Cache → Bytes → Option Snapshot → Cache × Outcome XdsError (Unit {0})
  store_snapshot cache node_id none = (cache, err snapshot_failed)
  store_snapshot cache node_id (some s) = elim (set_snapshot cache node_id s) [
    | none ↦ (cache, panic)
    | some cache' ↦ (cache', ok tt)
  ]

  -- The body of the loop, for one node: the cache after it, and whether it goes on.
  unfoldable pub generate_snapshot :
      Config → ℤ → List NodeAddr → Visits → ℕ → Cache → Cache × Outcome XdsError (Unit {0})
  unfolding store_snapshot
  generate_snapshot cfg version nodes visits i cache =
      let node_id = generate_node_id i in
      elim (make_http_listener pack cfg) [
        | err e ↦ (cache, err e)
        | panic ↦ (cache, panic)
        | ok listeners ↦ elim (make_clusters nodes visits.for_clusters node_id cfg.ingress_port) [
          | err e ↦ (cache, err e)
          | panic ↦ (cache, panic)
          | ok clusters ↦ store_snapshot cache node_id (
              new_snapshot (version_text version) (record {
                clusters = clusters;
                routes = make_routes visits.for_routes node_id;
                listeners = listeners;
              }))
        ]
      ]

  -- The rounds that are left, from node `i` on.
  unfoldable pub generate_from :
      Config
      → ℤ
      → List NodeAddr
      → (ℕ → Visits)
      → ℕ
      → ℕ
      → Cache
      → Cache × Outcome XdsError (Unit {0})
  generate_from cfg version nodes visits zero i cache = (cache, ok tt)
  generate_from cfg version nodes visits (suc rounds) i cache =
      let (cache', r) = generate_snapshot cfg version nodes (visits i) i cache in
      elim r [
        | ok _ ↦ generate_from cfg version nodes visits rounds (suc i) cache'
        | err e ↦ (cache', err e)
        | panic ↦ (cache', panic)
      ]

  -- `visits` gives what the loops over the services see in the round of each node.
  unfoldable pub generate_snapshots :
      Config → (ℕ → Visits) → Server → Server × Outcome XdsError (Unit {0})
  generate_snapshots cfg visits x =
      let version = next_version x.snapshot_version in
      let (cache, r) = generate_from cfg version x.nodes visits (length x.nodes) 0 x.cache in
      (record x { snapshot_version = version; cache = cache }, r)
