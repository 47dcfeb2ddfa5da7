-- ===== src/Xds/Snapshots/Idle.antt =====
-- Snapshots of a mesh without services, with a library that does its part.
use car_integrated_service_m.Prelude.{
  ◌<◌, ◌≤◌, ℕ, ℤ, Bytes, text_eq, text_eq_refl, text_eq_iff, ◌≡◌, ◌∙◌, refl, ap, List, [], ◌∷◌,
  none, some, Outcome, ok, arith, false, IsListing, IsUnique, lookup, max_int, if◌then◌else◌, err,
  panic,
}
use car_integrated_service_m.Config.Settings.{Config}
use car_integrated_service_m.Registry.Node.{NodeAddr, format_node_id, get_node_idx}
use car_integrated_service_m.Registry.Node.Ids.{get_node_idx-format_node_id}
use car_integrated_service_m.Registry.Service.{ServiceConfigSnapshot, service_config}
use car_integrated_service_m.Xds.Clusters.{XdsError}
use car_integrated_service_m.Xds.Clusters.Endpoints.{first_busy, make_clusters_lem}
use car_integrated_service_m.Xds.Routes.{make_routes}
use car_integrated_service_m.Xds.Listeners.{
  HttpConnectionManager, Listener, make_http_listener, ingress_manager, egress_manager,
}
use car_integrated_service_m.Xds.Snapshots.{
  SnapshotLibrary, Resources, Visits, version_text, generate_node_id, store_snapshot,
  generate_snapshot,
}

-- No bundle stands under any node.
abbrev pub IsIdle : ServiceConfigSnapshot → Type 0
IsIdle services = (n : Bytes) → service_config services n ≡ []

unvisited :
    (visit : ServiceConfigSnapshot)
    → IsUnique visit
    → ((n : Bytes) → service_config visit n ≡ [])
    → first_busy visit ≡ none
unfolding first_busy lookup
unvisited [] u idle = refl
unvisited ((n, []) ∷ rest) u idle =
    unvisited rest u.1 (λ m. let h = idle m in ground (arith, text_eq_iff n m))
unvisited ((n, b ∷ bs) ∷ rest) u idle = let h = idle n in absurd (ground (arith, text_eq_refl n))

-- A visit of an idle mesh meets no bundle.
pub first_busy-IsIdle :
    (visit services : ServiceConfigSnapshot)
    → IsListing visit services
    → IsIdle services
    → first_busy visit ≡ none
first_busy-IsIdle visit services l idle =
    unvisited visit l.unique (λ n. let h = idle n in let e = l.same n in ground arith)

-- The names of snapshots differ for two nodes.
generate_node_id_inj :
    (i j : ℕ) → i ≤ max_int → j ≤ max_int → generate_node_id i ≡ generate_node_id j → i ≡ j
generate_node_id_inj i j hi hj e =
    let a = get_node_idx-format_node_id i hi in
    let b = get_node_idx-format_node_id j hj in
    let same : format_node_id i ≡ format_node_id j =
      unfold generate_node_id in unfold format_node_id in e in
    let read : get_node_idx (format_node_id i) ≡ get_node_idx (format_node_id j) =
      ap get_node_idx same in
    cc

-- So the cache keeps the snapshot of a node when that of a later one is set.
pub other_node :
    (i j : ℕ) → i < j → j ≤ max_int → text_eq (generate_node_id j) (generate_node_id i) ≡ false
other_node i j lt h = ground (
  arith,
  text_eq_iff (generate_node_id j) (generate_node_id i),
  generate_node_id_inj j i h (omega arith),
)

-- The library packs every message, makes every snapshot, and sets it.
pub record IsReady {Any : Type 0} (lib : SnapshotLibrary Any) : Type 0 where
  pub packs : (m : HttpConnectionManager) → (a : Any) × (lib.pack m ≡ some a)
  pub makes : (v : Bytes) (r : Resources Any) → (s : lib.Snapshot) × (lib.new_snapshot v r ≡ some s)
  pub sets :
      (c : lib.Cache) (n : Bytes) (s : lib.Snapshot)
      → (c' : lib.Cache) × (lib.set_snapshot c n s ≡ some c')

module _ {Any : Type 0} (lib : SnapshotLibrary Any) (cfg : Config) where
  open lib use {pack, Snapshot, Cache, new_snapshot, set_snapshot, get_snapshot, get-set}

  -- The cache holds, for a node, the snapshot of this version with the listeners, the routes of a
  -- visit, and no cluster.
  pub record IsServed (version : ℤ) (visit : ServiceConfigSnapshot) (cache : Cache)
      (node_id : Bytes) : Type 0 where
    pub listeners : List (Listener Any)
    pub snapshot : Snapshot
    pub made : make_http_listener pack cfg ≡ ok listeners
    pub packed :
        new_snapshot
          (version_text version)
          (record { clusters = []; routes = make_routes visit node_id; listeners = listeners })
        ≡ some snapshot
    pub stored : get_snapshot cache node_id ≡ some snapshot

  make_http_listener_ready :
      IsReady lib → (ls : List (Listener Any)) × (make_http_listener pack cfg ≡ ok ls)
  make_http_listener_ready ready = by_result (make_http_listener pack cfg) refl
    where
      by_result :
          (o : Outcome XdsError (List (Listener Any)))
          → make_http_listener pack cfg ≡ o
          → (ls : List (Listener Any)) × (make_http_listener pack cfg ≡ ok ls)
      by_result (ok ls) made = (ls, made)
      by_result (err e) made =
          let i = ready.packs (ingress_manager) in
          let e = ready.packs (egress_manager) in absurd (unfold make_http_listener in ground arith)
      by_result panic made =
          let i = ready.packs (ingress_manager) in
          let e = ready.packs (egress_manager) in absurd (unfold make_http_listener in ground arith)

  module _ (version : ℤ) (nodes : List NodeAddr) where
    generate_snapshot_stores :
        (visits : Visits) (i : ℕ) (c c' : Cache) (s : Snapshot) (ls : List (Listener Any))
        → first_busy visits.for_clusters ≡ none
        → make_http_listener pack cfg ≡ ok ls
        → new_snapshot (version_text version) (record {
          clusters = [];
          routes = make_routes visits.for_routes (generate_node_id i);
          listeners = ls;
        })
          ≡ some s
        → set_snapshot c (generate_node_id i) s ≡ some c'
        → generate_snapshot lib cfg version nodes visits i c ≡ (c', ok tt)
    unfolding generate_snapshot store_snapshot
    generate_snapshot_stores visits i c c' s ls idle made packed set =
        ground
          (arith, make_clusters_lem nodes (generate_node_id i) cfg.ingress_port visits.for_clusters)

    module _ (ready : IsReady lib) where
      pub generate_snapshot_idle :
          (visits : Visits) (i : ℕ) (cache : Cache)
          → first_busy visits.for_clusters ≡ none
          → (cache' : Cache) × (snapshot : Snapshot) × (generate_snapshot lib cfg version nodes
                visits i cache
              ≡ (cache', ok tt))
            × (set_snapshot cache (generate_node_id i) snapshot ≡ some cache')
            × IsServed version visits.for_routes cache' (generate_node_id i)
      generate_snapshot_idle visits i cache idle =
          let (ls, made) = make_http_listener_ready ready in
          let (s, packed) = ready.makes (version_text version) (record {
            clusters = [];
            routes = make_routes visits.for_routes (generate_node_id i);
            listeners = ls;
          }) in
          let (cache', set) = ready.sets cache (generate_node_id i) s in
          (
            cache',
            s,
            generate_snapshot_stores visits i cache cache' s ls idle made packed set,
            set,
            record {
              listeners = ls;
              snapshot = s;
              made = made;
              packed = packed;
              stored =
                  get-set cache cache' _ _ s set
                  ∙ ap (λ b. if b then some s else get_snapshot cache (generate_node_id i))
                      (text_eq_refl (generate_node_id i));
            },
          )
