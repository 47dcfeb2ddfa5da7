-- ===== src/Tests/Admissions.antt =====
-- The control plane at concrete inputs when nodes register.
use car_integrated_service_m.Prelude.{
  ◌<◌, ◌≤◌, ℕ, List, pos, codes, ◌≡◌, refl, [], ◌∷◌, arith, ok, true, insert, lookup, IsListing,
  IsListing-refl,
}
use car_integrated_service_m.Registry.Node.{
  new_node_registry, format_node_id, NodeRegistry, RegisterRequest, register,
}
use car_integrated_service_m.Registry.Service.{ServiceConfigSnapshot}
use car_integrated_service_m.Xds.Snapshots.{Visits, Server, generate_node_id, generate_snapshots}
use car_integrated_service_m.Xds.Snapshots.Idle.{IsReady, IsServed, IsIdle}
use car_integrated_service_m.Xds.Snapshots.Rounds.{generate_snapshots_idle}
use car_integrated_service_m.Xds.Server.{ControlPlane, running, receive_node}
use car_integrated_service_m.Xds.Server.Admission.{
  receive_node-register, admit_all, HasSnapshots, admit_all_lem,
}
use car_integrated_service_m.Tests.Proxies.{memory_library, nodes, settings}

memory_library-IsReady : IsReady memory_library
memory_library-IsReady = record {
  packs = λ m. (m, refl);
  makes = λ v r. (r, refl);
  sets = λ c n s. (insert n s c, refl);
}

-- A bundle was stopped on the first node: an entry without bundles is left.
abbrev left_over : ServiceConfigSnapshot
left_over = (codes "node-0", []) ∷ []

abbrev left_over_visits : ℕ → Visits
left_over_visits i = record { for_clusters = left_over; for_routes = left_over }

left_over-IsIdle : IsIdle left_over
unfolding lookup
left_over-IsIdle n = ground arith

left_over-IsListing : IsListing left_over left_over
unfolding lookup
left_over-IsListing = IsListing-refl (refl, tt)

abbrev one_node : Server memory_library
one_node = record { snapshot_version = pos 0; cache = []; nodes = nodes; services = left_over }

generate_snapshots_idle_test :
    (cache : memory_library.Cache) × (generate_snapshots memory_library settings left_over_visits
        one_node
      ≡ (record one_node { snapshot_version = pos 1; cache = cache }, ok tt))
    × ((i : ℕ)
        → i < 1
        → IsServed memory_library settings (pos 1) left_over cache (generate_node_id i))
generate_snapshots_idle_test =
    generate_snapshots_idle memory_library settings left_over_visits one_node memory_library-IsReady
      left_over-IsIdle (λ i. left_over-IsListing) (omega arith)

abbrev registry : NodeRegistry
registry = record { nodes = nodes }

abbrev newcomer : RegisterRequest
newcomer = record { address = codes "hpc-1"; port = pos 8000 }

abbrev one_node_plane : ControlPlane memory_library
one_node_plane = record { server = one_node; nodes_loop = running; services_loop = running }

receive_node-register_test :
    let reg = register registry newcomer in
    let (q, received) =
      receive_node memory_library settings left_over_visits reg.new_node one_node_plane in
    (received ≡ true)
    × (q.nodes_loop ≡ running)
    × (q.server.nodes ≡ reg.registry.nodes)
    × (q.server.services ≡ left_over)
    × (reg.id ≡ format_node_id 1)
    × ((i : ℕ)
        → i ≤ 1
        → IsServed memory_library settings (pos 1) left_over q.server.cache (format_node_id i))
receive_node-register_test =
    receive_node-register memory_library settings left_over_visits registry newcomer one_node_plane
      memory_library-IsReady refl refl (omega arith) left_over-IsIdle (λ i. left_over-IsListing)

-- Two nodes register with a control plane that has none.
abbrev newcomers : List (RegisterRequest × (ℕ → Visits))
newcomers = (newcomer, left_over_visits) ∷ (newcomer, left_over_visits) ∷ []

abbrev empty_plane : ControlPlane memory_library
empty_plane = record one_node_plane { server = record one_node { nodes = [] } }

admit_all_lem_example :
    let (s, p) = admit_all memory_library settings newcomers new_node_registry empty_plane in
    (p.nodes_loop ≡ running) × (p.server.nodes ≡ s.nodes) × HasSnapshots memory_library settings s p
admit_all_lem_example =
    admit_all_lem memory_library settings newcomers new_node_registry empty_plane
      memory_library-IsReady refl refl (omega arith) left_over-IsIdle
      ((λ i. left_over-IsListing), ((λ i. left_over-IsListing), tt)) (λ i h. absurd (omega arith))
