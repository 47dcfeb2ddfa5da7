-- ===== src/Xds/Server/Stall.antt =====
-- The control plane once a service is announced.
use car_integrated_service_m.Prelude.{ℕ, ℤ, Bytes, ◌≡◌, ◌≢◌, [], arith, true, false, IsListing}
use car_integrated_service_m.Config.Settings.{Config}
use car_integrated_service_m.Registry.Service.{ServiceConfigSnapshot}
use car_integrated_service_m.Registry.Service.Snapshots.{has}
use car_integrated_service_m.Xds.Snapshots.{SnapshotLibrary, Visits, Server}
use car_integrated_service_m.Xds.Snapshots.Stall.{generate_snapshots_busy}
use car_integrated_service_m.Xds.Server.{
  running, returned, ControlPlane, receive_services, receive, Message, new_node, new_services,
  Reach, here, next,
}

module _ {Any : Type 0} (lib : SnapshotLibrary Any) (cfg : Config) where
  -- A message with which a services goroutine ends: it returns, and no snapshot is set.
  pub receive_services_busy :
      (visits : ℕ → Visits) (s : ServiceConfigSnapshot) (p : ControlPlane lib) (n b : Bytes)
      (port : ℤ)
      → p.services_loop ≡ running
      → p.server.nodes ≢ []
      → IsListing (visits 0).for_clusters s
      → has s n b port ≡ true
      → ((receive_services lib cfg visits s p).1 ≡ true)
        × ((receive_services lib cfg visits s p).0.services_loop ≡ returned)
        × ((receive_services lib cfg visits s p).0.server.cache ≡ p.server.cache)
  receive_services_busy visits s p n b port waits some_node listing registered =
      let x : Server lib = record p.server { services = s } in
      let (e, stopped) =
        generate_snapshots_busy lib cfg visits x n b port some_node listing registered in
      unfold receive_services in ground arith

  -- A goroutine that has returned stays so.
  receive_returned :
      (visits : ℕ → Visits) (m : Message) (p : ControlPlane lib)
      → p.services_loop ≡ returned
      → (receive lib cfg visits m p).0.services_loop ≡ returned
  receive_returned visits (new_node a) p h = unfold receive in ground arith
  receive_returned visits (new_services s) p h = unfold receive in ground arith

  Reach-returned :
      {p q : ControlPlane lib}
      → Reach lib cfg p q
      → p.services_loop ≡ returned
      → q.services_loop ≡ returned
  Reach-returned here h = h
  Reach-returned (next {q} visits m r) h = receive_returned visits m q (Reach-returned r h)

  -- Once the services are received with some registered port while there is a node, no services are
  -- received ever again, whatever messages arrive in between: a registry that sends them waits for
  -- good. The message itself has set no snapshot.
  pub services_stall :
      (visits : ℕ → Visits) (s : ServiceConfigSnapshot) (p q : ControlPlane lib) (n b : Bytes)
      (port : ℤ) (later : ℕ → Visits) (t : ServiceConfigSnapshot)
      → p.services_loop ≡ running
      → p.server.nodes ≢ []
      → IsListing (visits 0).for_clusters s
      → has s n b port ≡ true
      → Reach lib cfg (receive lib cfg visits (new_services s) p).0 q
      → ((receive lib cfg visits (new_services s) p).0.server.cache ≡ p.server.cache)
        × (receive lib cfg later (new_services t) q ≡ (q, false))
  services_stall visits s p q n b port later t waits some_node listing registered run =
      let (_, ended, kept) =
        receive_services_busy visits s p n b port waits some_node listing registered in
      let still : q.services_loop ≡ returned = Reach-returned run (unfold receive in ended) in
      unfold receive in (kept, unfold receive_services in ground arith)
