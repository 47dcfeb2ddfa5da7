-- ===== src/Container/Debug/Statuses.antt =====
-- The statuses of the emulated containers, and what the orchestrator does with them.
use car_integrated_service_m.Prelude.{
  Bytes, text_eq_iff, [], ◌∷◌, Option, none, some, Assoc, lookup, lookup-insert, lookup-erase,
  IsUnique, IsListing, All, ◌≡◌, ◌∙◌, ◌⊎◌, inl, inr, refl, sym, arith,
}
use car_integrated_service_m.Container.Manager.{PortMap}
use car_integrated_service_m.Container.Debug.{
  VirtualContainer, DebugContainerManager, virtual_container, set_status, status_running,
  status_exited, pull_image_and_create_container, remove_image_and_container, find_image,
  containers_of, new_debug_container_manager,
}

-- Every container is running or exited.
abbrev pub IsEmulated : DebugContainerManager → Type 0
IsEmulated d =
    (k : Bytes) (vc : VirtualContainer)
    → lookup k d.container ≡ some vc
    → (vc.container.status ≡ status_running) ⊎ (vc.container.status ≡ status_exited)

-- One call of the manager that can change its state.
pub data Step : DebugContainerManager → DebugContainerManager → Type 0 where
  started : {d : DebugContainerManager} (id : Bytes) → Step d (set_status status_running d id).0
  stopped : {d : DebugContainerManager} (id : Bytes) → Step d (set_status status_exited d id).0
  pulled :
      {d : DebugContainerManager} (id name : Bytes) (port_bindings : PortMap)
      → Step d (pull_image_and_create_container d id name port_bindings).0
  removed :
      {d : DebugContainerManager} (visit : Assoc VirtualContainer) (name : Bytes)
      → Step d (remove_image_and_container d visit name).0

set_status-IsEmulated :
    (status : Bytes) (d : DebugContainerManager) (id : Bytes)
    → (status ≡ status_running) ⊎ (status ≡ status_exited)
    → IsEmulated d
    → IsEmulated (set_status status d id).0
unfolding set_status
set_status-IsEmulated status d id s h k vc = by_entry (lookup id d.container) refl
  where
    by_entry :
        (r : Option VirtualContainer)
        → lookup id d.container ≡ r
        → lookup k (set_status status d id).0.container ≡ some vc
        → (vc.container.status ≡ status_running) ⊎ (vc.container.status ≡ status_exited)
    by_entry none e l = ground (arith, e, h k vc)
    by_entry (some old) e l =
        let new : VirtualContainer = record old {
          container = record old.container { status = status };
        } in
        ground (arith, e, h k vc, lookup-insert id k new d.container)

pull-IsEmulated :
    (d : DebugContainerManager) (id name : Bytes) (port_bindings : PortMap)
    → IsEmulated d
    → IsEmulated (pull_image_and_create_container d id name port_bindings).0
unfolding pull_image_and_create_container
pull-IsEmulated d id name port_bindings h k vc l =
    let new = virtual_container d id name port_bindings in
    ground (arith, h k vc, lookup-insert id k new d.container)

remove-IsEmulated :
    (d : DebugContainerManager) (visit : Assoc VirtualContainer) (name : Bytes)
    → IsEmulated d
    → IsEmulated (remove_image_and_container d visit name).0
unfolding remove_image_and_container
remove-IsEmulated d visit name h k vc = by_found (find_image name visit) refl
  where
    by_found :
        (r : Option (Bytes × VirtualContainer))
        → find_image name visit ≡ r
        → lookup k (remove_image_and_container d visit name).0.container ≡ some vc
        → (vc.container.status ≡ status_running) ⊎ (vc.container.status ≡ status_exited)
    by_found none e l = ground (arith, e, h k vc)
    by_found (some (id, found)) e l = ground (arith, e, h k vc, lookup-erase id k d.container)

-- Every call keeps the containers running or exited.
pub Step-IsEmulated : (d e : DebugContainerManager) → Step d e → IsEmulated d → IsEmulated e
Step-IsEmulated _ _ (started id) h = set_status-IsEmulated status_running _ id (inl refl) h
Step-IsEmulated _ _ (stopped id) h = set_status-IsEmulated status_exited _ id (inr refl) h
Step-IsEmulated _ _ (pulled id name port_bindings) h = pull-IsEmulated _ id name port_bindings h
Step-IsEmulated _ _ (removed visit name) h = remove-IsEmulated _ visit name h

-- What holds of every entry that can be looked up holds of what a visit lists.
listed-All :
    (visit : Assoc VirtualContainer)
    → IsUnique visit
    → ((k : Bytes) (vc : VirtualContainer)
        → lookup k visit ≡ some vc
        → (vc.container.status ≡ status_running) ⊎ (vc.container.status ≡ status_exited))
    → All (λ c. (c.status ≡ status_running) ⊎ (c.status ≡ status_exited)) (containers_of visit)
unfolding containers_of lookup
listed-All [] u h = tt
listed-All ((i, v) ∷ visit) u h = (
  h i v (ground (arith, text_eq_iff i i)),
  listed-All visit u.1 (λ k vc l. h k vc (ground (arith, text_eq_iff i k, u.0, l))),
)

-- The states that a sequence of calls reaches.
pub data Reach : DebugContainerManager → DebugContainerManager → Type 0 where
  stay : {d : DebugContainerManager} → Reach d d
  followed : {d e f : DebugContainerManager} → Reach d e → Step e f → Reach d f

Reach-IsEmulated : (d e : DebugContainerManager) → Reach d e → IsEmulated d → IsEmulated e
Reach-IsEmulated d _ stay h = h
Reach-IsEmulated d _ (followed {e = e} r s) h = Step-IsEmulated e _ s (Reach-IsEmulated d e r h)

-- Whatever is called, the containers that a visit lists are running or exited.
pub listed_statuses :
    (d : DebugContainerManager) (visit : Assoc VirtualContainer)
    → Reach new_debug_container_manager d
    → IsListing visit d.container
    → All (λ c. (c.status ≡ status_running) ⊎ (c.status ≡ status_exited)) (containers_of visit)
unfolding new_debug_container_manager lookup
listed_statuses d visit r listing =
    listed-All visit listing.unique (λ k vc l. emulated k vc (sym (listing.same k) ∙ l))
  where
    emulated : IsEmulated d
    emulated = Reach-IsEmulated new_debug_container_manager d r (λ k vc l. absurd cc)
