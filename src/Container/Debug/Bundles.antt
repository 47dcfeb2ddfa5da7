-- ===== src/Container/Debug/Bundles.antt =====
-- The bundle IDs and the service ports of the emulated containers.
use car_integrated_service_m.Prelude.{
  ◌+◌, ◌-◌, ◌%◌, ◌^◌, to_int32, Bytes, text_eq, text_eq_iff, [], ◌∷◌, Option, none, some, Assoc,
  lookup, insert, lookup-insert, lookup-erase, IsUnique, IsListing, false, ◌≡◌, ◌∙◌, refl, sym, ap,
  arith,
}
use car_integrated_service_m.Container.Manager.{PortMap}
use car_integrated_service_m.Container.Debug.{
  VirtualContainer, DebugContainerManager, new_debug_container_manager, virtual_container,
  pull_image_and_create_container, remove_image_and_container, find_image, service_port_base,
}
use car_integrated_service_m.Container.Debug.{set_status, status_running, status_exited}
use car_integrated_service_m.Container.Debug.Statuses.{
  Step, started, stopped, pulled, removed, Reach, stay, followed,
}

-- The counters run in step.
abbrev pub IsInStep : DebugContainerManager → Type 0
IsInStep d = d.next_service_port ≡ (service_port_base - 1 + d.next_app_idx) % 2 ^ 32

find_image-listed :
    (name id : Bytes) (vc : VirtualContainer) (visit : Assoc VirtualContainer)
    → IsUnique visit
    → find_image name visit ≡ some (id, vc)
    → (lookup id visit ≡ some vc) × (vc.container.image ≡ name)
unfolding find_image lookup
find_image-listed name id vc [] u e = cc
find_image-listed name id vc ((i, v) ∷ visit) u e = ground (
  arith,
  find_image-listed name id vc visit u.1,
  text_eq_iff v.container.image name,
  text_eq_iff i id,
)

find_image-none :
    (name id : Bytes) (vc : VirtualContainer) (visit : Assoc VirtualContainer)
    → find_image name visit ≡ none
    → lookup id visit ≡ some vc
    → text_eq vc.container.image name ≡ false
unfolding find_image lookup
find_image-none name id vc [] e l = cc
find_image-none name id vc ((i, v) ∷ visit) e l = ground (arith, find_image-none name id vc visit)

-- The counters stay in step, whatever the operation.
pub pull-IsInStep :
    (d : DebugContainerManager) (id name : Bytes) (port_bindings : PortMap)
    → IsInStep d
    → IsInStep (pull_image_and_create_container d id name port_bindings).0
unfolding pull_image_and_create_container
pull-IsInStep d id name port_bindings h = omega (arith, h)

set_status-IsInStep :
    (status : Bytes) (d : DebugContainerManager) (id : Bytes)
    → IsInStep d
    → IsInStep (set_status status d id).0
unfolding set_status
set_status-IsInStep status d id h = by_entry (lookup id d.container) refl
  where
    by_entry :
        (r : Option VirtualContainer)
        → lookup id d.container ≡ r
        → IsInStep (set_status status d id).0
    by_entry none e = rw (set_status, e) h
    by_entry (some old) e = rw (set_status, e) h

remove-IsInStep :
    (d : DebugContainerManager) (visit : Assoc VirtualContainer) (name : Bytes)
    → IsInStep d
    → IsInStep (remove_image_and_container d visit name).0
unfolding remove_image_and_container
remove-IsInStep d visit name h = by_found (find_image name visit) refl
  where
    by_found :
        (r : Option (Bytes × VirtualContainer))
        → find_image name visit ≡ r
        → IsInStep (remove_image_and_container d visit name).0
    by_found none e = rw (remove_image_and_container, e) h
    by_found (some found) e = rw (remove_image_and_container, e) h

Step-IsInStep : (d e : DebugContainerManager) → Step d e → IsInStep d → IsInStep e
Step-IsInStep d _ (started id) h = set_status-IsInStep status_running d id h
Step-IsInStep d _ (stopped id) h = set_status-IsInStep status_exited d id h
Step-IsInStep d _ (pulled id name port_bindings) h = pull-IsInStep d id name port_bindings h
Step-IsInStep d _ (removed visit name) h = remove-IsInStep d visit name h

Reach-IsInStep : (d : DebugContainerManager) → Reach new_debug_container_manager d → IsInStep d
unfolding new_debug_container_manager
Reach-IsInStep _ stay = refl
Reach-IsInStep e (followed {e = d} r s) = Step-IsInStep d e s (Reach-IsInStep d r)

-- No container has the image.
abbrev pub IsNewImage : Bytes → DebugContainerManager → Type 0
IsNewImage name d =
    (k : Bytes) (vc : VirtualContainer)
    → lookup k d.container ≡ some vc
    → text_eq vc.container.image name ≡ false

module _ (d : DebugContainerManager) (id name : Bytes) (port_bindings : PortMap)
    (visit : Assoc VirtualContainer)
    (listing : IsListing visit
      (pull_image_and_create_container d id name port_bindings).0.container)
    (fresh : lookup id d.container ≡ none) (other : IsNewImage name d)
    (reached : Reach new_debug_container_manager d) where
  -- What the visit finds is the container that was pulled.
  find_image-pulled : find_image name visit ≡ some (id, virtual_container d id name port_bindings)
  unfolding pull_image_and_create_container
  find_image-pulled = by_found (find_image name visit) refl
    where
      new : VirtualContainer
      new = virtual_container d id name port_bindings

      by_found :
          (r : Option (Bytes × VirtualContainer))
          → find_image name visit ≡ r
          → find_image name visit ≡ some (id, virtual_container d id name port_bindings)
      by_found none e =
          let l : lookup id visit ≡ some (virtual_container d id name port_bindings) =
            listing.same id
            ∙ lookup-insert id id (virtual_container d id name port_bindings) d.container
            ∙ ground (arith, text_eq_iff id id) in
          ground (
            arith,
            find_image-none name id (virtual_container d id name port_bindings) visit e l,
            text_eq_iff name name,
          )
      by_found (some (k, vc)) e =
          let (l, i) = find_image-listed name k vc visit listing.unique e in
          ground (
            arith,
            e,
            listing.same k,
            lookup-insert id k (virtual_container d id name port_bindings) d.container,
            other k vc,
            text_eq_iff id k,
            text_eq_iff vc.container.image name,
          )

  -- In whatever state calls have left the emulation: if the random ID is new and no container has
  -- the image, pulling the image and then removing it, in any order of visit, returns the same
  -- bundle ID and service port twice, and leaves the containers as they were before.
  pub pull-remove :
      let (after, bundle_id, service_port) =
        pull_image_and_create_container d id name port_bindings in
      let (left, bundle_id', service_port') = remove_image_and_container after visit name in
      (bundle_id' ≡ bundle_id)
      × (service_port' ≡ service_port)
      × ((k : Bytes) → lookup k left.container ≡ lookup k d.container)
  unfolding remove_image_and_container pull_image_and_create_container
  pull-remove =
      let new = virtual_container d id name port_bindings in
      rw (remove_image_and_container, find_image-pulled)
        (
          refl,
          ap to_int32 (sym (Reach-IsInStep d reached)),
          λ k.
              lookup-erase id k (insert id new d.container)
              ∙ ground (arith, lookup-insert id k new d.container, text_eq_iff id k, fresh),
        )
