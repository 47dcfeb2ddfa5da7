-- ===== src/Registry/Service/Removals.antt =====
-- What `unregister_service` does to the set of registered services.
use car_integrated_service_m.Prelude.{
  ℤ, Bytes, Assoc, lookup, insert, erase, lookup-insert, text_eq, text_eq_iff, text_eq_refl, List,
  [], ◌∷◌, Option, none, some, if◌then◌else◌, ok, false, ◌&&◌, ◌≡◌, ◌≢◌, refl, arith, ℕ,
}
use car_integrated_service_m.Registry.Service.Ports.{
  index, delete, IsAscending, delete-IsAscending, contains-delete-index, contains-index-none,
}
use car_integrated_service_m.Registry.Service.{
  ServiceConfigSnapshot, service_config, ports_of, service_ports, unregister_service, drop_empty,
  delete_bundle,
}
use car_integrated_service_m.Registry.Service.Registrations.{service_config-IsValid}
use car_integrated_service_m.Registry.Service.Snapshots.{
  has, same, IsValid, insert-IsValidConfig, erase-insert-IsValidConfig, erase-IsValidConfig,
  insert-IsValid, insert-insert-IsValid, ports_of-insert, ports_of-erase,
}

module _ (s : ServiceConfigSnapshot) (n b : Bytes) where
  -- Dropping a bundle without ports changes no registration.
  has-drop_empty : (m d : Bytes) (q : ℤ) → has (drop_empty s n b) m d q ≡ has s m d q
  unfolding has drop_empty
  has-drop_empty m d q = at (lookup n s) refl (service_ports s n b) refl
    where
      at :
          (o : Option (Assoc (List ℤ)))
          → lookup n s ≡ o
          → (ps : List ℤ) → service_ports s n b ≡ ps
          → has (drop_empty s n b) m d q ≡ has s m d q
      at none e ps f = ground arith
      at (some c) e [] f = ground (
        arith,
        text_eq_iff n m,
        text_eq_iff b d,
        lookup-insert n m (erase b c) s,
        ports_of-erase b d c,
      )
      at (some c) e (x ∷ ps) f = ground arith

  drop_empty-IsValid : IsValid s → IsValid (drop_empty s n b)
  unfolding drop_empty
  drop_empty-IsValid v = at (lookup n s) refl (service_ports s n b) refl
    where
      at :
          (o : Option (Assoc (List ℤ)))
          → lookup n s ≡ o
          → (ps : List ℤ) → service_ports s n b ≡ ps
          → IsValid (drop_empty s n b)
      at o e (x ∷ ps) f = rw (f, drop_empty) v
      at none e [] f = rw (f, e, drop_empty, delete_bundle) v
      at (some c) e [] f =
          rw (f, e, drop_empty, delete_bundle)
            (insert-IsValid n _ s v (erase-IsValidConfig b c (v.configs n c e)))

-- The snapshot with new ports for one bundle.
replaced : ServiceConfigSnapshot → Bytes → Bytes → List ℤ → Assoc (List ℤ) → ServiceConfigSnapshot
replaced s n b ps c = insert n (insert b ps c) s

module _ (s : ServiceConfigSnapshot) (n b : Bytes) where
  service_ports-replaced :
      (ps : List ℤ) (c : Assoc (List ℤ)) (m d : Bytes)
      → lookup n s ≡ some c
      → service_ports (replaced s n b ps c) m d
        ≡ (if text_eq n m && text_eq b d then ps else service_ports s m d)
  unfolding replaced service_ports
  service_ports-replaced ps c m d e =
      ground (arith, text_eq_iff n m, lookup-insert n m (insert b ps c) s, ports_of-insert b d ps c)

  lookup-replaced :
      (ps : List ℤ) (c : Assoc (List ℤ)) → lookup n (replaced s n b ps c) ≡ some (insert b ps c)
  unfolding replaced
  lookup-replaced ps c = ground (arith, text_eq_refl n, lookup-insert n n (insert b ps c) s)

  service_ports-replaced_self :
      (ps : List ℤ) (c : Assoc (List ℤ))
      → lookup n s ≡ some c
      → service_ports (replaced s n b ps c) n b ≡ ps
  service_ports-replaced_self ps c e =
      ground (arith, text_eq_refl n, text_eq_refl b, service_ports-replaced ps c n b e)

  replaced-IsValid :
      (ps : List ℤ) (c : Assoc (List ℤ))
      → IsValid s
      → lookup n s ≡ some c
      → IsAscending ps
      → IsValid (drop_empty (replaced s n b ps c) n b)
  unfolding drop_empty
  replaced-IsValid [] c v e a =
      rw (service_ports-replaced_self [] c e, drop_empty, lookup-replaced [] c, delete_bundle)
        (unfold replaced in
          insert-insert-IsValid n _ s _ v (erase-insert-IsValidConfig b [] c (v.configs n c e)))
  replaced-IsValid (x ∷ ps) c v e a =
      rw (service_ports-replaced_self (x ∷ ps) c e, drop_empty)
        (unfold replaced in
          insert-IsValid n _ s v (insert-IsValidConfig b (x ∷ ps) c (v.configs n c e) a (λ q. cc)))

  unregister_service-some :
      {E : Type 0} (p : ℤ) (i : ℕ) (c : Assoc (List ℤ))
      → index (service_ports s n b) p ≡ some i
      → lookup n s ≡ some c
      → unregister_service {E = E} s n b p
        ≡ ok (drop_empty (replaced s n b (delete (service_ports s n b) i) c) n b)
  unfolding unregister_service replaced
  unregister_service-some p i c h e = ground arith

  service_ports-IsAscending : IsValid s → IsAscending (service_ports s n b)
  unfolding service_ports
  service_ports-IsAscending v = at (lookup b (service_config s n)) refl
    where
      at :
          (o : Option (List ℤ))
          → lookup b (service_config s n) ≡ o
          → IsAscending (service_ports s n b)
      at none e = rw (e, ports_of) tt
      at (some ps) e = rw (e, ports_of) ((service_config-IsValid s n v).ascending b ps e)

  index_node_known : (p : ℤ) (i : ℕ) → index (service_ports s n b) p ≡ some i → lookup n s ≢ none
  unfolding service_ports index lookup
  index_node_known p i h e = ground arith

-- From a valid snapshot unregistering succeeds. It takes away exactly the given port of the given
-- bundle on the given node, if that was there, and the snapshot stays valid: a bundle whose last port
-- goes is dropped.
pub unregister_service_lem :
    {E : Type 0} (s : ServiceConfigSnapshot) (n b : Bytes) (p : ℤ)
    → IsValid s
    → (s' : ServiceConfigSnapshot) × (unregister_service {E = E} s n b p ≡ ok s')
      × IsValid s'
      × ((m d : Bytes) (q : ℤ) → has s' m d q ≡ (if same n b p m d q then false else has s m d q))
unregister_service_lem {E} s n b p v = at (index (service_ports s n b) p) refl (lookup n s) refl
  where
    at :
        (j : Option ℕ)
        → index (service_ports s n b) p ≡ j
        → (o : Option (Assoc (List ℤ))) → lookup n s ≡ o
        → (s' : ServiceConfigSnapshot) × (unregister_service {E = E} s n b p ≡ ok s')
          × IsValid s'
          × ((m d : Bytes) (q : ℤ)
              → has s' m d q ≡ (if same n b p m d q then false else has s m d q))
    at none h o e = (
      drop_empty s n b,
      unfold unregister_service in ground arith,
      drop_empty-IsValid s n b v,
      λ m d q. rw (has-drop_empty s n b m d q) (
          unfold has in
          ground (
            arith,
            text_eq_iff n m,
            text_eq_iff b d,
            contains-index-none (service_ports s n b) p q h,
          )),
    )
    at (some i) h none e = absurd (index_node_known s n b p i h e)
    at (some i) h (some c) e =
        let ps = delete (service_ports s n b) i in
        let asc = service_ports-IsAscending s n b v in
        (
          drop_empty (replaced s n b ps c) n b,
          unregister_service-some s n b p i c h e,
          replaced-IsValid s n b ps c v e (delete-IsAscending _ i asc),
          λ m d q. rw (has-drop_empty (replaced s n b ps c) n b m d q) (
              unfold has in
              ground (
                arith,
                text_eq_iff n m,
                text_eq_iff b d,
                service_ports-replaced s n b ps c m d e,
                contains-delete-index (service_ports s n b) p q i asc h,
              )),
        )
