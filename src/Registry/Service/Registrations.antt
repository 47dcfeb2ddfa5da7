-- ===== src/Registry/Service/Registrations.antt =====
-- What `register_service` does to the set of registered services.
use car_integrated_service_m.Prelude.{
  ℤ, eqb_ℤ, eqb_ℤ_iff, ◌∙◌, Bytes, Assoc, lookup, insert, lookup-insert, text_eq_iff, text_eq_refl,
  List, [], ◌∷◌, ◌++◌, Option, none, some, if◌then◌else◌, ok, true, ◌≡◌, ◌≢◌, refl, arith,
}
use car_integrated_service_m.Registry.Service.Ports.{
  sort, compact, contains, compact-sort-IsAscending, contains-compact-sort, contains-append,
}
use car_integrated_service_m.Registry.Service.{
  ServiceConfigSnapshot, service_config, service_ports, register_service, ensure_node,
}
use car_integrated_service_m.Registry.Service.Snapshots.{
  has, same, IsValidConfig, IsValid, nil-IsValidConfig, insert-IsValidConfig, insert-IsValid,
  service_ports-insert, ports_of-insert,
}

-- The configuration that registration stores for its node.
abbrev registered : ServiceConfigSnapshot → Bytes → Bytes → ℤ → Assoc (List ℤ)
registered s n b p = insert b (compact (sort (service_ports s n b ++ p ∷ []))) (service_config s n)

module _ (s : ServiceConfigSnapshot) (n : Bytes) where
  pub service_config-IsValid : IsValid s → IsValidConfig (service_config s n)
  service_config-IsValid v = at (lookup n s) refl
    where
      at : (o : Option (Assoc (List ℤ))) → lookup n s ≡ o → IsValidConfig (service_config s n)
      at none e = rw (e, service_config) nil-IsValidConfig
      at (some c) e = rw (e, service_config) (v.configs n c e)

  ensure_node-IsValid : IsValid s → IsValid (ensure_node s n)
  unfolding ensure_node
  ensure_node-IsValid v = at (lookup n s) refl
    where
      at : (o : Option (Assoc (List ℤ))) → lookup n s ≡ o → IsValid (ensure_node s n)
      at none e = rw (e, ensure_node) (insert-IsValid n [] s v nil-IsValidConfig)
      at (some c) e = rw (e, ensure_node) v

  service_ports-ensure_node :
      (m b : Bytes) → service_ports (ensure_node s n) m b ≡ service_ports s m b
  unfolding ensure_node service_ports
  service_ports-ensure_node m b = ground (arith, lookup-insert n m [] s, text_eq_iff n m)

  register_service-eq :
      {E : Type 0} (b : Bytes) (p : ℤ)
      → register_service {E = E} s n b p ≡ ok (insert n (registered s n b p) (ensure_node s n))
  unfolding register_service
  register_service-eq b p = ground (arith, lookup-insert n n [] s, text_eq_refl n)

ne_nil_of_contains : (p : ℤ) (xs : List ℤ) → contains xs p ≡ true → xs ≢ []
ne_nil_of_contains p [] h = cc
ne_nil_of_contains p (x ∷ xs) h = cc

registered-contains :
    (s : ServiceConfigSnapshot) (n b : Bytes) (p q : ℤ)
    → let ports = service_ports s n b in
      contains (compact (sort (ports ++ p ∷ []))) q ≡ (if eqb_ℤ q p then true else contains ports q)
registered-contains s n b p q =
    let ports = service_ports s n b in
    contains-compact-sort q (ports ++ p ∷ []) ∙ contains-append ports p q

has-registered :
    (s : ServiceConfigSnapshot) (n b : Bytes) (p : ℤ) (m d : Bytes) (q : ℤ)
    → has (insert n (registered s n b p) (ensure_node s n)) m d q
      ≡ (if same n b p m d q then true else has s m d q)
unfolding has
has-registered s n b p m d q = ground (
  arith,
  text_eq_iff n m,
  text_eq_iff b d,
  service_ports-insert n (registered s n b p) (ensure_node s n) m d,
  service_ports-ensure_node s n m d,
  ports_of-insert b d (compact (sort (service_ports s n b ++ p ∷ []))) (service_config s n),
  registered-contains s n b p q,
)

registered-ne-nil :
    (s : ServiceConfigSnapshot) (n b : Bytes) (p : ℤ)
    → compact (sort (service_ports s n b ++ p ∷ [])) ≢ []
registered-ne-nil s n b p =
    ne_nil_of_contains p _ (ground (arith, registered-contains s n b p p, eqb_ℤ_iff p p))

-- From a valid snapshot registration succeeds. It adds exactly the given port of the given bundle on
-- the given node, whether it was there before or not, and the snapshot stays valid.
pub register_service_lem :
    {E : Type 0} (s : ServiceConfigSnapshot) (n b : Bytes) (p : ℤ)
    → IsValid s
    → (s' : ServiceConfigSnapshot) × (register_service {E = E} s n b p ≡ ok s')
      × IsValid s'
      × ((m d : Bytes) (q : ℤ) → has s' m d q ≡ (if same n b p m d q then true else has s m d q))
register_service_lem s n b p v = (
  insert n (registered s n b p) (ensure_node s n),
  register_service-eq s n b p,
  insert-IsValid n _ _ (ensure_node-IsValid s n v) (
      insert-IsValidConfig b _ _ (service_config-IsValid s n v) (compact-sort-IsAscending _)
        (registered-ne-nil s n b p)),
  has-registered s n b p,
)
