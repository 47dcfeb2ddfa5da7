-- ===== src/Registry/Service/Snapshots.antt =====
-- The set of registered services of a snapshot, the invariant of snapshots, and both under the
-- writes to a snapshot.
use car_integrated_service_m.Prelude.{
  ℤ, eqb_ℤ, Bytes, Assoc, lookup, insert, erase, IsUnique, lookup-insert, lookup-erase,
  insert-IsUnique, erase-IsUnique, text_eq, text_eq_iff, List, [], some, if◌then◌else◌, Bool, true,
  false, ◌&&◌, ◌≡◌, ◌≢◌, refl, arith, subst,
}
use car_integrated_service_m.Registry.Service.Ports.{contains, IsAscending}
use car_integrated_service_m.Registry.Service.{ServiceConfigSnapshot, ports_of, service_ports}

-- Whether a port of a bundle is registered for a node.
unfoldable pub has : ServiceConfigSnapshot → Bytes → Bytes → ℤ → Bool
unfolding service_ports
has services node_id bundle_id port = contains (service_ports services node_id bundle_id) port

-- Whether two registrations are the same.
abbrev pub same : Bytes → Bytes → ℤ → Bytes → Bytes → ℤ → Bool
same n b p n' b' p' = text_eq n n' && text_eq b b' && eqb_ℤ p' p

-- Every bundle of a node has ports, strictly ascending.
pub record IsValidConfig (c : Assoc (List ℤ)) : Type 0 where
  pub unique : IsUnique c
  pub ascending : (b : Bytes) (ps : List ℤ) → lookup b c ≡ some ps → IsAscending ps
  pub nonempty : (b : Bytes) (ps : List ℤ) → lookup b c ≡ some ps → ps ≢ []

pub record IsValid (s : ServiceConfigSnapshot) : Type 0 where
  pub unique : IsUnique s
  pub configs : (n : Bytes) (c : Assoc (List ℤ)) → lookup n s ≡ some c → IsValidConfig c

pub IsValid-nil : IsValid []
unfolding lookup
IsValid-nil = record { unique = tt; configs = λ n c e. absurd (cc) }

pub nil-IsValidConfig : IsValidConfig []
unfolding lookup
nil-IsValidConfig = record {
  unique = tt;
  ascending = λ b ps e. absurd (cc);
  nonempty = λ b ps e. absurd (cc);
}

pub insert-IsValidConfig :
    (b : Bytes) (ps : List ℤ) (c : Assoc (List ℤ))
    → IsValidConfig c
    → IsAscending ps
    → ps ≢ []
    → IsValidConfig (insert b ps c)
insert-IsValidConfig b ps c v a ne = record {
  unique = insert-IsUnique b ps c v.unique;
  ascending = λ b' qs e. ground (arith, lookup-insert b b' ps c, v.ascending b' qs);
  nonempty = λ b' qs e. ground (arith, lookup-insert b b' ps c, v.nonempty b' qs);
}

pub erase-insert-IsValidConfig :
    (b : Bytes) (ps : List ℤ) (c : Assoc (List ℤ))
    → IsValidConfig c
    → IsValidConfig (erase b (insert b ps c))
erase-insert-IsValidConfig b ps c v = record {
  unique = erase-IsUnique b _ (insert-IsUnique b ps c v.unique);
  ascending = λ b' qs e.
      ground (arith, lookup-erase b b' (insert b ps c), lookup-insert b b' ps c, v.ascending b' qs);
  nonempty = λ b' qs e.
      ground (arith, lookup-erase b b' (insert b ps c), lookup-insert b b' ps c, v.nonempty b' qs);
}

pub erase-IsValidConfig :
    (b : Bytes) (c : Assoc (List ℤ)) → IsValidConfig c → IsValidConfig (erase b c)
erase-IsValidConfig b c v = record {
  unique = erase-IsUnique b c v.unique;
  ascending = λ b' qs e. ground (arith, lookup-erase b b' c, v.ascending b' qs);
  nonempty = λ b' qs e. ground (arith, lookup-erase b b' c, v.nonempty b' qs);
}

-- A snapshot in which every node but `n` has a valid configuration, and `n` gets one.
set_config-IsValid :
    (n : Bytes) (c : Assoc (List ℤ)) (s : ServiceConfigSnapshot)
    → IsUnique s
    → ((m : Bytes) (d : Assoc (List ℤ)) → n ≢ m → lookup m s ≡ some d → IsValidConfig d)
    → IsValidConfig c
    → IsValid (insert n c s)
set_config-IsValid n c s u others k = record {
  unique = insert-IsUnique n c s u;
  configs = λ m d. at m d (text_eq n m) refl;
}
  where
    at :
        (m : Bytes) (d : Assoc (List ℤ)) (t : Bool)
        → text_eq n m ≡ t
        → lookup m (insert n c s) ≡ some d
        → IsValidConfig d
    at m d true t e =
        let c-eq-d : c ≡ d = ground (arith, lookup-insert n m c s) in subst IsValidConfig c-eq-d k
    at m d false t e =
        others m d (ground (arith, text_eq_iff n m)) (ground (arith, lookup-insert n m c s))

module _ (n : Bytes) (c : Assoc (List ℤ)) (s : ServiceConfigSnapshot) where
  pub insert-IsValid : IsValid s → IsValidConfig c → IsValid (insert n c s)
  insert-IsValid v k = set_config-IsValid n c s v.unique (λ m d _. v.configs m d) k

  -- The first of two writes under one key leaves no trace.
  pub insert-insert-IsValid :
      (d : Assoc (List ℤ)) → IsValid s → IsValidConfig c → IsValid (insert n c (insert n d s))
  insert-insert-IsValid d v k =
      set_config-IsValid n c (insert n d s) (insert-IsUnique n d s v.unique)
        (λ m e ne h. v.configs m e (ground (arith, text_eq_iff n m, lookup-insert n m d s))) k

  pub service_ports-insert :
      (m b : Bytes)
      → service_ports (insert n c s) m b
        ≡ (if text_eq n m then ports_of c b else service_ports s m b)
  unfolding service_ports
  service_ports-insert m b = ground (arith, lookup-insert n m c s)

pub ports_of-insert :
    (b b' : Bytes) (ps : List ℤ) (c : Assoc (List ℤ))
    → ports_of (insert b ps c) b' ≡ (if text_eq b b' then ps else ports_of c b')
ports_of-insert b b' ps c = ground (arith, lookup-insert b b' ps c)

pub ports_of-erase :
    (b b' : Bytes) (c : Assoc (List ℤ))
    → ports_of (erase b c) b' ≡ (if text_eq b b' then [] else ports_of c b')
ports_of-erase b b' c = ground (arith, lookup-erase b b' c)
