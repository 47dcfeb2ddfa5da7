-- ===== src/Registry/Node/Ids.antt =====
-- Node IDs: what `register` hands out is what `validate_node_id` accepts, and nothing else is.
use car_integrated_service_m.Prelude.{
  List, ltb_ℤ, ltb, true, false, negsuc, if◌then◌else◌, ℕ, ◌≤◌, ◌<◌, ℤ, pos, Bytes, codes, ◌≡◌,
  refl, ◌↔◌, ◌∷◌, [], ◌++◌, Option, none, some, arith, length, get_elem?, length-append,
  get_elem?-append_left, get_elem?-append_end, last_part-split, split-Lacks, last_part-Lacks,
  last_part, itoa, itoa-Lacks_dash, atoi-itoa, atoi_nonneg, max_int, ok, err,
}
use car_integrated_service_m.Registry.Node.{
  NodeAddr, NodeRegistry, RegisterRequest, register, get_node_idx, format_node_id, validate_node_id,
  last_idx, invalid_node_id,
}

-- The index in a node ID that the registry formats is read back, up to the largest Go int.
pub get_node_idx-format_node_id :
    (i : ℕ) → i ≤ max_int → get_node_idx (format_node_id i) ≡ some (pos i)
unfolding get_node_idx format_node_id last_part
get_node_idx-format_node_id i h =
    rw (last_part-split b'-' (codes "node") (itoa i), split-Lacks b'-' (itoa i) (itoa-Lacks_dash i))
      (atoi-itoa i h)

-- Whatever the text is, an index that is read from it is not negative.
pub get_node_idx_nonneg : (id : Bytes) (z : ℤ) → get_node_idx id ≡ some z → (n : ℕ) × (z ≡ pos n)
unfolding get_node_idx
get_node_idx_nonneg id z h = atoi_nonneg _ z (last_part-Lacks b'-' id) h

abbrev pub addr_of : RegisterRequest → NodeAddr
addr_of r = record { host = r.address; port = r.port }

-- The upper half of the range check.
last_idx-lt :
    (nodes : List NodeAddr) (i : ℕ)
    → ltb_ℤ (last_idx nodes) (pos i) ≡ (if ltb i (length nodes) then false else true)
last_idx-lt [] i = ground arith
last_idx-lt (a ∷ nodes) i = ground arith

validate_node_id-pos :
    (s : NodeRegistry) (id : Bytes) (i : ℕ)
    → get_node_idx id ≡ some (pos i)
    → validate_node_id s id ≡ (if ltb i (length s.nodes) then ok (pos i) else err invalid_node_id)
unfolding validate_node_id
validate_node_id-pos s id i h = ground (arith, last_idx-lt s.nodes i)

-- An ID is accepted, with index `z`, exactly if it ends in the number of a registered node.
pub validate_node_id_lem :
    (s : NodeRegistry) (id : Bytes) (z : ℤ)
    → (validate_node_id s id ≡ ok z)
      ↔ ((i : ℕ) × (z ≡ pos i) × (get_node_idx id ≡ some (pos i)) × (i < length s.nodes))
validate_node_id_lem s id z = (
  accepted (get_node_idx id) refl,
  λ (i, e, h, lt). ground (arith, validate_node_id-pos s id i h),
)
  where
    accepted :
        (o : Option ℤ)
        → get_node_idx id ≡ o
        → validate_node_id s id ≡ ok z
        → (i : ℕ) × (z ≡ pos i) × (get_node_idx id ≡ some (pos i)) × (i < length s.nodes)
    accepted none e h = unfold validate_node_id in ground arith
    accepted (some (negsuc n)) e h = absurd (unfold validate_node_id in ground arith)
    accepted (some (pos i)) e h = (
      i,
      ground (arith, validate_node_id-pos s id i e),
      e,
      ground (arith, validate_node_id-pos s id i e),
    )

longer :
    (s : NodeRegistry) (a : NodeAddr) {i : ℕ} → i ≤ length s.nodes → i < length (s.nodes ++ a ∷ [])
longer s a le = omega (arith, length-append s.nodes (a ∷ []))

-- While fewer than 2^63 nodes are registered, the ID in the reply to a registration is accepted by
-- the registry after it, with the index at which the sender's address then stands, and that address
-- is the one sent on the channel of nodes.
pub register_lem :
    (s : NodeRegistry) (r : RegisterRequest)
    → length s.nodes ≤ max_int
    → let p = register s r in
      (validate_node_id p.registry p.id ≡ ok (pos (length s.nodes)))
      × (get_elem? p.registry.nodes (length s.nodes) ≡ some p.new_node)
      × (p.new_node ≡ addr_of r)
unfolding register
register_lem s r h = (
  (validate_node_id_lem _ _ _).1
      (length s.nodes, refl, get_node_idx-format_node_id _ h, longer s (addr_of r) (omega arith)),
  get_elem?-append_end s.nodes (addr_of r),
  refl,
)

-- An ID that was accepted before a registration is accepted after it with the same index, at which
-- the same address stands.
pub register_keeps :
    (s : NodeRegistry) (r : RegisterRequest) (id : Bytes) (i : ℕ)
    → validate_node_id s id ≡ ok (pos i)
    → (validate_node_id (register s r).registry id ≡ ok (pos i))
      × (get_elem? (register s r).registry.nodes i ≡ get_elem? s.nodes i)
unfolding register
register_keeps s r id i old = kept ((validate_node_id_lem s id (pos i)).0 old)
  where
    kept :
        (j : ℕ) × (pos i ≡ pos j) × (get_node_idx id ≡ some (pos j)) × (j < length s.nodes)
        → (validate_node_id (register s r).registry id ≡ ok (pos i))
          × (get_elem? (register s r).registry.nodes i ≡ get_elem? s.nodes i)
    kept (j, e, idx, lt) =
        let same : i ≡ j = ground arith in
        (
          (validate_node_id_lem _ id (pos i)).1 (j, e, idx, longer s (addr_of r) (omega arith)),
          get_elem?-append_left s.nodes (addr_of r ∷ []) i (omega arith),
        )
