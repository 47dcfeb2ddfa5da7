-- ===== src/Registry/Node/Registering/Order.antt =====
-- What the receiver of the channel of nodes knows of the registry.
use mathlib.Core.List.{Perm, perm_middle}
use mathlib.Core.List.Perm
use car_integrated_service_m.Prelude.{[], ◌∷◌, ◌++◌, append_assoc, ◌≡◌, refl, sym, subst}
use car_integrated_service_m.Registry.Node.{RegisterRequest, register}
use car_integrated_service_m.Registry.Node.Ids.{addr_of}
use car_integrated_service_m.Registry.Node.Registering.{
  Registering, nothing_registered, add, send, Step, adding, sending, Reach, started, followed,
}

abbrev pub IsComplete : Registering → Type 0
IsComplete c = Perm c.registry.nodes (c.received ++ c.unsent)

Step-IsComplete : (c d : Registering) → Step c d → IsComplete c → IsComplete d
unfolding add register send
Step-IsComplete c _ (adding r) h =
    subst (Perm (c.registry.nodes ++ addr_of r ∷ []))
      (append_assoc c.received c.unsent (addr_of r ∷ [])) (Perm.append_right (addr_of r ∷ []) h)
Step-IsComplete c _ (sending before a after e) h =
    let moved : Perm (c.received ++ (before ++ a ∷ after)) (c.received ++ a ∷ (before ++ after)) =
      Perm.append_left c.received (perm_middle before after) in
    Perm.trans (subst (λ us. Perm c.registry.nodes (c.received ++ us)) e h) (
      subst (Perm (c.received ++ (before ++ a ∷ after)))
        (sym (append_assoc c.received (a ∷ []) (before ++ after))) moved)

-- However handlers run beside each other, the receiver has got every registered address that is not
-- still to be sent, once for each registration, and no other.
pub Reach-IsComplete : (c : Registering) → Reach c → IsComplete c
Reach-IsComplete _ started = Perm.refl []
Reach-IsComplete d (followed {c = c} r s) = Step-IsComplete c d s (Reach-IsComplete c r)

-- Two handlers can send in the opposite order: for any two requests there is a run after which
-- nothing is left to be sent, and the receiver has the two addresses at exchanged places, so that
-- it takes the ID of each for the address of the other.
pub order_lost :
    (r q : RegisterRequest)
    → (c : Registering) × Reach c
      × (c.unsent ≡ [])
      × (c.registry.nodes ≡ addr_of r ∷ addr_of q ∷ [])
      × (c.received ≡ addr_of q ∷ addr_of r ∷ [])
unfolding add register send
order_lost r q =
    let both = add q (add r nothing_registered) in
    let second = send (addr_of q) (addr_of r ∷ []) both in
    (
      send (addr_of r) [] second,
      followed
          (followed (followed (followed started (adding r)) (adding q))
            (sending (addr_of r ∷ []) (addr_of q) [] refl))
          (sending [] (addr_of r) [] refl),
      refl,
      refl,
      refl,
    )
