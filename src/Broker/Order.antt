-- ===== src/Broker/Order.antt =====
-- What the readers of a broker receive.
use car_integrated_service_m.Prelude.{
  ℕ, zero, suc, length, length-append, ltb, List, [], ◌∷◌, ◌++◌, map, append_assoc, All, Bool, true,
  false, ◌≡◌, ◌≤◌, refl, ◌∙◌, sym, ap, subst, arith,
}
use car_integrated_service_m.Broker.{
  Listener, Broker, new_broker, buffer_size, offer, take_message, take_at, read, accept, write,
  relay, receive, Step, reading, accepting, writing, relaying, receiving, Reach, started, followed,
}

module _ {ℓ} {T : Type ℓ} where
  -- The first list is the second one with some elements left out.
  pub data Sublist : List T → List T → Type ℓ where
    nothing : {ys : List T} → Sublist [] ys
    skip : {xs ys : List T} (y : T) → Sublist xs ys → Sublist xs (ys ++ y ∷ [])
    keep : {xs ys : List T} (y : T) → Sublist xs ys → Sublist (xs ++ y ∷ []) (ys ++ y ∷ [])

  -- A reader's messages were relayed in this order, and its buffer is not overfull.
  abbrev pub IsServed : List T → Listener T → Type ℓ
  IsServed relayed ch =
      Sublist (ch.received ++ ch.buffer) relayed × (length ch.buffer ≤ buffer_size)

  offer-IsServed :
      (msg : T) (relayed : List T) (ch : Listener T)
      → IsServed relayed ch
      → IsServed (relayed ++ msg ∷ []) (offer msg ch)
  unfolding offer
  offer-IsServed msg relayed ch h = by_room (ltb (length ch.buffer) 5) refl
    where
      by_room :
          (t : Bool) → ltb (length ch.buffer) 5 ≡ t → IsServed (relayed ++ msg ∷ []) (offer msg ch)
      by_room true t =
          rw (offer, t)
            (
              subst (λ xs. Sublist xs (relayed ++ msg ∷ []))
                  (append_assoc ch.received ch.buffer (msg ∷ [])) (keep msg h.0),
              ground (arith, t, length-append ch.buffer (msg ∷ [])),
            )
      by_room false t = rw (offer, t) (skip msg h.0, h.1)

  map-offer-IsServed :
      (msg : T) (relayed : List T) (listeners : List (Listener T))
      → All (IsServed relayed) listeners
      → All (IsServed (relayed ++ msg ∷ [])) (map (offer msg) listeners)
  map-offer-IsServed msg relayed [] h = tt
  map-offer-IsServed msg relayed (ch ∷ listeners) h =
      (offer-IsServed msg relayed ch h.0, map-offer-IsServed msg relayed listeners h.1)

  take_message-IsServed :
      (relayed : List T) (ch : Listener T)
      → IsServed relayed ch
      → IsServed relayed (take_message ch)
  unfolding take_message
  take_message-IsServed relayed ch h = by_buffer ch.buffer refl
    where
      by_buffer : (buffer : List T) → ch.buffer ≡ buffer → IsServed relayed (take_message ch)
      by_buffer [] e = rw (take_message, e) h
      by_buffer (msg ∷ buffer) e =
          rw (take_message, e)
            (
              subst (λ xs. Sublist xs relayed)
                  (ap (λ xs. ch.received ++ xs) e
                    ∙ sym (append_assoc ch.received (msg ∷ []) buffer))
                  h.0,
              omega (arith, h.1, ap length e),
            )

  take_at-IsServed :
      (relayed : List T) (i : ℕ) (listeners : List (Listener T))
      → All (IsServed relayed) listeners
      → All (IsServed relayed) (take_at i listeners)
  unfolding take_at
  take_at-IsServed relayed i [] h = tt
  take_at-IsServed relayed zero (ch ∷ listeners) h = (take_message-IsServed relayed ch h.0, h.1)
  take_at-IsServed relayed (suc i) (ch ∷ listeners) h =
      (h.0, take_at-IsServed relayed i listeners h.1)

  Step-listeners :
      (b c : Broker T)
      → Step b c
      → All (IsServed b.relayed) b.listeners
      → All (IsServed c.relayed) c.listeners
  unfolding read accept write relay receive
  Step-listeners b _ (reading room) h = h
  Step-listeners b _ (accepting n e) h = ((nothing, omega arith), h)
  Step-listeners b _ (writing msg room) h = h
  Step-listeners b _ (relaying msg rest e) h = map-offer-IsServed msg b.relayed b.listeners h
  Step-listeners b _ (receiving i) h = take_at-IsServed b.relayed i b.listeners h

  -- Whatever the goroutines do, in any order: what a reader has received and what waits in its
  -- buffer was relayed by the broker in that order, with messages left out, and at most five wait.
  pub Reach-listeners : (b : Broker T) → Reach b → All (IsServed b.relayed) b.listeners
  unfolding new_broker
  Reach-listeners _ started = tt
  Reach-listeners c (followed {b = b} r s) = Step-listeners b c s (Reach-listeners b r)
