-- ===== src/Broker/Pace.antt =====
-- When the readers of a broker miss nothing.
use car_integrated_service_m.Prelude.{
  ℕ, zero, suc, length, ltb, List, [], ◌∷◌, ◌++◌, map, append_assoc, append-nil, All, true, ◌≡◌,
  ◌<◌, refl, ◌∙◌, sym, ap, arith,
}
use car_integrated_service_m.Broker.{
  Listener, Broker, new_broker, buffer_size, offer, take_message, take_at, read, accept, write,
  relay, receive, Step, reading, accepting, writing, relaying, receiving,
}

module _ {ℓ} {T : Type ℓ} where
  -- Each buffer has room for a message.
  abbrev pub HasRoom : Broker T → Type 0
  HasRoom b = All (λ (ch : Listener T). length ch.buffer < buffer_size) b.listeners

  -- A run in which each step is taken in a state where each buffer has room.
  pub data Paced : Broker T → Type ℓ where
    paced_start : Paced new_broker
    paced_step : {b c : Broker T} → Paced b → HasRoom b → Step b c → Paced c

  -- What a reader has and what waits for it are all messages from some point on.
  abbrev pub IsSuffix : List T → Listener T → Type ℓ
  IsSuffix relayed ch = (before : List T) × (relayed ≡ before ++ (ch.received ++ ch.buffer))

  offer-IsSuffix :
      (msg : T) (relayed : List T) (ch : Listener T)
      → length ch.buffer < buffer_size
      → IsSuffix relayed ch
      → IsSuffix (relayed ++ msg ∷ []) (offer msg ch)
  unfolding offer
  offer-IsSuffix msg relayed ch room (before, e) =
      let fits : ltb (length ch.buffer) 5 ≡ true = ground (arith, room) in
      rw (offer, fits)
        (
          before,
          ap (λ xs. xs ++ msg ∷ []) e
              ∙ append_assoc before (ch.received ++ ch.buffer) (msg ∷ [])
              ∙ ap (λ xs. before ++ xs) (append_assoc ch.received ch.buffer (msg ∷ [])),
        )

  map-offer-IsSuffix :
      (msg : T) (relayed : List T) (listeners : List (Listener T))
      → All (λ (ch : Listener T). length ch.buffer < buffer_size) listeners
      → All (IsSuffix relayed) listeners
      → All (IsSuffix (relayed ++ msg ∷ [])) (map (offer msg) listeners)
  map-offer-IsSuffix msg relayed [] room h = tt
  map-offer-IsSuffix msg relayed (ch ∷ listeners) room h = (
    offer-IsSuffix msg relayed ch room.0 h.0,
    map-offer-IsSuffix msg relayed listeners room.1 h.1,
  )

  take_message-IsSuffix :
      (relayed : List T) (ch : Listener T)
      → IsSuffix relayed ch
      → IsSuffix relayed (take_message ch)
  unfolding take_message
  take_message-IsSuffix relayed ch (before, e) = by_buffer ch.buffer refl
    where
      by_buffer : (buffer : List T) → ch.buffer ≡ buffer → IsSuffix relayed (take_message ch)
      by_buffer [] f = rw (take_message, f) (before, e)
      by_buffer (msg ∷ buffer) f =
          rw (take_message, f)
            (
              before,
              e
                  ∙ ap (λ xs. before ++ (ch.received ++ xs)) f
                  ∙ ap (λ xs. before ++ xs) (sym (append_assoc ch.received (msg ∷ []) buffer)),
            )

  take_at-IsSuffix :
      (relayed : List T) (i : ℕ) (listeners : List (Listener T))
      → All (IsSuffix relayed) listeners
      → All (IsSuffix relayed) (take_at i listeners)
  unfolding take_at
  take_at-IsSuffix relayed i [] h = tt
  take_at-IsSuffix relayed zero (ch ∷ listeners) h = (take_message-IsSuffix relayed ch h.0, h.1)
  take_at-IsSuffix relayed (suc i) (ch ∷ listeners) h =
      (h.0, take_at-IsSuffix relayed i listeners h.1)

  Step-IsSuffix :
      (b c : Broker T)
      → Step b c
      → HasRoom b
      → All (IsSuffix b.relayed) b.listeners
      → All (IsSuffix c.relayed) c.listeners
  unfolding read accept write relay receive
  Step-IsSuffix b _ (reading room) has_room h = h
  Step-IsSuffix b _ (accepting n e) has_room h = ((b.relayed, sym (append-nil b.relayed)), h)
  Step-IsSuffix b _ (writing msg room) has_room h = h
  Step-IsSuffix b _ (relaying msg rest e) has_room h =
      map-offer-IsSuffix msg b.relayed b.listeners has_room h
  Step-IsSuffix b _ (receiving i) has_room h = take_at-IsSuffix b.relayed i b.listeners h

  -- As long as no buffer is full at any step, readers miss nothing: what a reader has received, and
  -- behind it what waits in its buffer, are all messages that the broker has relayed from some point
  -- on, in order.
  pub Paced-listeners : (b : Broker T) → Paced b → All (IsSuffix b.relayed) b.listeners
  unfolding new_broker
  Paced-listeners _ paced_start = tt
  Paced-listeners c (paced_step {b = b} r room s) = Step-IsSuffix b c s room (Paced-listeners b r)
