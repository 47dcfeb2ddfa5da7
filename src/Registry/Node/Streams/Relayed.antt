-- ===== src/Registry/Node/Streams/Relayed.antt =====
-- The handlers of the open channels around one broker.
use car_integrated_service_m.Prelude.{
  ℕ, zero, suc, ◌+◌, Bytes, Option, List, [], ◌∷◌, ◌++◌, map, length, length-append, append_assoc,
  append-nil, All, ◌≡◌, refl, ◌∙◌, sym, ap, subst, arith, false,
}
use car_integrated_service_m.Broker.{
  Broker, Listener, new_broker, read, write, accept, relay, receive, take_at, offer,
}
use car_integrated_service_m.Broker
use car_integrated_service_m.Broker.Order.{Sublist, skip, IsServed, Reach-listeners}
use car_integrated_service_m.Config.Deployment.{DeploymentConfig}
use car_integrated_service_m.Registry.Node.{DeploymentMessage}
use car_integrated_service_m.Registry.Node.Streams.{
  Channel, Registry, write_all, HasSpace, Step, opening, announcing, taking, ending, copying,
  stopping, accepting, relaying, Reach, started, followed,
}
use car_integrated_service_m.Registry.Node.Streams.Merging.{
  Merges, none_yet, joined, Merges-append, Merges-Sublist,
}
use car_integrated_service_m.Registry.Node.Streams.Handlers.{
  IsHandled, All-replaced, stopped-HasWritten, announced-IsHandled, taken-IsHandled,
  ended-IsHandled,
}

module _ (marshal : DeploymentConfig → Option Bytes) where
  -- The messages that were written to the broker, also those that it has not relayed yet.
  abbrev pub log : Broker DeploymentMessage → List DeploymentMessage
  log b = b.relayed ++ b.source

  pub record IsRelayed (s : Registry) : Type 0 where
    pub steps : Broker.Reach s.broker
    pub merged : Merges (map Channel.written s.channels) (log s.broker)
    pub handled : All (IsHandled marshal) s.channels
    pub buffers : s.broker.destinations + length s.broker.listeners ≡ length s.channels

  write_all-Reach :
      (ms : List DeploymentMessage) (b : Broker DeploymentMessage)
      → HasSpace ms b
      → Broker.Reach b
      → Broker.Reach (write_all ms b)
  unfolding write_all write
  write_all-Reach [] b space r = r
  write_all-Reach (m ∷ ms) b space r =
      write_all-Reach ms (write m b) (omega (arith, length-append b.source (m ∷ [])))
        (Broker.followed r (Broker.writing m (omega arith)))

  write_all-log :
      (ms : List DeploymentMessage) (b : Broker DeploymentMessage)
      → log (write_all ms b) ≡ log b ++ ms
  unfolding write_all write
  write_all-log [] b = sym (append-nil _)
  write_all-log (m ∷ ms) b =
      write_all-log ms (write m b)
      ∙ ap (λ xs. xs ++ ms) (sym (append_assoc b.relayed b.source (m ∷ [])))
      ∙ append_assoc (log b) (m ∷ []) ms

  write_all-buffers :
      (ms : List DeploymentMessage) (b : Broker DeploymentMessage)
      → ((write_all ms b).destinations ≡ b.destinations)
        × ((write_all ms b).listeners ≡ b.listeners)
  unfolding write_all write
  write_all-buffers [] b = (refl, refl)
  write_all-buffers (m ∷ ms) b = write_all-buffers ms (write m b)

  map-replaced :
      (before after : List Channel) (c : Channel)
      → map Channel.written (before ++ c ∷ after)
        ≡ map Channel.written before ++ c.written ∷ map Channel.written after
  map-replaced [] after c = refl
  map-replaced (b ∷ before) after c = ap (λ ls. b.written ∷ ls) (map-replaced before after c)

  length-replaced :
      (before after : List Channel) (c d : Channel)
      → length (before ++ c ∷ after) ≡ length (before ++ d ∷ after)
  length-replaced [] after c d = refl
  length-replaced (b ∷ before) after c d = ap suc (length-replaced before after c d)

  length-take_at :
      (i : ℕ) (chs : List (Listener DeploymentMessage)) → length (take_at i chs) ≡ length chs
  unfolding take_at
  length-take_at i [] = refl
  length-take_at zero (ch ∷ chs) = refl
  length-take_at (suc i) (ch ∷ chs) = ap suc (length-take_at i chs)

  length-map-offer :
      (m : DeploymentMessage) (chs : List (Listener DeploymentMessage))
      → length (map (offer m) chs) ≡ length chs
  length-map-offer m [] = refl
  length-map-offer m (ch ∷ chs) = ap suc (length-map-offer m chs)

  -- What a step of a handler does that writes some messages.
  written-IsRelayed :
      (s : Registry) (before after : List Channel) (c d : Channel) (ms : List DeploymentMessage)
      → s.channels ≡ before ++ c ∷ after
      → d.written ≡ c.written ++ ms
      → (IsHandled marshal c → IsHandled marshal d)
      → HasSpace ms s.broker
      → IsRelayed s
      → IsRelayed (record { broker = write_all ms s.broker; channels = before ++ d ∷ after })
  written-IsRelayed s before after c d ms e w f space r = record {
    steps = write_all-Reach ms s.broker space r.steps;
    merged =
        subst (λ ls. Merges ls (log (write_all ms s.broker)))
          (sym (
            map-replaced before after d
            ∙ ap (λ ws. map Channel.written before ++ ws ∷ map Channel.written after) w))
          (subst (Merges _) (sym (write_all-log ms s.broker)) (
            Merges-append (map Channel.written before) (map Channel.written after) c.written
              (log s.broker) ms
              (subst (λ ls. Merges ls (log s.broker))
                (ap (map Channel.written) e ∙ map-replaced before after c) r.merged)));
    handled =
        All-replaced marshal (IsHandled marshal) before after c d f
          (subst (All (IsHandled marshal)) e r.handled);
    buffers = omega (
      arith,
      r.buffers,
      (write_all-buffers ms s.broker).0,
      ap length (write_all-buffers ms s.broker).1,
      ap length e,
      length-replaced before after c d,
    );
  }

  Step-IsRelayed : (s t : Registry) → Step marshal s t → IsRelayed s → IsRelayed t
  unfolding read accept relay receive
  Step-IsRelayed s _ (opening nodes header addr e room) r = record {
    steps = Broker.followed r.steps (Broker.reading room);
    merged = joined r.merged;
    handled = ((e, (refl, refl)), r.handled);
    buffers = omega (arith, r.buffers);
  }
  Step-IsRelayed s _ (announcing before after c ms at at_start e space) r =
      written-IsRelayed s before after c _ ms at refl (announced-IsHandled marshal c ms at_start e)
        space r
  Step-IsRelayed s _ (taking before after c m at in_loop space) r =
      written-IsRelayed s before after c _ (m ∷ []) at refl (taken-IsHandled marshal c m in_loop)
        space r
  Step-IsRelayed s _ (ending before after c end ms at in_loop e space) r =
      written-IsRelayed s before after c _ ms at refl (ended-IsHandled marshal c end ms in_loop e)
        space r
  Step-IsRelayed s _ (copying before after c i at which on) r = record {
    steps = Broker.followed r.steps (Broker.receiving i);
    merged = r.merged;
    handled = r.handled;
    buffers = omega (arith, r.buffers, length-take_at i s.broker.listeners);
  }
  Step-IsRelayed s _ (stopping before after c at) r = record {
    steps = r.steps;
    merged =
        subst (λ ls. Merges ls (log s.broker))
          (ap (map Channel.written) at
            ∙ map-replaced before after c
            ∙ sym (map-replaced before after (record c { copying = false })))
          r.merged;
    handled =
        All-replaced marshal (IsHandled marshal) before after c (record c { copying = false })
          (λ h. (h.0, stopped-HasWritten marshal c.phase c h.1))
          (subst (All (IsHandled marshal)) at r.handled);
    buffers = omega (
      arith,
      r.buffers,
      ap length at,
      length-replaced before after c (record c { copying = false }),
    );
  }
  Step-IsRelayed s _ (accepting n e) r = record {
    steps = Broker.followed r.steps (Broker.accepting n e);
    merged = r.merged;
    handled = r.handled;
    buffers = omega (arith, r.buffers, e);
  }
  Step-IsRelayed s _ (relaying m rest e) r = record {
    steps = Broker.followed r.steps (Broker.relaying m rest e);
    merged =
        subst (Merges (map Channel.written s.channels))
          (ap (λ xs. s.broker.relayed ++ xs) e ∙ sym (append_assoc s.broker.relayed (m ∷ []) rest))
          r.merged;
    handled = r.handled;
    buffers = omega (arith, r.buffers, length-map-offer m s.broker.listeners);
  }

  -- In each state that can be reached, in whatever order the goroutines go on: the broker is in a
  -- state that it can reach; what is written to it is an interleaving of what the handlers write, and
  -- they write and return what each does alone; and there are as many buffers as channels, those that
  -- have ended included.
  pub Reach-IsRelayed : (s : Registry) → Reach marshal s → IsRelayed s
  unfolding Broker.new_broker
  Reach-IsRelayed _ started = record {
    steps = Broker.started;
    merged = none_yet;
    handled = tt;
    buffers = refl;
  }
  Reach-IsRelayed t (followed {s = s} r st) = Step-IsRelayed s t st (Reach-IsRelayed s r)

  Sublist-append : (xs ys zs : List DeploymentMessage) → Sublist xs ys → Sublist xs (ys ++ zs)
  Sublist-append xs ys [] h = subst (Sublist xs) (sym (append-nil ys)) h
  Sublist-append xs ys (z ∷ zs) h =
      subst (Sublist xs) (append_assoc ys (z ∷ []) zs)
        (Sublist-append xs (ys ++ z ∷ []) zs (skip z h))

  received-Sublist :
      (relayed source : List DeploymentMessage) (chs : List (Listener DeploymentMessage))
      → All (IsServed relayed) chs
      → All (λ ch. Sublist (ch.received ++ ch.buffer) (relayed ++ source)) chs
  received-Sublist relayed source [] h = tt
  received-Sublist relayed source (ch ∷ chs) h =
      (Sublist-append _ relayed source h.0.0, received-Sublist relayed source chs h.1)

  -- There is one order of all messages that handlers have written, which interleaves what each has
  -- written and has nothing else in it, so that each handler's messages stand in their order; and what
  -- a client was sent, and behind it what waits for it, are messages in this order, with some left
  -- out.
  pub Reach-in_order :
      (s : Registry)
      → Reach marshal s
      → Merges (map Channel.written s.channels) (log s.broker)
        × All (λ ws. Sublist ws (log s.broker)) (map Channel.written s.channels)
        × All (λ ch. Sublist (ch.received ++ ch.buffer) (log s.broker)) s.broker.listeners
  Reach-in_order s r =
      let i = Reach-IsRelayed s r in
      (
        i.merged,
        Merges-Sublist _ _ i.merged,
        received-Sublist s.broker.relayed s.broker.source s.broker.listeners
            (Reach-listeners s.broker i.steps),
      )
