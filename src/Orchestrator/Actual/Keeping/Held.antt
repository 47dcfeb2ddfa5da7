-- ===== src/Orchestrator/Actual/Keeping/Held.antt =====
-- A node that is to be stopped stays marked in the file of the actual state.
use car_integrated_service_m.Prelude.{
  Bytes, Bool, true, false, eqb_ℤ, text_eq, text_eq_iff, List, [], ◌∷◌, Option, none, some, Assoc,
  lookup, IsListing, All, ok, ◌≡◌, ◌≢◌, ◌⊎◌, inl, inr, ◌∙◌, refl, sym, ap, subst, arith,
}
use car_integrated_service_m.Config.Deployment.{
  NodeConfig, DeploymentConfig, node_state_running, node_state_stopping, node_state_stopped,
}
use car_integrated_service_m.Registry.Node.{DeploymentMessage, state_type_actual}
use car_integrated_service_m.Orchestrator.Actual.{state_of, update_actual, report}
use car_integrated_service_m.Orchestrator.Actual.Merge.{
  held_state, is_running_or_stopped, latest, report_lem,
}
use car_integrated_service_m.Orchestrator.Actual.Keeping.{
  complete, FileAccess, MapCodec, Keeper, entries_of, previous, receive_report, receive_reports,
}

-- Every map is encoded, and decoded to what it was.
abbrev pub IsFaithful : MapCodec → Type 0
IsFaithful codec =
    (d : DeploymentConfig)
    → (text : Bytes) × (codec.encode (some d) ≡ some text) × (codec.decode text ≡ (some d, false))

-- A node that is not known, or that runs.
abbrev pub IsUp : Option NodeConfig → Type 0
IsUp o = (o ≡ none) ⊎ ((n : NodeConfig) × (o ≡ some n) × (n.state ≡ node_state_running))

module _ (codec : MapCodec) (visit : DeploymentConfig → Assoc NodeConfig) (host : Bytes) where
  -- The file holds the node as stopping, and the actual states do not know that it has stopped.
  pub record IsStopping (k : Keeper) : Type 0 where
    pub written : DeploymentConfig
    pub read : previous codec visit k.file ≡ some written
    pub stopping : state_of host written ≡ node_state_stopping
    pub up : IsUp (lookup host k.actual)
    pub alive : k.crashed ≡ false

  -- What a message is decoded to, also at an error, does not hold the node as stopped, and the file is
  -- read and written without an error.
  abbrev pub IsNoStop : DeploymentMessage × FileAccess → Type 0
  IsNoStop m =
      (state_of host (entries_of (codec.decode m.0.json).0) ≢ node_state_stopped)
      × (m.1.readable ≡ true)
      × (m.1.write ≡ complete)

  latest-IsUp :
      (actual reported : DeploymentConfig)
      → IsUp (lookup host actual)
      → state_of host reported ≢ node_state_stopped
      → IsUp (latest actual reported host)
  latest-IsUp actual reported up no_stop = by_entry (lookup host reported) refl
    where
      by_entry :
          (o : Option NodeConfig) → lookup host reported ≡ o → IsUp (latest actual reported host)
      by_entry none e = rw (latest, e) up
      by_entry (some node) e = by_state (is_running_or_stopped node.state) refl
        where
          by_state :
              (b : Bool) → is_running_or_stopped node.state ≡ b → IsUp (latest actual reported host)
          by_state false f = rw (latest, e, f) up
          by_state true f =
              rw (latest, e, f)
                (inr (
                  node,
                  refl,
                  ground (
                    arith,
                    text_eq_iff node.state node_state_running,
                    text_eq_iff node.state node_state_stopped,
                  ),
                ))

  -- The state of the node in the file after a report.
  stays_stopping :
      (prev written : DeploymentConfig) (o : Option NodeConfig)
      → IsUp o
      → state_of host prev ≡ node_state_stopping
      → lookup host written ≡ (elim o [
        | none ↦ lookup host prev
        | some node ↦ some (record node { state = held_state (state_of host prev) node.state })
      ])
      → state_of host written ≡ node_state_stopping
  unfolding text_eq
  stays_stopping prev written o (inl unknown) stopping e = ground arith
  stays_stopping prev written o (inr (n, known, running)) stopping e =
      let held : held_state (state_of host prev) n.state ≡ node_state_stopping =
        ap (λ m. held_state m n.state) stopping ∙ ap (held_state node_state_stopping) running in
      ground (arith, held)

  -- What a report that can be decoded leaves.
  receive_report_kept :
      (msg : DeploymentMessage) (access : FileAccess) (k : Keeper)
      (reported : Option DeploymentConfig) (prev : DeploymentConfig)
      (next : Option DeploymentConfig) (text : Bytes)
      → eqb_ℤ msg.state_type state_type_actual ≡ true
      → codec.decode msg.json ≡ (reported, false)
      → access.readable ≡ true
      → access.write ≡ complete
      → previous codec visit k.file ≡ some prev
      → (report {E = Unit {0}} (some prev) k.actual (visit (entries_of reported)) visit).1 ≡ ok next
      → codec.encode next ≡ some text
      → ((receive_report codec visit msg access k).actual
          ≡ (report {E = Unit {0}} (some prev) k.actual (visit (entries_of reported)) visit).0)
        × ((receive_report codec visit msg access k).file ≡ some text)
        × ((receive_report codec visit msg access k).crashed ≡ false)
  unfolding receive_report
  receive_report_kept msg access k reported prev next text is_actual decoded readable writes read
        done encoded =
      (ground arith, ground arith, ground arith)

  module _ (faithful : IsFaithful codec)
      (listing : (d : DeploymentConfig) → IsListing (visit d) d) where
    reported-IsStopping :
        (msg : DeploymentMessage) (access : FileAccess) (k : Keeper)
        (reported : Option DeploymentConfig)
        → eqb_ℤ msg.state_type state_type_actual ≡ true
        → codec.decode msg.json ≡ (reported, false)
        → state_of host (entries_of reported) ≢ node_state_stopped
        → access.readable ≡ true
        → access.write ≡ complete
        → IsStopping k
        → IsStopping (receive_report codec visit msg access k)
    reported-IsStopping msg access k reported is_actual decoded no_stop readable writes held =
        let seen = entries_of reported in
        let (updated, next, done, entries) =
          report_lem held.written k.actual seen (visit seen) visit (listing seen)
            (listing (update_actual k.actual (visit seen))) in
        let (text, encoded, read_back) = faithful next in
        let (actual, file, alive) =
          receive_report_kept msg access k reported held.written (some next) text is_actual decoded
            readable writes held.read done encoded in
        let up = latest-IsUp k.actual seen held.up no_stop in
        record {
          written = next;
          read = ap (previous codec visit) file ∙ unfold previous in ap (λ r. r.0) read_back;
          stopping =
              stays_stopping held.written next (latest k.actual seen host) up held.stopping
                (entries host);
          up = subst IsUp (sym (ap (lookup host) actual ∙ updated host)) up;
          alive = alive;
        }

    receive_report-IsStopping :
        (m : DeploymentMessage × FileAccess) (k : Keeper)
        → IsNoStop m
        → IsStopping k
        → IsStopping (receive_report codec visit m.0 m.1 k)
    unfolding receive_report
    receive_report-IsStopping m k (no_stop, readable, writes) held =
        by_type (eqb_ℤ m.0.state_type state_type_actual) (codec.decode m.0.json).1 refl refl
      where
        by_type :
            (is_actual failed : Bool)
            → eqb_ℤ m.0.state_type state_type_actual ≡ is_actual
            → (codec.decode m.0.json).1 ≡ failed
            → IsStopping (receive_report codec visit m.0 m.1 k)
        by_type false failed e f = rw (receive_report, e) held
        by_type true true e f = rw (receive_report, e, f) held
        by_type true false e f =
            reported-IsStopping m.0 m.1 k (codec.decode m.0.json).0 e
              (ap (λ (b : Bool). ((codec.decode m.0.json).0, b)) f) no_stop readable writes held

    -- If every map is encoded and decoded back, every order of visits is a full one, and the file holds
    -- as stopping a node that is not known or known to run: whatever messages arrive of which none
    -- is decoded to the node being stopped, if no access to the file fails, the file still holds the
    -- node as stopping, and the central node has not crashed.
    pub receive_reports-IsStopping :
        (msgs : List (DeploymentMessage × FileAccess)) (k : Keeper)
        → All IsNoStop msgs
        → IsStopping k
        → IsStopping (receive_reports codec visit msgs k)
    unfolding receive_reports
    receive_reports-IsStopping [] k h held = held
    receive_reports-IsStopping (m ∷ msgs) k h held =
        let next = receive_report-IsStopping m k h.0 held in
        rw (receive_reports, next.alive)
          (receive_reports-IsStopping msgs (receive_report codec visit m.0 m.1 k) h.1 next)
