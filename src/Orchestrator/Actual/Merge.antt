-- ===== src/Orchestrator/Actual/Merge.antt =====
-- The actual state of the nodes after a report.
use car_integrated_service_m.Prelude.{
  Bytes, codes, text_eq, Bool, ◌&&◌, ◌||◌, text_eq_iff, [], ◌∷◌, Option, none, some, Assoc, lookup,
  insert, lookup-insert, IsUnique, IsListing, if◌then◌else◌, ok, panic, ◌≡◌, ◌∙◌, refl, sym, ap,
  arith,
}
use car_integrated_service_m.Config.Deployment.{NodeState, NodeConfig, DeploymentConfig}
use car_integrated_service_m.Orchestrator.Actual.{
  is_reported, update_actual, state_of, settle, merge_into, merge, report,
}

lookup-update :
    (actual : DeploymentConfig) (visit : Assoc NodeConfig) (k : Bytes)
    → IsUnique visit
    → lookup k (update_actual actual visit) ≡ (elim (lookup k visit) [
      | none ↦ lookup k actual
      | some node ↦ if is_reported node.state then some node else lookup k actual
    ])
unfolding update_actual lookup
lookup-update actual [] k u = refl
lookup-update actual ((hostname, node) ∷ visit) k u = ground (
  arith,
  lookup-update (insert hostname node actual) visit k u.1,
  lookup-update actual visit k u.1,
  lookup-insert hostname k node actual,
  text_eq_iff hostname k,
  u.0,
)

lookup-merge :
    (prev : DeploymentConfig) (visit : Assoc NodeConfig) (k : Bytes)
    → IsUnique visit
    → lookup k (merge_into prev visit) ≡ (elim (lookup k visit) [
      | none ↦ lookup k prev
      | some node ↦ some (settle (state_of k prev) node)
    ])
unfolding merge_into lookup
lookup-merge prev [] k u = refl
lookup-merge prev ((hostname, node) ∷ visit) k u =
    let new = settle (state_of hostname prev) node in
    ground (
      arith,
      lookup-merge (insert hostname new prev) visit k u.1,
      lookup-insert hostname k new prev,
      text_eq_iff hostname k,
      u.0,
    )

-- The state in which a node is held that is marked with a state in the file: one that is stopping
-- and reported as running stays so, and so does one that is starting and reported as stopped.
abbrev pub held_state : NodeState → NodeState → NodeState
held_state marked state =
    if text_eq marked (codes "stopping") && text_eq state (codes "running")
    then codes "stopping"
    else if text_eq marked (codes "starting") && text_eq state (codes "stopped")
    then codes "starting"
    else state

settle_lem :
    (marked : NodeState) (node : NodeConfig)
    → settle marked node ≡ record node { state = held_state marked node.state }
unfolding settle
settle_lem marked node = ground arith

abbrev pub is_running_or_stopped : NodeState → Bool
is_running_or_stopped state = text_eq state (codes "running") || text_eq state (codes "stopped")

-- The state of a node that counts after a report: the reported one, if the node is reported as
-- running or stopped, and else the one before.
abbrev pub latest : DeploymentConfig → DeploymentConfig → Bytes → Option NodeConfig
latest actual reported k = elim (lookup k reported) [
  | none ↦ lookup k actual
  | some node ↦ if is_running_or_stopped node.state then some node else lookup k actual
]

module _ (prev actual reported : DeploymentConfig) (visit : Assoc NodeConfig)
    (order : DeploymentConfig → Assoc NodeConfig) where
  -- In any order of the visits, a report changes the actual state of exactly the nodes that it
  -- reports as running or stopped; and it writes, over the previous configuration, the state that
  -- counts for each node, held at stopping until the node has stopped, and at starting until it runs.
  pub report_lem :
      IsListing visit reported
      → IsListing (order (update_actual actual visit)) (update_actual actual visit)
      → ((k : Bytes)
          → lookup k (report {E = Unit {0}} (some prev) actual visit order).0
            ≡ latest actual reported k)
        × (written : DeploymentConfig) × ((report {E = Unit {0}} (some prev) actual visit order).1
            ≡ ok (some written))
        × ((k : Bytes)
            → lookup k written ≡ (elim (latest actual reported k) [
              | none ↦ lookup k prev
              | some node ↦ some (record node { state = held_state (state_of k prev) node.state })
            ]))
  unfolding report merge is_reported
  report_lem listing listing' = (
    updated,
    merge_into prev (order (update_actual actual visit)),
    refl,
    λ k.
        lookup-merge prev (order (update_actual actual visit)) k listing'.unique
        ∙ ap (held_entry k) (listing'.same k ∙ updated k)
        ∙ settled k (latest actual reported k),
  )
    where
      held_entry : Bytes → Option NodeConfig → Option NodeConfig
      held_entry k o = elim o [
        | none ↦ lookup k prev
        | some node ↦ some (settle (state_of k prev) node)
      ]

      settled :
          (k : Bytes) (o : Option NodeConfig)
          → held_entry k o ≡ (elim o [
            | none ↦ lookup k prev
            | some node ↦ some (record node { state = held_state (state_of k prev) node.state })
          ])
      settled k none = refl
      settled k (some node) = ap some (settle_lem (state_of k prev) node)

      updated : (k : Bytes) → lookup k (update_actual actual visit) ≡ latest actual reported k
      updated k = ground (arith, lookup-update actual visit k listing.unique, listing.same k)

  -- If what was read from the file is no map, as when it cannot be decoded, a report after which some
  -- node is known ends in a panic.
  pub report_panics :
      IsListing (order (update_actual actual visit)) (update_actual actual visit)
      → (k : Bytes) (node : NodeConfig) → lookup k (update_actual actual visit) ≡ some node
      → (report {E = Unit {0}} none actual visit order).1 ≡ panic
  unfolding report lookup
  report_panics listing k node known = by_visit (order (update_actual actual visit)) refl
    where
      by_visit :
          (entries : Assoc NodeConfig)
          → order (update_actual actual visit) ≡ entries
          → merge {E = Unit {0}} none (order (update_actual actual visit)) ≡ panic
      by_visit [] e =
          let absent : lookup k [] ≡ some node = ap (lookup k) (sym e) ∙ listing.same k ∙ known in
          cc
      by_visit (entry ∷ entries) e = ap (merge none) e
