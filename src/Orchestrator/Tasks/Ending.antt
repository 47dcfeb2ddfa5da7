-- ===== src/Orchestrator/Tasks/Ending.antt =====
-- Tasks end, whatever the container manager answers.
use mathlib.Core.WellFounded.{Acc}
use car_integrated_service_m.Prelude.{
  ℕ, zero, suc, ◌+◌, ◌*◌, ◌<◌, total, total-replaced, length, [], ◌∷◌, ◌++◌, false, ◌≡◌, ◌⊎◌, inl,
  inr, refl, ap, subst, arith,
}
use car_integrated_service_m.Container.Manager.{Manager}
use car_integrated_service_m.Container.Reference.{ParseNormalized}
use car_integrated_service_m.Config.Settings.{Config}
use car_integrated_service_m.Config.Deployment.{NodeConfig}
use car_integrated_service_m.Orchestrator.{diff}
use car_integrated_service_m.Orchestrator.Tasks.{
  Position, fresh, removing, retrying, installing, finished, is_finished, Task, advance_fresh,
  advance, Tasks, Step, advancing,
}

module _ (mgr : Manager) (parse : ParseNormalized) (cfg : Config) where
  -- Whether a task has not listed the containers yet, and the steps that it then has before it.
  abbrev is_fresh : Position mgr → ℕ
  is_fresh (fresh n) = 1
  is_fresh p = 0

  abbrev steps_left : Position mgr → ℕ
  steps_left (fresh n) = 0
  steps_left (removing is curr wanted) = 2 * length is + length (diff curr wanted) + 2
  steps_left (retrying i is curr wanted) = 2 * length is + length (diff curr wanted) + 3
  steps_left (installing is) = length is + 1
  steps_left (finished r) = 0

  -- A task is a step nearer to its end: it has listed, or it has one step less before it.
  abbrev IsNearer : Position mgr → Position mgr → Type 0
  IsNearer p q =
      ((is_fresh p ≡ 1) × (is_fresh q ≡ 0))
      ⊎ ((is_fresh p ≡ 0) × (is_fresh q ≡ 0) × (steps_left q < steps_left p))

  advance_fresh-IsNearer :
      (w : mgr.World) (n : NodeConfig) → is_fresh (advance_fresh mgr parse cfg w n).1 ≡ 0
  unfolding advance_fresh
  advance_fresh-IsNearer w n = ground arith

  advance-IsNearer :
      (w : mgr.World) (p : Position mgr)
      → is_finished mgr p ≡ false
      → IsNearer p (advance mgr parse cfg w p).1
  unfolding advance
  advance-IsNearer w (fresh n) live = inl (refl, advance_fresh-IsNearer w n)
  advance-IsNearer w (removing [] curr wanted) live = inr (refl, refl, omega arith)
  advance-IsNearer w (removing (i ∷ is) curr wanted) live = ground arith
  advance-IsNearer w (retrying i is curr wanted) live = inr (refl, refl, omega arith)
  advance-IsNearer w (installing []) live = inr (refl, refl, omega arith)
  advance-IsNearer w (installing (i ∷ is)) live = ground arith
  advance-IsNearer w (finished r) live = absurd (cc)

  abbrev fresh_tasks : Tasks mgr → ℕ
  fresh_tasks s = total (λ t. is_fresh t.position) s.tasks

  abbrev all_steps : Tasks mgr → ℕ
  all_steps s = total (λ t. steps_left t.position) s.tasks

  Step-falls :
      (s u : Tasks mgr)
      → Step mgr parse cfg s u
      → (fresh_tasks u < fresh_tasks s)
        ⊎ ((fresh_tasks u ≡ fresh_tasks s) × (all_steps u < all_steps s))
  Step-falls s _ (advancing before after t w p calls at live e) =
      let t' : Task mgr = record { position = p; calls = t.calls ++ calls } in
      let nearer : IsNearer t.position p =
        subst (λ r. IsNearer t.position r.1) e (advance-IsNearer s.world t.position live) in
      let fresh_before = ap (total (λ (v : Task mgr). is_fresh v.position)) at in
      let fresh_after = total-replaced (λ (v : Task mgr). is_fresh v.position) before after t t' in
      let steps_before = ap (total (λ (v : Task mgr). steps_left v.position)) at in
      let steps_after =
        total-replaced (λ (v : Task mgr). steps_left v.position) before after t t' in
      elim nearer [
        | inl (was, now) ↦ inl (omega (arith, was, now, fresh_before, fresh_after))
        | inr (was, now, fewer) ↦ inr (
          omega (arith, was, now, fresh_before, fresh_after),
          omega (arith, fewer, steps_before, steps_after),
        )
      ]

  -- Tasks on one container manager, whatever it answers and in whatever order they go on, do not go on
  -- for ever: each sequence of steps ends.
  pub tasks_end : (s : Tasks mgr) → Acc (λ u v. Step mgr parse cfg v u) s
  tasks_end s = by_measure (fresh_tasks s + 1) (all_steps s + 1) s (omega arith) (omega arith)
    where
      by_measure :
          (n m : ℕ) (v : Tasks mgr)
          → fresh_tasks v < n
          → all_steps v < m
          → Acc (λ u w. Step mgr parse cfg w u) v
      by_measure zero m v few low = absurd (omega arith)
      by_measure (suc n) zero v few low = absurd (omega arith)
      by_measure (suc n) (suc m) v few low = Acc.intro v (λ u st. elim (Step-falls v u st) [
        | inl listed ↦ by_measure n (all_steps u + 1) u (omega arith) (omega arith)
        | inr (same, lower) ↦ by_measure (suc n) m u (omega arith) (omega arith)
      ])
