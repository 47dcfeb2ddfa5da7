-- ===== src/ControlPlane/Exclusion.antt =====
-- The mutex has one holder at most.
use car_integrated_service_m.Prelude.{total, total-replaced, ℕ, ◌+◌, ◌≡◌, ap, arith, if◌then◌else◌}
use car_integrated_service_m.ControlPlane.{
  nodes, services, Call, waiting, holding, sending, returned, Loop, working, ControlPlane,
  after_snapshots, Step, call_locks, call_unlocks, delivers, loop_locks, loop_unlocks, Run, here,
  next,
}

abbrev pub holds : Call → ℕ
holds (holding k) = 1
holds c = 0

abbrev pub works : Loop → ℕ
works working = 1
works l = 0

abbrev pub holders : ControlPlane → ℕ
holders p = total holds p.calls + works p.nodes_loop + works p.services_loop

-- The mutex is locked if and only if one goroutine holds it, and no two do.
abbrev pub IsExclusive : ControlPlane → Type 0
IsExclusive p = holders p ≡ (if p.locked then 1 else 0)

Step-IsExclusive : (p q : ControlPlane) → Step p q → IsExclusive p → IsExclusive q
Step-IsExclusive p _ (call_locks before after k at free) h =
    ground (arith, ap (total holds) at, total-replaced holds before after (waiting k) (holding k))
Step-IsExclusive p _ (call_unlocks before after k at) h =
    ground (arith, ap (total holds) at, total-replaced holds before after (holding k) (sending k))
Step-IsExclusive p _ (delivers before after nodes at waits) h =
    ground (arith, ap (total holds) at, total-replaced holds before after (sending nodes) returned)
Step-IsExclusive p _ (delivers before after services at waits) h =
    ground
      (arith, ap (total holds) at, total-replaced holds before after (sending services) returned)
Step-IsExclusive p _ (loop_locks nodes wants free) h = ground arith
Step-IsExclusive p _ (loop_locks services wants free) h = ground arith
Step-IsExclusive p _ (loop_unlocks nodes failed busy) h = unfold after_snapshots in ground arith
Step-IsExclusive p _ (loop_unlocks services failed busy) h = unfold after_snapshots in ground arith

pub Run-IsExclusive : (p q : ControlPlane) (n : ℕ) → Run p n q → IsExclusive p → IsExclusive q
Run-IsExclusive p _ _ here h = h
Run-IsExclusive p q _ (next {q = o} n r s) h = Step-IsExclusive o q s (Run-IsExclusive p o n r h)
