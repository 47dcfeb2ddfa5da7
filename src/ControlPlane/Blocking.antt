-- ===== src/ControlPlane/Blocking.antt =====
-- Calls that wait for a loop that has ended.
use car_integrated_service_m.Prelude.{
  total, total-replaced, ℕ, true, false, ◌≡◌, refl, ap, ◌∙◌, arith,
}
use car_integrated_service_m.ControlPlane.{
  Kind, nodes, services, Call, waiting, holding, sending, returned, ended, ControlPlane, loop_of,
  with_loop, after_snapshots, Step, call_locks, call_unlocks, delivers, loop_locks, loop_unlocks,
  Run, here, next,
}

abbrev same : Kind → Kind → ℕ
same nodes nodes = 1
same services services = 1
same j k = 0

-- Whether a call is for the loop and has not returned.
abbrev pub is_pending : Kind → Call → ℕ
is_pending k (waiting j) = same k j
is_pending k (holding j) = same k j
is_pending k (sending j) = same k j
is_pending k returned = 0

abbrev StaysPending : Kind → ControlPlane → ControlPlane → Type 0
StaysPending k p q =
    (loop_of q k ≡ ended) × (total (is_pending k) q.calls ≡ total (is_pending k) p.calls)

Step-StaysPending :
    (k : Kind) (p q : ControlPlane) → Step p q → loop_of p k ≡ ended → StaysPending k p q
Step-StaysPending nodes p _ (call_locks before after j at free) h = (
  h,
  ground (
    arith,
    ap (total (is_pending nodes)) at,
    total-replaced (is_pending nodes) before after (waiting j) (holding j),
  ),
)
Step-StaysPending services p _ (call_locks before after j at free) h = (
  h,
  ground (
    arith,
    ap (total (is_pending services)) at,
    total-replaced (is_pending services) before after (waiting j) (holding j),
  ),
)
Step-StaysPending nodes p _ (call_unlocks before after j at) h = (
  h,
  ground (
    arith,
    ap (total (is_pending nodes)) at,
    total-replaced (is_pending nodes) before after (holding j) (sending j),
  ),
)
Step-StaysPending services p _ (call_unlocks before after j at) h = (
  h,
  ground (
    arith,
    ap (total (is_pending services)) at,
    total-replaced (is_pending services) before after (holding j) (sending j),
  ),
)
Step-StaysPending nodes p _ (delivers before after nodes at waits) h = absurd (cc)
Step-StaysPending services p _ (delivers before after services at waits) h = absurd (cc)
Step-StaysPending nodes p _ (delivers before after services at waits) h = (
  h,
  ground (
    arith,
    ap (total (is_pending nodes)) at,
    total-replaced (is_pending nodes) before after (sending services) returned,
  ),
)
Step-StaysPending services p _ (delivers before after nodes at waits) h = (
  h,
  ground (
    arith,
    ap (total (is_pending services)) at,
    total-replaced (is_pending services) before after (sending nodes) returned,
  ),
)
Step-StaysPending nodes p _ (loop_locks nodes wants free) h = absurd (cc)
Step-StaysPending services p _ (loop_locks services wants free) h = absurd (cc)
Step-StaysPending nodes p _ (loop_locks services wants free) h = (h, refl)
Step-StaysPending services p _ (loop_locks nodes wants free) h = (h, refl)
Step-StaysPending nodes p _ (loop_unlocks nodes failed busy) h = absurd (cc)
Step-StaysPending services p _ (loop_unlocks services failed busy) h = absurd (cc)
Step-StaysPending nodes p _ (loop_unlocks services failed busy) h = (h, refl)
Step-StaysPending services p _ (loop_unlocks nodes failed busy) h = (h, refl)

Run-StaysPending :
    (k : Kind) (p q : ControlPlane) (n : ℕ) → Run p n q → loop_of p k ≡ ended → StaysPending k p q
Run-StaysPending k p _ _ here h = (h, refl)
Run-StaysPending k p r _ (next {q = q} n run s) h =
    let (still, same_calls) = Run-StaysPending k p q n run h in
    let (ends, kept) = Step-StaysPending k q r s still in (ends, kept ∙ same_calls)

-- Once one of the loops gets an error where it makes the snapshots, no call that sends to it ever
-- returns: however the goroutines go on, as many as before are pending, and the loop has ended.
pub ended_blocks :
    (k : Kind) (p r : ControlPlane) (n : ℕ)
    → Run (with_loop (record p { locked = false }) k (after_snapshots true)) n r
    → (loop_of r k ≡ ended) × (total (is_pending k) r.calls ≡ total (is_pending k) p.calls)
unfolding after_snapshots
ended_blocks nodes p r n run =
    Run-StaysPending nodes (record p { locked = false; nodes_loop = ended }) r n run refl
ended_blocks services p r n run =
    Run-StaysPending services (record p { locked = false; services_loop = ended }) r n run refl
