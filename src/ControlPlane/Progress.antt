-- ===== src/ControlPlane/Progress.antt =====
-- Calls of the registries end, as long as the loops of the xDS server go on.
use car_integrated_service_m.Prelude.{
  total, ℕ, ◌+◌, ◌<◌, false, List, [], ◌∷◌, ◌++◌, map, All, ◌≡◌, ◌≢◌, ◌⊎◌, inl, inr, refl, sym, ◌∙◌,
  arith, append_assoc, Bool-cases,
}
use car_integrated_service_m.ControlPlane.{
  Kind, nodes, services, Call, waiting, holding, sending, returned, Loop, receiving, wanting,
  working, ended, ControlPlane, loop_of, Step, call_locks, call_unlocks, delivers, loop_locks,
  loop_unlocks, Run,
}
use car_integrated_service_m.ControlPlane.Exclusion.{
  holds, works, holders, IsExclusive, Run-IsExclusive,
}

-- Calls that begin while the loops wait for messages.
abbrev pub start : List Kind → ControlPlane
start ks = record {
  locked = false;
  nodes_loop = receiving;
  services_loop = receiving;
  calls = map waiting ks;
}

-- The steps that a call and a loop have before them.
abbrev pub call_steps : Call → ℕ
call_steps (waiting k) = 5
call_steps (holding k) = 4
call_steps (sending k) = 3
call_steps returned = 0

abbrev pub loop_steps : Loop → ℕ
loop_steps wanting = 2
loop_steps working = 1
loop_steps l = 0

abbrev pub steps_left : ControlPlane → ℕ
steps_left p = total call_steps p.calls + loop_steps p.nodes_loop + loop_steps p.services_loop

abbrev CanStep : ControlPlane → Type 0
CanStep p = (q : ControlPlane) × Step p q

-- The calls from some place on.
past :
    (p : ControlPlane) (before : List Call) (c : Call) (calls : List Call)
    → p.calls ≡ before ++ c ∷ calls
    → p.calls ≡ (before ++ c ∷ []) ++ calls
past p before c calls e = e ∙ sym (append_assoc before (c ∷ []) calls)

-- A call that holds the mutex gives it back.
holding-CanStep :
    (p : ControlPlane) (before calls : List Call)
    → p.calls ≡ before ++ calls
    → 0 < total holds calls
    → CanStep p
holding-CanStep p before [] e held = absurd (omega arith)
holding-CanStep p before (holding k ∷ calls) e held = (_, call_unlocks before calls k e)
holding-CanStep p before (waiting k ∷ calls) e held =
    holding-CanStep p (before ++ waiting k ∷ []) calls (past p before (waiting k) calls e)
      (omega arith)
holding-CanStep p before (sending k ∷ calls) e held =
    holding-CanStep p (before ++ sending k ∷ []) calls (past p before (sending k) calls e)
      (omega arith)
holding-CanStep p before (returned ∷ calls) e held =
    holding-CanStep p (before ++ returned ∷ []) calls (past p before returned calls e) (omega arith)

Loop-cases : (l : Loop) → (l ≡ working) ⊎ (works l ≡ 0)
Loop-cases receiving = inr refl
Loop-cases wanting = inr refl
Loop-cases working = inl refl
Loop-cases ended = inr refl

-- Whoever holds the mutex gives it back.
held-CanStep : (p : ControlPlane) → 0 < holders p → CanStep p
held-CanStep p held = elim (Loop-cases p.nodes_loop) [
  | inl busy ↦ (_, loop_unlocks nodes false busy)
  | inr idle ↦ elim (Loop-cases p.services_loop) [
    | inl busy ↦ (_, loop_unlocks services false busy)
    | inr idle' ↦ holding-CanStep p [] p.calls refl (omega arith)
  ]
]

-- Who waits for the mutex goes on, or its holder.
locking-CanStep : (p : ControlPlane) → IsExclusive p → (p.locked ≡ false → CanStep p) → CanStep p
locking-CanStep p exclusive free = elim (Bool-cases p.locked) [
  | inl locked ↦ held-CanStep p (ground arith)
  | inr unlocked ↦ free unlocked
]

-- A loop that a call waits for receives the call's message, or goes on to where it does.
sending-CanStep :
    (p : ControlPlane) (before after : List Call) (k : Kind) (l : Loop)
    → IsExclusive p
    → p.calls ≡ before ++ sending k ∷ after
    → loop_of p k ≡ l
    → l ≢ ended
    → CanStep p
sending-CanStep p before after k receiving exclusive e at alive = (_, delivers before after k e at)
sending-CanStep p before after k wanting exclusive e at alive =
    locking-CanStep p exclusive (λ free. (_, loop_locks k at free))
sending-CanStep p before after k working exclusive e at alive = (_, loop_unlocks k false at)
sending-CanStep p before after k ended exclusive e at alive = absurd (alive refl)

loop_of-alive :
    (p : ControlPlane) (k : Kind)
    → p.nodes_loop ≢ ended
    → p.services_loop ≢ ended
    → loop_of p k ≢ ended
loop_of-alive p nodes n s = n
loop_of-alive p services n s = s

calls-CanStep :
    (p : ControlPlane) (before calls : List Call)
    → IsExclusive p
    → p.nodes_loop ≢ ended
    → p.services_loop ≢ ended
    → p.calls ≡ before ++ calls
    → All (λ c. c ≡ returned) calls ⊎ CanStep p
calls-CanStep p before [] exclusive n s e = inl tt
calls-CanStep p before (waiting k ∷ calls) exclusive n s e =
    inr (locking-CanStep p exclusive (λ free. (_, call_locks before calls k e free)))
calls-CanStep p before (holding k ∷ calls) exclusive n s e = inr (_, call_unlocks before calls k e)
calls-CanStep p before (sending k ∷ calls) exclusive n s e =
    inr (sending-CanStep p before calls k (loop_of p k) exclusive e refl (loop_of-alive p k n s))
calls-CanStep p before (returned ∷ calls) exclusive n s e =
    elim (calls-CanStep p (before ++ returned ∷ []) calls exclusive n s
      (past p before returned calls e)) [ inl all ↦ inl (refl, all) | inr go ↦ inr go ]

start-IsExclusive : (ks : List Kind) → total holds (map waiting ks) ≡ 0
start-IsExclusive [] = refl
start-IsExclusive (k ∷ ks) = omega (arith, start-IsExclusive ks)

-- There is no deadlock: however the goroutines are interleaved, as long as neither loop has ended,
-- all calls have returned or some goroutine can go on.
pub no_deadlock :
    (ks : List Kind) (q : ControlPlane) (n : ℕ)
    → Run (start ks) n q
    → q.nodes_loop ≢ ended
    → q.services_loop ≢ ended
    → All (λ c. c ≡ returned) q.calls ⊎ ((r : ControlPlane) × Step q r)
no_deadlock ks q n r nodes_alive services_alive =
    calls-CanStep q [] q.calls
      (Run-IsExclusive (start ks) q n r (omega (arith, start-IsExclusive ks))) nodes_alive
      services_alive refl
