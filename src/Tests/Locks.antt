-- ===== src/Tests/Locks.antt =====
-- The mutex and the channels of the control plane in concrete runs.
use car_integrated_service_m.Prelude.{total, true, [], ◌∷◌, All, ◌≡◌, ◌⊎◌, refl}
use car_integrated_service_m.ControlPlane.{
  nodes, services, waiting, holding, sending, returned, receiving, wanting, working, ended,
  ControlPlane, after_snapshots, Step, call_locks, call_unlocks, delivers, Run, here, next,
}
use car_integrated_service_m.ControlPlane.Exclusion.{holders, Run-IsExclusive}
use car_integrated_service_m.ControlPlane.Progress.{start, no_deadlock}
use car_integrated_service_m.ControlPlane.Blocking.{is_pending, ended_blocks}

-- A service is announced while a node registers: the call for the service has sent, and the other
-- holds the mutex that the services loop waits for.
abbrev contended : ControlPlane
contended = record {
  locked = true;
  nodes_loop = receiving;
  services_loop = wanting;
  calls = holding nodes ∷ returned ∷ [];
}

Run-contended : Run (start (nodes ∷ services ∷ [])) 4 contended
Run-contended =
    next 3
      (next 2
        (next 1 (next 0 here (call_locks (waiting nodes ∷ []) [] services refl refl))
          (call_unlocks (waiting nodes ∷ []) [] services refl))
        (delivers (waiting nodes ∷ []) [] services refl refl))
      (call_locks [] (returned ∷ []) nodes refl refl)

no_deadlock_example :
    All (λ c. c ≡ returned) contended.calls ⊎ ((r : ControlPlane) × Step contended r)
no_deadlock_example =
    no_deadlock (nodes ∷ services ∷ []) contended 4 Run-contended (λ e. cc) (λ e. cc)

Run-IsExclusive_test : holders contended ≡ 1
Run-IsExclusive_test =
    Run-IsExclusive (start (nodes ∷ services ∷ [])) contended 4 Run-contended refl

-- The services loop is about to end, and a call waits to send to it.
abbrev failing : ControlPlane
failing = record {
  locked = true;
  nodes_loop = receiving;
  services_loop = working;
  calls = sending services ∷ waiting nodes ∷ [];
}

abbrev blocked : ControlPlane
blocked = record {
  locked = true;
  nodes_loop = receiving;
  services_loop = ended;
  calls = sending services ∷ holding nodes ∷ [];
}

ended_blocks_example :
    (blocked.services_loop ≡ ended)
    × (total (is_pending services) blocked.calls ≡ total (is_pending services) failing.calls)
unfolding after_snapshots
ended_blocks_example =
    ended_blocks services failing blocked 1
      (next 0 here (call_locks (sending services ∷ []) [] nodes refl refl))
