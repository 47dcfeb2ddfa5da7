-- ===== src/ControlPlane.antt =====
-- cmd/carisma-control-plane/app/app.go gives the two registries the mutex and the channels of the xDS
-- server. Here are the goroutines around them, reduced to where they wait: the calls of `Register`
-- (pkg/registry/node_regisry.go), `registerService` and `unregisterService` (service_regisry.go), and
-- the two loops of `RegisterServer` (xds/server.go). What they do between two such points is modelled
-- in Registry and Xds. The channels have no buffer, so a send and its receive are one step. Readers of
-- the mutex hold it for a step only and are left out.
pub mod Exclusion
pub mod Progress
pub mod Blocking
pub mod Serving
use car_integrated_service_m.Prelude.{
  ℕ, suc, Bool, true, false, List, ◌∷◌, ◌++◌, ◌≡◌, if◌then◌else◌,
}

-- The channels of the xDS server.
pub data Kind : Type 0 where
  nodes services : Kind

-- A call waits for the mutex, holds it, waits for its send, or has returned.
pub data Call : Type 0 where
  waiting holding sending : Kind → Call
  returned : Call

-- A loop waits for a message, has one and waits for the mutex, holds it, or has ended.
pub data Loop : Type 0 where
  receiving wanting working ended : Loop

pub record ControlPlane : Type 0 where
  pub locked : Bool
  pub nodes_loop : Loop
  pub services_loop : Loop
  pub calls : List Call

abbrev pub loop_of : ControlPlane → Kind → Loop
loop_of p nodes = p.nodes_loop
loop_of p services = p.services_loop

abbrev pub with_loop : ControlPlane → Kind → Loop → ControlPlane
with_loop p nodes l = record p { nodes_loop = l }
with_loop p services l = record p { services_loop = l }

-- Where a loop goes on after `generateSnapshots`, by whether there was an error.
unfoldable pub after_snapshots : Bool → Loop
after_snapshots failed = if failed then ended else receiving

pub data Step (p : ControlPlane) : ControlPlane → Type 0 where
  -- `s.mu.Lock()`
  call_locks :
      (before after : List Call) (k : Kind)
      → p.calls ≡ before ++ waiting k ∷ after
      → p.locked ≡ false
      → Step p (record p { locked = true; calls = before ++ holding k ∷ after })
  -- `s.mu.Unlock()`, before the send
  call_unlocks :
      (before after : List Call) (k : Kind)
      → p.calls ≡ before ++ holding k ∷ after
      → Step p (record p { locked = false; calls = before ++ sending k ∷ after })
  -- the send, which the loop receives
  delivers :
      (before after : List Call) (k : Kind)
      → p.calls ≡ before ++ sending k ∷ after
      → loop_of p k ≡ receiving
      → Step p (with_loop (record p { calls = before ++ returned ∷ after }) k wanting)
  -- `x.mu.Lock()`
  loop_locks :
      (k : Kind)
      → loop_of p k ≡ wanting
      → p.locked ≡ false
      → Step p (with_loop (record p { locked = true }) k working)
  -- `x.mu.Unlock()`, after which an error ends the loop
  loop_unlocks :
      (k : Kind) (failed : Bool)
      → loop_of p k ≡ working
      → Step p (with_loop (record p { locked = false }) k (after_snapshots failed))

-- A run with its number of steps.
pub data Run (p : ControlPlane) : ℕ → ControlPlane → Type 0 where
  here : Run p 0 p
  next : {q r : ControlPlane} (n : ℕ) → Run p n q → Step q r → Run p (suc n) r
