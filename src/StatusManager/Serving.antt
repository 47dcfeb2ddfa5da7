-- ===== src/StatusManager/Serving.antt =====
-- `Run` of cmd/carisma-status-manager/app/app.go: what the environment answers is an argument, and
-- so is what the handlers do until the server ends. The constructor of the emulated engine has no
-- error. Errors that are only logged are left out.
use car_integrated_service_m.Prelude.{
  ℕ, Bytes, codes, Bool, true, false, ◌++◌, itoa_int, itoa, Option, none, some, Outcome, ok, err,
  panic, if◌then◌else◌, ◌≡◌, refl, ◌⊎◌, inl, inr, pos, ◌≤◌, max_int, atoi, drop, atoi-itoa,
}
use car_integrated_service_m.Container.Manager.{Manager}
use car_integrated_service_m.Config.Settings.{Config, ConfigError}

module _ (mgr : Manager) where
  open mgr use {World}

  -- The new managers, and whether the files of the pages are found.
  pub record Environment : Type 0 where
    pub emulated : World
    pub connected : Option World
    pub assets : Bool

  -- The address that was served, and the state at the end if there was a manager.
  pub record Exit : Type 0 where
    pub served : Option Bytes
    pub world : Option World

  unfoldable pub container_manager : Environment → Config → Option World
  container_manager env cfg =
      if cfg.emulate_container_runtime then some env.emulated else env.connected

  unfoldable pub run : Environment → (Bytes → World → World) → Outcome ConfigError Config → Exit
  unfolding container_manager
  run env serve (err e) = record { served = none; world = none }
  run env serve panic = record { served = none; world = none }
  run env serve (ok cfg) = elim (container_manager env cfg) [
    | none ↦ record { served = none; world = none }
    | some w ↦
        let addr = codes ":" ++ itoa_int cfg.status_mgr_port in
        elim env.assets [
          | false ↦ record { served = none; world = some (mgr.close w).0 }
          | true ↦ record { served = some addr; world = some (mgr.close (serve addr w)).0 }
        ]
  ]

  -- A manager is closed, at once or when the server has ended, at the port of the settings if that
  -- is not negative; and nothing comes after.
  pub run_closes :
      (env : Environment) (serve : Bytes → World → World) (cfg : Config) (w : World) (port : ℕ)
      → container_manager env cfg ≡ some w
      → cfg.status_mgr_port ≡ pos port
      → port ≤ max_int
      → (run env serve (ok cfg) ≡ record { served = none; world = some (mgr.close w).0 })
        ⊎ ((addr : Bytes) × (run env serve (ok cfg)
              ≡ record { served = some addr; world = some (mgr.close (serve addr w)).0 })
            × (atoi (drop 1 addr) ≡ some (pos port)))
  unfolding run itoa_int itoa
  run_closes env serve cfg w port made at_port small = with_assets env.assets refl
    where
      with_assets :
          (b : Bool)
          → env.assets ≡ b
          → (run env serve (ok cfg) ≡ record { served = none; world = some (mgr.close w).0 })
            ⊎ ((addr : Bytes) × (run env serve (ok cfg)
                  ≡ record { served = some addr; world = some (mgr.close (serve addr w)).0 })
                × (atoi (drop 1 addr) ≡ some (pos port)))
      with_assets false found = inl (rw (run, made, found) refl)
      with_assets true found = inr (
        codes ":" ++ itoa_int cfg.status_mgr_port,
        rw (run, made, found) refl,
        rw (at_port, itoa_int) (atoi-itoa port small),
      )
