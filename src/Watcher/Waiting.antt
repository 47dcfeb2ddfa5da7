-- ===== src/Watcher/Waiting.antt =====
-- When `waitUntilFind` returns.
use car_integrated_service_m.Prelude.{
  ℕ, zero, suc, leb, if◌then◌else◌, ◌<◌, Bool, true, false, Option, none, some, ◌≡◌, ◌≢◌, refl,
  arith,
}
use car_integrated_service_m.Watcher.{Stat, found, missing, failed, wait_until_find}

-- What a round returns, if it does not go on.
abbrev pub verdict : Stat → Option Bool
verdict found = some true
verdict failed = some false
verdict missing = none

-- Waiting for a file ends with the first answer other than that the file is missing, on any fuel
-- beyond it: it has found the file, or an error. Up to that answer it goes on.
pub wait_until_find_lem :
    (k fuel : ℕ) (stat : ℕ → Stat)
    → ((j : ℕ) → j < k → stat j ≡ missing)
    → stat k ≢ missing
    → wait_until_find stat fuel ≡ (if leb fuel k then none else verdict (stat k))
unfolding wait_until_find
wait_until_find_lem k zero stat before stop = ground arith
wait_until_find_lem zero (suc fuel) stat before stop = by_answer (stat 0) refl
  where
    by_answer :
        (a : Stat)
        → stat 0 ≡ a
        → wait_until_find stat (suc fuel) ≡ (if leb (suc fuel) 0 then none else verdict (stat 0))
    by_answer missing e = absurd (stop e)
    by_answer found e = ground (arith, e)
    by_answer failed e = ground (arith, e)
wait_until_find_lem (suc k) (suc fuel) stat before stop =
    let later =
      wait_until_find_lem k fuel (λ j. stat (suc j)) (λ j h. before (suc j) (omega arith)) stop in
    ground (arith, before 0 (omega arith), later)
