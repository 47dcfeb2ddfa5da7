-- ===== src/Tests/Waits.antt =====
-- Waiting for a file at concrete inputs.
use car_integrated_service_m.Prelude.{ℕ, ltb, if◌then◌else◌, some, true, ◌≡◌, arith}
use car_integrated_service_m.Watcher.{Stat, found, missing, wait_until_find}
use car_integrated_service_m.Watcher.Waiting.{wait_until_find_lem}

-- The file appears at the third look.
abbrev late : ℕ → Stat
late i = if ltb i 2 then missing else found

wait_until_find_lem_test : wait_until_find late 5 ≡ some true
wait_until_find_lem_test = wait_until_find_lem 2 5 late (λ j h. ground arith) (λ e. cc)
