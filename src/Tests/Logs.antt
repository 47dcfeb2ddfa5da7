-- ===== src/Tests/Logs.antt =====
-- The log at concrete inputs.
use car_integrated_service_m.Prelude.{
  ltb_ℤ, not, pos, codes, [], ◌∷◌, ◌≡◌, refl, some, ℤ, Bool, itoa_int, last_index, last_index-Lacks,
}
use car_integrated_service_m.Logging.{Levels, Logger, marshal_caller, log_err, log_dbg}
use car_integrated_service_m.Logging.Callers.{marshal_caller_lem}
use car_integrated_service_m.Logging.Outputs.{log_lem}

abbrev levels : Levels
levels = record { debug = pos 0; info = pos 1; warn = pos 2; error = pos 3 }

abbrev enabled : ℤ → ℤ → Bool
enabled global level = not (ltb_ℤ level global)

abbrev logger : Logger levels (λ s. s) enabled
logger = record {
  global_level = pos 1;
  writer = record { inf_out = codes "up" ∷ []; err_out = [] };
}

log_lem_test : (log_dbg levels (λ s. s) enabled (codes "tick") logger ≡ logger)
log_lem_test =
    (log_lem levels (λ s. s) enabled logger (codes "tick") (codes "bad")
      (refl, refl, refl, refl, refl) (λ global level. refl)).2

log_err_test :
    (log_err levels (λ s. s) enabled (some (codes "bad")) logger).writer
    ≡ record { inf_out = codes "up" ∷ []; err_out = codes "bad" ∷ [] }
unfolding log_err
log_err_test = refl

marshal_caller_test : marshal_caller (codes "pkg/io/file.go") (pos 12) ≡ codes "file.go:12"
unfolding itoa_int
marshal_caller_test =
    (marshal_caller_lem b'p' (codes "kg/io") (codes "file.go") (pos 12)
      (last_index-Lacks b'/' (codes "file.go") (unfold last_index in refl))).0

-- A slash at the start is kept.
marshal_caller_rooted : marshal_caller (codes "/a.go") (pos 3) ≡ codes "/a.go:3"
unfolding marshal_caller itoa_int
marshal_caller_rooted = refl
