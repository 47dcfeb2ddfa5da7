-- ===== src/Logging/Outputs.antt =====
-- Where the texts that are logged go.
use car_integrated_service_m.Prelude.{
  ℤ, ltb_ℤ, Bool, not, Bytes, [], ◌∷◌, ◌++◌, some, true, false, ◌≡◌, refl, arith,
}
use car_integrated_service_m.Logging.{
  Levels, Logger, write_level, log, log_dbg, log_err, enable_debug_logs,
}

ltb_ℤ_irrefl : (z : ℤ) → ltb_ℤ z z ≡ false
ltb_ℤ_irrefl z = ground arith

-- The levels are in order, and errors are above the warnings.
abbrev pub IsOrdered : Levels → Type 0
IsOrdered l =
    (ltb_ℤ l.debug l.info ≡ true)
    × (ltb_ℤ l.warn l.debug ≡ false)
    × (ltb_ℤ l.warn l.info ≡ false)
    × (ltb_ℤ l.warn l.error ≡ true)
    × (ltb_ℤ l.error l.debug ≡ false)

-- A message below the global level is dropped, as zerolog documents.
abbrev pub IsDocumented : (ℤ → ℤ → Bool) → Type 0
IsDocumented enabled = (global level : ℤ) → enabled global level ≡ not (ltb_ℤ level global)

module _ (levels : Levels) (render : Bytes → Bytes) (enabled : ℤ → ℤ → Bool) where
  -- With debug logs, a message goes to the standard output, and an error to the standard error, each
  -- behind what is there already; without them, no debug message is written.
  pub log_lem :
      (l : Logger levels render enabled) (msg e : Bytes)
      → IsOrdered levels
      → IsDocumented enabled
      → let quiet : Logger levels render enabled = record l { global_level = levels.info } in
        let loud : Logger levels render enabled = enable_debug_logs levels render enabled l in
        ((log_dbg levels render enabled msg loud).writer
          ≡ record l.writer { inf_out = l.writer.inf_out ++ render msg ∷ [] })
        × ((log_err levels render enabled (some e) loud).writer
            ≡ record l.writer { err_out = l.writer.err_out ++ render e ∷ [] })
        × (log_dbg levels render enabled msg quiet ≡ quiet)
  unfolding log_dbg log_err enable_debug_logs log write_level
  log_lem l msg e (ordered, below, under, above, high) documented = (
    rw (log_dbg, log, documented, ltb_ℤ_irrefl levels.debug, write_level, below) refl,
    rw (log_err, log, documented, high, write_level, above) refl,
    rw (log_dbg, log, documented, ordered) refl,
  )
