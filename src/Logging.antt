-- ===== src/Logging.antt =====
-- pkg/logging/logger.go and debug_level_writer.go: where a logged text goes, and the name of the
-- file that stands with it. How a message is set, with its time, is an argument, and so are the
-- numbers of the levels, and whether a message is written at a global level.
pub mod Callers
pub mod Outputs
use car_integrated_service_m.Prelude.{
  ℕ, zero, suc, ◌-◌, ℤ, Bool, ltb_ℤ, ◌==◌, itoa_int, codes, Bytes, List, [], ◌∷◌, ◌++◌, Option,
  none, some, length, get_elem?, drop, if◌then◌else◌,
}

-- The loop over `i`, downwards from some index; at 0 it ends.
unfoldable pub short_from : Bytes → ℕ → Bytes
short_from file zero = file
short_from file (suc i) =
    let rest = short_from file i in
    elim (get_elem? file (suc i)) [
      | none ↦ rest
      | some c ↦ if c == b'/' then drop (suc (suc i)) file else rest
    ]

-- `zerolog.CallerMarshalFunc`. The difference of natural numbers makes the index 0 for no text too,
-- at which the loop ends as it does at -1.
unfoldable pub marshal_caller : Bytes → ℤ → Bytes
unfolding short_from
marshal_caller file line = short_from file (length file - 1) ++ codes ":" ++ itoa_int line

pub record Levels : Type 0 where
  pub debug : ℤ
  pub info : ℤ
  pub warn : ℤ
  pub error : ℤ

-- What was written to the standard output and the standard error.
pub record LevelWriter : Type 0 where
  pub inf_out : List Bytes
  pub err_out : List Bytes

module _ (levels : Levels) (render : Bytes → Bytes) (enabled : ℤ → ℤ → Bool) where
  open levels use {debug, info, warn, error}

  unfoldable pub write_level : ℤ → Bytes → LevelWriter → LevelWriter
  write_level level p l =
      if ltb_ℤ warn level
      then record l { err_out = l.err_out ++ render p ∷ [] }
      else record l { inf_out = l.inf_out ++ render p ∷ [] }

  -- The logger with the global level.
  pub record Logger : Type 0 where
    pub global_level : ℤ
    pub writer : LevelWriter

  unfoldable pub enable_debug_logs : Logger → Logger
  enable_debug_logs l = record l { global_level = debug }

  unfoldable pub log : ℤ → Bytes → Logger → Logger
  unfolding write_level
  log level msg l =
      if enabled l.global_level level
      then record l { writer = write_level level msg l.writer }
      else l

  unfoldable pub log_info : Bytes → Logger → Logger
  unfolding log
  log_info msg = log info msg

  unfoldable pub log_dbg : Bytes → Logger → Logger
  unfolding log
  log_dbg msg = log debug msg

  -- With the text of the error, if there is one.
  unfoldable pub log_err : Option Bytes → Logger → Logger
  unfolding log
  log_err none l = l
  log_err (some e) l = log error e l

  -- `DebugLevelWriter.Write`: all bytes count as written.
  unfoldable pub write : Bytes → Logger → Logger × ℕ
  unfolding log
  write b l = (log debug b l, length b)
