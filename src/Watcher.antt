-- ===== src/Watcher.antt =====
-- pkg/io/file_watcher.go: a file whose changes are handed to a handler. What the file system and
-- its notifications give is an argument. `Watch` and `Diff` run in different goroutines, and both
-- write `lastRead`: so `Watch` is a sequence of moves, between which those of `Diff` can fall.
pub mod Waiting
use car_integrated_service_m.Prelude.{
  ℕ, zero, suc, Bytes, Bool, true, false, List, [], ◌∷◌, ◌++◌, Option, none, some, if◌then◌else◌,
}

-- What `os.Stat` says of the file.
pub data Stat : Type 0 where
  found missing failed : Stat

-- `waitUntilFind` with the answers that are to come, on fuel: whether the file was found, or `none`
-- if it still waits.
unfoldable pub wait_until_find : (ℕ → Stat) → ℕ → Option Bool
wait_until_find stat zero = none
wait_until_find stat (suc fuel) = elim (stat 0) [
  | found ↦ some true
  | failed ↦ some false
  | missing ↦ wait_until_find (λ j. stat (suc j)) fuel
]

-- `Watch` waits for an event, or has called the handler and holds what it has read.
pub data Phase : Type 0 where
  idle : Phase
  handling : Bytes → Phase

-- The handler is there or not; beside the fields, the calls of it with the old and the new content.
pub record FileWatcher : Type 0 where
  pub last_read : Bytes
  pub has_handler : Bool
  pub phase : Phase
  pub calls : List (Bytes × Bytes)

unfoldable pub new_file_watcher : FileWatcher
new_file_watcher = record { last_read = []; has_handler = false; phase = idle; calls = [] }

unfoldable pub handle_diff : FileWatcher → FileWatcher
handle_diff c = record c { has_handler = true }

-- The first part of the case of an event, with the result of waiting for the file and that of
-- reading it; at an error the watcher waits for the next event.
unfoldable pub begin_event : Bool → Option Bytes → FileWatcher → FileWatcher
begin_event is_found content c = elim c.phase [
  | handling _ ↦ c
  | idle ↦ elim content [
    | none ↦ c
    | some content ↦
        if is_found
        then record c {
          phase = handling content;
          calls = if c.has_handler then c.calls ++ (c.last_read, content) ∷ [] else c.calls;
        }
        else c
  ]
]

-- The second part: `c.lastRead = content`. The watch on a renamed file is left out.
unfoldable pub finish_event : FileWatcher → FileWatcher
finish_event c = elim c.phase [
  | idle ↦ c
  | handling content ↦ record c { last_read = content; phase = idle }
]

-- What `Diff` does to the watcher. The event that it then sends is taken by `begin_event`.
unfoldable pub diff : Bool → FileWatcher → FileWatcher
diff force c = if force then record c { last_read = [] } else c

-- A whole event, with nothing in between.
unfoldable pub handle_event : Bool → Option Bytes → FileWatcher → FileWatcher
unfolding begin_event finish_event
handle_event is_found content c = finish_event (begin_event is_found content c)
