-- ===== src/StatusManager/Emulation.antt =====
-- The commands of a page on the emulated containers.
use car_integrated_service_m.Prelude.{
  Bytes, text_eq, lookup, List, [], ◌∷◌, Option, none, some, if◌then◌else◌,
}
use car_integrated_service_m.Container.Debug.{DebugContainerManager, status_running, status_exited}
use car_integrated_service_m.StatusManager.Commands.{Command, start, stop}

-- The status of a container, if there is one with the ID.
abbrev pub status_of : DebugContainerManager → Bytes → Option Bytes
status_of d id = elim (lookup id d.container) [ none ↦ none | some vc ↦ some vc.container.status ]

-- The status that a container with the ID has after the commands.
abbrev pub last_status : Bytes → Bytes → List Command → Bytes
last_status id s [] = s
last_status id s (start i ∷ cs) = last_status id (if text_eq i id then status_running else s) cs
last_status id s (stop i ∷ cs) = last_status id (if text_eq i id then status_exited else s) cs

abbrev pub with_status : Option Bytes → (Bytes → Bytes) → Option Bytes
with_status none f = none
with_status (some s) f = some (f s)
