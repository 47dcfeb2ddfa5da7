-- ===== src/StatusManager/Commands.antt =====
-- Which messages of a web socket are commands, and what they do to any container manager.
use car_integrated_service_m.Prelude.{
  Bytes, codes, text_eq, List, [], ◌∷◌, Option, none, some, if◌then◌else◌, ◌≡◌, refl, arith,
}
use car_integrated_service_m.Container.Manager.{Manager}
use car_integrated_service_m.StatusManager.{
  Message, ReadError, going_away, other_error, to_lower, handle_message, read_messages,
}

pub data Command : Type 0 where
  start stop : Bytes → Command

-- The command that a message stands for.
abbrev pub command_of : Message → Option Command
command_of msg =
    if text_eq (to_lower msg.action) (codes "start")
    then some (start msg.id)
    else if text_eq (to_lower msg.action) (codes "stop")
    then some (stop msg.id)
    else none

-- The commands among the contents, in order: what is no message, and what is none of the two
-- actions, is left out.
abbrev pub commands : (Bytes → Option Message) → List Bytes → List Command
commands unmarshal [] = []
commands unmarshal (content ∷ contents) =
    let rest = commands unmarshal contents in
    elim (unmarshal content) [
      | none ↦ rest
      | some msg ↦ elim (command_of msg) [ none ↦ rest | some c ↦ c ∷ rest ]
    ]

module _ (mgr : Manager) where
  open mgr use {World, start_container, stop_container}

  abbrev pub run_command : World → Command → World
  run_command w (start id) = (start_container w id).0
  run_command w (stop id) = (stop_container w id).0

  abbrev pub run_commands : World → List Command → World
  run_commands w [] = w
  run_commands w (c ∷ cs) = run_commands (run_command w c) cs

  -- Reading messages runs every command among them once and in order, also behind a message that is
  -- none and behind a command that fails, and calls the container manager for nothing else.
  pub read_messages_lem :
      (unmarshal : Bytes → Option Message) (w : World) (contents : List Bytes) (e : ReadError)
      → (read_messages mgr unmarshal w contents e).0 ≡ run_commands w (commands unmarshal contents)
  unfolding read_messages handle_message
  read_messages_lem unmarshal w [] going_away = refl
  read_messages_lem unmarshal w [] other_error = refl
  read_messages_lem unmarshal w (content ∷ contents) e = ground (
    arith,
    read_messages_lem unmarshal w contents e,
    read_messages_lem unmarshal (handle_message mgr unmarshal w content).0 contents e,
  )
