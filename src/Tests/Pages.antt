-- ===== src/Tests/Pages.antt =====
-- The status manager at concrete inputs.
use car_integrated_service_m.Prelude.{
  Bytes, codes, text_eq, Bool, true, false, any, List, [], ◌∷◌, Option, none, some, if◌then◌else◌,
  ◌≡◌, ◌↔◌, ◌⊎◌,
}
use car_integrated_service_m.Container.{Container}
use car_integrated_service_m.Container.Manager.{Manager}
use car_integrated_service_m.Container.Debug.{DebugContainerManager, emulation}
use car_integrated_service_m.StatusManager.{
  Message, going_away, written, close_sent, read_messages, send_status, send_ping, handle_index,
}
use car_integrated_service_m.StatusManager.Commands.{read_messages_lem, run_commands, commands}
use car_integrated_service_m.StatusManager.Leaving.{send_status_leaks}
use car_integrated_service_m.StatusManager.Index.{is_error, executes, handle_index_lem}

abbrev app : Container
app = record {
  id = codes "a1";
  first_name = codes "/app";
  image = codes "app:1";
  ports = [];
  status = codes "running";
}

abbrev containers : DebugContainerManager
containers = record {
  container = (codes "a1", record { app_idx = 1; container = app }) ∷ [];
  next_service_port = 8081;
  next_app_idx = 2;
}

abbrev manager : Manager
manager = emulation (λ n. codes "a2") (λ n m. m)

-- A decoder that knows four texts.
abbrev unmarshal : Bytes → Option Message
unmarshal content =
    if text_eq content (codes "1")
    then some (record { action = codes "Stop"; id = codes "a1" })
    else if text_eq content (codes "2")
    then some (record { action = codes "START"; id = codes "a1" })
    else if text_eq content (codes "3")
    then some (record { action = codes "start"; id = codes "b" })
    else none

abbrev contents : List Bytes
contents = codes "1" ∷ codes "?" ∷ codes "2" ∷ codes "3" ∷ codes "1" ∷ []

read_messages_lem_test :
    (read_messages manager unmarshal (0, containers) contents going_away).0
    ≡ run_commands manager (0, containers) (commands unmarshal contents)
read_messages_lem_test = read_messages_lem manager unmarshal (0, containers) contents going_away

send_status_leaks_example :
    let results = written ∷ close_sent ∷ close_sent ∷ [] in
    ((send_ping results).1 ≡ true)
    × ((send_status manager (λ cs. some (codes "[]")) (0, containers) results).2 ≡ false)
    × ((send_status manager (λ cs. some (codes "[]")) (0, containers) results).0 ≡ (3, containers))
send_status_leaks_example =
    send_status_leaks manager (λ cs. some (codes "[]")) (0, containers) (written ∷ [])
      (close_sent ∷ []) ((λ e. cc), ((λ e. cc), ((λ e. cc), tt)))

-- A template that is its own page.
abbrev execute : Bytes → Bytes → Bytes × Bool
execute t hostname = (t, false)

handle_index_lem_test :
    let (responses, panics) = handle_index execute (some (codes "<p>")) none in
    ((any is_error responses ≡ false) ↔ (executes execute (some (codes "<p>")) none ≡ true))
    × ((panics ≡ true) ↔ (◌≡◌ {A = Option Bytes} (some (codes "<p>")) none))
    × ((panics ≡ false) ⊎ (any is_error responses ≡ true))
handle_index_lem_test = handle_index_lem execute (some (codes "<p>")) none
