-- ===== src/StatusManager.antt =====
-- cmd/carisma-status-manager/app/app.go: the pages that show the containers of a node, and start and
-- stop them. The package for JSON, the templates and the container manager are arguments. Deadlines
-- of the web socket, and the limit of its messages, are left out.
pub mod Commands
pub mod Emulation
pub mod Leaving
pub mod Index
pub mod Serving
use car_integrated_service_m.Prelude.{
  ℕ, ◌+◌, leb, ◌&&◌, Bytes, codes, text_eq, Bool, true, false, List, [], ◌∷◌, ◌++◌, map, Option,
  none, some, if◌then◌else◌,
}
use car_integrated_service_m.Container.{Container}
use car_integrated_service_m.Container.Manager.{Manager}

pub record Message : Type 0 where
  pub action : Bytes
  pub id : Bytes

-- `strings.ToLower`: of the runes that are not ASCII none has a lower case in `start` or `stop`.
unfoldable pub to_lower : Bytes → Bytes
to_lower = map (λ c. if leb b'A' c && leb c b'Z' then c + 32 else c)

-- What is logged while the messages of a web socket are read.
pub data LogEntry : Type 0 where
  read_failed invalid_message start_failed stop_failed : LogEntry

-- The error that ends the reading of messages: the page has gone, or any other.
pub data ReadError : Type 0 where
  going_away other_error : ReadError

abbrev pub log_unless_done : LogEntry → Option (Unit {0}) → List LogEntry
log_unless_done entry none = entry ∷ []
log_unless_done entry (some _) = []

-- What a write to a web socket gives.
pub data WriteResult : Type 0 where
  written close_sent write_failed : WriteResult

module _ (mgr : Manager) where
  open mgr use {World, containers, start_container, stop_container}

  -- The body of the loop of `readMessages`, for the content of one message.
  unfoldable pub handle_message : (Bytes → Option Message) → World → Bytes → World × List LogEntry
  unfolding to_lower
  handle_message unmarshal w content = elim (unmarshal content) [
    | none ↦ (w, invalid_message ∷ [])
    | some msg ↦
        let action = to_lower msg.action in
        if text_eq action (codes "start")
        then (let (w', r) = start_container w msg.id in (w', log_unless_done start_failed r))
        else (if text_eq action (codes "stop")
            then (let (w', r) = stop_container w msg.id in (w', log_unless_done stop_failed r))
            else (w, []))
  ]

  -- The messages that are read, and the error that ends them.
  unfoldable pub read_messages :
      (Bytes → Option Message) → World → List Bytes → ReadError → World × List LogEntry
  unfolding handle_message
  read_messages unmarshal w [] going_away = (w, [])
  read_messages unmarshal w [] other_error = (w, read_failed ∷ [])
  read_messages unmarshal w (content ∷ contents) e =
      let (w', entries) = handle_message unmarshal w content in
      let (w'', rest) = read_messages unmarshal w' contents e in (w'', entries ++ rest)

  -- The state after the list of containers is sent, the messages written, and whether there is an
  -- error.
  unfoldable pub send_container_list :
      (List Container → Option Bytes) → World → WriteResult → World × List Bytes × Bool
  send_container_list marshal w result =
      let (w', r) = containers w in
      elim r [
        | none ↦ (w', [], false)
        | some cs ↦ elim (marshal cs) [
          | none ↦ (w', [], false)
          | some message ↦ elim result [
            | written ↦ (w', message ∷ [], false)
            | close_sent ↦ (w', [], false)
            | write_failed ↦ (w', [], true)
          ]
        ]
      ]

  -- `sendStatus`, with what each write gives, at the start and then at each tick: the state, the
  -- messages, and whether it has returned.
  unfoldable pub send_status :
      (List Container → Option Bytes) → World → List WriteResult → World × List Bytes × Bool
  unfolding send_container_list
  send_status marshal w [] = (w, [], false)
  send_status marshal w (result ∷ results) =
      let (w', messages, failed) = send_container_list marshal w result in
      elim failed [
        | true ↦ (w', messages, true)
        | false ↦
            let (w'', rest, ended) = send_status marshal w' results in
            (w'', messages ++ rest, ended)
      ]

-- `sendPing`, with what the control message of each tick gives: how many were written, and whether it
-- has returned.
unfoldable pub send_ping : List WriteResult → ℕ × Bool
send_ping [] = (0, false)
send_ping (written ∷ results) = let (n, ended) = send_ping results in (n + 1, ended)
send_ping (close_sent ∷ results) = (0, true)
send_ping (write_failed ∷ results) = (0, true)

-- What a handler writes as its response: an error, or what the template makes.
pub data Response : Type 0 where
  http_error : Response
  page : Bytes → Response

-- The index page, from the template, the name of the host and what the template makes of a name: the
-- text it writes, and whether there is an error. The methods of a template that is nil panic.
unfoldable pub handle_index :
    {Template : Type 0}
    → (Template → Bytes → Bytes × Bool)
    → Option Template
    → Option Bytes
    → List Response × Bool
handle_index execute template hostname =
    let after_template : List Response = elim template [ none ↦ http_error ∷ [] | some _ ↦ [] ] in
    let after_hostname : List Response = elim hostname [ none ↦ http_error ∷ [] | some _ ↦ [] ] in
    let name : Bytes = elim hostname [ none ↦ [] | some h ↦ h ] in
    let before = after_template ++ after_hostname in
    elim template [
      | none ↦ (before, true)
      | some t ↦
          let (text, failed) = execute t name in
          (before ++ page text ∷ (if failed then http_error ∷ [] else []), false)
    ]
