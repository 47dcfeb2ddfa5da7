-- ===== src/Discovery.antt =====
-- pkg/udp/message.go and cmd/carisma-orchestrator/app/discovery.go: the messages by which nodes
-- find the central node. `gob` is an argument; of the loop that reads messages, the listener and
-- the clock are left out.
pub mod Messages
pub mod Broadcast
pub mod Socket
use car_integrated_service_m.Prelude.{
  ℕ, suc, Bytes, codes, text_eq, length, ltb, leb, ◌==◌, take, drop, get_elem?, List, [], ◌∷◌, ◌++◌,
  Bool, true, false, Option, none, some, if◌then◌else◌, Outcome, ok, err, panic,
}

pub data MessageType : Type 0 where
  invalid broadcast : MessageType

-- `byte(Broadcast)`
abbrev pub broadcast_byte : ℕ
broadcast_byte = 1

abbrev pub magic_string : Bytes
magic_string = codes "$CARISMA$"

pub record BroadcastMessage : Type 0 where
  pub hostname : Bytes

-- The package `gob`, for this one type; `none` is an error. At an error the decoder also returns
-- what it had decoded.
pub record Gob : Type 0 where
  pub encode : BroadcastMessage → Option Bytes
  pub decode : Bytes → BroadcastMessage × Bool

pub data MessageError : Type 0 where
  encode_error : MessageError

unfoldable pub is_carisma_message : Bytes → Bool
is_carisma_message b =
    if ltb (length b) (length magic_string)
    then false
    else text_eq (take (length magic_string) b) magic_string

unfoldable pub bytes_of : Gob → BroadcastMessage → Outcome MessageError Bytes
bytes_of gob g = elim (gob.encode g) [
  | none ↦ err encode_error
  | some content ↦ ok (magic_string ++ broadcast_byte ∷ content)
]

-- The type of the message with the bytes, or the error of making them.
unfoldable pub get_message_type : Outcome MessageError Bytes → Outcome MessageError MessageType
get_message_type (err e) = err e
get_message_type panic = panic
get_message_type (ok b) = elim (get_elem? b (length magic_string)) [
  | none ↦ panic
  | some c ↦ if c == broadcast_byte then ok broadcast else ok invalid
]

-- `msg[len(magicString)+1:]` is a panic on a shorter message. The Boolean says whether there is an
-- error.
unfoldable pub decode_broadcast_message :
    Gob → Bytes → Outcome MessageError (BroadcastMessage × Bool)
decode_broadcast_message gob msg =
    if leb (suc (length magic_string)) (length msg)
    then ok (gob.decode (drop (suc (length magic_string)) msg))
    else panic

-- What the reading of packets gives, up to the error that ends it.
unfoldable pub discover : Gob → Bytes → List Bytes → Outcome MessageError Bytes
unfolding is_carisma_message decode_broadcast_message
discover gob central_node_hostname [] = ok central_node_hostname
discover gob central_node_hostname (msg ∷ packets) =
    let rest = discover gob central_node_hostname packets in
    elim (is_carisma_message msg) [
      | false ↦ rest
      | true ↦ elim (decode_broadcast_message gob msg) [
        | err e ↦ rest
        | panic ↦ panic
        | ok (decoded_message, failed) ↦ if failed then rest else ok decoded_message.hostname
      ]
    ]
