-- ===== src/Discovery/Messages.antt =====
-- Discovery messages, written and read.
use car_integrated_service_m.Prelude.{
  Bytes, text_eq, length, ltb, leb, List, [], ◌∷◌, ◌++◌, true, false, some, ok, panic, All, ◌≡◌,
  ◌∙◌, refl, ap, arith,
}
use car_integrated_service_m.Discovery.{
  BroadcastMessage, Gob, broadcast, broadcast_byte, magic_string, is_carisma_message, bytes_of,
  get_message_type, decode_broadcast_message, discover,
}

-- What is encoded is decoded again.
pub record IsFaithful (gob : Gob) : Type 0 where
  pub encoded : (g : BroadcastMessage) → (b : Bytes) × (gob.encode g ≡ some b)
  pub decoded :
      (g : BroadcastMessage) (b : Bytes) → gob.encode g ≡ some b → gob.decode b ≡ (g, false)

decode_content :
    (gob : Gob) (content : Bytes)
    → decode_broadcast_message gob (magic_string ++ broadcast_byte ∷ content)
      ≡ ok (gob.decode content)
unfolding decode_broadcast_message
decode_content gob content =
    let long : leb 10 (length (magic_string ++ broadcast_byte ∷ content)) ≡ true = ground arith in
    rw (decode_broadcast_message, long) refl

is_carisma_message-magic : (s : Bytes) → is_carisma_message (magic_string ++ s) ≡ true
unfolding is_carisma_message text_eq
is_carisma_message-magic s =
    let short : ltb (length (magic_string ++ s)) 9 ≡ false = ground arith in
    rw (is_carisma_message, short) refl

-- If `gob` decodes what it encodes, a broadcast message is written as bytes that are recognised as
-- a message of the program, of the type of broadcasts, and are decoded to the message.
pub broadcast_lem :
    (gob : Gob) (g : BroadcastMessage)
    → IsFaithful gob
    → (b : Bytes) × (bytes_of gob g ≡ ok b)
      × (is_carisma_message b ≡ true)
      × (get_message_type (bytes_of gob g) ≡ ok broadcast)
      × (decode_broadcast_message gob b ≡ ok (g, false))
unfolding bytes_of get_message_type
broadcast_lem gob g faithful =
    let (content, e) = faithful.encoded g in
    (
      magic_string ++ broadcast_byte ∷ content,
      rw (bytes_of, e) refl,
      is_carisma_message-magic (broadcast_byte ∷ content),
      rw (bytes_of, e) refl,
      decode_content gob content ∙ ap ok (faithful.decoded g content e),
    )

-- Discovery panics on the first packet that is the magic string alone, if none of the packets
-- before is a message.
pub discover_panics :
    (gob : Gob) (hostname : Bytes) (before packets : List Bytes)
    → All (λ msg. is_carisma_message msg ≡ false) before
    → discover gob hostname (before ++ magic_string ∷ packets) ≡ panic
unfolding discover text_eq
discover_panics gob hostname [] packets h = refl
discover_panics gob hostname (msg ∷ before) packets h =
    ground (arith, h.0, discover_panics gob hostname before packets h.1)
