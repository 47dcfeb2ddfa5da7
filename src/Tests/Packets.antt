-- ===== src/Tests/Packets.antt =====
-- Discovery messages at concrete inputs.
use car_integrated_service_m.Prelude.{
  Bytes, codes, [], ◌∷◌, some, ok, panic, ◌≡◌, refl, true, false,
}
use car_integrated_service_m.Discovery.{
  BroadcastMessage, Gob, broadcast, magic_string, is_carisma_message, bytes_of, get_message_type,
  decode_broadcast_message, discover,
}
use car_integrated_service_m.Discovery.Messages.{IsFaithful, broadcast_lem, discover_panics}

abbrev pub gob : Gob
gob = record { encode = λ g. some g.hostname; decode = λ b. (record { hostname = b }, false) }

pub faithful : IsFaithful gob
faithful = record { encoded = λ g. (g.hostname, refl); decoded = λ g b e. cc }

abbrev hello : BroadcastMessage
hello = record { hostname = codes "hpc-0:8016" }

broadcast_lem_example :
    (b : Bytes) × (bytes_of gob hello ≡ ok b)
    × (is_carisma_message b ≡ true)
    × (get_message_type (bytes_of gob hello) ≡ ok broadcast)
    × (decode_broadcast_message gob b ≡ ok (hello, false))
broadcast_lem_example = broadcast_lem gob hello faithful

discover_panics_test : discover gob [] (codes "noise" ∷ magic_string ∷ []) ≡ panic
unfolding is_carisma_message
discover_panics_test = discover_panics gob [] (codes "noise" ∷ []) [] (refl, tt)
