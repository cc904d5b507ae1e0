-- ===== src/Handshake/Tests.antt =====
-- A handshake of boringtun/src/noise/handshake.rs between two peers.
use boringtun.Prelude.{◌+◌, ◌/◌, ◌%◌, ◌^◌, ◌≡◌, ◌≢◌, refl, arith, true, [], ◌∷◌, Option}
use boringtun.Bytes.{Bytes, from_be_bytes, from_le_bytes, to_be_bytes, to_le_bytes}
use boringtun.Crypto.Toy.{toy, toy-IsLawful}
use boringtun.Handshake.Tai64n.{after, stamp, parse}
use boringtun.Handshake.Tai64n
use boringtun.Handshake.State.{Handshake, new}
use boringtun.Handshake.Index.{nth_index, nth_index-distinct}
use boringtun.Handshake.Agreement.{Agreed, handshake_agrees}

abbrev si : Bytes
si = 1 ∷ []

abbrev sr : Bytes
sr = 2 ∷ []

abbrev initiator : Handshake
initiator = new toy si (toy.public_key si) (toy.public_key sr) 512 Option.none 1000 0

abbrev responder : Handshake
responder = new toy sr (toy.public_key sr) (toy.public_key si) 768 Option.none 2000 0

newer :
    after (Tai64n.parse (stamp initiator.stamper 5000)) responder.last_handshake_timestamp ≡ true
unfolding new after stamp Tai64n.parse Tai64n.new Tai64n.zero from_be_bytes from_le_bytes
    to_be_bytes to_le_bytes
newer = refl

handshake_agrees_example : Agreed toy initiator responder (3 ∷ []) (4 ∷ []) 5000 6000 7000 148
unfolding new
handshake_agrees_example =
    handshake_agrees toy toy-IsLawful si sr Option.none initiator responder (3 ∷ []) (4 ∷ []) 5000
      6000 7000 148 refl refl (omega arith) (omega arith) newer (omega arith)

nth_index-distinct_example :
    (nth_index 3 512 ≢ nth_index 9 512)
    × (nth_index 3 512 / 2 ^ 8 ≡ nth_index 9 512 / 2 ^ 8)
    × (nth_index 9 512 % 8 ≡ (512 + 9) % 8)
nth_index-distinct_example = nth_index-distinct 3 9 512 (omega arith) (omega arith) (omega arith)
