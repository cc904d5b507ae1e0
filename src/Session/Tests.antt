-- ===== src/Session/Tests.antt =====
-- Two sessions of boringtun/src/noise/session.rs with each other's keys.
use boringtun.Prelude.{
  ℕ, ◌≡◌, ◌≢◌, ◌↔◌, ◌<◌, ◌≤◌, ◌-◌, ◌^◌, length, refl, arith, true, List, [], ◌∷◌, some, ok, err,
  map, wrong_index, replicate,
}
use boringtun.Bytes.{Bytes}
use boringtun.Crypto.{nonce_of}
use boringtun.Crypto.Toy.{toy, toy-IsLawful, append_tag, tag, fit}
use boringtun.Packet.{PacketData}
use boringtun.Replay.Window.{Window, accepts, empty}
use boringtun.Replay.Window
use boringtun.Replay.Mark.{Refines, new-Refines}
use boringtun.Session.{Session, new, format_packet_data, receive_packet_data}
use boringtun.Session.Receive.{opened, receive_packet_data_iff, refused_unchanged, delivered_marked}
use boringtun.Session.Transport.{Mirrored, transmit_all, transmit_all_delivers, sealed}
use boringtun.Session.Nonces.{after_sends, message, nonce_fresh}

abbrev a : Session
a = new 1 2 (11 ∷ []) (22 ∷ [])

abbrev b : Session
b = new 2 1 (22 ∷ []) (11 ∷ [])

b-Refines : Refines b.receiving_key_counter empty
unfolding new
b-Refines = new-Refines

abbrev texts : List Bytes
texts = (7 ∷ 8 ∷ []) ∷ [] ∷ (9 ∷ []) ∷ []

a-Mirrored : Mirrored a b
unfolding new
a-Mirrored = record { same_key = refl; same_index = refl; fits = omega arith }

counter-a : a.sending_key_counter ≡ 0
unfolding new
counter-a = refl

transmit_all_delivers_example : transmit_all toy 64 a b texts ≡ map ok texts
transmit_all_delivers_example =
    transmit_all_delivers toy toy-IsLawful 64 texts a b empty a-Mirrored b-Refines
      (omega (arith, counter-a)) (omega (arith, counter-a))
      (omega arith, (omega arith, (omega arith, tt)))

-- The packet that `a` makes of its first text.
abbrev first : PacketData
first = sealed toy a (7 ∷ 8 ∷ [])

first-small : first.counter < 2 ^ 64 - 1024
first-small = omega (arith, counter-a)

first-fits : length first.encrypted_encapsulated_packet ≤ 64
first-fits =
    omega
      (arith, toy-IsLawful.length-seal a.sender (nonce_of a.sending_key_counter) [] (7 ∷ 8 ∷ []))

receive_packet_data_iff_example : ((receive_packet_data toy b first 64).1 ≡ ok (7 ∷ 8 ∷ [])) ↔ (
    (first.receiver_idx ≡ b.receiving_index)
    × (accepts empty first.counter ≡ true)
    × (opened toy b empty b-Refines first 64 first-small first-fits ≡ some (7 ∷ 8 ∷ [])))
receive_packet_data_iff_example =
    receive_packet_data_iff toy b empty b-Refines first 64 first-small first-fits (7 ∷ 8 ∷ [])

first-delivered : (receive_packet_data toy b first 64).1 ≡ ok (7 ∷ 8 ∷ [])
unfolding new
first-delivered =
    receive_packet_data_iff_example.1
      (refl, refl, toy-IsLawful.open-seal (22 ∷ []) (nonce_of 0) [] (7 ∷ 8 ∷ []))

delivered_marked_example :
    Refines
      (receive_packet_data toy b first 64).0.receiving_key_counter
      (Window.mark empty first.counter)
delivered_marked_example =
    delivered_marked toy b empty b-Refines first 64 first-small first-fits (7 ∷ 8 ∷ [])
      first-delivered

-- A packet for another session.
abbrev foreign : PacketData
foreign = record { receiver_idx = 3; counter = 0; encrypted_encapsulated_packet = replicate 18 0 }

foreign-fits : length foreign.encrypted_encapsulated_packet ≤ 64
foreign-fits = omega arith

foreign-refused : (receive_packet_data toy b foreign 64).1 ≡ err wrong_index
unfolding receive_packet_data new
foreign-refused = refl

refused_unchanged_example : (receive_packet_data toy b foreign 64).0 ≡ b
refused_unchanged_example =
    refused_unchanged toy b empty b-Refines foreign 64 (omega arith) foreign-fits wrong_index
      foreign-refused

-- Two packets of `a`, with one between them
nonce_fresh_example :
    (i : ℕ) × (j : ℕ) × (message toy 2 (22 ∷ []) 0 (7 ∷ []) ≡ message toy 2 (22 ∷ []) i (7 ∷ []))
    × (message toy 2 (22 ∷ []) 2 (8 ∷ []) ≡ message toy 2 (22 ∷ []) j (8 ∷ []))
    × (nonce_of i ≢ nonce_of j)
unfolding format_packet_data new after_sends append_tag tag fit
nonce_fresh_example =
    nonce_fresh toy a (7 ∷ []) 64 (([], 64) ∷ []) (8 ∷ []) 64 (omega arith) refl refl
