-- ===== src/Packet/Tests.antt =====
-- A data packet there and back, for the parser of boringtun/src/noise/mod.rs.
use boringtun.Prelude.{ℕ, ◌≡◌, refl, arith, zero, suc, ◌++◌, [], ◌∷◌, ok, replicate}
use boringtun.Bytes.{Bytes, IsBytes, to_le_bytes-IsBytes}
use boringtun.Packet.{Packet, packet_data, parse_incoming_packet}
use boringtun.Packet.Wire.{encode, tail_of}
use boringtun.Packet.RoundTrip.{parse-encode, encode-parse}

abbrev data_message : Packet
data_message =
    packet_data
      (record { receiver_idx = 258; counter = 7; encrypted_encapsulated_packet = replicate 16 9 })

parse-encode_example : parse_incoming_packet (encode data_message []) ≡ ok data_message
parse-encode_example = parse-encode data_message [] (omega arith, omega arith, omega arith, refl)

append-IsBytes : (xs ys : Bytes) → IsBytes xs → IsBytes ys → IsBytes (xs ++ ys)
append-IsBytes [] ys h h' = h'
append-IsBytes (x ∷ xs) ys h h' = (h.0, append-IsBytes xs ys h.1 h')

replicate-IsBytes : (n : ℕ) → IsBytes (replicate n 9)
replicate-IsBytes zero = tt
replicate-IsBytes (suc n) = (omega arith, replicate-IsBytes n)

message-IsBytes : IsBytes (encode data_message [])
message-IsBytes = append-IsBytes _ _ (to_le_bytes-IsBytes 4 4) (
    append-IsBytes _ _ (to_le_bytes-IsBytes 4 258)
      (append-IsBytes _ _ (to_le_bytes-IsBytes 8 7) (replicate-IsBytes 16)))

encode-parse_example :
    encode data_message (tail_of data_message (encode data_message [])) ≡ encode data_message []
encode-parse_example =
    encode-parse data_message (encode data_message []) message-IsBytes parse-encode_example
