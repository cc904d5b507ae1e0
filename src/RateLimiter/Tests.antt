-- ===== src/RateLimiter/Tests.antt =====
-- Runs of the limiter of boringtun/src/noise/rate_limiter.rs.
use boringtun.Prelude.{◌≡◌, ◌↔◌, refl, arith, [], ◌∷◌, ok, some, none, replicate}
use boringtun.Bytes.{Bytes}
use boringtun.Crypto.Toy.{toy, toy-IsLawful}
use boringtun.Packet.{
  Packet, PacketCookieReply, packet_data, packet_cookie_reply, IpAddr, v4, parse_incoming_packet,
}
use boringtun.Packet.Wire.{encode}
use boringtun.Handshake.State.{Handshake}
use boringtun.Handshake.State
use boringtun.Handshake.Send.{append_mac1_and_mac2}
use boringtun.Handshake.Receive.{receive_cookie_reply}
use boringtun.RateLimiter.{
  RateLimiter, packet, new, current_cookie, format_cookie_reply, verify_packet,
}
use boringtun.RateLimiter.Soundness.{HasMac1, HasMac2, Passes, verify_packet_iff}
use boringtun.RateLimiter.Cookie.{cookie_exchange}

abbrev addr : IpAddr
addr = v4 (10 ∷ 0 ∷ 0 ∷ 1 ∷ [])

abbrev public : Bytes
public = toy.public_key (2 ∷ [])

abbrev limiter : RateLimiter
limiter = new toy public 10 (5 ∷ []) (6 ∷ []) 0

abbrev data_message : Packet
data_message =
    packet_data
      (record { receiver_idx = 258; counter = 7; encrypted_encapsulated_packet = replicate 16 9 })

verify_packet_iff_example :
    ((verify_packet toy limiter (some addr) (encode data_message []) 64 0).1 ≡ packet data_message)
    ↔ ((parse_incoming_packet (encode data_message []) ≡ ok data_message)
        × Passes toy limiter (some addr) (encode data_message []) 64 0 data_message)
verify_packet_iff_example =
    verify_packet_iff toy limiter (some addr) (encode data_message []) 64 0 data_message

-- A peer of the limiter's key whose last message had index 513 and this mac1.
abbrev mac1 : Bytes
mac1 = replicate 16 7

abbrev sender : Handshake
sender =
    let h = State.new toy (1 ∷ []) (toy.public_key (1 ∷ [])) public 512 none 0 0 in
    record h { cookies = record { last_mac1 = some mac1; index = 513; write_cookie = none } }

cookie_exchange_example :
    (reply : Bytes) × (p : PacketCookieReply) × (h' : Handshake) × ((format_cookie_reply toy limiter
        513
        (current_cookie toy limiter addr 0)
        mac1
        64).1
      ≡ ok reply)
    × (parse_incoming_packet reply ≡ ok (packet_cookie_reply p))
    × (receive_cookie_reply toy sender p ≡ (h', ok tt))
    × (let src = (append_mac1_and_mac2 toy h' 514 (1 ∷ 2 ∷ [])).1 in
        HasMac1 toy limiter (some addr) src 64 0 × HasMac2 toy limiter (some addr) src 64 0)
unfolding new State.new State.new_params
cookie_exchange_example =
    cookie_exchange toy toy-IsLawful sender limiter addr 0 513 64 mac1 limiter 0 514 (1 ∷ 2 ∷ [])
      refl refl refl refl (omega arith) (omega arith) refl refl
