-- ===== src/Packet.antt =====
-- Reading packets: `Tunn::parse_incoming_packet` and `Tunn::dst_address` of
-- boringtun/src/noise/mod.rs.
pub mod Wire
pub mod Shape
pub mod RoundTrip
mod Tests
use boringtun.Prelude.{
  ℕ, ◌+◌, ◌-◌, ◌/◌, ◌^◌, Bool, true, false, ◌&&◌, Option, none, some, List, [], ◌∷◌, Result, ok,
  err, invalid_packet, length, drop, ltb, leb, ◌==◌, if◌then◌else◌,
}
use boringtun.Bytes.{Bytes, slice, from_le_bytes}

abbrev pub handshake_init_type : ℕ
handshake_init_type = 1

abbrev pub handshake_resp_type : ℕ
handshake_resp_type = 2

abbrev pub cookie_reply_type : ℕ
cookie_reply_type = 3

abbrev pub data_type : ℕ
data_type = 4

abbrev pub handshake_init_sz : ℕ
handshake_init_sz = 148

abbrev pub handshake_resp_sz : ℕ
handshake_resp_sz = 92

abbrev pub cookie_reply_sz : ℕ
cookie_reply_sz = 64

abbrev pub data_overhead_sz : ℕ
data_overhead_sz = 32

pub record HandshakeInit : Type 0 where
  pub sender_idx : ℕ
  pub unencrypted_ephemeral : Bytes
  pub encrypted_static : Bytes
  pub encrypted_timestamp : Bytes

pub record HandshakeResponse : Type 0 where
  pub sender_idx : ℕ
  pub receiver_idx : ℕ
  pub unencrypted_ephemeral : Bytes
  pub encrypted_nothing : Bytes

pub record PacketCookieReply : Type 0 where
  pub receiver_idx : ℕ
  pub nonce : Bytes
  pub encrypted_cookie : Bytes

pub record PacketData : Type 0 where
  pub receiver_idx : ℕ
  pub counter : ℕ
  pub encrypted_encapsulated_packet : Bytes

pub data Packet : Type 0 where
  handshake_init : HandshakeInit → Packet
  handshake_response : HandshakeResponse → Packet
  packet_cookie_reply : PacketCookieReply → Packet
  packet_data : PacketData → Packet

abbrev u32_at : ℕ → Bytes → ℕ
u32_at from src = from_le_bytes (slice from (from + 4) src)

unfoldable pub parse_incoming_packet : Bytes → Result Packet
parse_incoming_packet src =
    if ltb (length src) 4
    then err invalid_packet
    else if u32_at 0 src == handshake_init_type && length src == handshake_init_sz
    then ok (
        handshake_init (record {
          sender_idx = u32_at 4 src;
          unencrypted_ephemeral = slice 8 40 src;
          encrypted_static = slice 40 88 src;
          encrypted_timestamp = slice 88 116 src;
        }))
    else if u32_at 0 src == handshake_resp_type && length src == handshake_resp_sz
    then ok (
        handshake_response (record {
          sender_idx = u32_at 4 src;
          receiver_idx = u32_at 8 src;
          unencrypted_ephemeral = slice 12 44 src;
          encrypted_nothing = slice 44 60 src;
        }))
    else if u32_at 0 src == cookie_reply_type && length src == cookie_reply_sz
    then ok (
        packet_cookie_reply (record {
          receiver_idx = u32_at 4 src;
          nonce = slice 8 32 src;
          encrypted_cookie = slice 32 64 src;
        }))
    else if u32_at 0 src == data_type && leb data_overhead_sz (length src)
    then ok (
        packet_data (record {
          receiver_idx = u32_at 4 src;
          counter = from_le_bytes (slice 8 16 src);
          encrypted_encapsulated_packet = drop 16 src;
        }))
    else err invalid_packet

-- `IpAddr`, by the bytes of the address
pub data IpAddr : Type 0 where
  v4 : Bytes → IpAddr
  v6 : Bytes → IpAddr

abbrev pub ipv4_min_header_size : ℕ
ipv4_min_header_size = 20

abbrev pub ipv6_min_header_size : ℕ
ipv6_min_header_size = 40

-- `packet[0] >> 4`
abbrev pub version : ℕ → ℕ
version b = b / 2 ^ 4

unfoldable pub dst_address : Bytes → Option IpAddr
dst_address [] = none
dst_address (b ∷ rest) =
    let packet = b ∷ rest in
    if version b == 4 && leb ipv4_min_header_size (length packet)
    then some (v4 (slice 16 20 packet))
    else if version b == 6 && leb ipv6_min_header_size (length packet)
    then some (v6 (slice 24 40 packet))
    else none
