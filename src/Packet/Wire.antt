-- ===== src/Packet/Wire.antt =====
-- The layout of the four WireGuard messages, as a description that does not read them. The parser
-- is boringtun/src/noise/mod.rs, the writers are session.rs, handshake.rs and rate_limiter.rs.
use boringtun.Prelude.{ℕ, ◌≡◌, ◌≤◌, ◌<◌, ◌^◌, [], ◌++◌, length, drop}
use boringtun.Bytes.{Bytes, to_le_bytes}
use boringtun.Packet.{
  Packet, handshake_init, handshake_response, packet_cookie_reply, packet_data, handshake_init_type,
  handshake_resp_type, cookie_reply_type, data_type,
}

abbrev pub u32_bytes : ℕ → Bytes
u32_bytes x = to_le_bytes 4 x

abbrev pub u64_bytes : ℕ → Bytes
u64_bytes x = to_le_bytes 8 x

-- A message whose last part, `macs`, is mac1 and mac2 where it has them.
abbrev pub encode : Packet → Bytes → Bytes
encode (handshake_init p) macs =
    u32_bytes handshake_init_type
    ++ (u32_bytes p.sender_idx
        ++ (p.unencrypted_ephemeral ++ (p.encrypted_static ++ (p.encrypted_timestamp ++ macs))))
encode (handshake_response p) macs =
    u32_bytes handshake_resp_type
    ++ (u32_bytes p.sender_idx
        ++ (u32_bytes p.receiver_idx ++ (p.unencrypted_ephemeral ++ (p.encrypted_nothing ++ macs))))
encode (packet_cookie_reply p) macs =
    u32_bytes cookie_reply_type
    ++ (u32_bytes p.receiver_idx ++ (p.nonce ++ (p.encrypted_cookie ++ macs)))
encode (packet_data p) macs =
    u32_bytes data_type
    ++ (u32_bytes p.receiver_idx
        ++ (u64_bytes p.counter ++ (p.encrypted_encapsulated_packet ++ macs)))

-- The sizes of the parts, and integers that fit their fields.
abbrev pub IsPacket : Packet → Bytes → Type 0
IsPacket (handshake_init p) macs =
    (p.sender_idx < 2 ^ 32)
    × (length p.unencrypted_ephemeral ≡ 32)
    × (length p.encrypted_static ≡ 48)
    × (length p.encrypted_timestamp ≡ 28)
    × (length macs ≡ 32)
IsPacket (handshake_response p) macs =
    (p.sender_idx < 2 ^ 32)
    × (p.receiver_idx < 2 ^ 32)
    × (length p.unencrypted_ephemeral ≡ 32)
    × (length p.encrypted_nothing ≡ 16)
    × (length macs ≡ 32)
IsPacket (packet_cookie_reply p) macs =
    (p.receiver_idx < 2 ^ 32)
    × (length p.nonce ≡ 24)
    × (length p.encrypted_cookie ≡ 32)
    × (length macs ≡ 0)
IsPacket (packet_data p) macs =
    (p.receiver_idx < 2 ^ 32)
    × (p.counter < 2 ^ 64)
    × (16 ≤ length p.encrypted_encapsulated_packet)
    × (length macs ≡ 0)

-- What a message holds behind the fields that are parsed.
abbrev pub tail_of : Packet → Bytes → Bytes
tail_of (handshake_init p) src = drop 116 src
tail_of (handshake_response p) src = drop 60 src
tail_of (packet_cookie_reply p) src = []
tail_of (packet_data p) src = []
