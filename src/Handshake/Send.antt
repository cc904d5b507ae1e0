-- ===== src/Handshake/Send.antt =====
-- The messages that a handshake sends: `append_mac1_and_mac2`, `format_handshake_initiation` and
-- `format_handshake_response` of boringtun/src/noise/handshake.rs.
use boringtun.Prelude.{
  ℕ, ◌++◌, [], ◌∷◌, Option, replicate, Result, ok, err, panic, destination_buffer_too_small, ltb,
  if◌then◌else◌,
}
use boringtun.Bytes.{Bytes, to_le_bytes}
use boringtun.Crypto.{
  Crypto, b2s_hash, b2s_kdf1, b2s_kdf2, b2s_kdf3, b2s_keyed_mac_16, aead_chacha20_seal, key_len,
}
use boringtun.Packet.{
  HandshakeInit, HandshakeResponse, handshake_init_type, handshake_resp_type, handshake_init_sz,
  handshake_resp_sz,
}
use boringtun.Session.{Session}
use boringtun.Session
use boringtun.Handshake.Tai64n.{stamp}
use boringtun.Handshake.State.{
  Handshake, HandshakeState, NoiseParams, HandshakeInitSentState, InitReceived, init_sent,
  init_received, inc_index,
}

-- `INITIAL_CHAIN_KEY` and `INITIAL_CHAIN_HASH`
abbrev pub initial_chain_key : Bytes
initial_chain_key =
    96 ∷ 226 ∷ 109 ∷ 174 ∷ 243 ∷ 39 ∷ 239 ∷ 192 ∷ 46 ∷ 195 ∷ 53 ∷ 226 ∷ 160 ∷ 37 ∷ 210 ∷ 208 ∷ 22
    ∷ 235 ∷ 66 ∷ 6 ∷ 248 ∷ 114 ∷ 119 ∷ 245 ∷ 45 ∷ 56 ∷ 209 ∷ 152 ∷ 139 ∷ 120 ∷ 205 ∷ 54 ∷ []

abbrev pub initial_chain_hash : Bytes
initial_chain_hash =
    34 ∷ 17 ∷ 179 ∷ 97 ∷ 8 ∷ 26 ∷ 197 ∷ 102 ∷ 105 ∷ 18 ∷ 67 ∷ 219 ∷ 69 ∷ 138 ∷ 213 ∷ 50 ∷ 45 ∷ 156
    ∷ 108 ∷ 102 ∷ 34 ∷ 147 ∷ 232 ∷ 183 ∷ 14 ∷ 225 ∷ 156 ∷ 101 ∷ 186 ∷ 7 ∷ 158 ∷ 243 ∷ []

-- `preshared_key.unwrap_or_default()`
abbrev pub psk_or_default : Option Bytes → Bytes
psk_or_default Option.none = replicate key_len 0
psk_or_default (Option.some psk) = psk

-- `dst` is split into these parts, and the macs follow.
unfoldable pub initiation_body : HandshakeInit → Bytes
initiation_body p =
    to_le_bytes 4 handshake_init_type
    ++ (to_le_bytes 4 p.sender_idx
        ++ (p.unencrypted_ephemeral ++ (p.encrypted_static ++ p.encrypted_timestamp)))

unfoldable pub response_body : HandshakeResponse → Bytes
response_body p =
    to_le_bytes 4 handshake_resp_type
    ++ (to_le_bytes 4 p.sender_idx
        ++ (to_le_bytes 4 p.receiver_idx ++ (p.unencrypted_ephemeral ++ p.encrypted_nothing)))

module _ (c : Crypto) where
  unfoldable pub mac2_of : Option Bytes → Bytes → Bytes
  mac2_of (Option.some cookie) msg = b2s_keyed_mac_16 c cookie msg
  mac2_of Option.none msg = replicate 16 0

  -- `body` is the message before the two macs, which take the last 32 bytes of `dst`.
  unfoldable pub append_mac1_and_mac2 : Handshake → ℕ → Bytes → Handshake × Bytes
  unfolding mac2_of
  append_mac1_and_mac2 h local_index body =
      let msg_mac1 = b2s_keyed_mac_16 c h.params.sending_mac1_key body in
      let msg_mac2 = mac2_of h.cookies.write_cookie (body ++ msg_mac1) in
      (
        record h {
          cookies = record (h.cookies) { index = local_index; last_mac1 = Option.some msg_mac1 };
        },
        (body ++ msg_mac1) ++ msg_mac2,
      )

  -- What is copied into the parts of the message, and the state that waits for the answer.
  unfoldable pub write_initiation :
      NoiseParams → ℕ → Bytes → Bytes → ℕ → HandshakeInit × HandshakeInitSentState
  write_initiation params local_index ephemeral_private timestamp time_now =
      let chaining_key = initial_chain_key in
      let hash = b2s_hash c initial_chain_hash params.peer_static_public in
      let unencrypted_ephemeral = c.public_key ephemeral_private in
      let hash = b2s_hash c hash unencrypted_ephemeral in
      let chaining_key = b2s_kdf1 c chaining_key unencrypted_ephemeral in
      let ephemeral_shared = c.diffie_hellman ephemeral_private params.peer_static_public in
      let (chaining_key, key) = b2s_kdf2 c chaining_key ephemeral_shared in
      let encrypted_static = aead_chacha20_seal c key 0 params.static_public hash in
      let hash = b2s_hash c hash encrypted_static in
      let (chaining_key, key) = b2s_kdf2 c chaining_key params.static_shared in
      let encrypted_timestamp = aead_chacha20_seal c key 0 timestamp hash in
      let hash = b2s_hash c hash encrypted_timestamp in
      (
        record {
          sender_idx = local_index;
          unencrypted_ephemeral = unencrypted_ephemeral;
          encrypted_static = encrypted_static;
          encrypted_timestamp = encrypted_timestamp;
        },
        record {
          local_index = local_index;
          chaining_key = chaining_key;
          hash = hash;
          ephemeral_private = ephemeral_private;
          time_sent = time_now;
        },
      )

  -- The secret of the message, the time that its stamp shows and the time when it is sent are given.
  unfoldable pub format_handshake_initiation :
      Handshake → ℕ → Bytes → ℕ → ℕ → Handshake × Result Bytes
  format_handshake_initiation h dst_len ephemeral_private stamp_time time_now =
      if ltb dst_len handshake_init_sz
      then (h, err destination_buffer_too_small)
      else (let (h₁, local_index) = inc_index h in
          let (parts, sent) =
            write_initiation h₁.params local_index ephemeral_private (stamp h₁.stamper stamp_time)
              time_now in
          let (h₂, msg) =
            append_mac1_and_mac2 (record h₁ { previous = h₁.state; state = init_sent sent })
              local_index (initiation_body parts) in
          (h₂, ok msg))

  -- What is copied into the parts of the answer, and the new session.
  unfoldable pub write_response :
      NoiseParams → InitReceived → ℕ → Bytes → HandshakeResponse × Session
  write_response params received local_index ephemeral_private =
      let unencrypted_ephemeral = c.public_key ephemeral_private in
      let hash = b2s_hash c received.hash unencrypted_ephemeral in
      let chaining_key = b2s_kdf1 c received.chaining_key unencrypted_ephemeral in
      let ephemeral_shared = c.diffie_hellman ephemeral_private received.peer_ephemeral_public in
      let chaining_key = b2s_kdf1 c chaining_key ephemeral_shared in
      let chaining_key =
        b2s_kdf1 c chaining_key (c.diffie_hellman ephemeral_private params.peer_static_public) in
      let (chaining_key, temp2, key) =
        b2s_kdf3 c chaining_key (psk_or_default params.preshared_key) in
      let hash = b2s_hash c hash temp2 in
      let encrypted_nothing = aead_chacha20_seal c key 0 [] hash in
      let (temp2, temp3) = b2s_kdf2 c chaining_key [] in
      (
        record {
          sender_idx = local_index;
          receiver_idx = received.peer_index;
          unencrypted_ephemeral = unencrypted_ephemeral;
          encrypted_nothing = encrypted_nothing;
        },
        Session.new local_index received.peer_index temp2 temp3,
      )

  -- The state is taken out before it is looked at.
  unfoldable pub respond : Handshake → HandshakeState → Bytes → Handshake × Result (Bytes × Session)
  respond h (init_received received) ephemeral_private =
      let (h₁, local_index) = inc_index h in
      let (parts, session) = write_response h₁.params received local_index ephemeral_private in
      let (h₂, msg) = append_mac1_and_mac2 h₁ local_index (response_body parts) in
      (h₂, ok (msg, session))
  respond h _ ephemeral_private = (h, panic)

  unfoldable pub format_handshake_response :
      Handshake → ℕ → Bytes → Handshake × Result (Bytes × Session)
  format_handshake_response h dst_len ephemeral_private =
      if ltb dst_len handshake_resp_sz
      then (h, err destination_buffer_too_small)
      else respond (record h { state = HandshakeState.none }) h.state ephemeral_private
