-- ===== src/Handshake/Receive.antt =====
-- The messages that a handshake receives: `parse_handshake_anon`,
-- `receive_handshake_initialization`, `receive_handshake_response` and `receive_cookie_reply` of
-- boringtun/src/noise/handshake.rs.
use boringtun.Prelude.{
  ℕ, ◌/◌, ◌%◌, ◌^◌, not, ◌++◌, [], Bool, true, false, Option, Result, ok, err, panic, wrong_key,
  wrong_index, wrong_tai64n_timestamp, unexpected_packet, ◌>>=◌, ◌>>◌, ensure, take, drop, ◌==◌,
  if◌then◌else◌,
}
use boringtun.Bytes.{Bytes, bytes_eq}
use boringtun.Crypto.{
  Crypto, b2s_hash, b2s_kdf1, b2s_kdf2, b2s_kdf3, aead_chacha20_open, or_invalid, key_len,
}
use boringtun.Packet.{HandshakeInit, HandshakeResponse, PacketCookieReply}
use boringtun.Session.{Session}
use boringtun.Session
use boringtun.Handshake.Tai64n.{Tai64N, after, duration_since}
use boringtun.Handshake.Tai64n
use boringtun.Handshake.State.{
  Handshake, HandshakeState, NoiseParams, HandshakeInitSentState, InitReceived, init_sent,
  init_received,
}
use boringtun.Handshake.Send.{
  initial_chain_key, initial_chain_hash, psk_or_default, format_handshake_response,
}

abbrev pub timestamp_len : ℕ
timestamp_len = 12

abbrev pub cookie_size : ℕ
cookie_size = 16

pub record HalfHandshake : Type 0 where
  pub peer_index : ℕ
  pub peer_static_public : Bytes

-- An initiation that passed every check: its stamp, and the state that the answer is made from.
pub record Opened : Type 0 where
  pub timestamp : Tai64N
  pub received : InitReceived

module _ (c : Crypto) where
  unfoldable pub parse_handshake_anon : Bytes → Bytes → HandshakeInit → Result HalfHandshake
  parse_handshake_anon static_private static_public packet =
      let hash = b2s_hash c initial_chain_hash static_public in
      let peer_ephemeral_public = packet.unencrypted_ephemeral in
      let hash = b2s_hash c hash peer_ephemeral_public in
      let chaining_key = b2s_kdf1 c initial_chain_key peer_ephemeral_public in
      let ephemeral_shared = c.diffie_hellman static_private peer_ephemeral_public in
      let (_, key) = b2s_kdf2 c chaining_key ephemeral_shared in
      do
        peer_static_public ← aead_chacha20_open c key_len key 0 packet.encrypted_static hash
        ok (record { peer_index = packet.sender_idx; peer_static_public = peer_static_public })

  -- The first part of `receive_handshake_initialization`: nothing is changed before the stamp was
  -- found newer than the last.
  unfoldable pub open_initiation : NoiseParams → Tai64N → HandshakeInit → Result Opened
  open_initiation params last packet =
      let hash = b2s_hash c initial_chain_hash params.static_public in
      let peer_ephemeral_public = packet.unencrypted_ephemeral in
      let hash = b2s_hash c hash peer_ephemeral_public in
      let chaining_key = b2s_kdf1 c initial_chain_key peer_ephemeral_public in
      let ephemeral_shared = c.diffie_hellman params.static_private peer_ephemeral_public in
      let (chaining_key, key) = b2s_kdf2 c chaining_key ephemeral_shared in
      do
        peer_static_public_decrypted ←
            aead_chacha20_open c key_len key 0 packet.encrypted_static hash
        ensure (bytes_eq params.peer_static_public peer_static_public_decrypted) wrong_key
        let hash = b2s_hash c hash packet.encrypted_static
        let (chaining_key, key) = b2s_kdf2 c chaining_key params.static_shared
        timestamp ← aead_chacha20_open c timestamp_len key 0 packet.encrypted_timestamp hash
        ensure (after (Tai64n.parse timestamp) last) wrong_tai64n_timestamp
        let hash = b2s_hash c hash packet.encrypted_timestamp
        ok (record {
          timestamp = Tai64n.parse timestamp;
          received = record {
            chaining_key = chaining_key;
            hash = hash;
            peer_ephemeral_public = peer_ephemeral_public;
            peer_index = packet.sender_idx;
          };
        })

  unfoldable pub answer_opened :
      Handshake → Result Opened → ℕ → Bytes → Handshake × Result (Bytes × Session)
  answer_opened h (ok opened) dst_len ephemeral_private =
      format_handshake_response c
        (record h {
          last_handshake_timestamp = opened.timestamp;
          previous = h.state;
          state = init_received opened.received;
        })
        dst_len ephemeral_private
  answer_opened h (err e) dst_len ephemeral_private = (h, err e)
  answer_opened h panic dst_len ephemeral_private = (h, panic)

  unfoldable pub receive_handshake_initialization :
      Handshake → HandshakeInit → ℕ → Bytes → Handshake × Result (Bytes × Session)
  receive_handshake_initialization h packet dst_len ephemeral_private =
      answer_opened h (open_initiation h.params h.last_handshake_timestamp packet) dst_len
        ephemeral_private

  -- The session that an answer makes.
  unfoldable pub open_response :
      NoiseParams → HandshakeInitSentState → HandshakeResponse → Result Session
  open_response params state packet =
      let unencrypted_ephemeral = packet.unencrypted_ephemeral in
      let hash = b2s_hash c state.hash unencrypted_ephemeral in
      let (chaining_key, _) = b2s_kdf2 c state.chaining_key unencrypted_ephemeral in
      let ephemeral_shared = c.diffie_hellman state.ephemeral_private unencrypted_ephemeral in
      let chaining_key = b2s_kdf1 c chaining_key ephemeral_shared in
      let chaining_key =
        b2s_kdf1 c chaining_key (c.diffie_hellman params.static_private unencrypted_ephemeral) in
      let (chaining_key, temp2, key) =
        b2s_kdf3 c chaining_key (psk_or_default params.preshared_key) in
      let hash = b2s_hash c hash temp2 in
      do
        nothing ← aead_chacha20_open c 0 key 0 packet.encrypted_nothing hash
        let (temp2, temp3) = b2s_kdf2 c chaining_key []
        ok (Session.new state.local_index packet.sender_idx temp3 temp2)

  -- The handshake that waits for this answer, if its index is `receiver_idx`.
  unfoldable pub awaiting : HandshakeState → ℕ → Option HandshakeInitSentState
  awaiting (init_sent s) receiver_idx =
      if s.local_index == receiver_idx then Option.some s else Option.none
  awaiting _ receiver_idx = Option.none

  unfoldable pub finish_response :
      Handshake → HandshakeInitSentState → Bool → ℕ → Result Session → Handshake × Result Session
  finish_response h s is_previous now (ok session) = (
    (let h₁ = record h {
      last_rtt = Option.some (duration_since now s.time_sent / 10 ^ 6 % 2 ^ 32);
    } in
        if is_previous
        then record h₁ { previous = HandshakeState.none }
        else record h₁ { state = HandshakeState.none }),
    ok session,
  )
  finish_response h s is_previous now (err e) = (h, err e)
  finish_response h s is_previous now panic = (h, panic)

  unfoldable pub receive_response_for :
      Handshake
      → Option HandshakeInitSentState
      → Option HandshakeInitSentState
      → HandshakeResponse
      → ℕ
      → Handshake × Result Session
  receive_response_for h (Option.some s) previous packet now =
      finish_response h s false now (open_response h.params s packet)
  receive_response_for h Option.none (Option.some s) packet now =
      finish_response h s true now (open_response h.params s packet)
  receive_response_for h Option.none Option.none packet now = (h, err unexpected_packet)

  unfoldable pub receive_handshake_response :
      Handshake → HandshakeResponse → ℕ → Handshake × Result Session
  receive_handshake_response h packet now =
      receive_response_for h (awaiting h.state packet.receiver_idx)
        (awaiting h.previous packet.receiver_idx) packet now

  -- `decrypt_in_place_detached` is given the text and the tag apart.
  unfoldable pub take_cookie : Handshake → Result Bytes → Handshake × Result (Unit {0})
  take_cookie h (ok cookie) =
      (record h { cookies = record (h.cookies) { write_cookie = Option.some cookie } }, ok tt)
  take_cookie h (err e) = (h, err e)
  take_cookie h panic = (h, panic)

  unfoldable pub receive_cookie_for :
      Handshake → PacketCookieReply → Option Bytes → Handshake × Result (Unit {0})
  receive_cookie_for h packet Option.none = (h, err unexpected_packet)
  receive_cookie_for h packet (Option.some mac1) =
      if not (packet.receiver_idx == h.cookies.index)
      then (h, err wrong_index)
      else take_cookie h (
          or_invalid (
            c.xopen h.params.cookie_key packet.nonce mac1 (
              take cookie_size packet.encrypted_cookie
              ++ drop cookie_size packet.encrypted_cookie)))

  unfoldable pub receive_cookie_reply :
      Handshake → PacketCookieReply → Handshake × Result (Unit {0})
  receive_cookie_reply h packet = receive_cookie_for h packet h.cookies.last_mac1
