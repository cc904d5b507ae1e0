-- ===== src/Handshake/Keys.antt =====
-- The two key schedules of boringtun/src/noise/handshake.rs meet: what one side seals the other
-- opens, and both derive the same session keys.
use boringtun.Prelude.{ℕ, ◌≤◌, ◌≡◌, refl, arith, [], Option, true, ok, length}
use boringtun.Bytes.{Bytes, bytes_eq_refl}
use boringtun.Crypto.{
  Crypto, IsLawful, aead_chacha20_seal, aead_chacha20_open, key_len, b2s_kdf1, b2s_kdf2, nonce_of,
}
use boringtun.Session.{Session}
use boringtun.Session
use boringtun.Handshake.Tai64n.{Tai64N, after}
use boringtun.Handshake.Tai64n
use boringtun.Handshake.State.{NoiseParams, HandshakeInitSentState, InitReceived, new_params}
use boringtun.Handshake.Send.{write_initiation, write_response}
use boringtun.Handshake.Receive.{open_initiation, open_response, timestamp_len}

module _ (c : Crypto) (laws : IsLawful c) where
  open_text :
      (n : ℕ) (key text aad : Bytes)
      → length text ≡ n
      → n ≤ 32
      → aead_chacha20_open c n key 0 (aead_chacha20_seal c key 0 text aad) aad ≡ ok text
  unfolding aead_chacha20_open aead_chacha20_seal
  open_text n key text aad e h =
      rw (laws.open-seal key (nonce_of 0) aad text)
        (ground (arith, laws.length-seal key (nonce_of 0) aad text))

  open_public :
      (s key aad : Bytes)
      → aead_chacha20_open c key_len key 0 (aead_chacha20_seal c key 0 (c.public_key s) aad) aad
        ≡ ok (c.public_key s)
  open_public s key aad =
      open_text key_len key (c.public_key s) aad (laws.length-public_key s) (omega arith)

  open_nothing :
      (key aad : Bytes)
      → aead_chacha20_open c 0 key 0 (aead_chacha20_seal c key 0 [] aad) aad ≡ ok []
  open_nothing key aad = open_text 0 key [] aad refl (omega arith)

  -- The first output of the longer schedule is that of the shorter.
  kdf2-first : (key input : Bytes) → (b2s_kdf2 c key input).0 ≡ b2s_kdf1 c key input
  unfolding b2s_kdf2 b2s_kdf1
  kdf2-first key input = refl

  module _ (si sr : Bytes) (psk : Option Bytes) where
    abbrev pub initiator : NoiseParams
    initiator = new_params c si (c.public_key si) (c.public_key sr) psk

    abbrev pub responder : NoiseParams
    responder = new_params c sr (c.public_key sr) (c.public_key si) psk

    module _ (local_index : ℕ) (e stamp : Bytes) (now : ℕ) where
      abbrev pub sent : HandshakeInitSentState
      sent = (write_initiation c initiator local_index e stamp now).1

      -- What the responder keeps is what the initiator keeps.
      abbrev pub received : InitReceived
      received = record {
        hash = sent.hash;
        chaining_key = sent.chaining_key;
        peer_ephemeral_public = c.public_key e;
        peer_index = local_index;
      }

      pub open-write_initiation :
          (last : Tai64N)
          → length stamp ≡ timestamp_len
          → after (Tai64n.parse stamp) last ≡ true
          → open_initiation c responder last
              (write_initiation c initiator local_index e stamp now).0
            ≡ ok (record { timestamp = Tai64n.parse stamp; received = received })
      unfolding open_initiation write_initiation new_params
      open-write_initiation last len newer = rw (
        laws.diffie_hellman_comm sr e,
        laws.diffie_hellman_comm sr si,
        open_public si _ _,
        bytes_eq_refl (c.public_key si),
        open_text timestamp_len _ stamp _ len (omega arith),
        newer,
      )

    -- The answer, to any initiation whose hash and chaining key both sides know.
    pub open-write_response :
        (sent : HandshakeInitSentState) (peer_index : ℕ) (f : Bytes)
        → let received : InitReceived = record {
          hash = sent.hash;
          chaining_key = sent.chaining_key;
          peer_ephemeral_public = c.public_key sent.ephemeral_private;
          peer_index = sent.local_index;
        } in
          let (parts, session) = write_response c responder received peer_index f in
          open_response c initiator sent parts
          ≡ ok (Session.new sent.local_index peer_index session.sender session.receiver)
    unfolding open_response write_response new_params Session.new
    open-write_response sent peer_index f = rw (
      kdf2-first sent.chaining_key (c.public_key f),
      laws.diffie_hellman_comm sent.ephemeral_private f,
      laws.diffie_hellman_comm si f,
      open_nothing _ _,
    )
