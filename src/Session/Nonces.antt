-- ===== src/Session/Nonces.antt =====
-- The counters that `format_packet_data` of boringtun/src/noise/session.rs puts into packets and
-- nonces.
use boringtun.Prelude.{
  ℕ, ◌+◌, ◌^◌, ◌≤◌, ◌<◌, ◌≡◌, ◌≢◌, sym, ap, ◌∙◌, arith, List, [], ◌∷◌, ok, length, Result,
  ok_injective, refl,
}
use boringtun.Bytes.{Bytes, from_le_bytes, from_le_bytes-to_le_bytes}
use boringtun.Crypto.{Crypto, nonce_of}
use boringtun.Packet.{packet_data}
use boringtun.Packet.Wire.{encode}
use boringtun.Session.Transport.{format_packet_data_lem}
use boringtun.Session.{Session, format_packet_data}

-- The nonce of a counter tells it from every other.
nonce_of-injective : (i j : ℕ) → i < 2 ^ 64 → j < 2 ^ 64 → nonce_of i ≡ nonce_of j → i ≡ j
nonce_of-injective i j hi hj e =
    sym (from_le_bytes-to_le_bytes 8 i hi)
    ∙ ap from_le_bytes (cc e)
    ∙ from_le_bytes-to_le_bytes 8 j hj

-- The packets that a session sends, each with the length of its buffer.
abbrev pub Sends : Type 0
Sends = List (Bytes × ℕ)

module _ (c : Crypto) where
  unfoldable pub after_sends : Session → Sends → Session
  after_sends s [] = s
  after_sends s ((src, dst_len) ∷ rest) = after_sends (format_packet_data c s src dst_len).0 rest

  -- A buffer that is too small costs no counter.
  counter-format :
      (s : Session) (src : Bytes) (dst_len : ℕ)
      → s.sending_key_counter + 1 < 2 ^ 64
      → (s.sending_key_counter ≤ (format_packet_data c s src dst_len).0.sending_key_counter)
        × ((format_packet_data c s src dst_len).0.sending_key_counter ≤ s.sending_key_counter + 1)
  unfolding format_packet_data
  counter-format s src dst_len h = ground arith

  counter-after_sends :
      (s : Session) (sends : Sends)
      → s.sending_key_counter + length sends < 2 ^ 64
      → (s.sending_key_counter ≤ (after_sends s sends).sending_key_counter)
        × ((after_sends s sends).sending_key_counter ≤ s.sending_key_counter + length sends)
  unfolding after_sends
  counter-after_sends s [] h = omega arith
  counter-after_sends s ((src, dst_len) ∷ rest) h =
      let step = counter-format s src dst_len (omega arith) in
      omega (
        arith,
        step,
        counter-after_sends (format_packet_data c s src dst_len).0 rest (omega (arith, step)),
      )

  counter-format_ok :
      (s : Session) (src : Bytes) (dst_len : ℕ) {msg : Bytes}
      → s.sending_key_counter + 1 < 2 ^ 64
      → (format_packet_data c s src dst_len).1 ≡ ok msg
      → (format_packet_data c s src dst_len).0.sending_key_counter ≡ s.sending_key_counter + 1
  unfolding format_packet_data
  counter-format_ok s src dst_len h e = ground arith

  -- The key and the peer's index stay.
  keys-format :
      (s : Session) (src : Bytes) (dst_len : ℕ)
      → ((format_packet_data c s src dst_len).0.sender ≡ s.sender)
        × ((format_packet_data c s src dst_len).0.sending_index ≡ s.sending_index)
  unfolding format_packet_data
  keys-format s src dst_len = ground arith

  keys-after_sends :
      (s : Session) (sends : Sends)
      → ((after_sends s sends).sender ≡ s.sender)
        × ((after_sends s sends).sending_index ≡ s.sending_index)
  unfolding after_sends
  keys-after_sends s [] = (refl, refl)
  keys-after_sends s ((src, dst_len) ∷ rest) =
      let later = keys-after_sends (format_packet_data c s src dst_len).0 rest in
      let step = keys-format s src dst_len in (later.0 ∙ step.0, later.1 ∙ step.1)

  -- The data packet for an index, with a counter in its header and in the nonce of its text
  abbrev pub message : ℕ → Bytes → ℕ → Bytes → Bytes
  message index key counter src =
      encode
        (packet_data (record {
          receiver_idx = index;
          counter = counter;
          encrypted_encapsulated_packet = c.seal key (nonce_of counter) [] src;
        }))
        []

  format-message :
      (s : Session) (src : Bytes) (dst_len : ℕ) {msg : Bytes}
      → (format_packet_data c s src dst_len).1 ≡ ok msg
      → msg ≡ message s.sending_index s.sender s.sending_key_counter src
  format-message s src dst_len e = sym (
      ok_injective (
        sym (
          ap (λ (r : Session × Result Bytes). r.1)
            (format_packet_data_lem c s src dst_len (room e)))
        ∙ e))
    where
      room :
          {msg : Bytes}
          → (format_packet_data c s src dst_len).1 ≡ ok msg
          → length src + 32 ≤ dst_len
      room h = unfold format_packet_data in ground arith

  -- No two packets of a session are sealed with the same nonce: two packets that
  -- `format_packet_data` makes, with any packets between them, are the data packets of two counters,
  -- each of which stands in its header and in the nonce of its text, both texts are sealed with the
  -- key of the session, and the nonces of the two counters differ. The counters stay below 2 ^ 64.
  pub nonce_fresh :
      (s : Session) (src : Bytes) (dst_len : ℕ) {msg : Bytes} (between : Sends) (src' : Bytes)
      (dst_len' : ℕ) {msg' : Bytes}
      → s.sending_key_counter + length between + 1 < 2 ^ 64
      → (format_packet_data c s src dst_len).1 ≡ ok msg
      → (format_packet_data c
          (after_sends (format_packet_data c s src dst_len).0 between)
          src'
          dst_len').1
        ≡ ok msg'
      → (i : ℕ) × (j : ℕ) × (msg ≡ message s.sending_index s.sender i src)
        × (msg' ≡ message s.sending_index s.sender j src')
        × (nonce_of i ≢ nonce_of j)
  nonce_fresh s src dst_len between src' dst_len' h e e' =
      let s' = (format_packet_data c s src dst_len).0 in
      let s'' = after_sends s' between in
      let next = counter-format_ok s src dst_len (omega arith) e in
      let later = counter-after_sends s' between (omega (arith, next)) in
      let step = keys-format s src dst_len in
      let keys = keys-after_sends s' between in
      (
        s.sending_key_counter,
        s''.sending_key_counter,
        format-message s src dst_len e,
        format-message s'' src' dst_len' e' ∙ (λ k.
            message ((keys.1 ∙ step.1) k) ((keys.0 ∙ step.0) k) s''.sending_key_counter src'),
        λ same.
            (let equal =
                nonce_of-injective s.sending_key_counter s''.sending_key_counter (omega arith)
                  (omega (arith, next, later)) same in
              absurd (omega (arith, next, later, equal))),
      )
