-- ===== src/Handshake/Steps.antt =====
-- The steps of a handshake of boringtun/src/noise/handshake.rs, each where it succeeds.
use boringtun.Prelude.{
  ℕ, ◌+◌, ◌/◌, ◌%◌, ◌^◌, ◌≤◌, ◌<◌, ◌≡◌, refl, ap, ◌∙◌, arith, [], Option, true, false, ok, length,
  ltb, ◌==◌, if◌then◌else◌, length-append,
}
use boringtun.Bytes.{Bytes, length-to_be_bytes, to_be_bytes}
use boringtun.Crypto.{Crypto, IsLawful, aead_chacha20_seal, nonce_of}
use boringtun.Packet.{
  HandshakeInit, HandshakeResponse, handshake_init, handshake_response, parse_incoming_packet,
}
use boringtun.Session.{Session}
use boringtun.Session
use boringtun.Handshake.Tai64n.{
  Tai64N, TimeStamper, nanos_per_sec, tai64_base, duration_since, after, stamp,
}
use boringtun.Handshake.Tai64n
use boringtun.Handshake.State.{
  Handshake, HandshakeState, HandshakeInitSentState, InitReceived, NoiseParams, init_sent,
  init_received, next_of, inc_index,
}
use boringtun.Handshake.Index.{next_of-lt}
use boringtun.Handshake.Send.{
  append_mac1_and_mac2, initiation_body, response_body, write_initiation, write_response,
  format_handshake_initiation, format_handshake_response, respond,
}
use boringtun.Handshake.Receive.{
  open_initiation, open_response, awaiting, receive_response_for, finish_response,
  receive_handshake_response, timestamp_len,
}
use boringtun.Handshake.Wire.{parse-initiation, parse-response}
use boringtun.Handshake.Keys.{initiator, responder, open-write_initiation, open-write_response}

pub length-stamp : (s : TimeStamper) (now : ℕ) → length (stamp s now) ≡ timestamp_len
unfolding stamp
length-stamp s now = omega (
  arith,
  length-append (to_be_bytes 8 (seconds % 2 ^ 64)) (to_be_bytes 4 (time % nanos_per_sec)),
  length-to_be_bytes 8 (seconds % 2 ^ 64),
  length-to_be_bytes 4 (time % nanos_per_sec),
)
  where
    time : ℕ
    time = duration_since now s.instant_at_start + s.duration_at_start

    seconds : ℕ
    seconds = time / nanos_per_sec + tai64_base

module _ (c : Crypto) (laws : IsLawful c) where
  length-sealed :
      (key text aad : Bytes) (n : ℕ)
      → length text ≡ n
      → length (aead_chacha20_seal c key 0 text aad) ≡ n + 16
  unfolding aead_chacha20_seal
  length-sealed key text aad n e = omega (arith, laws.length-seal key (nonce_of 0) aad text)

  -- What the first message is made of, and the state that waits for the answer.
  module _ (h : Handshake) (e : Bytes) (stamp_time time_now : ℕ) where
    abbrev pub initiation : HandshakeInit × HandshakeInitSentState
    initiation =
        write_initiation c h.params (next_of h.next_index) e (stamp h.stamper stamp_time) time_now

    abbrev pub waiting : Handshake
    waiting = record h {
      next_index = next_of h.next_index;
      previous = h.state;
      state = init_sent initiation.1;
    }

    abbrev pub posted : Handshake × Bytes
    posted = append_mac1_and_mac2 c waiting (next_of h.next_index) (initiation_body initiation.0)

    pub format_lem :
        (dst_len : ℕ)
        → 148 ≤ dst_len
        → format_handshake_initiation c h dst_len e stamp_time time_now ≡ (posted.0, ok posted.1)
    unfolding format_handshake_initiation inc_index
    format_lem dst_len room = let guard : ltb dst_len 148 ≡ false = ground arith in rw guard

    pub posted-parsed :
        h.next_index < 2 ^ 32
        → length h.params.static_public ≡ 32
        → parse_incoming_packet posted.1 ≡ ok (handshake_init initiation.0)
    posted-parsed index public =
        parse-initiation c laws waiting (next_of h.next_index) initiation.0
          (unfold write_initiation in next_of-lt h.next_index index)
          (unfold write_initiation in laws.length-public_key e)
          (unfold write_initiation in length-sealed _ h.params.static_public _ 32 public)
          (unfold write_initiation in
            length-sealed _ (stamp h.stamper stamp_time) _ 12 (length-stamp h.stamper stamp_time))

    pub posted-state : (posted.0.state ≡ init_sent initiation.1) × (posted.0.params ≡ h.params)
    unfolding append_mac1_and_mac2
    posted-state = (refl, refl)

  -- The same for the answer.
  module _ (h : Handshake) (received : InitReceived) (f : Bytes) where
    abbrev pub answer : HandshakeResponse × Session
    answer = write_response c h.params received (next_of h.next_index) f

    abbrev answering : Handshake
    answering = record h { next_index = next_of h.next_index; state = HandshakeState.none }

    abbrev pub answered : Handshake × Bytes
    answered = append_mac1_and_mac2 c answering (next_of h.next_index) (response_body answer.0)

    pub respond_lem :
        (dst_len : ℕ)
        → 92 ≤ dst_len
        → format_handshake_response c (record h { state = init_received received }) dst_len f
          ≡ (answered.0, ok (answered.1, answer.1))
    unfolding format_handshake_response inc_index respond
    respond_lem dst_len room = let guard : ltb dst_len 92 ≡ false = ground arith in rw guard

    pub answered-parsed :
        h.next_index < 2 ^ 32
        → received.peer_index < 2 ^ 32
        → parse_incoming_packet answered.1 ≡ ok (handshake_response answer.0)
    answered-parsed index peer =
        parse-response c laws answering (next_of h.next_index) answer.0
          (unfold write_response in next_of-lt h.next_index index) (unfold write_response in peer)
          (unfold write_response in laws.length-public_key f)
          (unfold write_response in length-sealed _ [] _ 0 refl)

-- An answer that names the waiting handshake, and whose keys fit.
pub finish_lem :
    (c : Crypto) (h : Handshake) (s : HandshakeInitSentState) (p : HandshakeResponse) (now : ℕ)
    (session : Session)
    → h.state ≡ init_sent s
    → s.local_index ≡ p.receiver_idx
    → open_response c h.params s p ≡ ok session
    → receive_handshake_response c h p now ≡ (
      record h {
        last_rtt = Option.some (duration_since now s.time_sent / 10 ^ 6 % 2 ^ 32);
        state = HandshakeState.none;
      },
      ok session,
    )
unfolding receive_handshake_response awaiting receive_response_for finish_response
finish_lem c h s p now session e i o =
    ap
      (λ st.
        receive_response_for c h (awaiting c st p.receiver_idx)
          (awaiting c h.previous p.receiver_idx) p now)
      e
    ∙ ap
        (λ b.
          receive_response_for c h (if b then Option.some s else Option.none)
            (awaiting c h.previous p.receiver_idx) p now)
        found
    ∙ ap (finish_response c h s false now) o
  where
    found : (s.local_index == p.receiver_idx) ≡ true
    found = ground arith

module _ (c : Crypto) (laws : IsLawful c) (si sr : Bytes) (psk : Option Bytes)
    {params_i params_r : NoiseParams} (pi : params_i ≡ initiator c laws si sr psk)
    (pr : params_r ≡ responder c laws si sr psk) where
  pub open_initiation_lem :
      (index : ℕ) (e stamp : Bytes) (time_now : ℕ) (last : Tai64N)
      → length stamp ≡ timestamp_len
      → after (Tai64n.parse stamp) last ≡ true
      → let (parts, sent) = write_initiation c params_i index e stamp time_now in
        open_initiation c params_r last parts
        ≡ ok (record {
          timestamp = Tai64n.parse stamp;
          received = record {
            hash = sent.hash;
            chaining_key = sent.chaining_key;
            peer_ephemeral_public = c.public_key e;
            peer_index = index;
          };
        })
  open_initiation_lem index e stamp time_now last len newer =
      rw (pi, pr) (open-write_initiation c laws si sr psk index e stamp time_now last len newer)

  pub open_response_lem :
      (sent : HandshakeInitSentState) (peer_index : ℕ) (f : Bytes)
      → let received : InitReceived = record {
        hash = sent.hash;
        chaining_key = sent.chaining_key;
        peer_ephemeral_public = c.public_key sent.ephemeral_private;
        peer_index = sent.local_index;
      } in
        let (parts, session) = write_response c params_r received peer_index f in
        open_response c params_i sent parts
        ≡ ok (Session.new sent.local_index peer_index session.sender session.receiver)
  open_response_lem sent peer_index f =
      rw (pi, pr) (open-write_response c laws si sr psk sent peer_index f)
