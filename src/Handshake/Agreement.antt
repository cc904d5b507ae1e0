-- ===== src/Handshake/Agreement.antt =====
-- A handshake of boringtun/src/noise/handshake.rs from its first message to the sessions of both
-- sides, through the parser.
use boringtun.Prelude.{
  ℕ, ◌/◌, ◌%◌, ◌^◌, ◌≤◌, ◌<◌, ◌≡◌, refl, ap, ◌∙◌, arith, Option, true, ok, length,
}
use boringtun.Bytes.{Bytes}
use boringtun.Crypto.{Crypto, IsLawful}
use boringtun.Packet.{
  HandshakeInit, HandshakeResponse, handshake_init, handshake_response, parse_incoming_packet,
}
use boringtun.Replay
use boringtun.Session.{Session}
use boringtun.Session
use boringtun.Session.Transport.{Mirrored}
use boringtun.Handshake.Tai64n.{
  Tai64N, TimeStamper, nanos_per_sec, tai64_base, duration_since, after, stamp,
}
use boringtun.Handshake.Tai64n
use boringtun.Handshake.State.{
  Handshake, HandshakeState, HandshakeInitSentState, InitReceived, next_of, new_params,
}
use boringtun.Handshake.Index.{next_of-lt}
use boringtun.Handshake.Send.{
  append_mac1_and_mac2, write_initiation, write_response, format_handshake_initiation,
}
use boringtun.Handshake.Receive.{
  open_initiation, answer_opened, receive_handshake_initialization, open_response,
  receive_handshake_response,
}
use boringtun.Handshake.Steps.{
  length-stamp, initiation, posted, format_lem, posted-parsed, posted-state, answer, answered,
  respond_lem, answered-parsed, finish_lem, open_initiation_lem, open_response_lem,
}

-- What the two sides of a handshake end with: every message is sent and read, and the two sessions
-- are new and open each other's packets.
pub record Agreed (c : Crypto) (hi hr : Handshake) (e f : Bytes)
    (stamp_time time_now now dst_len : ℕ) : Type 0 where
  pub hi₁ : Handshake
  pub message : Bytes
  pub first : HandshakeInit
  pub hr₁ : Handshake
  pub reply : Bytes
  pub answer : HandshakeResponse
  pub hi₂ : Handshake
  pub session_i : Session
  pub session_r : Session
  pub sent : format_handshake_initiation c hi dst_len e stamp_time time_now ≡ (hi₁, ok message)
  pub read : parse_incoming_packet message ≡ ok (handshake_init first)
  pub answered :
      receive_handshake_initialization c hr first dst_len f ≡ (hr₁, ok (reply, session_r))
  pub read_answer : parse_incoming_packet reply ≡ ok (handshake_response answer)
  pub finished : receive_handshake_response c hi₁ answer now ≡ (hi₂, ok session_i)
  pub there : Mirrored session_i session_r
  pub back : Mirrored session_r session_i
  pub unused_i :
      (session_i.sending_key_counter ≡ 0) × (session_i.receiving_key_counter ≡ Replay.new)
  pub unused_r :
      (session_r.sending_key_counter ≡ 0) × (session_r.receiving_key_counter ≡ Replay.new)
  pub idle : (hi₂.state ≡ HandshakeState.none) × (hr₁.state ≡ HandshakeState.none)

-- Two peers that were made with each other's public keys and one preshared key complete a
-- handshake: whatever states they are in, if the initiator's stamp is after the last one that the
-- responder has seen, the indices are u32 and the buffers have 148 bytes, both messages are made,
-- parsed and accepted, the two new sessions are mirrored and unused, and no handshake is left
-- waiting. The cryptography has its laws.
pub handshake_agrees :
    (c : Crypto)
    → IsLawful c
    → (si sr : Bytes) (psk : Option Bytes) (hi hr : Handshake) (e f : Bytes)
      (stamp_time time_now now dst_len : ℕ)
    → hi.params ≡ new_params c si (c.public_key si) (c.public_key sr) psk
    → hr.params ≡ new_params c sr (c.public_key sr) (c.public_key si) psk
    → hi.next_index < 2 ^ 32
    → hr.next_index < 2 ^ 32
    → after (Tai64n.parse (stamp hi.stamper stamp_time)) hr.last_handshake_timestamp ≡ true
    → 148 ≤ dst_len
    → Agreed c hi hr e f stamp_time time_now now dst_len
handshake_agrees c laws si sr psk hi hr e f stamp_time time_now now dst_len pi pr index_i index_r
      newer room =
    record {
      hi₁ = (posted c laws hi e stamp_time time_now).0;
      message = (posted c laws hi e stamp_time time_now).1;
      first = (initiation c laws hi e stamp_time time_now).0;
      hr₁ = (answered c laws hr' received f).0;
      reply = (answered c laws hr' received f).1;
      answer = (answer c laws hr' received f).0;
      hi₂ = record ((posted c laws hi e stamp_time time_now).0) {
        last_rtt = Option.some (duration_since now opened.time_sent / 10 ^ 6 % 2 ^ 32);
        state = HandshakeState.none;
      };
      session_i =
          Session.new (next_of hi.next_index) (next_of hr.next_index) session_r.sender
            session_r.receiver;
      session_r = session_r;
      sent = format_lem c laws hi e stamp_time time_now dst_len room;
      read =
          posted-parsed c laws hi e stamp_time time_now index_i (
            ap (λ p. length p.static_public) pi ∙ (unfold new_params in laws.length-public_key si));
      answered =
          unfold receive_handshake_initialization answer_opened in
          ap (λ o. answer_opened c hr o dst_len f) opens
          ∙ respond_lem c laws hr' received f dst_len (omega arith);
      read_answer =
          answered-parsed c laws hr' received f index_r (next_of-lt hi.next_index index_i);
      finished =
          finish_lem c (posted c laws hi e stamp_time time_now).0 opened
            (answer c laws hr' received f).0 now _ (posted-state c laws hi e stamp_time time_now).0
            (unfold write_initiation write_response in refl) finishes;
      there =
          unfold Session.new write_response in
          record { same_key = refl; same_index = refl; fits = next_of-lt hr.next_index index_r };
      back =
          unfold Session.new write_response in
          record { same_key = refl; same_index = refl; fits = next_of-lt hi.next_index index_i };
      unused_i = unfold Session.new in (refl, refl);
      unused_r = unfold Session.new write_response in (refl, refl);
      idle = unfold append_mac1_and_mac2 in (refl, refl);
    }
  where
    opened : HandshakeInitSentState
    opened = (initiation c laws hi e stamp_time time_now).1

    received : InitReceived
    received = record {
      hash = opened.hash;
      chaining_key = opened.chaining_key;
      peer_ephemeral_public = c.public_key e;
      peer_index = next_of hi.next_index;
    }

    hr' : Handshake
    hr' = record hr {
      last_handshake_timestamp = Tai64n.parse (stamp hi.stamper stamp_time);
      previous = hr.state;
    }

    session_r : Session
    session_r = (answer c laws hr' received f).1

    opens :
        open_initiation c hr.params hr.last_handshake_timestamp
          (initiation c laws hi e stamp_time time_now).0
        ≡ ok
            (record { timestamp = Tai64n.parse (stamp hi.stamper stamp_time); received = received })
    opens =
        open_initiation_lem c laws si sr psk pi pr (next_of hi.next_index) e
          (stamp hi.stamper stamp_time) time_now hr.last_handshake_timestamp
          (length-stamp hi.stamper stamp_time) newer

    finishes :
        open_response c
          (posted c laws hi e stamp_time time_now).0.params
          opened
          (answer c laws hr' received f).0
        ≡ ok (
            Session.new
              (next_of hi.next_index)
              (next_of hr.next_index)
              session_r.sender
              session_r.receiver)
    finishes =
        unfold append_mac1_and_mac2 write_initiation in
        open_response_lem c laws si sr psk pi pr opened (next_of hr.next_index) f
