-- ===== src/Session/Transport.antt =====
-- Two sessions of boringtun/src/noise/session.rs with the same keys, and the packets between them.
use boringtun.Prelude.{
  ℕ, ◌+◌, ◌-◌, ◌^◌, ◌≤◌, ◌<◌, ◌≡◌, refl, sym, ap, ◌∙◌, arith, true, List, [], ◌∷◌, Result, ok, err,
  panic, length, ◌>>=◌, unexpected_packet, map, some, All,
}
use mathlib.Core.List.{append-nil}
use boringtun.Bytes.{Bytes}
use boringtun.Crypto.{Crypto, IsLawful, nonce_of}
use boringtun.Packet.{Packet, PacketData, packet_data, parse_incoming_packet}
use boringtun.Packet.Wire.{encode}
use boringtun.Packet.RoundTrip.{parse-encode}
use boringtun.Replay.{add64, n_bits}
use boringtun.Replay.History.{IsSmall}
use boringtun.Replay.Window.{Window, accepts}
use boringtun.Replay.Window
use boringtun.Replay.Mark.{Refines}
use boringtun.Session.{Session, format_packet_data, receive_packet_data}
use boringtun.Session.Receive.{receive_packet_data_iff, delivered_marked}
use boringtun.Session.Keys.{receive_packet_data-SameKeys}

module _ (c : Crypto) where
  -- What `format_packet_data` puts into the message.
  abbrev pub sealed : Session → Bytes → PacketData
  sealed a src = record {
    receiver_idx = a.sending_index;
    counter = a.sending_key_counter;
    encrypted_encapsulated_packet = c.seal a.sender (nonce_of a.sending_key_counter) [] src;
  }

  pub format_packet_data_lem :
      (a : Session) (src : Bytes) (dst_len : ℕ)
      → length src + 32 ≤ dst_len
      → format_packet_data c a src dst_len ≡ (
        record a { sending_key_counter = add64 a.sending_key_counter 1 },
        ok (encode (packet_data (sealed a src)) []),
      )
  unfolding format_packet_data
  format_packet_data_lem a src dst_len fits =
      ground (arith, append-nil (c.seal a.sender (nonce_of a.sending_key_counter) [] src))

  -- The other end: what it does with a datagram that holds a data packet.
  pub receive_message : Session → ℕ → Result Packet → Session × Result Bytes
  receive_message b dst_len (ok (packet_data p)) = receive_packet_data c b p dst_len
  receive_message b dst_len (ok p) = (b, err unexpected_packet)
  receive_message b dst_len (err e) = (b, err e)
  receive_message b dst_len panic = (b, panic)

  -- One packet on its way from `a` to `b`, whose buffers have length `dst_len`.
  pub transmit : ℕ → Session → Session → Bytes → Session × Session × Result Bytes
  transmit dst_len a b src =
      let (a', msg) = format_packet_data c a src dst_len in
      let (b', text) = receive_message b dst_len (msg >>= parse_incoming_packet) in (a', b', text)

  pub transmit_all : ℕ → Session → Session → List Bytes → List (Result Bytes)
  transmit_all dst_len a b [] = []
  transmit_all dst_len a b (src ∷ srcs) =
      let (a', b', text) = transmit dst_len a b src in text ∷ transmit_all dst_len a' b' srcs

-- `b` opens what `a` seals.
pub record Mirrored (a b : Session) : Type 0 where
  pub same_key : a.sender ≡ b.receiver
  pub same_index : a.sending_index ≡ b.receiving_index
  pub fits : a.sending_index < 2 ^ 32

module _ (c : Crypto) (laws : IsLawful c) (dst_len : ℕ) where
  sealed_parsed :
      (a : Session) (src : Bytes)
      → a.sending_index < 2 ^ 32
      → a.sending_key_counter < 2 ^ 64
      → parse_incoming_packet (encode (packet_data (sealed c a src)) [])
        ≡ ok (packet_data (sealed c a src))
  sealed_parsed a src i n = parse-encode (packet_data (sealed c a src)) [] (
      (
        i,
        n,
        omega (arith, laws.length-seal a.sender (nonce_of a.sending_key_counter) [] src),
        refl,
      ))

  module _ (a b : Session) (w : Window) (m : Mirrored a b) (r : Refines b.receiving_key_counter w)
      (src : Bytes) (small : IsSmall a.sending_key_counter) (room : length src + 32 ≤ dst_len) where
    transmit_lem : transmit c dst_len a b src ≡ (
      record a { sending_key_counter = add64 a.sending_key_counter 1 },
      (receive_packet_data c b (sealed c a src) dst_len).0,
      (receive_packet_data c b (sealed c a src) dst_len).1,
    )
    unfolding transmit receive_message
    transmit_lem =
        rw (format_packet_data_lem c a src dst_len room, sealed_parsed a src m.fits (omega arith))
          refl

    sealed_room : length (sealed c a src).encrypted_encapsulated_packet ≤ dst_len
    sealed_room = omega (arith, laws.length-seal a.sender (nonce_of a.sending_key_counter) [] src)

    delivered :
        accepts w a.sending_key_counter ≡ true
        → (receive_packet_data c b (sealed c a src) dst_len).1 ≡ ok src
    delivered acc =
        (receive_packet_data_iff c b w r (sealed c a src) dst_len small sealed_room src).1
          (m.same_index, acc, opens)
      where
        opens :
            c.open_sealed b.receiver
              (nonce_of a.sending_key_counter)
              []
              (c.seal a.sender (nonce_of a.sending_key_counter) [] src)
            ≡ some src
        opens = rw (← m.same_key) (laws.open-seal a.sender (nonce_of a.sending_key_counter) [] src)

    moved :
        accepts w a.sending_key_counter ≡ true
        → Refines
            (receive_packet_data c b (sealed c a src) dst_len).0.receiving_key_counter
            (Window.mark w a.sending_key_counter)
    moved acc =
        delivered_marked c b w r (sealed c a src) dst_len small sealed_room src (delivered acc)

    keys_kept :
        Mirrored
          (record a { sending_key_counter = add64 a.sending_key_counter 1 })
          (receive_packet_data c b (sealed c a src) dst_len).0
    keys_kept =
        let k = receive_packet_data-SameKeys c b (sealed c a src) dst_len in
        record {
          same_key = m.same_key ∙ sym k.receiver;
          same_index = m.same_index ∙ sym k.receiving_index;
          fits = m.fits;
        }

  -- Packets that are sent to the other end and arrive in order are all delivered, with the texts
  -- that were sent: from any states of two mirrored sessions in which the receiver's window has
  -- seen no counter that the sender has still to use, with counters below the last `n_bits` of a
  -- u64, with buffers that have 32 bytes more than each text, and with the laws of the
  -- cryptography.
  pub transmit_all_delivers :
      (srcs : List Bytes) (a b : Session) (w : Window)
      → Mirrored a b
      → Refines b.receiving_key_counter w
      → w.next ≤ a.sending_key_counter
      → a.sending_key_counter + length srcs < 2 ^ 64 - n_bits
      → All (λ src. length src + 32 ≤ dst_len) srcs
      → transmit_all c dst_len a b srcs ≡ map ok srcs
  unfolding transmit_all
  transmit_all_delivers [] a b w m r old few room = refl
  transmit_all_delivers (src ∷ srcs) a b w m r old few room =
      let small : IsSmall a.sending_key_counter = omega arith in
      let acc : accepts w a.sending_key_counter ≡ true = ground arith in
      rw (transmit_lem a b w m r src small room.0, delivered a b w m r src small room.0 acc)
        (ap (◌∷◌ (ok src)) (
          transmit_all_delivers srcs
            (record a { sending_key_counter = add64 a.sending_key_counter 1 })
            (receive_packet_data c b (sealed c a src) dst_len).0
            (Window.mark w a.sending_key_counter) (keys_kept a b w m r src small room.0)
            (moved a b w m r src small room.0 acc) (unfold Window.mark in ground arith)
            (omega arith) room.1))
