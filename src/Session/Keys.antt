-- ===== src/Session/Keys.antt =====
-- What receiving leaves alone in a session of boringtun/src/noise/session.rs.
use boringtun.Prelude.{
  ℕ, ◌≡◌, refl, not, Option, none, some, Result, ok, err, panic, length, leb, ◌==◌, Bool-cases, inl,
  inr,
}
use boringtun.Bytes.{Bytes}
use boringtun.Crypto.{Crypto}
use boringtun.Packet.{PacketData}
use boringtun.Session.{
  Session, receiving_counter_mark, receive_opened, receive_checked, receive_packet_data,
}

-- Receiving keeps the keys and the indices.
pub record SameKeys (s s' : Session) : Type 0 where
  pub receiver : s'.receiver ≡ s.receiver
  pub sender : s'.sender ≡ s.sender
  pub receiving_index : s'.receiving_index ≡ s.receiving_index
  pub sending_index : s'.sending_index ≡ s.sending_index
  pub sending_key_counter : s'.sending_key_counter ≡ s.sending_key_counter

SameKeys-refl : (s : Session) → SameKeys s s
SameKeys-refl s = record {
  receiver = refl;
  sender = refl;
  receiving_index = refl;
  sending_index = refl;
  sending_key_counter = refl;
}

module _ (c : Crypto) where
  receive_opened-SameKeys :
      (s : Session) (n : ℕ) (o : Option Bytes) → SameKeys s (receive_opened c s n o).0
  unfolding receive_opened receiving_counter_mark
  receive_opened-SameKeys s n none = SameKeys-refl s
  receive_opened-SameKeys s n (some t) = record {
    receiver = refl;
    sender = refl;
    receiving_index = refl;
    sending_index = refl;
    sending_key_counter = refl;
  }

  receive_checked-SameKeys :
      (s : Session) (p : PacketData) (ret : Result (Unit {0}))
      → SameKeys s (receive_checked c s p ret).0
  unfolding receive_checked
  receive_checked-SameKeys s p (ok u) = receive_opened-SameKeys s p.counter _
  receive_checked-SameKeys s p (err e) = SameKeys-refl s
  receive_checked-SameKeys s p panic = SameKeys-refl s

  pub receive_packet_data-SameKeys :
      (s : Session) (p : PacketData) (dst_len : ℕ)
      → SameKeys s (receive_packet_data c s p dst_len).0
  unfolding receive_packet_data
  receive_packet_data-SameKeys s p dst_len =
      elim (Bool-cases (not (leb (length p.encrypted_encapsulated_packet) dst_len))) [
        | inl small ↦ rw small (SameKeys-refl s)
        | inr fits ↦ elim (Bool-cases (not (p.receiver_idx == s.receiving_index))) [
          | inl foreign ↦ rw (fits, foreign) (SameKeys-refl s)
          | inr ours ↦ rw (fits, ours) (receive_checked-SameKeys s p _)
        ]
      ]
