-- ===== src/Session.antt =====
-- `Session` of boringtun/src/noise/session.rs: the keys and counters of one key exchange. A method
-- returns the new session beside its result, the bytes written to `dst`, whose length is given.
pub mod Receive
pub mod Keys
pub mod Transport
pub mod Nonces
mod Tests
use boringtun.Prelude.{
  ℕ, ◌+◌, not, ◌++◌, [], Option, none, some, Result, ok, err, panic, wrong_index, invalid_aead_tag,
  ◌>>=◌, ◌>>◌, length, leb, ◌==◌, if◌then◌else◌,
}
use boringtun.Bytes.{Bytes, to_le_bytes}
use boringtun.Crypto.{Crypto, nonce_of}
use boringtun.Packet.{PacketData, data_type, data_overhead_sz}
use boringtun.Replay.{ReceivingKeyCounterValidator, add64, will_accept, mark_did_receive}
use boringtun.Replay

pub record Session : Type 0 where
  pub receiving_index : ℕ
  pub sending_index : ℕ
  pub receiver : Bytes
  pub sender : Bytes
  pub sending_key_counter : ℕ
  pub receiving_key_counter : ReceivingKeyCounterValidator

-- `Session::new`
unfoldable pub new : ℕ → ℕ → Bytes → Bytes → Session
new local_index peer_index receiving_key sending_key = record {
  receiving_index = local_index;
  sending_index = peer_index;
  receiver = receiving_key;
  sender = sending_key;
  sending_key_counter = 0;
  receiving_key_counter = Replay.new;
}

abbrev pub local_index : Session → ℕ
local_index s = s.receiving_index

unfoldable pub receiving_counter_quick_check : Session → ℕ → Result (Unit {0})
receiving_counter_quick_check s counter = will_accept s.receiving_key_counter counter

-- An accepted counter is also counted.
unfoldable pub count_received :
    ReceivingKeyCounterValidator → Result (Unit {0}) → ReceivingKeyCounterValidator
count_received v (ok u) = record v { receive_cnt = add64 v.receive_cnt 1 }
count_received v ret = v

unfoldable pub receiving_counter_mark : Session → ℕ → Session × Result (Unit {0})
receiving_counter_mark s counter =
    let (v, ret) = mark_did_receive s.receiving_key_counter counter in
    (record s { receiving_key_counter = count_received v ret }, ret)

unfoldable pub current_packet_cnt : Session → ℕ × ℕ
current_packet_cnt s = (s.receiving_key_counter.next, s.receiving_key_counter.receive_cnt)

module _ (c : Crypto) where
  -- The counter is taken when the buffer is found large enough, and `sending_key_counter` wraps.
  unfoldable pub format_packet_data : Session → Bytes → ℕ → Session × Result Bytes
  format_packet_data s src dst_len =
      let counter = s.sending_key_counter in
      if leb (length src + data_overhead_sz) dst_len
      then (
        record s { sending_key_counter = add64 counter 1 },
        ok (
            to_le_bytes 4 data_type
            ++ (to_le_bytes 4 s.sending_index
                ++ (to_le_bytes 8 counter ++ c.seal s.sender (nonce_of counter) [] src))),
      )
      else (s, panic)

  -- After decryption the counter is checked again and marked.
  unfoldable pub receive_opened : Session → ℕ → Option Bytes → Session × Result Bytes
  receive_opened s counter none = (s, err invalid_aead_tag)
  receive_opened s counter (some plaintext) =
      let (s', ret) = receiving_counter_mark s counter in (s', ret >> ok plaintext)

  unfoldable pub receive_checked : Session → PacketData → Result (Unit {0}) → Session × Result Bytes
  receive_checked s packet (err e) = (s, err e)
  receive_checked s packet panic = (s, panic)
  receive_checked s packet (ok u) =
      receive_opened s packet.counter
        (c.open_sealed s.receiver (nonce_of packet.counter) [] packet.encrypted_encapsulated_packet)

  unfoldable pub receive_packet_data : Session → PacketData → ℕ → Session × Result Bytes
  receive_packet_data s packet dst_len =
      if not (leb (length packet.encrypted_encapsulated_packet) dst_len)
      then (s, panic)
      else if not (packet.receiver_idx == s.receiving_index)
      then (s, err wrong_index)
      else receive_checked s packet (receiving_counter_quick_check s packet.counter)
