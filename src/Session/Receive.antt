-- ===== src/Session/Receive.antt =====
-- `receive_packet_data` of boringtun/src/noise/session.rs over a session's window.
use boringtun.Prelude.{
  ℕ, ◌+◌, ◌≤◌, ◌≡◌, ◌≢◌, refl, ap, ◌∙◌, arith, true, false, [], Option, none, some, Result, ok, err,
  panic, wrong_index, ◌>>◌, length, ltb, Bool-cases, invalid_counter, duplicate_counter,
  WireGuardError, inl, inr, ◌↔◌,
}
use native.Mathlib.Decide.{ℕ_discrete}
use boringtun.Bytes.{Bytes}
use boringtun.Crypto.{Crypto, nonce_of}
use boringtun.Packet.{PacketData}
use boringtun.Replay.{ReceivingKeyCounterValidator, n_bits}
use boringtun.Replay.History.{IsSmall}
use boringtun.Replay.Window.{Window, accepts}
use boringtun.Replay.Window
use boringtun.Replay.Mark.{
  Refines, verdict, quick_verdict, will_accept_refines, mark_did_receive_refines,
}
use boringtun.Session.{
  Session, receiving_counter_quick_check, receiving_counter_mark, count_received, receive_opened,
  receive_checked, receive_packet_data,
}

count_received-Refines :
    (v : ReceivingKeyCounterValidator) (ret : Result (Unit {0})) {w : Window}
    → Refines v w
    → Refines (count_received v ret) w
unfolding count_received
count_received-Refines v (ok u) r = record {
  sized = r.sized;
  same_next = r.same_next;
  small = r.small;
  recent = r.recent;
  unseen = r.unseen;
}
count_received-Refines v (err e) r = r
count_received-Refines v panic r = r

module _ (c : Crypto) (s : Session) (w : Window) (r : Refines s.receiving_key_counter w)
    (p : PacketData) (dst_len : ℕ) (small : IsSmall p.counter)
    (fits : length p.encrypted_encapsulated_packet ≤ dst_len) where
  abbrev pub opened : Option Bytes
  opened = c.open_sealed s.receiver (nonce_of p.counter) [] p.encrypted_encapsulated_packet

  quick :
      receiving_counter_quick_check s p.counter
      ≡ quick_verdict s.receiving_key_counter p.counter (accepts w p.counter)
  unfolding receiving_counter_quick_check
  quick = will_accept_refines r p.counter small

  checked :
      p.receiver_idx ≡ s.receiving_index
      → receive_packet_data c s p dst_len
        ≡ receive_checked c s p
            (quick_verdict s.receiving_key_counter p.counter (accepts w p.counter))
  unfolding receive_packet_data
  checked e = rw quick (ground arith)

  -- A packet of the session that the window accepts: only decryption can fail.
  pub receive_accepted :
      p.receiver_idx ≡ s.receiving_index
      → accepts w p.counter ≡ true
      → receive_packet_data c s p dst_len ≡ receive_opened c s p.counter opened
  receive_accepted e acc =
      checked e
      ∙ ap (λ b. receive_checked c s p (quick_verdict s.receiving_key_counter p.counter b)) acc
      ∙ (unfold receive_checked in refl)

  receive_refused :
      p.receiver_idx ≡ s.receiving_index
      → accepts w p.counter ≡ false
      → (e : WireGuardError) × (receive_packet_data c s p dst_len ≡ (s, err e))
  receive_refused e acc =
      elim (Bool-cases (ltb (p.counter + n_bits) s.receiving_key_counter.next)) [
        | inl old ↦ (invalid_counter, checked e ∙ (unfold receive_checked in rw (acc, old)))
        | inr near ↦ (duplicate_counter, checked e ∙ (unfold receive_checked in rw (acc, near)))
      ]

  receive_foreign :
      p.receiver_idx ≢ s.receiving_index → receive_packet_data c s p dst_len ≡ (s, err wrong_index)
  unfolding receive_packet_data
  receive_foreign ne = ground arith

  marked_ok : accepts w p.counter ≡ true → (receiving_counter_mark s p.counter).1 ≡ ok tt
  unfolding receiving_counter_mark
  marked_ok acc = (mark_did_receive_refines r p.counter small).0 ∙ ap verdict acc

  pub opened_result :
      (text : Bytes)
      → accepts w p.counter ≡ true
      → (receive_opened c s p.counter (some text)).1 ≡ ok text
  unfolding receive_opened
  opened_result text acc = ap (λ ret. ret >> ok text) (marked_ok acc)

  pub opened_Refines :
      (text : Bytes)
      → Refines
          (receive_opened c s p.counter (some text)).0.receiving_key_counter
          (Window.mark w p.counter)
  unfolding receive_opened receiving_counter_mark
  opened_Refines text = count_received-Refines _ _ (mark_did_receive_refines r p.counter small).1

  -- A packet is delivered as a text exactly when it names this session, its counter is new or
  -- recent enough and not yet received, and it decrypts to that text. The bitmap holds the window,
  -- the counter is not among the last `n_bits` of a u64, and the buffer is as large as the sealed
  -- text.
  pub receive_packet_data_iff :
      (text : Bytes)
      → ((receive_packet_data c s p dst_len).1 ≡ ok text) ↔ (
          (p.receiver_idx ≡ s.receiving_index)
          × (accepts w p.counter ≡ true)
          × (opened ≡ some text))
  receive_packet_data_iff text = (there, back)
    where
      from_opened :
          (o : Option Bytes)
          → (receive_opened c s p.counter o).1 ≡ ok text
          → accepts w p.counter ≡ true
          → o ≡ some text
      from_opened none h acc = unfold receive_opened in cc h
      from_opened (some t) h acc = cc (opened_result t acc)

      there :
          (receive_packet_data c s p dst_len).1 ≡ ok text
          → (p.receiver_idx ≡ s.receiving_index)
            × (accepts w p.counter ≡ true)
            × (opened ≡ some text)
      there h = elim (ℕ_discrete p.receiver_idx s.receiving_index) [
        | no ne ↦ absurd (cc (receive_foreign ne))
        | yes e ↦ elim (Bool-cases (accepts w p.counter)) [
          | inr refused ↦ absurd (cc (receive_refused e refused).1)
          | inl acc ↦ (e, acc, from_opened opened (cc (receive_accepted e acc)) acc)
        ]
      ]

      back :
          (p.receiver_idx ≡ s.receiving_index) × (accepts w p.counter ≡ true) × (opened ≡ some text)
          → (receive_packet_data c s p dst_len).1 ≡ ok text
      back h =
          ap (λ q. q.1) (receive_accepted h.0 h.1 ∙ ap (receive_opened c s p.counter) h.2)
          ∙ opened_result text h.1

  -- A packet that is refused with an error leaves the session as it was. The bitmap holds the
  -- window, the counter is not among the last `n_bits` of a u64, and the buffer is as large as the
  -- sealed text.
  pub refused_unchanged :
      (e : WireGuardError)
      → (receive_packet_data c s p dst_len).1 ≡ err e
      → (receive_packet_data c s p dst_len).0 ≡ s
  refused_unchanged e h = elim (ℕ_discrete p.receiver_idx s.receiving_index) [
    | no ne ↦ ap (λ q. q.0) (receive_foreign ne)
    | yes i ↦ elim (Bool-cases (accepts w p.counter)) [
      | inr refused ↦ ap (λ q. q.0) (receive_refused i refused).1
      | inl acc ↦
          ap (λ q. q.0) (receive_accepted i acc)
          ∙ from_opened opened (cc (receive_accepted i acc)) acc
    ]
  ]
    where
      from_opened :
          (o : Option Bytes)
          → (receive_opened c s p.counter o).1 ≡ err e
          → accepts w p.counter ≡ true
          → (receive_opened c s p.counter o).0 ≡ s
      from_opened none h acc = unfold receive_opened in refl
      from_opened (some t) h acc = absurd (cc (opened_result t acc))

  -- A packet that is delivered moves the window of the session by exactly its counter. The bitmap
  -- holds the window, the counter is not among the last `n_bits` of a u64, and the buffer is as
  -- large as the sealed text.
  pub delivered_marked :
      (text : Bytes)
      → (receive_packet_data c s p dst_len).1 ≡ ok text
      → Refines
          (receive_packet_data c s p dst_len).0.receiving_key_counter
          (Window.mark w p.counter)
  delivered_marked text h =
      let k = (receive_packet_data_iff text).0 h in
      rw (receive_accepted k.0 k.1, k.2) (opened_Refines text)
