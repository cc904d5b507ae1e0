-- ===== src/Packet/Shape.antt =====
-- The branches of `parse_incoming_packet` of boringtun/src/noise/mod.rs: a type and a length for each
-- kind of message.
use boringtun.Prelude.{
  ℕ, ◌≤◌, ◌≡◌, refl, sym, ap, ◌∙◌, arith, Result, ok, err, length, drop, ◌==◌, ltb, leb,
  if◌then◌else◌, ◌&&◌, inl, inr, Bool-cases, invalid_packet,
}
use boringtun.Bytes.{Bytes, slice, from_le_bytes}
use boringtun.Packet.{
  HandshakeInit, HandshakeResponse, PacketCookieReply, PacketData, Packet, handshake_init,
  handshake_response, packet_cookie_reply, packet_data, parse_incoming_packet, u32_at,
}

-- What the parser returns once the type and the length fit a kind of message.
abbrev pub init_of : Bytes → HandshakeInit
init_of src = record {
  sender_idx = u32_at 4 src;
  unencrypted_ephemeral = slice 8 40 src;
  encrypted_static = slice 40 88 src;
  encrypted_timestamp = slice 88 116 src;
}

abbrev pub response_of : Bytes → HandshakeResponse
response_of src = record {
  sender_idx = u32_at 4 src;
  receiver_idx = u32_at 8 src;
  unencrypted_ephemeral = slice 12 44 src;
  encrypted_nothing = slice 44 60 src;
}

abbrev pub cookie_of : Bytes → PacketCookieReply
cookie_of src = record {
  receiver_idx = u32_at 4 src;
  nonce = slice 8 32 src;
  encrypted_cookie = slice 32 64 src;
}

abbrev pub data_of : Bytes → PacketData
data_of src = record {
  receiver_idx = u32_at 4 src;
  counter = from_le_bytes (slice 8 16 src);
  encrypted_encapsulated_packet = drop 16 src;
}

-- The type and length of each kind.
abbrev pub HasShape : Packet → Bytes → Type 0
HasShape (handshake_init p) src = (u32_at 0 src ≡ 1) × (length src ≡ 148) × (init_of src ≡ p)
HasShape (handshake_response p) src = (u32_at 0 src ≡ 2) × (length src ≡ 92) × (response_of src ≡ p)
HasShape (packet_cookie_reply p) src = (u32_at 0 src ≡ 3) × (length src ≡ 64) × (cookie_of src ≡ p)
HasShape (packet_data p) src = (u32_at 0 src ≡ 4) × (32 ≤ length src) × (data_of src ≡ p)

-- The branching of the parser by itself, over a type and a length.
module _ (t n : ℕ) (i r c d bad : Result Packet) where
  dispatch : Result Packet
  dispatch =
      if ltb n 4
      then bad
      else if t == 1 && n == 148
      then i
      else if t == 2 && n == 92
      then r
      else if t == 3 && n == 64
      then c
      else if t == 4 && leb 32 n
      then d
      else bad

  -- Which branch is taken.
  data Taken : Type 0 where
    init_taken : t ≡ 1 → n ≡ 148 → dispatch ≡ i → Taken
    response_taken : t ≡ 2 → n ≡ 92 → dispatch ≡ r → Taken
    cookie_taken : t ≡ 3 → n ≡ 64 → dispatch ≡ c → Taken
    data_taken : t ≡ 4 → 32 ≤ n → dispatch ≡ d → Taken
    none_taken : dispatch ≡ bad → Taken

  taken : Taken
  unfolding dispatch
  taken = elim (Bool-cases (ltb n 4)) [
    | inl short ↦ none_taken (rw short)
    | inr long ↦ elim (Bool-cases (t == 1 && n == 148)) [
      | inl p ↦ init_taken (ground arith) (ground arith) (rw (long, p))
      | inr a ↦ elim (Bool-cases (t == 2 && n == 92)) [
        | inl p ↦ response_taken (ground arith) (ground arith) (rw (long, a, p))
        | inr b ↦ elim (Bool-cases (t == 3 && n == 64)) [
          | inl p ↦ cookie_taken (ground arith) (ground arith) (rw (long, a, b, p))
          | inr e ↦ elim (Bool-cases (t == 4 && leb 32 n)) [
            | inl p ↦ data_taken (ground arith) (ground arith) (rw (long, a, b, e, p))
            | inr f ↦ none_taken (rw (long, a, b, e, f))
          ]
        ]
      ]
    ]
  ]

  dispatch-init : t ≡ 1 → n ≡ 148 → dispatch ≡ i
  unfolding dispatch
  dispatch-init p q = rw (p, q)

  dispatch-response : t ≡ 2 → n ≡ 92 → dispatch ≡ r
  unfolding dispatch
  dispatch-response p q = rw (p, q)

  dispatch-cookie : t ≡ 3 → n ≡ 64 → dispatch ≡ c
  unfolding dispatch
  dispatch-cookie p q = rw (p, q)

  dispatch-data : t ≡ 4 → 32 ≤ n → dispatch ≡ d
  unfolding dispatch
  dispatch-data p q = rw p (ground arith)

abbrev at_src {ℓ} :
    {B : Type ℓ}
    → Bytes
    → (ℕ → ℕ → Result Packet → Result Packet → Result Packet → Result Packet → Result Packet → B)
    → B
at_src src f =
    f (u32_at 0 src) (length src) (ok (handshake_init (init_of src)))
      (ok (handshake_response (response_of src))) (ok (packet_cookie_reply (cookie_of src)))
      (ok (packet_data (data_of src))) (err invalid_packet)

parse-dispatch : (src : Bytes) → parse_incoming_packet src ≡ at_src src dispatch
unfolding parse_incoming_packet dispatch
parse-dispatch src = refl

pub parse_of_shape : (p : Packet) (src : Bytes) → HasShape p src → parse_incoming_packet src ≡ ok p
parse_of_shape (handshake_init p) src h =
    parse-dispatch src ∙ dispatch-init _ _ _ _ _ _ _ h.0 h.1 ∙ ap (λ q. ok (handshake_init q)) h.2
parse_of_shape (handshake_response p) src h =
    parse-dispatch src
    ∙ dispatch-response _ _ _ _ _ _ _ h.0 h.1
    ∙ ap (λ q. ok (handshake_response q)) h.2
parse_of_shape (packet_cookie_reply p) src h =
    parse-dispatch src
    ∙ dispatch-cookie _ _ _ _ _ _ _ h.0 h.1
    ∙ ap (λ q. ok (packet_cookie_reply q)) h.2
parse_of_shape (packet_data p) src h =
    parse-dispatch src ∙ dispatch-data _ _ _ _ _ _ _ h.0 h.1 ∙ ap (λ q. ok (packet_data q)) h.2

shape_of_taken :
    (p : Packet) (src : Bytes) → at_src src Taken → at_src src dispatch ≡ ok p → HasShape p src
shape_of_taken (handshake_init p) src (init_taken a b e) h = (a, b, cc)
shape_of_taken (handshake_response p) src (response_taken a b e) h = (a, b, cc)
shape_of_taken (packet_cookie_reply p) src (cookie_taken a b e) h = (a, b, cc)
shape_of_taken (packet_data p) src (data_taken a b e) h = (a, b, cc)
shape_of_taken _ src (init_taken a b e) h = absurd (cc)
shape_of_taken _ src (response_taken a b e) h = absurd (cc)
shape_of_taken _ src (cookie_taken a b e) h = absurd (cc)
shape_of_taken _ src (data_taken a b e) h = absurd (cc)
shape_of_taken _ src (none_taken e) h = absurd (cc)

pub shape_of_parse : (p : Packet) (src : Bytes) → parse_incoming_packet src ≡ ok p → HasShape p src
shape_of_parse p src h = shape_of_taken p src (taken _ _ _ _ _ _ _) (sym (parse-dispatch src) ∙ h)
