-- ===== src/Packet/RoundTrip.antt =====
-- The parser of boringtun/src/noise/mod.rs reads exactly the messages of the layout.
use boringtun.Prelude.{
  ℕ, ◌+◌, ◌-◌, ◌^◌, ◌≤◌, ◌<◌, ◌≡◌, refl, sym, ap, ◌∙◌, arith, [], ◌∷◌, ◌++◌, ok, length, drop,
  length-append, length-drop,
}
use mathlib.Core.List.{append-nil}
use boringtun.Bytes.{
  Bytes, IsBytes, slice, to_le_bytes, from_le_bytes, length-to_le_bytes, from_le_bytes-to_le_bytes,
  slice_skip, slice_here, drop_skip, length-slice, slice-IsBytes, slice-append-drop,
  to_le_bytes-from_le_bytes, take_all,
}
use boringtun.Packet.{
  Packet, handshake_init, handshake_response, packet_cookie_reply, packet_data,
  parse_incoming_packet, u32_at,
}
use boringtun.Packet.Wire.{u32_bytes, u64_bytes, encode, IsPacket, tail_of}
use boringtun.Packet.Shape.{HasShape, parse_of_shape, shape_of_parse}

-- A string of five parts, cut where the first four end.
abbrev parts : Bytes → Bytes → Bytes → Bytes → Bytes → Bytes
parts a b c d e = a ++ (b ++ (c ++ (d ++ e)))

record Cut (a b c d e : Bytes) (na nb nc nd : ℕ) : Type 0 where
  first : slice 0 na (parts a b c d e) ≡ a
  second : slice (na + 0) (na + nb) (parts a b c d e) ≡ b
  third : slice (na + (nb + 0)) (na + (nb + nc)) (parts a b c d e) ≡ c
  fourth : slice (na + (nb + (nc + 0))) (na + (nb + (nc + nd))) (parts a b c d e) ≡ d
  in_rest :
      (from to : ℕ)
      → slice (na + (nb + (nc + (nd + from)))) (na + (nb + (nc + (nd + to)))) (parts a b c d e)
        ≡ slice from to e
  after_third : drop (na + (nb + (nc + 0))) (parts a b c d e) ≡ d ++ e
  total : length (parts a b c d e) ≡ na + (nb + (nc + (nd + length e)))

module _ (a b c d e : Bytes) {na nb nc nd : ℕ} (ha : length a ≡ na) (hb : length b ≡ nb)
    (hc : length c ≡ nc) (hd : length d ≡ nd) where
  behind_third :
      (from to : ℕ)
      → slice (na + (nb + (nc + from))) (na + (nb + (nc + to))) (parts a b c d e)
        ≡ slice from to (d ++ e)
  behind_third from to =
      slice_skip na (nb + (nc + from)) (nb + (nc + to)) a _ ha
      ∙ slice_skip nb (nc + from) (nc + to) b _ hb
      ∙ slice_skip nc from to c _ hc

  cut : Cut a b c d e na nb nc nd
  cut = record {
    first = slice_here na a _ ha;
    second = slice_skip na 0 nb a _ ha ∙ slice_here nb b _ hb;
    third =
        slice_skip na (nb + 0) (nb + nc) a _ ha ∙ slice_skip nb 0 nc b _ hb ∙ slice_here nc c _ hc;
    fourth = behind_third 0 nd ∙ slice_here nd d _ hd;
    in_rest = λ from to. behind_third (nd + from) (nd + to) ∙ slice_skip nd from to d e hd;
    after_third =
        drop_skip na (nb + (nc + 0)) a _ ha ∙ drop_skip nb (nc + 0) b _ hb ∙ drop_skip nc 0 c _ hc;
    total = omega (
      arith,
      length-append a (b ++ (c ++ (d ++ e))),
      length-append b (c ++ (d ++ e)),
      length-append c (d ++ e),
      length-append d e,
    );
  }

length-u32 : (x : ℕ) → length (u32_bytes x) ≡ 4
length-u32 x = length-to_le_bytes 4 x

u32_back : {bs : Bytes} (x : ℕ) → x < 2 ^ 32 → bs ≡ u32_bytes x → from_le_bytes bs ≡ x
u32_back x h e = ap from_le_bytes e ∙ from_le_bytes-to_le_bytes 4 x h

no_bytes : (bs : Bytes) → length bs ≡ 0 → bs ≡ []
no_bytes [] h = refl
no_bytes (b ∷ bs) h = absurd (omega arith)

shape-encode : (p : Packet) (macs : Bytes) → IsPacket p macs → HasShape p (encode p macs)
shape-encode (handshake_init p) macs h =
    let k =
      cut (u32_bytes 1) (u32_bytes p.sender_idx) p.unencrypted_ephemeral p.encrypted_static
        (p.encrypted_timestamp ++ macs) (length-u32 1) (length-u32 p.sender_idx) h.1 h.2 in
    let idx = u32_back p.sender_idx h.0 k.second in
    let stamp = k.in_rest 0 28 ∙ slice_here 28 p.encrypted_timestamp macs h.3 in
    (
      u32_back 1 (omega arith) k.first,
      k.total ∙ omega (arith, length-append p.encrypted_timestamp macs),
      λ i. record {
        sender_idx = idx i;
        unencrypted_ephemeral = k.third i;
        encrypted_static = k.fourth i;
        encrypted_timestamp = stamp i;
      },
    )
shape-encode (handshake_response p) macs h =
    let k =
      cut (u32_bytes 2) (u32_bytes p.sender_idx) (u32_bytes p.receiver_idx) p.unencrypted_ephemeral
        (p.encrypted_nothing ++ macs) (length-u32 2) (length-u32 p.sender_idx)
        (length-u32 p.receiver_idx) h.2 in
    let sender = u32_back p.sender_idx h.0 k.second in
    let receiver = u32_back p.receiver_idx h.1 k.third in
    let nothing = k.in_rest 0 16 ∙ slice_here 16 p.encrypted_nothing macs h.3 in
    (
      u32_back 2 (omega arith) k.first,
      k.total ∙ omega (arith, length-append p.encrypted_nothing macs),
      λ i. record {
        sender_idx = sender i;
        receiver_idx = receiver i;
        unencrypted_ephemeral = k.fourth i;
        encrypted_nothing = nothing i;
      },
    )
shape-encode (packet_cookie_reply p) macs h =
    let k =
      cut (u32_bytes 3) (u32_bytes p.receiver_idx) p.nonce p.encrypted_cookie macs (length-u32 3)
        (length-u32 p.receiver_idx) h.1 h.2 in
    let receiver = u32_back p.receiver_idx h.0 k.second in
    (
      u32_back 3 (omega arith) k.first,
      k.total ∙ omega arith,
      λ i. record { receiver_idx = receiver i; nonce = k.third i; encrypted_cookie = k.fourth i },
    )
shape-encode (packet_data p) macs h =
    let k =
      cut (u32_bytes 4) (u32_bytes p.receiver_idx) (u64_bytes p.counter)
        p.encrypted_encapsulated_packet macs (length-u32 4) (length-u32 p.receiver_idx)
        (length-to_le_bytes 8 p.counter) refl in
    let receiver = u32_back p.receiver_idx h.0 k.second in
    let counter = ap from_le_bytes k.third ∙ from_le_bytes-to_le_bytes 8 p.counter h.1 in
    let payload =
      k.after_third
      ∙ ap (λ t. p.encrypted_encapsulated_packet ++ t) (no_bytes macs h.3)
      ∙ append-nil p.encrypted_encapsulated_packet in
    (
      u32_back 4 (omega arith) k.first,
      omega (arith, k.total),
      λ i. record {
        receiver_idx = receiver i;
        counter = counter i;
        encrypted_encapsulated_packet = payload i;
      },
    )

-- A message laid out with parts of the right sizes and integers that fit their fields is parsed as
-- that message.
pub parse-encode :
    (p : Packet) (macs : Bytes) → IsPacket p macs → parse_incoming_packet (encode p macs) ≡ ok p
parse-encode p macs h = parse_of_shape p (encode p macs) (shape-encode p macs h)

-- An integer field is the slice that it was read from.
field_back :
    (n from to : ℕ) (src : Bytes)
    → IsBytes src
    → from ≤ to
    → to ≤ length src
    → to - from ≡ n
    → to_le_bytes n (from_le_bytes (slice from to src)) ≡ slice from to src
field_back n from to src bytes le fits e =
    ap (λ k. to_le_bytes k (from_le_bytes (slice from to src)))
      (sym e ∙ sym (length-slice from to src le fits))
    ∙ to_le_bytes-from_le_bytes (slice from to src) (slice-IsBytes from to src bytes)

type_back :
    (t : ℕ) (src : Bytes)
    → IsBytes src
    → 4 ≤ length src
    → u32_at 0 src ≡ t
    → u32_bytes t ≡ slice 0 4 src
type_back t src bytes fits e =
    ap u32_bytes (sym e) ∙ field_back 4 0 4 src bytes (omega arith) fits refl

unparse : (p : Packet) (src : Bytes) → IsBytes src → HasShape p src → encode p (tail_of p src) ≡ src
unparse (handshake_init p) src bytes h =
    ap (λ q. encode (handshake_init q) (drop 116 src)) (sym h.2)
    ∙ rw (
      type_back 1 src bytes (omega arith) h.0,
      field_back 4 4 8 src bytes (omega arith) (omega arith) refl,
      slice-append-drop 88 116 src (omega arith),
      slice-append-drop 40 88 src (omega arith),
      slice-append-drop 8 40 src (omega arith),
      slice-append-drop 4 8 src (omega arith),
      slice-append-drop 0 4 src (omega arith),
    )
unparse (handshake_response p) src bytes h =
    ap (λ q. encode (handshake_response q) (drop 60 src)) (sym h.2)
    ∙ rw (
      type_back 2 src bytes (omega arith) h.0,
      field_back 4 4 8 src bytes (omega arith) (omega arith) refl,
      field_back 4 8 12 src bytes (omega arith) (omega arith) refl,
      slice-append-drop 44 60 src (omega arith),
      slice-append-drop 12 44 src (omega arith),
      slice-append-drop 8 12 src (omega arith),
      slice-append-drop 4 8 src (omega arith),
      slice-append-drop 0 4 src (omega arith),
    )
unparse (packet_cookie_reply p) src bytes h =
    ap (λ q. encode (packet_cookie_reply q) []) (sym h.2)
    ∙ rw (
      type_back 3 src bytes (omega arith) h.0,
      field_back 4 4 8 src bytes (omega arith) (omega arith) refl,
      append-nil (slice 32 64 src),
      take_all 32 (drop 32 src) (omega (arith, length-drop 32 src)),
      slice-append-drop 8 32 src (omega arith),
      slice-append-drop 4 8 src (omega arith),
      slice-append-drop 0 4 src (omega arith),
    )
unparse (packet_data p) src bytes h =
    ap (λ q. encode (packet_data q) []) (sym h.2)
    ∙ rw (
      type_back 4 src bytes (omega arith) h.0,
      field_back 4 4 8 src bytes (omega arith) (omega arith) refl,
      field_back 8 8 16 src bytes (omega arith) (omega arith) refl,
      append-nil (drop 16 src),
      slice-append-drop 8 16 src (omega arith),
      slice-append-drop 4 8 src (omega arith),
      slice-append-drop 0 4 src (omega arith),
    )

-- A datagram of bytes that is parsed as a message is the layout of that message and of the rest of
-- the datagram: the parser accepts no other layout.
pub encode-parse :
    (p : Packet) (src : Bytes)
    → IsBytes src
    → parse_incoming_packet src ≡ ok p
    → encode p (tail_of p src) ≡ src
encode-parse p src bytes h = unparse p src bytes (shape_of_parse p src h)
