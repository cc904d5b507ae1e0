-- ===== src/Tunnel/Inner.antt =====
-- What a tunnel hands to its interface: `validate_decapsulated_packet` of
-- boringtun/src/noise/mod.rs.
use boringtun.Prelude.{
  ℕ, ◌+◌, ◌≤◌, ◌≡◌, arith, length, take, ltb, ◌∷◌, [], length-take, refl, true, Bool-cases, inl,
  inr, ◌==◌, ◌&&◌, leb, get_or, invalid_packet,
}
use boringtun.Bytes.{Bytes, slice, from_be_bytes}
use boringtun.Packet.{version, v4, v6}
use boringtun.Tunnel.State.{
  Tunn, TunnResult, done, failed, write_to_network, write_to_tunnel_v4, write_to_tunnel_v6,
  panicked,
}
use boringtun.Tunnel.Packets.{validated, validate_decapsulated_packet}

-- `inner` is the start of `packet`, as long as its header says, and `packet` is as long as the
-- header needs.
abbrev pub IsInner : Bytes → Bytes → ℕ → ℕ → Type 0
IsInner packet inner declared header =
    (inner ≡ take declared packet) × ((length inner ≡ declared) × (header ≤ length packet))

-- What each result tells of the decrypted text.
abbrev pub IsWritten : Bytes → TunnResult → Type 0
IsWritten packet done = packet ≡ []
IsWritten packet (failed e) = e ≡ invalid_packet
IsWritten packet (write_to_network inner) = ⊥
IsWritten packet (write_to_tunnel_v4 inner src) =
    IsInner packet inner (from_be_bytes (slice 2 4 packet)) 20
    × ((src ≡ slice 12 16 packet) × (version (get_or packet 0 0) ≡ 4))
IsWritten packet (write_to_tunnel_v6 inner src) =
    IsInner packet inner (from_be_bytes (slice 4 6 packet) + 40) 40
    × ((src ≡ slice 8 24 packet) × (version (get_or packet 0 0) ≡ 6))
IsWritten packet panicked = ⊥

length-take_le : (n : ℕ) (xs : Bytes) → n ≤ length xs → length (take n xs) ≡ n
length-take_le n xs h = omega (arith, length-take n xs)

validated-v4 :
    (t : Tunn) (packet : Bytes)
    → version (get_or packet 0 0) ≡ 4
    → 20 ≤ length packet
    → IsWritten packet
        (validated t packet (from_be_bytes (slice 2 4 packet)) (v4 (slice 12 16 packet))).1
unfolding validated
validated-v4 t packet is_v4 enough =
    let n = from_be_bytes (slice 2 4 packet) in
    elim (Bool-cases (ltb (length packet) n)) [
      | inl e ↦ rw e refl
      | inr e ↦ rw e ((refl, (length-take_le n packet (ground arith), enough)), (refl, is_v4))
    ]

validated-v6 :
    (t : Tunn) (packet : Bytes)
    → version (get_or packet 0 0) ≡ 6
    → 40 ≤ length packet
    → IsWritten packet
        (validated t packet (from_be_bytes (slice 4 6 packet) + 40) (v6 (slice 8 24 packet))).1
unfolding validated
validated-v6 t packet is_v6 enough =
    let n = from_be_bytes (slice 4 6 packet) + 40 in
    elim (Bool-cases (ltb (length packet) n)) [
      | inl e ↦ rw e refl
      | inr e ↦ rw e ((refl, (length-take_le n packet (ground arith), enough)), (refl, is_v6))
    ]

-- The test of a version and of a length.
headed :
    (packet : Bytes) (v n : ℕ) (b : ℕ)
    → (version b == v && leb n (length packet)) ≡ true
    → (version b ≡ v) × (n ≤ length packet)
headed packet v n b h = ground arith

-- The result for any decrypted text: nothing for an empty one, and else an invalid packet or a
-- packet for the interface. That one is the start of the text, as long as the length field of its
-- header says, which is no more than the text holds; the text is at least a header long, its
-- version is 4 or 6 as the result says, and the address beside it is the header's source address.
-- There is no panic.
pub validate_lem :
    (t : Tunn) (packet : Bytes) → IsWritten packet (validate_decapsulated_packet t packet).1
unfolding validate_decapsulated_packet
validate_lem t [] = refl
validate_lem t (b ∷ rest) =
    let packet = b ∷ rest in
    elim (Bool-cases (version b == 4 && leb 20 (length packet))) [
      | inl e ↦ (let h = headed packet 4 20 b e in rw e (validated-v4 t packet h.0 h.1))
      | inr e ↦ rw e (elim (Bool-cases (version b == 6 && leb 40 (length packet))) [
        | inl e' ↦ (let h = headed packet 6 40 b e' in rw e' (validated-v6 t packet h.0 h.1))
        | inr e' ↦ rw e' refl
      ])
    ]
