-- ===== src/RateLimiter/Soundness.antt =====
-- What lets a packet through `verify_packet` of boringtun/src/noise/rate_limiter.rs.
use boringtun.Prelude.{
  ℕ, ◌<◌, ◌≡◌, refl, sym, ap, arith, Bool, false, Option, none, some, Result, ok, err, panic, ◌⊎◌,
  inl, inr, Bool-cases,
}
use mathlib.Core.Path.{subst}
use mathlib.Core.Logic.{◌↔◌}
use boringtun.Bytes.{Bytes, bytes_eq, bytes_eq_sound, bytes_eq_refl}
use boringtun.Crypto.{Crypto, b2s_keyed_mac_16, b2s_keyed_mac_16_2}
use boringtun.Packet.{Packet, IpAddr, parse_incoming_packet}
use boringtun.RateLimiter.{
  RateLimiter, packet, limited, msg_of, mac1_of, mac2_of, current_cookie, is_under_load,
  verify_mac2, verify_limited, verify_parsed, verify_packet, reply_or_error,
}

reply-ne-packet : (r : Result Bytes) (p : Packet) → reply_or_error r ≡ packet p → ⊥
reply-ne-packet (ok msg) p h = cc
reply-ne-packet (err e) p h = cc
reply-ne-packet panic p h = cc

module _ (c : Crypto) (rl : RateLimiter) (src_addr : Option IpAddr) (src : Bytes)
    (dst_len now : ℕ) where
  -- mac1 is right.
  abbrev pub HasMac1 : Type 0
  HasMac1 = b2s_keyed_mac_16 c rl.mac1_key (msg_of src) ≡ mac1_of src

  -- The address is known and mac2 is made with its cookie.
  abbrev pub HasMac2 : Type 0
  HasMac2 =
      (addr : IpAddr) × (src_addr ≡ some addr)
      × (b2s_keyed_mac_16_2 c (current_cookie c rl addr now) (msg_of src) (mac1_of src)
          ≡ mac2_of src)

  -- What lets a limited packet through.
  abbrev pub Passes : Packet → Type 0
  Passes p = (limited p ≡ none) ⊎ (HasMac1 × ((rl.count < rl.limit) ⊎ HasMac2))

  -- The limiter once a handshake was counted.
  abbrev counted : RateLimiter
  counted = (is_under_load rl).0

  mac2_test : IpAddr → Bool
  mac2_test a =
      bytes_eq (b2s_keyed_mac_16_2 c (current_cookie c rl a now) (msg_of src) (mac1_of src))
        (mac2_of src)

  mac2_sound :
      (addr : Option IpAddr) (idx : ℕ) (p q : Packet)
      → addr ≡ src_addr
      → (verify_mac2 c counted addr src idx dst_len now p).1 ≡ packet q
      → HasMac2 × (p ≡ q)
  unfolding verify_mac2 is_under_load current_cookie mac2_test
  mac2_sound none idx p q e h = absurd (cc)
  mac2_sound (some a) idx p q e h = elim (Bool-cases (mac2_test a)) [
    | inl same ↦ ((a, sym e, bytes_eq_sound _ _ same), cc (rw same at h))
    | inr other ↦ absurd (reply-ne-packet _ q (rw other at h))
  ]

  limited_sound :
      (idx : Option ℕ) (p q : Packet)
      → idx ≡ limited p
      → (verify_limited c rl src_addr src idx dst_len now p).1 ≡ packet q
      → Passes p × (p ≡ q)
  unfolding verify_limited
  limited_sound none p q e h = (inl (sym e), cc)
  limited_sound (some idx) p q e h =
      elim (Bool-cases (bytes_eq (b2s_keyed_mac_16 c rl.mac1_key (msg_of src)) (mac1_of src))) [
        | inr bad ↦ absurd (cc (rw bad at h))
        | inl good ↦ elim (Bool-cases (is_under_load rl).1) [
          | inr free ↦ (
            inr (bytes_eq_sound _ _ good, inl (unfold is_under_load in ground arith)),
            cc (rw (good, free) at h),
          )
          | inl loaded ↦
              let m = mac2_sound src_addr idx p q refl (rw (good, loaded) at h) in
              (inr (bytes_eq_sound _ _ good, inr m.0), m.1)
        ]
      ]

  parsed_sound :
      (r : Result Packet) (q : Packet)
      → (verify_parsed c rl src_addr src dst_len now r).1 ≡ packet q
      → (r ≡ ok q) × Passes q
  unfolding verify_parsed
  parsed_sound (ok p) q h =
      let k = limited_sound (limited p) p q refl h in (ap ok k.1, subst Passes k.1 k.0)
  parsed_sound (err e) q h = absurd (cc)
  parsed_sound panic q h = absurd (cc)

  mac2_complete :
      (idx : ℕ) (p : Packet)
      → HasMac2
      → verify_mac2 c counted src_addr src idx dst_len now p ≡ (counted, packet p)
  unfolding verify_mac2 is_under_load current_cookie
  mac2_complete idx p (addr, known, same) = rw (known, same, bytes_eq_refl (mac2_of src))

  limited_complete :
      (idx : Option ℕ) (p : Packet)
      → idx ≡ limited p
      → Passes p
      → (verify_limited c rl src_addr src idx dst_len now p).1 ≡ packet p
  unfolding verify_limited
  limited_complete none p e h = refl
  limited_complete (some idx) p e (inl free) = absurd (cc)
  limited_complete (some idx) p e (inr (good, inl below)) =
      let room : (is_under_load rl).1 ≡ false = unfold is_under_load in ground arith in
      rw (good, bytes_eq_refl (mac1_of src), room)
  limited_complete (some idx) p e (inr (good, inr mac2)) = elim (Bool-cases (is_under_load rl).1) [
    | inr room ↦ rw (good, bytes_eq_refl (mac1_of src), room)
    | inl loaded ↦ rw (good, bytes_eq_refl (mac1_of src), loaded, mac2_complete idx p mac2)
  ]

  -- A datagram is let through as a packet exactly when it parses as that packet and the packet is
  -- a cookie reply or data, or has a right mac1 and either came before the limit of this period or
  -- has a mac2 made with the cookie of its address.
  pub verify_packet_iff :
      (p : Packet)
      → ((verify_packet c rl src_addr src dst_len now).1 ≡ packet p)
        ↔ ((parse_incoming_packet src ≡ ok p) × Passes p)
  unfolding verify_packet
  verify_packet_iff p = (
    λ h. parsed_sound (parse_incoming_packet src) p h,
    λ h. rw h.0 (unfold verify_parsed in limited_complete (limited p) p refl h.1),
  )
