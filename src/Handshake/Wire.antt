-- ===== src/Handshake/Wire.antt =====
-- The messages of boringtun/src/noise/handshake.rs are laid out as the parser wants them.
use boringtun.Prelude.{
  ℕ, ◌^◌, ◌<◌, ◌≡◌, refl, ap, ◌∙◌, arith, ◌++◌, Option, ok, length, length-append,
}
use mathlib.Core.List.{append_assoc}
use boringtun.Bytes.{Bytes}
use boringtun.Crypto.{Crypto, IsLawful, b2s_keyed_mac_16}
use boringtun.Packet.{
  HandshakeInit, HandshakeResponse, handshake_init, handshake_response, parse_incoming_packet,
}
use boringtun.Packet.Wire.{encode}
use boringtun.Packet.RoundTrip.{parse-encode}
use boringtun.Handshake.State.{Handshake}
use boringtun.Handshake.Send.{mac2_of, append_mac1_and_mac2, initiation_body, response_body}

module _ (c : Crypto) (laws : IsLawful c) where
  abbrev mac1_of : Handshake → Bytes → Bytes
  mac1_of h body = b2s_keyed_mac_16 c h.params.sending_mac1_key body

  abbrev macs : Handshake → Bytes → Bytes
  macs h body = mac1_of h body ++ mac2_of c h.cookies.write_cookie (body ++ mac1_of h body)

  length-mac1_of : (h : Handshake) (body : Bytes) → length (mac1_of h body) ≡ 16
  unfolding b2s_keyed_mac_16
  length-mac1_of h body = laws.length-mac_16 h.params.sending_mac1_key body

  pub length-mac2_of : (cookie : Option Bytes) (msg : Bytes) → length (mac2_of c cookie msg) ≡ 16
  unfolding mac2_of b2s_keyed_mac_16
  length-mac2_of (Option.some k) msg = laws.length-mac_16 k msg
  length-mac2_of Option.none msg = refl

  length-macs : (h : Handshake) (body : Bytes) → length (macs h body) ≡ 32
  length-macs h body = omega (
    arith,
    length-append (mac1_of h body) (mac2_of c h.cookies.write_cookie (body ++ mac1_of h body)),
    length-mac1_of h body,
    length-mac2_of h.cookies.write_cookie (body ++ mac1_of h body),
  )

  -- The message with its macs is the layout of its parts, whatever the cookie.
  encode-initiation :
      (h : Handshake) (i : ℕ) (p : HandshakeInit)
      → (append_mac1_and_mac2 c h i (initiation_body p)).1
        ≡ encode (handshake_init p) (macs h (initiation_body p))
  unfolding append_mac1_and_mac2 initiation_body
  encode-initiation h i p = simp append_assoc

  encode-response :
      (h : Handshake) (i : ℕ) (p : HandshakeResponse)
      → (append_mac1_and_mac2 c h i (response_body p)).1
        ≡ encode (handshake_response p) (macs h (response_body p))
  unfolding append_mac1_and_mac2 response_body
  encode-response h i p = simp append_assoc

  pub parse-initiation :
      (h : Handshake) (i : ℕ) (p : HandshakeInit)
      → p.sender_idx < 2 ^ 32
      → length p.unencrypted_ephemeral ≡ 32
      → length p.encrypted_static ≡ 48
      → length p.encrypted_timestamp ≡ 28
      → parse_incoming_packet (append_mac1_and_mac2 c h i (initiation_body p)).1
        ≡ ok (handshake_init p)
  parse-initiation h i p a b d e =
      ap parse_incoming_packet (encode-initiation h i p)
      ∙ parse-encode (handshake_init p) (macs h (initiation_body p))
          (a, b, d, e, length-macs h (initiation_body p))

  pub parse-response :
      (h : Handshake) (i : ℕ) (p : HandshakeResponse)
      → p.sender_idx < 2 ^ 32
      → p.receiver_idx < 2 ^ 32
      → length p.unencrypted_ephemeral ≡ 32
      → length p.encrypted_nothing ≡ 16
      → parse_incoming_packet (append_mac1_and_mac2 c h i (response_body p)).1
        ≡ ok (handshake_response p)
  parse-response h i p a b d e =
      ap parse_incoming_packet (encode-response h i p)
      ∙ parse-encode (handshake_response p) (macs h (response_body p))
          (a, b, d, e, length-macs h (response_body p))
