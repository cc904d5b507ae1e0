-- ===== src/RateLimiter/Cookie.antt =====
-- The cookie exchange between boringtun/src/noise/rate_limiter.rs and
-- boringtun/src/noise/handshake.rs: a sender that is sent a cookie gets through with it.
use boringtun.Prelude.{
  ℕ, ◌-◌, ◌^◌, ◌≤◌, ◌<◌, ◌≡◌, refl, sym, ap, ◌∙◌, arith, true, false, [], ◌++◌, some, ok, length,
  take, drop, ltb, ◌==◌, length-append, take-append-drop,
}
use mathlib.Core.List.{append-nil, append_assoc}
use boringtun.Bytes.{Bytes, take-length-append, drop-length-append}
use boringtun.Crypto.{Crypto, IsLawful, b2s_keyed_mac_16, b2s_keyed_mac_16_2, b2s_mac_24}
use boringtun.Packet.{PacketCookieReply, packet_cookie_reply, IpAddr, parse_incoming_packet}
use boringtun.Packet.Wire.{encode}
use boringtun.Packet.RoundTrip.{parse-encode}
use boringtun.Handshake.State.{Handshake}
use boringtun.Handshake.Send.{append_mac1_and_mac2}
use boringtun.Handshake.Send
use boringtun.Handshake.Receive.{receive_cookie_reply, receive_cookie_for, take_cookie}
use mathlib.Core.Path.{ap₂}
use boringtun.Handshake.Wire.{length-mac2_of}
use boringtun.RateLimiter.{
  RateLimiter, msg_of, mac1_of, mac2_of, current_cookie, nonce, format_cookie_reply,
}
use boringtun.RateLimiter.Soundness.{HasMac1, HasMac2}

-- Cutting off the two macs.
module _ (body m₁ m₂ : Bytes) (e₁ : length m₁ ≡ 16) (e₂ : length m₂ ≡ 16) where
  abbrev src : Bytes
  src = (body ++ m₁) ++ m₂

  length-body : length src - 32 ≡ length body
  length-body = omega (arith, length-append (body ++ m₁) m₂, length-append body m₁)

  regrouped : src ≡ body ++ (m₁ ++ m₂)
  regrouped = simp append_assoc

  behind : drop (length src - 32) src ≡ m₁ ++ m₂
  behind =
      ap (λ (n : ℕ). drop n src) length-body
      ∙ ap (drop (length body)) regrouped
      ∙ drop-length-append body (m₁ ++ m₂)

  msg_of_lem : msg_of src ≡ body
  msg_of_lem =
      ap (λ (n : ℕ). take n src) length-body
      ∙ ap (take (length body)) regrouped
      ∙ take-length-append body (m₁ ++ m₂)

  mac1_of_lem : mac1_of src ≡ m₁
  mac1_of_lem =
      ap (take 16) behind ∙ ap (λ (n : ℕ). take n (m₁ ++ m₂)) (sym e₁) ∙ take-length-append m₁ m₂

  mac2_of_lem : mac2_of src ≡ m₂
  mac2_of_lem =
      ap (drop 16) behind ∙ ap (λ (n : ℕ). drop n (m₁ ++ m₂)) (sym e₁) ∙ drop-length-append m₁ m₂

module _ (c : Crypto) (laws : IsLawful c) where
  -- Messages of a handshake that holds the cookie of an address pass the checks of the limiter.
  messages_pass :
      (h : Handshake) (rl : RateLimiter) (addr : IpAddr) (now dst_len local_index : ℕ)
      (body : Bytes)
      → h.params.sending_mac1_key ≡ rl.mac1_key
      → h.cookies.write_cookie ≡ some (current_cookie c rl addr now)
      → let src = (append_mac1_and_mac2 c h local_index body).1 in
        HasMac1 c rl (some addr) src dst_len now × HasMac2 c rl (some addr) src dst_len now
  unfolding append_mac1_and_mac2 b2s_keyed_mac_16 b2s_keyed_mac_16_2
  messages_pass h rl addr now dst_len local_index body key cookie =
      let k = h.params.sending_mac1_key in
      let m₁ = c.mac_16 k body in
      let m₂ = Send.mac2_of c h.cookies.write_cookie (body ++ m₁) in
      let e₁ = laws.length-mac_16 k body in
      let e₂ = length-mac2_of c laws h.cookies.write_cookie (body ++ m₁) in
      let made : m₂ ≡ c.mac_16 (current_cookie c rl addr now) (body ++ m₁) =
        ap (λ o. Send.mac2_of c o (body ++ m₁)) cookie ∙ (unfold Send.mac2_of in refl) in
      (
        ap (c.mac_16 rl.mac1_key) (msg_of_lem body m₁ m₂ e₁ e₂)
            ∙ ap (λ q. c.mac_16 q body) (sym key)
            ∙ sym (mac1_of_lem body m₁ m₂ e₁ e₂),
        (
          addr,
          refl,
          ap (c.mac_16 (current_cookie c rl addr now))
                (ap₂ ◌++◌ (msg_of_lem body m₁ m₂ e₁ e₂) (mac1_of_lem body m₁ m₂ e₁ e₂))
              ∙ sym made
              ∙ sym (mac2_of_lem body m₁ m₂ e₁ e₂),
        ),
      )

  module _ (h : Handshake) (rl : RateLimiter) (addr : IpAddr) (now idx dst_len : ℕ)
      (mac1 : Bytes) where
    abbrev iv : Bytes
    iv = (nonce c rl).1

    abbrev cookie : Bytes
    cookie = current_cookie c rl addr now

    -- The reply that carries the cookie.
    abbrev cookie_reply : PacketCookieReply
    cookie_reply = record {
      receiver_idx = idx;
      nonce = iv;
      encrypted_cookie = c.xseal rl.cookie_key iv mac1 cookie;
    }

    length-cookie : length cookie ≡ 16
    unfolding current_cookie b2s_keyed_mac_16_2
    length-cookie = laws.length-mac_16 rl.secret_key _

    length-iv : length iv ≡ 24
    unfolding nonce b2s_mac_24
    length-iv = laws.length-mac_24 rl.nonce_key _

    format_lem :
        64 ≤ dst_len
        → format_cookie_reply c rl idx cookie mac1 dst_len
          ≡ ((nonce c rl).0, ok (encode (packet_cookie_reply cookie_reply) []))
    unfolding format_cookie_reply
    format_lem room =
        let guard : ltb dst_len 64 ≡ false = ground arith in
        rw (guard, append-nil (c.xseal rl.cookie_key iv mac1 cookie))

    parse_lem :
        idx < 2 ^ 32
        → parse_incoming_packet (encode (packet_cookie_reply cookie_reply) [])
          ≡ ok (packet_cookie_reply cookie_reply)
    parse_lem fits = parse-encode (packet_cookie_reply cookie_reply) [] (
      fits,
      length-iv,
      omega (arith, laws.length-xseal rl.cookie_key iv mac1 cookie, length-cookie),
      refl,
    )

    receive_lem :
        h.params.cookie_key ≡ rl.cookie_key
        → h.cookies.last_mac1 ≡ some mac1
        → h.cookies.index ≡ idx
        → receive_cookie_reply c h cookie_reply
          ≡ (record h { cookies = record (h.cookies) { write_cookie = some cookie } }, ok tt)
    unfolding receive_cookie_reply receive_cookie_for take_cookie
    receive_lem key last index =
        rw
          (
            last,
            index,
            key,
            take-append-drop 16 (c.xseal rl.cookie_key iv mac1 cookie),
            laws.xopen-xseal rl.cookie_key iv mac1 cookie,
          )
          (let same : (idx == idx) ≡ true = ground arith in rw same)

    -- A sender whose handshake message met a loaded limiter is sent a cookie: the reply is made,
    -- parsed and taken, and every handshake message that the sender then makes has a right mac1
    -- and mac2 for a limiter of that key whose cookie for the address is still the same, whatever
    -- it has counted. The sender and the limiter use the same public key, the reply names the u32
    -- index and the mac1 of the sender's last message, the reply's buffer has 64 bytes, and the
    -- cryptography has its laws.
    pub cookie_exchange :
        (rl' : RateLimiter) (later local_index : ℕ) (body : Bytes)
        → h.params.cookie_key ≡ rl.cookie_key
        → h.params.sending_mac1_key ≡ rl.mac1_key
        → h.cookies.last_mac1 ≡ some mac1
        → h.cookies.index ≡ idx
        → idx < 2 ^ 32
        → 64 ≤ dst_len
        → rl'.mac1_key ≡ rl.mac1_key
        → current_cookie c rl' addr later ≡ cookie
        → (reply : Bytes) × (p : PacketCookieReply) × (h' : Handshake) × ((format_cookie_reply c rl
              idx cookie mac1 dst_len).1
            ≡ ok reply)
          × (parse_incoming_packet reply ≡ ok (packet_cookie_reply p))
          × (receive_cookie_reply c h p ≡ (h', ok tt))
          × (let src = (append_mac1_and_mac2 c h' local_index body).1 in
              HasMac1 c rl' (some addr) src dst_len later
              × HasMac2 c rl' (some addr) src dst_len later)
    cookie_exchange rl' later local_index body key mac_key last index fits room same fresh = (
      encode (packet_cookie_reply cookie_reply) [],
      cookie_reply,
      record h { cookies = record (h.cookies) { write_cookie = some cookie } },
      ap (λ r. r.1) (format_lem room),
      parse_lem fits,
      receive_lem key last index,
      messages_pass (record h { cookies = record (h.cookies) { write_cookie = some cookie } }) rl'
          addr later dst_len local_index body (mac_key ∙ sym same) (ap some (sym fresh)),
    )
