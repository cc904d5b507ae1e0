-- ===== src/RateLimiter.antt =====
-- `RateLimiter` of boringtun/src/noise/rate_limiter.rs: mac1, the count of handshakes per period and
-- the cookies that prove an address under load. The clock is an argument, as is what was random.
pub mod Soundness
pub mod Cookie
mod Tests
use boringtun.Prelude.{
  ℕ, ◌+◌, ◌-◌, ◌/◌, ◌%◌, ◌^◌, Bool, not, ◌++◌, [], ◌∷◌, Option, none, some, Result, ok, err, panic,
  WireGuardError, destination_buffer_too_small, invalid_mac, under_load, length, drop, replicate,
  take, ltb, leb, if◌then◌else◌,
}
use boringtun.Bytes.{Bytes, to_le_bytes, bytes_eq}
use boringtun.Crypto.{Crypto, b2s_hash, b2s_keyed_mac_16, b2s_keyed_mac_16_2, b2s_mac_24}
use boringtun.Packet.{
  Packet, handshake_init, handshake_response, packet_cookie_reply, packet_data,
  parse_incoming_packet, IpAddr, v4, v6, cookie_reply_type, cookie_reply_sz,
}
use boringtun.Replay.{add64}
use boringtun.Handshake.Tai64n.{duration_since, nanos_per_sec}
use boringtun.Handshake.State.{label_mac1, label_cookie}

abbrev pub cookie_refresh : ℕ
cookie_refresh = 128

abbrev pub reset_period : ℕ
reset_period = 1

pub record RateLimiter : Type 0 where
  pub nonce_key : Bytes
  pub secret_key : Bytes
  pub start_time : ℕ
  pub nonce_ctr : ℕ
  pub mac1_key : Bytes
  pub cookie_key : Bytes
  pub limit : ℕ
  pub count : ℕ
  pub last_reset : ℕ

-- What `verify_packet` returns: a packet, or the `TunnResult` that stands in its place.
pub data Verified : Type 0 where
  packet : Packet → Verified
  write_to_network : Bytes → Verified
  refused : WireGuardError → Verified
  panicked : Verified

-- The sender's index of the two kinds of packet that are limited.
abbrev pub limited : Packet → Option ℕ
limited (handshake_init p) = some p.sender_idx
limited (handshake_response p) = some p.sender_idx
limited (packet_cookie_reply p) = none
limited (packet_data p) = none

-- The message before the macs, mac1 and mac2. A limited packet has more than 32 bytes.
abbrev pub msg_of : Bytes → Bytes
msg_of src = take (length src - 32) src

abbrev pub mac1_of : Bytes → Bytes
mac1_of src = take 16 (drop (length src - 32) src)

abbrev pub mac2_of : Bytes → Bytes
mac2_of src = drop 16 (drop (length src - 32) src)

-- Four bytes of an address and zeros, or sixteen bytes.
abbrev pub addr_bytes : IpAddr → Bytes
addr_bytes (v4 octets) = octets ++ replicate 12 0
addr_bytes (v6 octets) = octets

unfoldable pub reset_count : RateLimiter → ℕ → RateLimiter
reset_count rl now =
    if leb reset_period (duration_since now rl.last_reset / nanos_per_sec)
    then record rl { count = 0; last_reset = now }
    else rl

unfoldable pub is_under_load : RateLimiter → RateLimiter × Bool
is_under_load rl = (record rl { count = add64 rl.count 1 }, leb rl.limit rl.count)

abbrev pub reply_or_error : Result Bytes → Verified
reply_or_error (ok msg) = write_to_network msg
reply_or_error (err e) = refused e
reply_or_error panic = panicked

module _ (c : Crypto) where
  -- `RateLimiter::new`, with its two random keys
  unfoldable pub new : Bytes → ℕ → Bytes → Bytes → ℕ → RateLimiter
  new public_key limit nonce_key secret_key now = record {
    nonce_key = nonce_key;
    secret_key = secret_key;
    start_time = now;
    nonce_ctr = 0;
    mac1_key = b2s_hash c label_mac1 public_key;
    cookie_key = b2s_hash c label_cookie public_key;
    limit = limit;
    count = 0;
    last_reset = now;
  }

  unfoldable pub current_cookie : RateLimiter → IpAddr → ℕ → Bytes
  current_cookie rl addr now =
      let cur_counter = duration_since now rl.start_time / nanos_per_sec / cookie_refresh in
      b2s_keyed_mac_16_2 c rl.secret_key (to_le_bytes 8 cur_counter) (addr_bytes addr)

  unfoldable pub nonce : RateLimiter → RateLimiter × Bytes
  nonce rl = (
    record rl { nonce_ctr = add64 rl.nonce_ctr 1 },
    b2s_mac_24 c rl.nonce_key (to_le_bytes 8 rl.nonce_ctr),
  )

  -- `encrypt_in_place_detached` fails for no text of 16 bytes.
  unfoldable pub format_cookie_reply :
      RateLimiter → ℕ → Bytes → Bytes → ℕ → RateLimiter × Result Bytes
  format_cookie_reply rl idx cookie mac1 dst_len =
      if ltb dst_len cookie_reply_sz
      then (rl, err destination_buffer_too_small)
      else (let (rl', iv) = nonce rl in
          (
            rl',
            ok (
                to_le_bytes 4 cookie_reply_type
                ++ (to_le_bytes 4 idx ++ (iv ++ c.xseal rl.cookie_key iv mac1 cookie))),
          ))

  -- Under load: mac2 must be made with the cookie of the sender's address.
  unfoldable pub verify_mac2 :
      RateLimiter → Option IpAddr → Bytes → ℕ → ℕ → ℕ → Packet → RateLimiter × Verified
  verify_mac2 rl none src idx dst_len now p = (rl, refused under_load)
  verify_mac2 rl (some addr) src idx dst_len now p =
      let cookie = current_cookie rl addr now in
      if not (bytes_eq (b2s_keyed_mac_16_2 c cookie (msg_of src) (mac1_of src)) (mac2_of src))
      then (let (rl', reply) = format_cookie_reply rl idx cookie (mac1_of src) dst_len in
          (rl', reply_or_error reply))
      else (rl, packet p)

  unfoldable pub verify_limited :
      RateLimiter → Option IpAddr → Bytes → Option ℕ → ℕ → ℕ → Packet → RateLimiter × Verified
  verify_limited rl src_addr src none dst_len now p = (rl, packet p)
  verify_limited rl src_addr src (some idx) dst_len now p =
      if not (bytes_eq (b2s_keyed_mac_16 c rl.mac1_key (msg_of src)) (mac1_of src))
      then (rl, refused invalid_mac)
      else (let (rl', loaded) = is_under_load rl in
          if loaded then verify_mac2 rl' src_addr src idx dst_len now p else (rl', packet p))

  unfoldable pub verify_parsed :
      RateLimiter → Option IpAddr → Bytes → ℕ → ℕ → Result Packet → RateLimiter × Verified
  verify_parsed rl src_addr src dst_len now (ok p) =
      verify_limited rl src_addr src (limited p) dst_len now p
  verify_parsed rl src_addr src dst_len now (err e) = (rl, refused e)
  verify_parsed rl src_addr src dst_len now panic = (rl, panicked)

  unfoldable pub verify_packet :
      RateLimiter → Option IpAddr → Bytes → ℕ → ℕ → RateLimiter × Verified
  verify_packet rl src_addr src dst_len now =
      verify_parsed rl src_addr src dst_len now (parse_incoming_packet src)
