-- ===== src/Tunnel/Packets.antt =====
-- The packets of a tunnel in both directions: boringtun/src/noise/mod.rs. A method returns the new
-- tunnel beside its result, and a panic leaves nothing to look at.
use boringtun.Prelude.{
  ℕ, ◌%◌, ◌+◌, Bool, true, false, ◌&&◌, not, [], ◌∷◌, Option, none, some, Result, ok, err, panic,
  invalid_packet, no_current_session, length, take, ltb, leb, ◌==◌, if◌then◌else◌,
}
use boringtun.Bytes.{Bytes, slice, from_be_bytes}
use boringtun.Crypto.{Crypto}
use boringtun.Packet.{
  Packet, HandshakeInit, HandshakeResponse, PacketCookieReply, PacketData, IpAddr, v4, v6, version,
  ipv4_min_header_size, ipv6_min_header_size, handshake_init, handshake_response,
  packet_cookie_reply, packet_data, cookie_reply_sz,
}
use boringtun.Replay.{add64}
use boringtun.Session.{Session, local_index, format_packet_data, receive_packet_data}
use boringtun.Handshake.State.{is_in_progress, is_expired}
use boringtun.Handshake.Send
use boringtun.Handshake.Receive.{
  receive_handshake_initialization, receive_handshake_response, receive_cookie_reply,
}
use boringtun.RateLimiter.{RateLimiter, Verified, verify_packet}
use boringtun.RateLimiter
use boringtun.Tunnel.Timers.{
  time_last_handshake_started, time_last_packet_received, time_last_packet_sent,
  time_last_data_packet_received, time_last_data_packet_sent, time_cookie_received, n_sessions,
  clear, session_established,
}
use boringtun.Tunnel.State.{
  Tunn, Env, TunnResult, done, failed, write_to_network, write_to_tunnel_v4, write_to_tunnel_v6,
  panicked, session_at, put_session, timer_tick, queue_packet, requeue_packet, dequeue_packet,
  set_current_session,
}

abbrev pub session_tick : Tunn → Bool → ℕ → Tunn
session_tick t is_initiator idx = record t {
  timers = session_established t.timers is_initiator idx;
}

abbrev pub to_tunnel : Bytes → IpAddr → TunnResult
to_tunnel packet (v4 octets) = write_to_tunnel_v4 packet octets
to_tunnel packet (v6 octets) = write_to_tunnel_v6 packet octets

-- `validate_decapsulated_packet`, for a packet of a known length and source
unfoldable pub validated : Tunn → Bytes → ℕ → IpAddr → Tunn × TunnResult
validated t packet computed_len addr =
    if ltb (length packet) computed_len then (t, failed invalid_packet) else (
      (let t' = timer_tick t time_last_data_packet_received in
          record t' { rx_bytes = add64 t'.rx_bytes computed_len }),
      to_tunnel (take computed_len packet) addr,
    )

unfoldable pub validate_decapsulated_packet : Tunn → Bytes → Tunn × TunnResult
validate_decapsulated_packet t [] = (t, done)
validate_decapsulated_packet t (b ∷ rest) =
    let packet = b ∷ rest in
    if version b == 4 && leb ipv4_min_header_size (length packet)
    then validated t packet (from_be_bytes (slice 2 4 packet)) (v4 (slice 12 16 packet))
    else if version b == 6 && leb ipv6_min_header_size (length packet)
    then validated t packet (from_be_bytes (slice 4 6 packet) + ipv6_min_header_size)
        (v6 (slice 8 24 packet))
    else (t, failed invalid_packet)

module _ (c : Crypto) where
  abbrev pub initiation_sent : Tunn → Bool → Result Bytes → Tunn × TunnResult
  initiation_sent t starting (ok packet) = (
    timer_tick (if starting then timer_tick t time_last_handshake_started else t)
        time_last_packet_sent,
    write_to_network packet,
  )
  initiation_sent t starting (err e) = (t, failed e)
  initiation_sent t starting panic = (t, panicked)

  unfoldable pub format_handshake_initiation : Tunn → ℕ → Bool → Env → Tunn × TunnResult
  format_handshake_initiation t dst_len force_resend env =
      if is_in_progress t.handshake && not force_resend
      then (t, done)
      else (let t₁ =
            if is_expired t.handshake
            then record t { timers = clear t.timers env.clear_now }
            else t in
          let (h, packet) =
            Send.format_handshake_initiation c t.handshake dst_len env.ephemeral env.stamp_now
              env.sent_now in
          initiation_sent (record t₁ { handshake = h }) (not (is_in_progress t.handshake)) packet)

  -- A keepalive is not counted as data.
  abbrev pub data_sent : Tunn → Bytes → Result Bytes → Tunn × TunnResult
  data_sent t src (ok packet) = (
    (let t₁ = timer_tick t time_last_packet_sent in
        let t₂ = if length src == 0 then t₁ else timer_tick t₁ time_last_data_packet_sent in
        record t₂ { tx_bytes = add64 t₂.tx_bytes (length src) }),
    write_to_network packet,
  )
  data_sent t src (err e) = (t, failed e)
  data_sent t src panic = (t, panicked)

  abbrev pub encapsulate_with : Tunn → Option Session → Bytes → ℕ → Env → Tunn × TunnResult
  encapsulate_with t (some session) src dst_len env =
      let (s, packet) = format_packet_data c session src dst_len in
      data_sent (put_session t t.current (some s)) src packet
  encapsulate_with t none src dst_len env =
      format_handshake_initiation (queue_packet t src) dst_len false env

  unfoldable pub encapsulate : Tunn → Bytes → ℕ → Env → Tunn × TunnResult
  encapsulate t src dst_len env = encapsulate_with t (session_at t t.current) src dst_len env

  abbrev pub or_requeue : Bytes → Tunn × TunnResult → Tunn × TunnResult
  or_requeue packet (t, failed e) = (requeue_packet t packet, done)
  or_requeue packet r = r

  abbrev pub send_dequeued : Tunn → Option Bytes → ℕ → Env → Tunn × TunnResult
  send_dequeued t none dst_len env = (t, done)
  send_dequeued t (some packet) dst_len env = or_requeue packet (encapsulate t packet dst_len env)

  unfoldable pub send_queued_packet : Tunn → ℕ → Env → Tunn × TunnResult
  send_queued_packet t dst_len env =
      let (t', packet) = dequeue_packet t in send_dequeued t' packet dst_len env

  abbrev pub initiation_answered : Tunn → Result (Bytes × Session) → Tunn × TunnResult
  initiation_answered t (ok (packet, session)) = (
    (let index = local_index session in
        let t₁ = put_session t index (some session) in
        let t₂ = timer_tick (timer_tick t₁ time_last_packet_received) time_last_packet_sent in
        session_tick t₂ false index),
    write_to_network packet,
  )
  initiation_answered t (err e) = (t, failed e)
  initiation_answered t panic = (t, panicked)

  unfoldable pub handle_handshake_init : Tunn → HandshakeInit → ℕ → Env → Tunn × TunnResult
  handle_handshake_init t p dst_len env =
      let (h, answer) = receive_handshake_initialization c t.handshake p dst_len env.ephemeral in
      initiation_answered (record t { handshake = h }) answer

  abbrev pub keepalive_formatted : Tunn → ℕ → Session × Result Bytes → Tunn × TunnResult
  keepalive_formatted t l_idx (session, ok packet) = (
    (let index = l_idx % n_sessions in
        let t₁ = timer_tick (put_session t index (some session)) time_last_packet_received in
        set_current_session (session_tick t₁ true index) l_idx),
    write_to_network packet,
  )
  keepalive_formatted t l_idx (session, err e) = (t, failed e)
  keepalive_formatted t l_idx (session, panic) = (t, panicked)

  abbrev pub response_finished : Tunn → Result Session → ℕ → Tunn × TunnResult
  response_finished t (ok session) dst_len =
      keepalive_formatted t (local_index session) (format_packet_data c session [] dst_len)
  response_finished t (err e) dst_len = (t, failed e)
  response_finished t panic dst_len = (t, panicked)

  unfoldable pub handle_handshake_response : Tunn → HandshakeResponse → ℕ → Env → Tunn × TunnResult
  handle_handshake_response t p dst_len env =
      let (h, session) = receive_handshake_response c t.handshake p env.elapsed_now in
      response_finished (record t { handshake = h }) session dst_len

  abbrev pub cookie_taken : Tunn → Result (Unit {0}) → Tunn × TunnResult
  cookie_taken t (ok u) =
      (timer_tick (timer_tick t time_last_packet_received) time_cookie_received, done)
  cookie_taken t (err e) = (t, failed e)
  cookie_taken t panic = (t, panicked)

  unfoldable pub handle_cookie_reply : Tunn → PacketCookieReply → Tunn × TunnResult
  handle_cookie_reply t p =
      let (h, r) = receive_cookie_reply c t.handshake p in
      cookie_taken (record t { handshake = h }) r

  abbrev pub data_received : Tunn → ℕ → Result Bytes → Tunn × TunnResult
  data_received t r_idx (ok packet) =
      validate_decapsulated_packet
        (timer_tick (set_current_session t r_idx) time_last_packet_received) packet
  data_received t r_idx (err e) = (t, failed e)
  data_received t r_idx panic = (t, panicked)

  abbrev pub handle_data_with : Tunn → Option Session → PacketData → ℕ → Tunn × TunnResult
  handle_data_with t none p dst_len = (t, failed no_current_session)
  handle_data_with t (some session) p dst_len =
      let (s, packet) = receive_packet_data c session p dst_len in
      data_received (put_session t p.receiver_idx (some s)) p.receiver_idx packet

  unfoldable pub handle_data : Tunn → PacketData → ℕ → Tunn × TunnResult
  handle_data t p dst_len = handle_data_with t (session_at t p.receiver_idx) p dst_len

  unfoldable pub handle_verified_packet : Tunn → Packet → ℕ → Env → Tunn × TunnResult
  handle_verified_packet t (handshake_init p) dst_len env = handle_handshake_init t p dst_len env
  handle_verified_packet t (handshake_response p) dst_len env =
      handle_handshake_response t p dst_len env
  handle_verified_packet t (packet_cookie_reply p) dst_len env = handle_cookie_reply t p
  handle_verified_packet t (packet_data p) dst_len env = handle_data t p dst_len

  -- The reply of the limiter is copied to `dst`.
  abbrev pub handle_verified : Tunn → Verified → ℕ → Env → Tunn × TunnResult
  handle_verified t (RateLimiter.packet p) dst_len env = handle_verified_packet t p dst_len env
  handle_verified t (RateLimiter.write_to_network cookie) dst_len env =
      if leb (length cookie) dst_len then (t, write_to_network cookie) else (t, panicked)
  handle_verified t (RateLimiter.refused e) dst_len env = (t, failed e)
  handle_verified t RateLimiter.panicked dst_len env = (t, panicked)

  abbrev pub decapsulate_datagram : Tunn → Option IpAddr → Bytes → ℕ → Env → Tunn × TunnResult
  decapsulate_datagram t src_addr datagram dst_len env =
      let (rl, v) =
        verify_packet c t.rate_limiter src_addr datagram cookie_reply_sz env.limiter_now in
      handle_verified (record t { rate_limiter = rl }) v dst_len env

  unfoldable pub decapsulate : Tunn → Option IpAddr → Bytes → ℕ → Env → Tunn × TunnResult
  decapsulate t src_addr datagram dst_len env =
      if length datagram == 0
      then send_queued_packet t dst_len env
      else decapsulate_datagram t src_addr datagram dst_len env
