-- ===== src/Tunnel/Sizes/Receive.antt =====
-- The sizes of a tunnel after a datagram: `decapsulate` of boringtun/src/noise/mod.rs.
use boringtun.Prelude.{
  ℕ, ◌%◌, true, false, Option, none, some, Result, ok, err, panic, length, ◌==◌,
}
use boringtun.Bytes.{Bytes}
use boringtun.Crypto.{Crypto}
use boringtun.Packet.{
  Packet, IpAddr, cookie_reply_sz, PacketData, handshake_init, handshake_response,
  packet_cookie_reply, packet_data,
}
use boringtun.Session.{Session, receive_packet_data}
use boringtun.Handshake.Receive.{
  receive_handshake_initialization, receive_handshake_response, receive_cookie_reply,
}
use boringtun.RateLimiter
use boringtun.RateLimiter.{RateLimiter, Verified, verify_packet}
use boringtun.Tunnel.Timers.{TimerName}
use boringtun.Tunnel.State.{Tunn, Env}
use boringtun.Tunnel.Packets
use boringtun.Tunnel.Sizes.{
  IsSized, limiter-IsSized, handshake-IsSized, timer_tick-IsSized, session_tick-IsSized,
  put_session-IsSized, set_current_session-IsSized, validate-IsSized, if-IsSized,
  send_queued-IsSized,
}

module _ (c : Crypto) where
  initiation_answered-IsSized :
      (t : Tunn) (r : Result (Bytes × Session))
      → IsSized t
      → IsSized (Packets.initiation_answered c t r).0
  initiation_answered-IsSized t (ok (p, s)) h = session_tick-IsSized _ false s.receiving_index (
      timer_tick-IsSized _ TimerName.time_last_packet_sent (
        timer_tick-IsSized _ TimerName.time_last_packet_received
          (put_session-IsSized t _ (some s) h)))
  initiation_answered-IsSized t (err e) h = h
  initiation_answered-IsSized t panic h = h

  keepalive-IsSized :
      (t : Tunn) (i : ℕ) (r : Session × Result Bytes)
      → IsSized t
      → IsSized (Packets.keepalive_formatted c t i r).0
  keepalive-IsSized t i (s, ok p) h = set_current_session-IsSized _ i (
      session_tick-IsSized _ true (i % 8) (
        timer_tick-IsSized _ TimerName.time_last_packet_received
          (put_session-IsSized t (i % 8) (some s) h)))
  keepalive-IsSized t i (s, err e) h = h
  keepalive-IsSized t i (s, panic) h = h

  response_finished-IsSized :
      (t : Tunn) (r : Result Session) (n : ℕ)
      → IsSized t
      → IsSized (Packets.response_finished c t r n).0
  response_finished-IsSized t (ok s) n h = keepalive-IsSized t _ _ h
  response_finished-IsSized t (err e) n h = h
  response_finished-IsSized t panic n h = h

  cookie_taken-IsSized :
      (t : Tunn) (r : Result (Unit {0})) → IsSized t → IsSized (Packets.cookie_taken c t r).0
  cookie_taken-IsSized t (ok u) h =
      timer_tick-IsSized _ TimerName.time_cookie_received
        (timer_tick-IsSized t TimerName.time_last_packet_received h)
  cookie_taken-IsSized t (err e) h = h
  cookie_taken-IsSized t panic h = h

  data_received-IsSized :
      (t : Tunn) (i : ℕ) (r : Result Bytes) → IsSized t → IsSized (Packets.data_received c t i r).0
  data_received-IsSized t i (ok p) h =
      validate-IsSized _ p (
        timer_tick-IsSized _ TimerName.time_last_packet_received
          (set_current_session-IsSized t i h))
  data_received-IsSized t i (err e) h = h
  data_received-IsSized t i panic h = h

  handle_data-IsSized :
      (t : Tunn) (s : Option Session) (p : PacketData) (n : ℕ)
      → IsSized t
      → IsSized (Packets.handle_data_with c t s p n).0
  handle_data-IsSized t none p n h = h
  handle_data-IsSized t (some s) p n h =
      data_received-IsSized _ _ _
        (put_session-IsSized t p.receiver_idx (some (receive_packet_data c s p n).0) h)

  pub handle_packet-IsSized :
      (t : Tunn) (p : Packet) (n : ℕ) (env : Env)
      → IsSized t
      → IsSized (Packets.handle_verified_packet c t p n env).0
  unfolding Packets.handle_verified_packet Packets.handle_handshake_init
      Packets.handle_handshake_response Packets.handle_cookie_reply Packets.handle_data
  handle_packet-IsSized t (handshake_init p) n env h =
      let r = receive_handshake_initialization c t.handshake p n env.ephemeral in
      initiation_answered-IsSized _ r.1 (handshake-IsSized t r.0 h)
  handle_packet-IsSized t (handshake_response p) n env h =
      let r = receive_handshake_response c t.handshake p env.elapsed_now in
      response_finished-IsSized _ r.1 n (handshake-IsSized t r.0 h)
  handle_packet-IsSized t (packet_cookie_reply p) n env h =
      let r = receive_cookie_reply c t.handshake p in
      cookie_taken-IsSized _ r.1 (handshake-IsSized t r.0 h)
  handle_packet-IsSized t (packet_data p) n env h = handle_data-IsSized t _ p n h

  handle_verified-IsSized :
      (t : Tunn) (v : Verified) (n : ℕ) (env : Env)
      → IsSized t
      → IsSized (Packets.handle_verified c t v n env).0
  handle_verified-IsSized t (RateLimiter.packet p) n env h = handle_packet-IsSized t p n env h
  handle_verified-IsSized t (RateLimiter.write_to_network p) n env h = if-IsSized _ _ _ h h
  handle_verified-IsSized t (RateLimiter.refused e) n env h = h
  handle_verified-IsSized t RateLimiter.panicked n env h = h

  pub decapsulate-IsSized :
      (t : Tunn) (addr : Option IpAddr) (datagram : Bytes) (n : ℕ) (env : Env)
      → IsSized t
      → IsSized (Packets.decapsulate c t addr datagram n env).0
  unfolding Packets.decapsulate
  decapsulate-IsSized t addr datagram n env h =
      let r = verify_packet c t.rate_limiter addr datagram cookie_reply_sz env.limiter_now in
      if-IsSized (length datagram == 0) (Packets.send_queued_packet c t n env)
        (Packets.decapsulate_datagram c t addr datagram n env) (send_queued-IsSized c t n env h)
        (handle_verified-IsSized (record t { rate_limiter = r.0 }) r.1 n env
          (limiter-IsSized t r.0 h))
