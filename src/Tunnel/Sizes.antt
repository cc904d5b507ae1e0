-- ===== src/Tunnel/Sizes.antt =====
-- The sizes of the arrays and of the queue of a tunnel: boringtun/src/noise/mod.rs and
-- boringtun/src/noise/timers.rs.
pub mod Receive
pub mod Expiry
pub mod Calls
use boringtun.Prelude.{
  ℕ, ◌+◌, ◌<◌, ◌≤◌, ◌≡◌, refl, sym, ap, ◌∙◌, arith, Bool, true, false, List, [], ◌∷◌, Option, none,
  some, Result, ok, err, panic, map, replicate, length, length-set, length-map, length-append,
  length-replicate, if◌then◌else◌, Bool-cases, ◌&&◌, not, inl, inr,
}
use boringtun.Handshake.State.{Handshake, is_in_progress, is_expired}
use boringtun.Bytes.{Bytes, slice, from_be_bytes}
use boringtun.Crypto.{Crypto}
use boringtun.Packet.{
  Packet, IpAddr, v4, v6, handshake_init, handshake_response, packet_cookie_reply, packet_data,
}
use boringtun.Session.{Session, format_packet_data, receive_packet_data}
use boringtun.Handshake.Send.{format_handshake_initiation}
use boringtun.RateLimiter.{RateLimiter, Verified}
use boringtun.Tunnel.Timers.{Timers, TimerName, tick, note, clear, session_established, n_sessions}
use boringtun.Tunnel.State.{
  Tunn, Env, TunnResult, done, failed, panicked, queue_packet, requeue_packet, pop_front,
  dequeue_packet, set_current_session, clear_all, timer_tick, put_session, session_at,
  max_queue_depth,
}
use boringtun.Tunnel.Packets
use boringtun.Tunnel.Update

-- Nine timers, and as many session timers as there are sessions.
unfoldable pub IsTimers : Timers → Type 0
IsTimers t = (length t.timers ≡ 9) × (length t.session_timers ≡ n_sessions)

unfoldable pub IsSized : Tunn → Type 0
IsSized t =
    (IsTimers t.timers × (length t.sessions ≡ n_sessions))
    × (length t.packet_queue ≤ max_queue_depth)

pub tick-IsTimers : (t : Timers) (name : TimerName) → IsTimers t → IsTimers (tick t name)
unfolding IsTimers tick note
tick-IsTimers t TimerName.time_last_packet_received h = (length-set _ _ _ ∙ h.0, h.1)
tick-IsTimers t TimerName.time_last_packet_sent h = (length-set _ _ _ ∙ h.0, h.1)
tick-IsTimers t TimerName.time_current h = (length-set _ _ _ ∙ h.0, h.1)
tick-IsTimers t TimerName.time_session_established h = (length-set _ _ _ ∙ h.0, h.1)
tick-IsTimers t TimerName.time_last_handshake_started h = (length-set _ _ _ ∙ h.0, h.1)
tick-IsTimers t TimerName.time_last_data_packet_received h = (length-set _ _ _ ∙ h.0, h.1)
tick-IsTimers t TimerName.time_last_data_packet_sent h = (length-set _ _ _ ∙ h.0, h.1)
tick-IsTimers t TimerName.time_cookie_received h = (length-set _ _ _ ∙ h.0, h.1)
tick-IsTimers t TimerName.time_persistent_keepalive h = (length-set _ _ _ ∙ h.0, h.1)
tick-IsTimers t TimerName.top h = (length-set _ _ _ ∙ h.0, h.1)

clear-IsTimers : (t : Timers) (now : ℕ) → IsTimers t → IsTimers (clear t now)
unfolding IsTimers clear
clear-IsTimers t now h = (length-map _ _ ∙ h.0, h.1)

established-IsTimers :
    (t : Timers) (b : Bool) (i : ℕ) → IsTimers t → IsTimers (session_established t b i)
unfolding session_established IsTimers
established-IsTimers t b i h =
    let h' = tick-IsTimers t TimerName.time_session_established h in (h'.0, length-set _ _ _ ∙ h'.1)

pub timer_tick-IsSized : (t : Tunn) (name : TimerName) → IsSized t → IsSized (timer_tick t name)
unfolding IsSized
timer_tick-IsSized t name h = ((tick-IsTimers t.timers name h.0.0, h.0.1), h.1)

pub session_tick-IsSized :
    (t : Tunn) (b : Bool) (i : ℕ) → IsSized t → IsSized (Packets.session_tick t b i)
unfolding IsSized
session_tick-IsSized t b i h = ((established-IsTimers t.timers b i h.0.0, h.0.1), h.1)

pub put_session-IsSized :
    (t : Tunn) (i : ℕ) (s : Option Session) → IsSized t → IsSized (put_session t i s)
unfolding IsSized
put_session-IsSized t i s h = ((h.0.0, length-set _ _ _ ∙ h.0.1), h.1)

pub handshake-IsSized :
    (t : Tunn) (handshake : Handshake) → IsSized t → IsSized (record t { handshake = handshake })
unfolding IsSized
handshake-IsSized t handshake h = h

pub limiter-IsSized :
    (t : Tunn) (rl : RateLimiter) → IsSized t → IsSized (record t { rate_limiter = rl })
unfolding IsSized
limiter-IsSized t rl h = h

queue_packet-IsSized : (t : Tunn) (p : Bytes) → IsSized t → IsSized (queue_packet t p)
unfolding IsSized queue_packet
queue_packet-IsSized t p h = ground (arith, length-append t.packet_queue (p ∷ []))

requeue_packet-IsSized : (t : Tunn) (p : Bytes) → IsSized t → IsSized (requeue_packet t p)
unfolding IsSized requeue_packet
requeue_packet-IsSized t p h = ground arith

pop_front-le : (q : List Bytes) → length (pop_front q).1 ≤ length q
unfolding pop_front
pop_front-le [] = omega arith
pop_front-le (p ∷ q) = omega arith

dequeue_packet-IsSized : (t : Tunn) → IsSized t → IsSized (dequeue_packet t).0
unfolding IsSized dequeue_packet
dequeue_packet-IsSized t h = (h.0, omega (arith, h.1, pop_front-le t.packet_queue))

pub set_current_session-IsSized : (t : Tunn) (i : ℕ) → IsSized t → IsSized (set_current_session t i)
unfolding IsSized set_current_session
set_current_session-IsSized t i h = ground arith

pub clear_all-IsSized : (t : Tunn) (now : ℕ) → IsSized t → IsSized (clear_all t now)
unfolding IsSized clear_all
clear_all-IsSized t now h =
    ((clear-IsTimers t.timers now h.0.0, length-map _ _ ∙ h.0.1), omega arith)

-- The tunnel of either branch.
pub if-IsSized :
    (b : Bool) (r r' : Tunn × TunnResult)
    → IsSized r.0
    → IsSized r'.0
    → IsSized (if b then r else r').0
if-IsSized true r r' h h' = h
if-IsSized false r r' h h' = h'

validated-IsSized :
    (t : Tunn) (packet : Bytes) (n : ℕ) (addr : IpAddr)
    → IsSized t
    → IsSized (Packets.validated t packet n addr).0
unfolding Packets.validated IsSized
validated-IsSized t packet n addr h =
    ground (arith, timer_tick-IsSized t TimerName.time_last_data_packet_received h)

pub validate-IsSized :
    (t : Tunn) (packet : Bytes)
    → IsSized t
    → IsSized (Packets.validate_decapsulated_packet t packet).0
unfolding Packets.validate_decapsulated_packet
validate-IsSized t [] h = h
validate-IsSized t (b ∷ rest) h =
    let packet = b ∷ rest in
    ground (
      arith,
      validated-IsSized t packet (from_be_bytes (slice 2 4 packet)) (v4 (slice 12 16 packet)) h,
      validated-IsSized t packet (from_be_bytes (slice 4 6 packet) + 40) (v6 (slice 8 24 packet)) h,
    )

module _ (c : Crypto) where
  initiation_sent-IsSized :
      (t : Tunn) (b : Bool) (r : Result Bytes)
      → IsSized t
      → IsSized (Packets.initiation_sent c t b r).0
  initiation_sent-IsSized t true (ok p) h =
      timer_tick-IsSized _ TimerName.time_last_packet_sent
        (timer_tick-IsSized t TimerName.time_last_handshake_started h)
  initiation_sent-IsSized t false (ok p) h = timer_tick-IsSized t TimerName.time_last_packet_sent h
  initiation_sent-IsSized t b (err e) h = h
  initiation_sent-IsSized t b panic h = h

  clear-IsSized :
      (t : Tunn) (b : Bool) (now : ℕ)
      → IsSized t
      → IsSized (if b then record t { timers = clear t.timers now } else t)
  unfolding IsSized
  clear-IsSized t true now h = ((clear-IsTimers t.timers now h.0.0, h.0.1), h.1)
  clear-IsSized t false now h = h

  pub format_initiation-IsSized :
      (t : Tunn) (n : ℕ) (b : Bool) (env : Env)
      → IsSized t
      → IsSized (Packets.format_handshake_initiation c t n b env).0
  unfolding Packets.format_handshake_initiation
  format_initiation-IsSized t n b env h =
      let r =
        format_handshake_initiation c t.handshake n env.ephemeral env.stamp_now env.sent_now in
      elim (Bool-cases (is_in_progress t.handshake && not b)) [
        | inl e ↦ rw e h
        | inr e ↦ rw e (
            initiation_sent-IsSized _ (not (is_in_progress t.handshake)) r.1
              (handshake-IsSized _ r.0 (clear-IsSized t (is_expired t.handshake) env.clear_now h)))
      ]

  data_sent-IsSized :
      (t : Tunn) (src : Bytes) (r : Result Bytes)
      → IsSized t
      → IsSized (Packets.data_sent c t src r).0
  unfolding IsSized
  data_sent-IsSized t [] (ok p) h = timer_tick-IsSized t TimerName.time_last_packet_sent h
  data_sent-IsSized t (b ∷ src) (ok p) h =
      let t₁ = timer_tick t TimerName.time_last_packet_sent in
      ground (
        arith,
        timer_tick-IsSized t TimerName.time_last_packet_sent h,
        timer_tick-IsSized t₁ TimerName.time_last_data_packet_sent
            (timer_tick-IsSized t TimerName.time_last_packet_sent h),
      )
  data_sent-IsSized t src (err e) h = h
  data_sent-IsSized t src panic h = h

  encapsulate_with-IsSized :
      (t : Tunn) (s : Option Session) (src : Bytes) (n : ℕ) (env : Env)
      → IsSized t
      → IsSized (Packets.encapsulate_with c t s src n env).0
  encapsulate_with-IsSized t (some s) src n env h =
      data_sent-IsSized _ src _ (put_session-IsSized t _ _ h)
  encapsulate_with-IsSized t none src n env h =
      format_initiation-IsSized _ n false env (queue_packet-IsSized t src h)

  pub encapsulate-IsSized :
      (t : Tunn) (src : Bytes) (n : ℕ) (env : Env)
      → IsSized t
      → IsSized (Packets.encapsulate c t src n env).0
  unfolding Packets.encapsulate
  encapsulate-IsSized t src n env h = encapsulate_with-IsSized t _ src n env h

  requeue-IsSized :
      (p : Bytes) (r : Tunn × TunnResult) → IsSized r.0 → IsSized (Packets.or_requeue c p r).0
  requeue-IsSized p (t, failed e) h = requeue_packet-IsSized t p h
  requeue-IsSized p (t, TunnResult.done) h = h
  requeue-IsSized p (t, TunnResult.write_to_network x) h = h
  requeue-IsSized p (t, TunnResult.write_to_tunnel_v4 x a) h = h
  requeue-IsSized p (t, TunnResult.write_to_tunnel_v6 x a) h = h
  requeue-IsSized p (t, TunnResult.panicked) h = h

  send_dequeued-IsSized :
      (t : Tunn) (p : Option Bytes) (n : ℕ) (env : Env)
      → IsSized t
      → IsSized (Packets.send_dequeued c t p n env).0
  send_dequeued-IsSized t none n env h = h
  send_dequeued-IsSized t (some p) n env h = requeue-IsSized p _ (encapsulate-IsSized t p n env h)

  pub send_queued-IsSized :
      (t : Tunn) (n : ℕ) (env : Env) → IsSized t → IsSized (Packets.send_queued_packet c t n env).0
  unfolding Packets.send_queued_packet
  send_queued-IsSized t n env h = send_dequeued-IsSized _ _ n env (dequeue_packet-IsSized t h)
