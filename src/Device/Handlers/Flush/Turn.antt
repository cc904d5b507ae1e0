-- ===== src/Device/Handlers/Flush/Turn.antt =====
-- One turn of the loop of boringtun/src/device/mod.rs that flushes the queue of a peer.
use boringtun.Prelude.{
  ℕ, ◌<◌, ◌≡◌, refl, arith, Bool, true, false, List, [], ◌∷◌, Option, none, some, Result, ok, err,
  panic, length, ltb, if◌then◌else◌, ◌==◌, ◌⊎◌, inl, inr, Bool-cases,
}
use boringtun.Bytes.{Bytes}
use boringtun.Crypto.{Crypto}
use boringtun.Session.{Session, format_packet_data}
use boringtun.Handshake.State.{Handshake, is_in_progress, is_expired}
use boringtun.Handshake.Send
use boringtun.Handshake.Send.{append_mac1_and_mac2}
use boringtun.Tunnel.State.{
  Tunn, Env, TunnResult, done, failed, write_to_network, write_to_tunnel_v4, write_to_tunnel_v6,
  panicked, queue_packet, dequeue_packet, pop_front, session_at, max_queue_depth,
}
use boringtun.Tunnel.Packets.{
  encapsulate, encapsulate_with, data_sent, format_handshake_initiation, initiation_sent,
  send_queued_packet, or_requeue, send_dequeued,
}
use boringtun.Tunnel.Timers.{clear}

-- No session is in use and a handshake is on its way.
abbrev pub IsWaiting : Tunn → Type 0
IsWaiting t = (session_at t t.current ≡ none) × (is_in_progress t.handshake ≡ true)

-- After a packet for the network the queue is shorter, or the tunnel waits for a handshake.
abbrev pub IsLess : Tunn → Tunn × TunnResult → Type 0
IsLess t (t', write_to_network packet) =
    (length t'.packet_queue < length t.packet_queue) ⊎ IsWaiting t'
IsLess t (t', done) = Unit
IsLess t (t', failed e) = Unit
IsLess t (t', write_to_tunnel_v4 packet addr) = Unit
IsLess t (t', write_to_tunnel_v6 packet addr) = Unit
IsLess t (t', panicked) = Unit

abbrev IsDone : Tunn × TunnResult → Type 0
IsDone (t, r) = r ≡ done

abbrev IsStarted : Handshake × Result Bytes → Type 0
IsStarted (h, ok packet) = is_in_progress h ≡ true
IsStarted (h, err e) = Unit
IsStarted (h, panic) = Unit

module _ (c : Crypto) where
  initiation-IsStarted :
      (h : Handshake) (dst_len : ℕ) (ephemeral : Bytes) (stamp sent : ℕ)
      → IsStarted (Send.format_handshake_initiation c h dst_len ephemeral stamp sent)
  unfolding Send.format_handshake_initiation append_mac1_and_mac2
  initiation-IsStarted h dst_len ephemeral stamp sent = elim (Bool-cases (ltb dst_len 148)) [
    | inl e ↦ rw e tt
    | inr e ↦ rw e refl
  ]

  queue_packet-session :
      (t : Tunn) (packet : Bytes)
      → session_at t t.current ≡ none
      → session_at (queue_packet t packet) (queue_packet t packet).current ≡ none
  unfolding queue_packet
  queue_packet-session t packet h =
      elim (Bool-cases (ltb (length t.packet_queue) max_queue_depth)) [
        | inl e ↦ rw e h
        | inr e ↦ rw e h
      ]

  -- A tunnel without a session sends the start of a handshake, or nothing.
  sent-IsLess :
      (t t' : Tunn) (starting : Bool) (r : Handshake × Result Bytes)
      → session_at t' t'.current ≡ none
      → IsStarted r
      → IsLess t (initiation_sent c (record t' { handshake = r.0 }) starting r.1)
  sent-IsLess t t' true (h, ok packet) none_yet started = inr (none_yet, started)
  sent-IsLess t t' false (h, ok packet) none_yet started = inr (none_yet, started)
  sent-IsLess t t' starting (h, err e) none_yet started = tt
  sent-IsLess t t' starting (h, panic) none_yet started = tt

  initiation-IsLess :
      (t t' : Tunn) (dst_len : ℕ) (env : Env)
      → session_at t' t'.current ≡ none
      → IsLess t (format_handshake_initiation c t' dst_len false env)
  unfolding format_handshake_initiation
  initiation-IsLess t t' dst_len env none_yet = elim (Bool-cases (is_in_progress t'.handshake)) [
    | inl e ↦ rw e tt
    | inr e ↦ rw e (
        sent-IsLess t
          (if is_expired t'.handshake
            then record t' { timers = clear t'.timers env.clear_now }
            else t')
          true
          (Send.format_handshake_initiation c t'.handshake dst_len env.ephemeral env.stamp_now
            env.sent_now)
          (still (is_expired t'.handshake))
          (initiation-IsStarted t'.handshake dst_len env.ephemeral env.stamp_now env.sent_now))
  ]
    where
      still :
          (b : Bool)
          → session_at
              (if b then record t' { timers = clear t'.timers env.clear_now } else t')
              (if b then record t' { timers = clear t'.timers env.clear_now } else t').current
            ≡ none
      still true = none_yet
      still false = none_yet

  or_requeue-IsLess :
      (t : Tunn) (packet : Bytes) (r : Tunn × TunnResult)
      → IsLess t r
      → IsLess t (or_requeue c packet r)
  or_requeue-IsLess t packet (t', done) h = tt
  or_requeue-IsLess t packet (t', failed e) h = tt
  or_requeue-IsLess t packet (t', write_to_network p) h = h
  or_requeue-IsLess t packet (t', write_to_tunnel_v4 p addr) h = tt
  or_requeue-IsLess t packet (t', write_to_tunnel_v6 p addr) h = tt
  or_requeue-IsLess t packet (t', panicked) h = tt

  data_sent-IsLess :
      (t t' : Tunn) (src : Bytes) (r : Result Bytes)
      → length t'.packet_queue < length t.packet_queue
      → IsLess t (data_sent c t' src r)
  data_sent-IsLess t t' src (ok packet) h = elim (Bool-cases (length src == 0)) [
    | inl e ↦ rw e (inl h)
    | inr e ↦ rw e (inl h)
  ]
  data_sent-IsLess t t' src (err e) h = tt
  data_sent-IsLess t t' src panic h = tt

  encapsulate-IsLess :
      (t t' : Tunn) (packet : Bytes) (dst_len : ℕ) (env : Env)
      → length t'.packet_queue < length t.packet_queue
      → IsLess t (encapsulate c t' packet dst_len env)
  unfolding encapsulate
  encapsulate-IsLess t t' packet dst_len env h = with_session (session_at t' t'.current) refl
    where
      with_session :
          (s : Option Session)
          → session_at t' t'.current ≡ s
          → IsLess t (encapsulate_with c t' s packet dst_len env)
      with_session none e =
          initiation-IsLess t (queue_packet t' packet) dst_len env
            (queue_packet-session t' packet e)
      with_session (some session) e =
          data_sent-IsLess t _ packet (format_packet_data c session packet dst_len).1 h

  pub queued-IsLess :
      (t : Tunn) (dst_len : ℕ) (env : Env) → IsLess t (send_queued_packet c t dst_len env)
  unfolding send_queued_packet dequeue_packet pop_front
  queued-IsLess t dst_len env = with_queue t.packet_queue refl
    where
      with_queue :
          (queue : List Bytes)
          → t.packet_queue ≡ queue
          → IsLess t (
              send_dequeued c
                (record t { packet_queue = (pop_front queue).1 })
                (pop_front queue).0
                dst_len
                env)
      with_queue [] e = tt
      with_queue (packet ∷ rest) e = or_requeue-IsLess t packet _ (
          encapsulate-IsLess t (record t { packet_queue = rest }) packet dst_len env
            (rw e (omega arith)))

  -- A tunnel that waits for a handshake sends nothing.
  pub queued-IsDone :
      (t : Tunn) (dst_len : ℕ) (env : Env)
      → IsWaiting t
      → (send_queued_packet c t dst_len env).1 ≡ done
  unfolding send_queued_packet dequeue_packet pop_front encapsulate queue_packet
      format_handshake_initiation
  queued-IsDone t dst_len env (none_yet, started) = with_queue t.packet_queue
    where
      waits :
          (t' : Tunn)
          → is_in_progress t'.handshake ≡ true
          → (format_handshake_initiation c t' dst_len false env).1 ≡ done
      waits t' h = rw h refl

      requeued :
          (packet : Bytes) (r : Tunn × TunnResult) → r.1 ≡ done → (or_requeue c packet r).1 ≡ done
      requeued packet (t', done) h = refl
      requeued packet (t', failed e) h = absurd cc
      requeued packet (t', write_to_network p) h = h
      requeued packet (t', write_to_tunnel_v4 p addr) h = h
      requeued packet (t', write_to_tunnel_v6 p addr) h = h
      requeued packet (t', panicked) h = h

      queued :
          (t' : Tunn) (packet : Bytes)
          → is_in_progress t'.handshake ≡ true
          → is_in_progress (queue_packet t' packet).handshake ≡ true
      queued t' packet h = elim (Bool-cases (ltb (length t'.packet_queue) max_queue_depth)) [
        | inl e ↦ rw e h
        | inr e ↦ rw e h
      ]

      with_queue :
          (queue : List Bytes)
          → (send_dequeued c
              (record t { packet_queue = (pop_front queue).1 })
              (pop_front queue).0
              dst_len
              env).1
            ≡ done
      with_queue [] = refl
      with_queue (packet ∷ rest) =
          requeued packet (encapsulate c (record t { packet_queue = rest }) packet dst_len env) (
            rw none_yet (
              waits (queue_packet (record t { packet_queue = rest }) packet)
                (queued (record t { packet_queue = rest }) packet started)))
