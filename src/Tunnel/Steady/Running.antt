-- ===== src/Tunnel/Steady/Running.antt =====
-- `update_timers` of boringtun/src/noise/timers.rs and its panics.
use boringtun.Prelude.{
  IsOk, is_ok, IsOk-bind, IsOk-if, ℕ, ◌*◌, ◌≤◌, ◌≡◌, ◌≢◌, sym, ◌∙◌, arith, Bool, true, false, ◌&&◌,
  not, [], Option, none, some, Result, ok, err, panic, leb, length, if◌then◌else◌, Bool-cases, inl,
  inr, connection_expired,
}
use boringtun.Bytes.{Bytes}
use boringtun.Crypto.{Crypto}
use boringtun.Session.{Session, format_packet_data}
use boringtun.Handshake.State.{Handshake, timer, is_expired, is_in_progress, clear_cookie}
use boringtun.Handshake.Send
use boringtun.Handshake.Tai64n.{duration_since}
use boringtun.Tunnel.Timers.{clear, reject_after_time, rekey_attempt_time, rekey_timeout}
use boringtun.Tunnel.State.{Tunn, Env, TunnResult, failed, panicked, session_at, queue_packet}
use boringtun.Tunnel.Packets
use boringtun.Tunnel.Update
use boringtun.Tunnel.Sizes.{IsSized, IsTimers}
use boringtun.Tunnel.Steady.{
  IsTimely, OnTime, get_or-le, set-le, checked_sub-IsOk, and_since-IsOk, expire_sessions-IsOk,
  due-IsOk,
}

Runs : Tunn × TunnResult → Type 0
Runs r = r.1 ≢ panicked

module _ (c : Crypto) (dst_len : ℕ) (room : 32 ≤ dst_len) where
  -- A handshake message is written or refused.
  initiation-Runs :
      (h : Handshake) (e : Bytes) (stamp_now now : ℕ) (t : Tunn) (b : Bool)
      → Runs (
          Packets.initiation_sent c t b
            (Send.format_handshake_initiation c h dst_len e stamp_now now).1)
  unfolding Send.format_handshake_initiation Runs
  initiation-Runs h e stamp_now now t b h' = ground arith

  format_initiation-Runs :
      (t : Tunn) (b : Bool) (env : Env)
      → Runs (Packets.format_handshake_initiation c t dst_len b env)
  unfolding Packets.format_handshake_initiation Runs
  format_initiation-Runs t b env h =
      let r =
        Send.format_handshake_initiation c t.handshake dst_len env.ephemeral env.stamp_now
          env.sent_now in
      let t₁ =
        if is_expired t.handshake then record t { timers = clear t.timers env.clear_now } else t in
      elim (Bool-cases (is_in_progress t.handshake && not b)) [
        | inl e ↦ absurd (cc (rw e at h))
        | inr e ↦
            initiation-Runs t.handshake env.ephemeral env.stamp_now env.sent_now
              (record t₁ { handshake = r.0 }) (not (is_in_progress t.handshake)) (rw e at h)
      ]

  encapsulate_with-Runs :
      (t : Tunn) (s : Option Session) (env : Env)
      → Runs (Packets.encapsulate_with c t s [] dst_len env)
  unfolding format_packet_data Runs
  encapsulate_with-Runs t (some s) env h = ground arith
  encapsulate_with-Runs t none env h = format_initiation-Runs (queue_packet t []) false env h

  act-Runs : (t : Tunn) (a b : Bool) (env : Env) → Runs (Update.act c t a b dst_len env)
  unfolding Update.act Packets.encapsulate Runs
  act-Runs t true b env h = format_initiation-Runs t true env h
  act-Runs t false true env h = encapsulate_with-Runs t (session_at t t.current) env h
  act-Runs t false false env h = cc

  expire-Runs : (t : Tunn) (env : Env) → Runs (Update.expire t env)
  unfolding Update.expire Runs
  expire-Runs t env h = cc

  if-Runs : (b : Bool) (r r' : Tunn × TunnResult) → Runs r → Runs r' → Runs (if b then r else r')
  if-Runs true r r' h h' = h
  if-Runs false r r' h h' = h'

  update_handshake-IsOk :
      (t : Tunn) (sent : Option ℕ) (now : ℕ) (env : Env)
      → OnTime now t.timers
      → IsOk Runs (Update.update_handshake c t sent now dst_len env)
  unfolding Update.update_handshake
  update_handshake-IsOk t (some sent) now env h =
      IsOk-bind (Update.checked_sub now _) _
        (checked_sub-IsOk now _ (get_or-le now t.timers.timers 2 h))
        (λ age _. is_ok (
          if-Runs (leb rekey_attempt_time age) (Update.expire t env)
            (Update.act c t (leb rekey_timeout (duration_since env.elapsed_now sent)) false dst_len
              env)
            (expire-Runs t env)
            (act-Runs t (leb rekey_timeout (duration_since env.elapsed_now sent)) false env)))
  update_handshake-IsOk t none now env h =
      IsOk-bind (Update.due t.timers now) _ (due-IsOk t.timers now h)
        (λ r _. is_ok (act-Runs (record t { timers = r.0 }) r.1.0 r.1.1 env))

  cookie-IsOk :
      (t : Tunn) (now : ℕ)
      → OnTime now t.timers
      → IsOk (λ (t₁ : Tunn). OnTime now t₁.timers) (Update.clear_old_cookie t now)
  unfolding Update.clear_old_cookie
  cookie-IsOk t now h =
      IsOk-bind (Update.and_since _ now _ _) _
        (and_since-IsOk _ now _ _ (get_or-le now t.timers.timers 7 h))
        (λ old _. is_ok (uncookied old))
    where
      uncookied :
          (old : Bool)
          → OnTime now (if old then record t { handshake = clear_cookie t.handshake } else t).timers
      uncookied true = h
      uncookied false = h

  failed-Runs : (t : Tunn) → Runs (t, failed connection_expired)
  unfolding Runs
  failed-Runs t h = cc

  update_live-IsOk :
      (t : Tunn) (now : ℕ) (env : Env)
      → OnTime now t.timers
      → IsOk Runs (Update.update_live c t now dst_len env)
  unfolding Update.update_live
  update_live-IsOk t now env h = IsOk-if (is_expired t.handshake) _ _ (is_ok (failed-Runs t)) (
      IsOk-bind (Update.clear_old_cookie t now) _ (cookie-IsOk t now h) (λ t₁ h₁.
        IsOk-bind (Update.checked_sub now _) _
          (checked_sub-IsOk now _ (get_or-le now t₁.timers.timers 1 h₁))
          (λ age _.
            IsOk-if (leb (reject_after_time * 3) age) (ok (Update.expire t₁ env)) _
              (is_ok (expire-Runs t₁ env))
              (update_handshake-IsOk t₁ (timer t₁.handshake) now env h₁))))

  session_timers-IsOk :
      (t : Tunn) (now : ℕ)
      → length t.timers.session_timers ≡ length t.sessions
      → IsTimely now t.timers
      → IsOk (λ (t₁ : Tunn). OnTime now t₁.timers) (Update.update_session_timers t now)
  unfolding Update.update_session_timers
  session_timers-IsOk t now e h =
      IsOk-bind (Update.expire_sessions now t.timers.session_timers t.sessions) _
        (expire_sessions-IsOk now t.timers.session_timers t.sessions e h.1) (λ r _. is_ok h.0)

  panicked-Runs :
      (t : Tunn) (r : Result (Tunn × TunnResult)) → IsOk Runs r → Runs (Update.or_panicked t r)
  panicked-Runs t (ok r) (is_ok h) = h
  panicked-Runs t (err e) h = elim h [ ]
  panicked-Runs t panic h = elim h [ ]

  -- `update_timers` does not panic: none of its subtractions fails and the buffer is large enough,
  -- if no timer of the tunnel is ahead of the clock, the arrays of the tunnel have their sizes,
  -- and the buffer has at least 32 bytes.
  pub update_timers_runs :
      (t : Tunn) (env : Env)
      → IsSized t
      → IsTimely (duration_since env.now t.timers.time_started) t.timers
      → (Update.update_timers c t dst_len env).1 ≢ panicked
  unfolding Update.update_timers Update.start_update IsSized IsTimers Runs
  update_timers_runs t env sized timely =
      let now = duration_since env.now t.timers.time_started in
      panicked-Runs t _ (
        IsOk-bind (Update.update_session_timers (Update.start_update c t now env) now) _
          (session_timers-IsOk (Update.start_update c t now env) now (sized.0.0.1 ∙ sym sized.0.1)
            (set-le now t.timers.timers 0 timely.0, timely.1))
          (λ t₁ h. update_live-IsOk t₁ now env h))
