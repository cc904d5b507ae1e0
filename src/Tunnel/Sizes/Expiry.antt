-- ===== src/Tunnel/Sizes/Expiry.antt =====
-- The sizes of a tunnel after `update_timers` of boringtun/src/noise/timers.rs.
use boringtun.Prelude.{
  OnOk, on_ok, on_panic, OnOk-bind, OnOk-if, ℕ, ◌≡◌, refl, ◌∙◌, arith, Bool, true, false, List, [],
  ◌∷◌, Option, none, some, Result, ok, err, panic, length, length-set, leb, ◌*◌, ◌||◌,
}
use boringtun.Crypto.{Crypto}
use boringtun.Session.{Session}
use boringtun.Handshake.State.{timer, clear_cookie, is_expired, set_expired}
use boringtun.Handshake.Tai64n.{duration_since}
use boringtun.Tunnel.Timers.{Timers, TimerName, reject_after_time, rekey_attempt_time}
use boringtun.Tunnel.State.{Tunn, Env, TunnResult}
use boringtun.Tunnel.Update
use boringtun.Tunnel.Outcomes.{checked_sub-OnOk, and_since-OnOk, rekey_due-OnOk}
use boringtun.Tunnel.Sizes.{
  if-IsSized, IsTimers, IsSized, tick-IsTimers, handshake-IsSized, clear_all-IsSized,
  format_initiation-IsSized, encapsulate-IsSized,
}

expire_sessions-length :
    (now : ℕ) (ts : List ℕ) (ss : List (Option Session))
    → length ts ≡ length ss
    → OnOk
        (λ r. (length r.0 ≡ length ts) × (length r.1 ≡ length ss))
        (Update.expire_sessions now ts ss)
unfolding Update.expire_sessions
expire_sessions-length now [] [] e = on_ok (refl, refl)
expire_sessions-length now [] (s ∷ ss) e = absurd (omega (arith, e))
expire_sessions-length now (t ∷ ts) [] e = on_panic
expire_sessions-length now (t ∷ ts) (s ∷ ss) e =
    OnOk-bind (Update.checked_sub now t) _ (checked_sub-OnOk _ _) (λ age _.
      OnOk-bind (Update.expire_sessions now ts ss) _
        (expire_sessions-length now ts ss (omega (arith, e))) (λ r h. on_ok (ground (arith, h))))

session_timers-IsSized :
    (t : Tunn) (now : ℕ) → IsSized t → OnOk IsSized (Update.update_session_timers t now)
unfolding Update.update_session_timers IsSized IsTimers
session_timers-IsSized t now h =
    OnOk-bind (Update.expire_sessions now t.timers.session_timers t.sessions) _
      (expire_sessions-length now t.timers.session_timers t.sessions (omega (arith, h.0)))
      (λ r e. on_ok (((h.0.0.0, e.0 ∙ h.0.0.1), e.1 ∙ h.0.1), h.1))

silence-IsTimers :
    (t : Timers) (now : ℕ) → IsTimers t → OnOk (λ r. IsTimers r.0) (Update.silence_due t now)
unfolding Update.silence_due IsTimers
silence-IsTimers t now h =
    OnOk-bind (Update.and_since _ now _ _) _ (and_since-OnOk _ _ _ _)
      (λ late _. on_ok (ground (arith, h)))

keepalive-IsTimers :
    (t : Timers) (now : ℕ) → IsTimers t → OnOk (λ r. IsTimers r.0) (Update.keepalive_due t now)
unfolding Update.keepalive_due IsTimers
keepalive-IsTimers t now h =
    OnOk-bind (Update.and_since _ now _ _) _ (and_since-OnOk _ _ _ _)
      (λ late _. on_ok (ground (arith, h)))

persistent-IsTimers :
    (t : Timers) (now : ℕ) → IsTimers t → OnOk (λ r. IsTimers r.0) (Update.persistent_due t now)
unfolding Update.persistent_due
persistent-IsTimers t now h =
    OnOk-bind (Update.and_since _ now _ _) _ (and_since-OnOk _ _ _ _)
      (λ late _. on_ok (ground (arith, h, tick-IsTimers t TimerName.time_persistent_keepalive h)))

due-IsTimers : (t : Timers) (now : ℕ) → IsTimers t → OnOk (λ r. IsTimers r.0) (Update.due t now)
unfolding Update.due
due-IsTimers t now h = OnOk-bind (Update.rekey_due t now) _ (rekey_due-OnOk _ _) (λ rekey _.
    OnOk-bind (Update.silence_due t now) _ (silence-IsTimers t now h) (λ silence h₁.
      OnOk-if (rekey || silence.1) (ok (silence.0, (true, false))) _ (on_ok h₁) (
        OnOk-bind (Update.keepalive_due silence.0 now) _ (keepalive-IsTimers silence.0 now h₁)
          (λ passive h₂.
            OnOk-bind (Update.persistent_due passive.0 now) _ (persistent-IsTimers passive.0 now h₂)
              (λ r h₃. on_ok h₃)))))

timers_of : (t : Tunn) → IsSized t → IsTimers t.timers
unfolding IsSized
timers_of t h = h.0.0

module _ (c : Crypto) where
  timers-IsSized :
      (t : Tunn) (timers' : Timers)
      → IsSized t
      → IsTimers timers'
      → IsSized (record t { timers = timers' })
  unfolding IsSized
  timers-IsSized t timers' h h' = ((h', h.0.1), h.1)

  act-IsSized :
      (t : Tunn) (a b : Bool) (n : ℕ) (env : Env) → IsSized t → IsSized (Update.act c t a b n env).0
  unfolding Update.act
  act-IsSized t true b n env h = format_initiation-IsSized c t n true env h
  act-IsSized t false true n env h = encapsulate-IsSized c t [] n env h
  act-IsSized t false false n env h = h

  expire-IsSized : (t : Tunn) (env : Env) → IsSized t → IsSized (Update.expire t env).0
  unfolding Update.expire
  expire-IsSized t env h =
      clear_all-IsSized _ env.clear_now (handshake-IsSized t (set_expired t.handshake) h)

  cookie-IsSized : (t : Tunn) (now : ℕ) → IsSized t → OnOk IsSized (Update.clear_old_cookie t now)
  unfolding Update.clear_old_cookie
  cookie-IsSized t now h =
      OnOk-bind (Update.and_since _ now _ _) _ (and_since-OnOk _ _ _ _)
        (λ old _. on_ok (ground (arith, h, handshake-IsSized t (clear_cookie t.handshake) h)))

  update_handshake-IsSized :
      (t : Tunn) (sent : Option ℕ) (now n : ℕ) (env : Env)
      → IsSized t
      → OnOk (λ r. IsSized r.0) (Update.update_handshake c t sent now n env)
  unfolding Update.update_handshake
  update_handshake-IsSized t (some sent) now n env h =
      OnOk-bind (Update.checked_sub now _) _ (checked_sub-OnOk _ _) (λ age _. on_ok (
        if-IsSized (leb rekey_attempt_time age) (Update.expire t env) (Update.act c t _ false n env)
          (expire-IsSized t env h) (act-IsSized t _ false n env h)))
  update_handshake-IsSized t none now n env h =
      OnOk-bind (Update.due t.timers now) _ (due-IsTimers t.timers now (timers_of t h))
        (λ r h'. on_ok (act-IsSized _ r.1.0 r.1.1 n env (timers-IsSized t r.0 h h')))

  update_live-IsSized :
      (t : Tunn) (now n : ℕ) (env : Env)
      → IsSized t
      → OnOk (λ r. IsSized r.0) (Update.update_live c t now n env)
  unfolding Update.update_live
  update_live-IsSized t now n env h = OnOk-if (is_expired t.handshake) _ _ (on_ok h) (
      OnOk-bind (Update.clear_old_cookie t now) _ (cookie-IsSized t now h) (λ t₁ h₁.
        OnOk-bind (Update.checked_sub now _) _ (checked_sub-OnOk _ _) (λ age _.
          OnOk-if (leb (reject_after_time * 3) age) (ok (Update.expire t₁ env)) _
            (on_ok (expire-IsSized t₁ env h₁))
            (update_handshake-IsSized t₁ (timer t₁.handshake) now n env h₁))))

  start-IsSized :
      (t : Tunn) (now : ℕ) (env : Env) → IsSized t → IsSized (Update.start_update c t now env)
  unfolding Update.start_update IsSized IsTimers
  start-IsSized t now env h = (((length-set _ _ _ ∙ h.0.0.0, h.0.0.1), h.0.1), h.1)

  panicked-IsSized :
      (t : Tunn) (r : Result (Tunn × TunnResult))
      → IsSized t
      → OnOk (λ r. IsSized r.0) r
      → IsSized (Update.or_panicked t r).0
  panicked-IsSized t (ok r) h (on_ok h') = h'
  panicked-IsSized t (err e) h h' = elim h' [ ]
  panicked-IsSized t panic h h' = h

  pub update_timers-IsSized :
      (t : Tunn) (n : ℕ) (env : Env) → IsSized t → IsSized (Update.update_timers c t n env).0
  unfolding Update.update_timers
  update_timers-IsSized t n env h =
      let now = duration_since env.now t.timers.time_started in
      panicked-IsSized t _ h (
        OnOk-bind (Update.update_session_timers (Update.start_update c t now env) now) _
          (session_timers-IsSized _ now (start-IsSized t now env h))
          (λ t₁ h₁. update_live-IsSized t₁ now n env h₁))
