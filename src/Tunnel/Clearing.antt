-- ===== src/Tunnel/Clearing.antt =====
-- What is left of a tunnel that expires: `update_timers` of boringtun/src/noise/timers.rs.
use boringtun.Prelude.{
  OnOk, on_ok, on_panic, OnOk-bind, OnOk-if, ℕ, ◌*◌, ◌≡◌, refl, ◌∙◌, ap, arith, Bool, true, false,
  ◌&&◌, not, List, [], ◌∷◌, Option, none, some, Result, ok, err, panic, map, All, leb,
  if◌then◌else◌, Bool-cases, inl, inr, connection_expired,
}
use boringtun.Bytes.{Bytes}
use boringtun.Crypto.{Crypto}
use boringtun.Session.{Session, format_packet_data}
use boringtun.Handshake.State.{Handshake, timer, set_expired, is_expired, is_in_progress}
use boringtun.Handshake.Send
use boringtun.Handshake.Tai64n.{duration_since}
use boringtun.Tunnel.Timers.{clear, reject_after_time, rekey_attempt_time, rekey_timeout}
use boringtun.Tunnel.State.{Tunn, Env, TunnResult, failed, clear_all, session_at, queue_packet}
use boringtun.Tunnel.Packets
use boringtun.Tunnel.Update
use boringtun.Tunnel.Outcomes.{checked_sub-OnOk, due-OnOk, tested-OnOk}

-- No session, no queued packet, and a handshake that is over.
unfoldable pub IsCleared : Tunn → Type 0
IsCleared t =
    (is_expired t.handshake ≡ true)
    × ((t.packet_queue ≡ []) × All (λ (s : Option Session). s ≡ none) t.sessions)

-- If the connection is said to have expired, nothing is left.
abbrev Clears : Tunn × TunnResult → Type 0
Clears r = r.1 ≡ failed connection_expired → IsCleared r.0

forgotten :
    (ss : List (Option Session)) → All (λ (s : Option Session). s ≡ none) (map (λ _. none) ss)
forgotten [] = tt
forgotten (s ∷ ss) = (refl, forgotten ss)

expire-IsCleared : (t : Tunn) (env : Env) → IsCleared (Update.expire t env).0
unfolding Update.expire IsCleared clear_all set_expired
expire-IsCleared t env = (refl, (refl, forgotten t.sessions))

expire_sessions-OnOk :
    (now : ℕ) (ts : List ℕ) (ss : List (Option Session))
    → OnOk (λ _. Unit {0}) (Update.expire_sessions now ts ss)
unfolding Update.expire_sessions
expire_sessions-OnOk now [] ss = on_ok tt
expire_sessions-OnOk now (t ∷ ts) [] = on_panic
expire_sessions-OnOk now (t ∷ ts) (s ∷ ss) =
    OnOk-bind (Update.checked_sub now t) _ (checked_sub-OnOk now t) (λ age _.
      OnOk-bind (Update.expire_sessions now ts ss) _ (expire_sessions-OnOk now ts ss)
        (λ r _. on_ok tt))

module _ (c : Crypto) where
  -- A message is written or the buffer is too small.
  initiation_error :
      (h : Handshake) (n : ℕ) (e : Bytes) (stamp_now now : ℕ) (t : Tunn) (b : Bool)
      → (Packets.initiation_sent c t b (Send.format_handshake_initiation c h n e stamp_now now).1).1
        ≡ failed connection_expired
      → ⊥
  unfolding Send.format_handshake_initiation
  initiation_error h n e stamp_now now t b h' = ground arith

  format_initiation-Clears :
      (t : Tunn) (n : ℕ) (b : Bool) (env : Env)
      → Clears (Packets.format_handshake_initiation c t n b env)
  unfolding Packets.format_handshake_initiation
  format_initiation-Clears t n b env h =
      let r =
        Send.format_handshake_initiation c t.handshake n env.ephemeral env.stamp_now env.sent_now in
      let t₁ =
        if is_expired t.handshake then record t { timers = clear t.timers env.clear_now } else t in
      elim (Bool-cases (is_in_progress t.handshake && not b)) [
        | inl e ↦ absurd (cc (rw e at h))
        | inr e ↦ absurd (
            initiation_error t.handshake n env.ephemeral env.stamp_now env.sent_now
              (record t₁ { handshake = r.0 }) (not (is_in_progress t.handshake)) (rw e at h))
      ]

  -- A session in use sends a packet or panics.
  encapsulate_with-Clears :
      (t : Tunn) (s : Option Session) (src : Bytes) (n : ℕ) (env : Env)
      → Clears (Packets.encapsulate_with c t s src n env)
  unfolding format_packet_data
  encapsulate_with-Clears t (some s) src n env h = absurd (ground arith)
  encapsulate_with-Clears t none src n env h =
      format_initiation-Clears (queue_packet t src) n false env h

  act-Clears : (t : Tunn) (a b : Bool) (n : ℕ) (env : Env) → Clears (Update.act c t a b n env)
  unfolding Update.act Packets.encapsulate
  act-Clears t true b n env h = format_initiation-Clears t n true env h
  act-Clears t false true n env h = encapsulate_with-Clears t (session_at t t.current) [] n env h
  act-Clears t false false n env h = absurd (cc)

  if-Clears :
      (b : Bool) (r r' : Tunn × TunnResult)
      → IsCleared r.0
      → Clears r'
      → Clears (if b then r else r')
  if-Clears true r r' h h' e = h
  if-Clears false r r' h h' e = h' e

  update_handshake-Clears :
      (t : Tunn) (sent : Option ℕ) (now n : ℕ) (env : Env)
      → OnOk Clears (Update.update_handshake c t sent now n env)
  unfolding Update.update_handshake
  update_handshake-Clears t (some sent) now n env =
      OnOk-bind (Update.checked_sub now _) _ (checked_sub-OnOk _ _) (λ age _. on_ok (
        if-Clears (leb rekey_attempt_time age) (Update.expire t env)
          (Update.act c t (leb rekey_timeout (duration_since env.elapsed_now sent)) false n env)
          (expire-IsCleared t env)
          (act-Clears t (leb rekey_timeout (duration_since env.elapsed_now sent)) false n env)))
  update_handshake-Clears t none now n env =
      OnOk-bind (Update.due t.timers now) _ (due-OnOk t.timers now)
        (λ r _. on_ok (act-Clears (record t { timers = r.0 }) r.1.0 r.1.1 n env))

  cookie-OnOk : (t : Tunn) (now : ℕ) → OnOk (λ _. Unit {0}) (Update.clear_old_cookie t now)
  unfolding Update.clear_old_cookie
  cookie-OnOk t now = tested-OnOk _ now _ _ _

  update_live-Clears :
      (t : Tunn) (now n : ℕ) (env : Env)
      → is_expired t.handshake ≡ false
      → OnOk Clears (Update.update_live c t now n env)
  unfolding Update.update_live
  update_live-Clears t now n env live = rw live (
      OnOk-bind (Update.clear_old_cookie t now) _ (cookie-OnOk t now) (λ t₁ _.
        OnOk-bind (Update.checked_sub now _) _ (checked_sub-OnOk _ _) (λ age _.
          OnOk-if (leb (reject_after_time * 3) age) (ok (Update.expire t₁ env)) _
            (on_ok (λ _. expire-IsCleared t₁ env))
            (update_handshake-Clears t₁ (timer t₁.handshake) now n env))))

  -- Old sessions are dropped, and the handshake is left alone.
  session_timers-handshake :
      (t : Tunn) (now : ℕ)
      → OnOk (λ (t₁ : Tunn). t₁.handshake ≡ t.handshake) (Update.update_session_timers t now)
  unfolding Update.update_session_timers
  session_timers-handshake t now =
      OnOk-bind (Update.expire_sessions now t.timers.session_timers t.sessions) _
        (expire_sessions-OnOk now t.timers.session_timers t.sessions) (λ r _. on_ok refl)

  panicked-Clears :
      (t : Tunn) (r : Result (Tunn × TunnResult)) → OnOk Clears r → Clears (Update.or_panicked t r)
  panicked-Clears t (ok r) (on_ok h) = h
  panicked-Clears t (err e) h = elim h [ ]
  panicked-Clears t panic h = λ e. absurd (cc)

  -- When `update_timers` reports an expired connection for a handshake that was not yet over, no
  -- session and no queued packet is left, and the handshake is over.
  pub update_timers-IsCleared :
      (t : Tunn) (dst_len : ℕ) (env : Env)
      → is_expired t.handshake ≡ false
      → (Update.update_timers c t dst_len env).1 ≡ failed connection_expired
      → IsCleared (Update.update_timers c t dst_len env).0
  unfolding Update.update_timers Update.start_update
  update_timers-IsCleared t dst_len env live =
      let now = duration_since env.now t.timers.time_started in
      panicked-Clears t _ (
        OnOk-bind (Update.update_session_timers (Update.start_update c t now env) now) _
          (session_timers-handshake (Update.start_update c t now env) now)
          (λ t₁ same. update_live-Clears t₁ now dst_len env (ap (λ h. is_expired h) same ∙ live)))
