-- ===== src/Tunnel/Update.antt =====
-- The timers of a tunnel: `update_timers` of boringtun/src/noise/timers.rs.
use boringtun.Prelude.{
  ℕ, ◌*◌, ◌+◌, ◌-◌, Bool, true, false, ◌||◌, List, [], ◌∷◌, Option, none, some, Result, ok, err,
  panic, connection_expired, ltb, leb, if◌then◌else◌, ◌>>=◌,
}
use boringtun.Crypto.{Crypto}
use boringtun.Session.{Session}
use boringtun.Handshake.Tai64n.{duration_since}
use boringtun.Handshake.State.{timer, set_expired, is_expired, has_cookie, clear_cookie}
use boringtun.RateLimiter.{reset_count}
use boringtun.Tunnel.Timers.{
  Timers, time_current, time_session_established, time_last_handshake_started,
  time_last_packet_received, time_last_packet_sent, time_last_data_packet_received,
  time_last_data_packet_sent, time_cookie_received, time_persistent_keepalive, secs,
  rekey_after_time, reject_after_time, rekey_attempt_time, rekey_timeout, keepalive_timeout,
  cookie_expiration_time, get, put, tick,
}
use boringtun.Tunnel.State.{Tunn, Env, TunnResult, done, failed, panicked, clear_all, session_at}
use boringtun.Tunnel.Packets.{format_handshake_initiation, encapsulate}

-- `now.checked_sub(earlier).unwrap()`
unfoldable pub checked_sub : ℕ → ℕ → Result ℕ
checked_sub now earlier = if leb earlier now then ok (now - earlier) else panic

-- `test && now.checked_sub(earlier).unwrap() >= limit`
unfoldable pub and_since : Bool → ℕ → ℕ → ℕ → Result Bool
and_since false now earlier limit = ok false
and_since true now earlier limit = do age ← checked_sub now earlier; ok (leb limit age)

-- `update_session_timers`, over the two arrays, which have the same length
unfoldable pub expire_sessions :
    ℕ → List ℕ → List (Option Session) → Result (List ℕ × List (Option Session))
expire_sessions now [] sessions = ok ([], sessions)
expire_sessions now (t ∷ ts) [] = panic
expire_sessions now (t ∷ ts) (s ∷ ss) = do
  age ← checked_sub now t
  rest ← expire_sessions now ts ss
  let (ts', ss') = rest
  ok (if ltb reject_after_time age then ((now ∷ ts'), (none ∷ ss')) else ((t ∷ ts'), (s ∷ ss')))

unfoldable pub update_session_timers : Tunn → ℕ → Result Tunn
update_session_timers t now = do
  both ← expire_sessions now t.timers.session_timers t.sessions
  let (ts, ss) = both
  ok (record t { timers = record (t.timers) { session_timers = ts }; sessions = ss })

-- The initiator of a session renews it before it is too old.
unfoldable pub rekey_due : Timers → ℕ → Result Bool
rekey_due t now =
    let established = get t time_session_established in
    if t.is_initiator
    then (do
      on_send ←
          and_since (ltb established (get t time_last_data_packet_sent)) now established
            rekey_after_time
      on_receive ←
          and_since (ltb established (get t time_last_data_packet_received)) now established
            (reject_after_time - keepalive_timeout - rekey_timeout)
      ok (on_send || on_receive))
    else ok false

-- Data was sent and nothing has come back; `mem::replace` takes the flag.
unfoldable pub silence_due : Timers → ℕ → Result (Timers × Bool)
silence_due t now = do
  let received = get t time_last_packet_received
  late ←
      and_since (ltb received (get t time_last_data_packet_sent)) now received
        (keepalive_timeout + rekey_timeout)
  ok (if late then (record t { want_handshake = false }, t.want_handshake) else (t, false))

unfoldable pub keepalive_due : Timers → ℕ → Result (Timers × Bool)
keepalive_due t now = do
  let sent = get t time_last_packet_sent
  late ← and_since (ltb sent (get t time_last_data_packet_received)) now sent keepalive_timeout
  ok (if late then (record t { want_keepalive = false }, t.want_keepalive) else (t, false))

unfoldable pub persistent_due : Timers → ℕ → Result (Timers × Bool)
persistent_due t now = do
  late ←
      and_since (ltb 0 t.persistent_keepalive) now (get t time_persistent_keepalive)
        (secs t.persistent_keepalive)
  ok (if late then (tick t time_persistent_keepalive, true) else (t, false))

-- What is due when no handshake waits for an answer: a handshake, or else a keepalive.
unfoldable pub due : Timers → ℕ → Result (Timers × (Bool × Bool))
due t now = do
  rekey ← rekey_due t now
  silence ← silence_due t now
  let (t₁, silent) = silence
  if rekey || silent then ok (t₁, (true, false)) else (do
    passive ← keepalive_due t₁ now
    let (t₂, a) = passive
    persistent ← persistent_due t₂ now
    let (t₃, b) = persistent
    ok (t₃, (false, a || b)))

unfoldable pub clear_old_cookie : Tunn → ℕ → Result Tunn
clear_old_cookie t now = do
  old ←
      and_since (has_cookie t.handshake) now (get t.timers time_cookie_received)
        cookie_expiration_time
  ok (if old then record t { handshake = clear_cookie t.handshake } else t)

unfoldable pub expire : Tunn → Env → Tunn × TunnResult
expire t env = (
  clear_all (record t { handshake = set_expired t.handshake }) env.clear_now,
  failed connection_expired,
)

abbrev pub or_panicked : Tunn → Result (Tunn × TunnResult) → Tunn × TunnResult
or_panicked t (ok r) = r
or_panicked t (err e) = (t, failed e)
or_panicked t panic = (t, panicked)

module _ (c : Crypto) where
  unfoldable pub act : Tunn → Bool → Bool → ℕ → Env → Tunn × TunnResult
  act t handshake_initiation_required keepalive_required dst_len env =
      if handshake_initiation_required
      then format_handshake_initiation c t dst_len true env
      else if keepalive_required
      then encapsulate c t [] dst_len env
      else (t, done)

  unfoldable pub update_handshake : Tunn → Option ℕ → ℕ → ℕ → Env → Result (Tunn × TunnResult)
  update_handshake t (some time_init_sent) now dst_len env = do
    age ← checked_sub now (get t.timers time_last_handshake_started)
    ok (
        if leb rekey_attempt_time age
        then expire t env
        else act t (leb rekey_timeout (duration_since env.elapsed_now time_init_sent)) false dst_len
            env)
  update_handshake t none now dst_len env = do
    wanted ← due t.timers now
    let (timers', wants) = wanted
    let (handshake', keepalive) = wants
    ok (act (record t { timers = timers' }) handshake' keepalive dst_len env)

  unfoldable pub update_live : Tunn → ℕ → ℕ → Env → Result (Tunn × TunnResult)
  update_live t now dst_len env =
      if is_expired t.handshake then ok (t, failed connection_expired) else (do
        t₁ ← clear_old_cookie t now
        age ← checked_sub now (get t₁.timers time_session_established)
        if leb (reject_after_time * 3) age
            then ok (expire t₁ env)
            else update_handshake t₁ (timer t₁.handshake) now dst_len env)

  unfoldable pub start_update : Tunn → ℕ → Env → Tunn
  start_update t now env = record t {
    rate_limiter =
        if t.timers.should_reset_rr
        then reset_count t.rate_limiter env.limiter_now
        else t.rate_limiter;
    timers = put t.timers time_current now;
  }

  unfoldable pub update_timers : Tunn → ℕ → Env → Tunn × TunnResult
  update_timers t dst_len env =
      let now = duration_since env.now t.timers.time_started in
      or_panicked t
        (do t₁ ← update_session_timers (start_update t now env) now; update_live t₁ now dst_len env)

-- `time_since_last_handshake`, which is none without a session in use
unfoldable pub time_since_last_handshake : Tunn → ℕ → Result (Option ℕ)
time_since_last_handshake t now = elim (session_at t t.current) [
  | none ↦ ok none
  | some s ↦ (do
    age ←
        checked_sub (duration_since now t.timers.time_started)
          (get t.timers time_session_established)
    ok (some age))
]

-- `persistent_keepalive`
unfoldable pub persistent_keepalive : Tunn → Option ℕ
persistent_keepalive t =
    if ltb 0 t.timers.persistent_keepalive then some t.timers.persistent_keepalive else none
