-- ===== src/Tunnel/Steady.antt =====
-- The clock of `update_timers` of boringtun/src/noise/timers.rs, and its panics.
pub mod Running
use boringtun.Prelude.{
  IsOk, is_ok, IsOk-bind, IsOk-if, ℕ, zero, suc, ◌*◌, ◌+◌, ◌≤◌, ◌≡◌, ◌≢◌, refl, sym, ap, ◌∙◌, arith,
  Bool, true, false, ◌&&◌, ◌||◌, not, List, [], ◌∷◌, Option, none, some, Result, ok, err, panic,
  map, All, leb, ltb, length, get_or, set, if◌then◌else◌, Bool-cases, inl, inr, ◌>>=◌,
  connection_expired,
}
use boringtun.Bytes.{Bytes}
use boringtun.Crypto.{Crypto}
use boringtun.Session.{Session, format_packet_data}
use boringtun.Handshake.State.{Handshake, timer, is_expired, is_in_progress, clear_cookie}
use boringtun.Handshake.Send
use boringtun.Handshake.Tai64n.{duration_since}
use boringtun.Tunnel.Timers.{
  Timers, clear, get, reject_after_time, rekey_attempt_time, rekey_timeout,
}
use boringtun.Tunnel.State.{
  Tunn, Env, TunnResult, done, failed, write_to_network, panicked, session_at, queue_packet,
}
use boringtun.Tunnel.Packets
use boringtun.Tunnel.Update
use boringtun.Tunnel.Sizes.{IsSized, IsTimers}

-- No timer is ahead of the clock.
abbrev pub IsTimely : ℕ → Timers → Type 0
IsTimely now t = All (λ (x : ℕ). x ≤ now) t.timers × All (λ (x : ℕ). x ≤ now) t.session_timers

pub get_or-le : (now : ℕ) (xs : List ℕ) (i : ℕ) → All (λ (x : ℕ). x ≤ now) xs → get_or xs i 0 ≤ now
get_or-le now [] i h = omega arith
get_or-le now (x ∷ xs) zero h = h.0
get_or-le now (x ∷ xs) (suc i) h = get_or-le now xs i h.1

pub set-le :
    (now : ℕ) (xs : List ℕ) (i : ℕ)
    → All (λ (x : ℕ). x ≤ now) xs
    → All (λ (x : ℕ). x ≤ now) (set xs i now)
set-le now [] i h = tt
set-le now (x ∷ xs) zero h = (omega arith, h.1)
set-le now (x ∷ xs) (suc i) h = (h.0, set-le now xs i h.1)

pub checked_sub-IsOk :
    (now earlier : ℕ) → earlier ≤ now → IsOk (λ _. Unit {0}) (Update.checked_sub now earlier)
unfolding Update.checked_sub
checked_sub-IsOk now earlier h = let e : leb earlier now ≡ true = ground arith in rw e (is_ok tt)

pub and_since-IsOk :
    (test : Bool) (now earlier limit : ℕ)
    → earlier ≤ now
    → IsOk (λ _. Unit {0}) (Update.and_since test now earlier limit)
unfolding Update.and_since
and_since-IsOk false now earlier limit h = is_ok tt
and_since-IsOk true now earlier limit h =
    IsOk-bind (Update.checked_sub now earlier) _ (checked_sub-IsOk now earlier h)
      (λ age _. is_ok tt)

pub expire_sessions-IsOk :
    (now : ℕ) (ts : List ℕ) (ss : List (Option Session))
    → length ts ≡ length ss
    → All (λ (x : ℕ). x ≤ now) ts
    → IsOk (λ _. Unit {0}) (Update.expire_sessions now ts ss)
unfolding Update.expire_sessions
expire_sessions-IsOk now [] ss e h = is_ok tt
expire_sessions-IsOk now (t ∷ ts) [] e h = absurd (omega (arith, e))
expire_sessions-IsOk now (t ∷ ts) (s ∷ ss) e h =
    IsOk-bind (Update.checked_sub now t) _ (checked_sub-IsOk now t h.0) (λ age _.
      IsOk-bind (Update.expire_sessions now ts ss) _
        (expire_sessions-IsOk now ts ss (omega (arith, e)) h.1) (λ r _. is_ok tt))

-- The timers proper; the flags do not matter.
abbrev pub OnTime : ℕ → Timers → Type 0
OnTime now t = All (λ (x : ℕ). x ≤ now) t.timers

if-OnTime :
    (now : ℕ) (b : Bool) (r r' : Timers × Bool)
    → OnTime now r.0
    → OnTime now r'.0
    → OnTime now (if b then r else r').0
if-OnTime now true r r' h h' = h
if-OnTime now false r r' h h' = h'

rekey_due-IsOk :
    (t : Timers) (now : ℕ) → OnTime now t → IsOk (λ _. Unit {0}) (Update.rekey_due t now)
unfolding Update.rekey_due
rekey_due-IsOk t now h =
    IsOk-if t.is_initiator _ _
      (IsOk-bind (Update.and_since _ now _ _) _
        (and_since-IsOk _ now _ _ (get_or-le now t.timers 1 h))
        (λ a _.
          IsOk-bind (Update.and_since _ now _ _) _
            (and_since-IsOk _ now _ _ (get_or-le now t.timers 1 h)) (λ b _. is_ok tt)))
      (is_ok tt)

silence_due-IsOk :
    (t : Timers) (now : ℕ) → OnTime now t → IsOk (λ r. OnTime now r.0) (Update.silence_due t now)
unfolding Update.silence_due
silence_due-IsOk t now h =
    IsOk-bind (Update.and_since _ now _ _) _ (and_since-IsOk _ now _ _ (get_or-le now t.timers 3 h))
      (λ late _.
        is_ok (
          if-OnTime now late (record t { want_handshake = false }, t.want_handshake) (t, false) h
            h))

keepalive_due-IsOk :
    (t : Timers) (now : ℕ) → OnTime now t → IsOk (λ r. OnTime now r.0) (Update.keepalive_due t now)
unfolding Update.keepalive_due
keepalive_due-IsOk t now h =
    IsOk-bind (Update.and_since _ now _ _) _ (and_since-IsOk _ now _ _ (get_or-le now t.timers 4 h))
      (λ late _.
        is_ok (
          if-OnTime now late (record t { want_keepalive = false }, t.want_keepalive) (t, false) h
            h))

persistent_due-IsOk :
    (t : Timers) (now : ℕ) → OnTime now t → IsOk (λ _. Unit {0}) (Update.persistent_due t now)
unfolding Update.persistent_due
persistent_due-IsOk t now h =
    IsOk-bind (Update.and_since _ now _ _) _ (and_since-IsOk _ now _ _ (get_or-le now t.timers 8 h))
      (λ late _. is_ok tt)

pub due-IsOk : (t : Timers) (now : ℕ) → OnTime now t → IsOk (λ _. Unit {0}) (Update.due t now)
unfolding Update.due
due-IsOk t now h = IsOk-bind (Update.rekey_due t now) _ (rekey_due-IsOk t now h) (λ rekey _.
    IsOk-bind (Update.silence_due t now) _ (silence_due-IsOk t now h) (λ silence h₁.
      IsOk-if (rekey || silence.1) _ _ (is_ok tt) (
        IsOk-bind (Update.keepalive_due silence.0 now) _ (keepalive_due-IsOk silence.0 now h₁)
          (λ passive h₂.
            IsOk-bind (Update.persistent_due passive.0 now) _ (persistent_due-IsOk passive.0 now h₂)
              (λ r _. is_ok tt)))))
