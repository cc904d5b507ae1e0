-- ===== src/Export/Sound.antt =====
-- The calls of boringtun/src/export.rs that leave the mutex unpoisoned.
use boringtun.Prelude.{
  ℕ, ◌+◌, ◌≤◌, ◌≡◌, ◌≢◌, refl, arith, Bool, true, false, not, ◌&&◌, Option, none, some, length, ltb,
  leb, if◌then◌else◌, Bool-cases, inl, inr,
}
use boringtun.Bytes.{Bytes}
use boringtun.Crypto.{Crypto}
use boringtun.Session.{Session, format_packet_data}
use boringtun.Handshake.State.{Handshake, is_in_progress, is_expired}
use boringtun.Handshake.Send
use boringtun.Tunnel.State.{Tunn, Env, TunnResult, session_at, queue_packet, put_session}
use boringtun.Tunnel.Packets.{
  encapsulate, encapsulate_with, data_sent, format_handshake_initiation, initiation_sent,
}
use boringtun.Tunnel.Timers.{clear}
use boringtun.Export.{Tunnel, TunnelResult, from, is_panic, locked, dst_len, write, force_handshake}

abbrev IsQuiet : Tunn × TunnResult → Type 0
IsQuiet r = is_panic r.1 ≡ false

-- The call leaves the mutex as it was and does not panic.
abbrev pub IsSafe : Tunnel × TunnelResult → Type 0
IsSafe (t, r) = (t.is_poisoned ≡ false) × (r ≢ TunnelResult.panicked)

from-safe : (r : TunnResult) → is_panic r ≡ false → from r ≢ TunnelResult.panicked
from-safe TunnResult.done h = λ e. absurd cc
from-safe (TunnResult.failed x) h = λ e. absurd cc
from-safe (TunnResult.write_to_network bytes) h = λ e. absurd cc
from-safe (TunnResult.write_to_tunnel_v4 bytes addr) h = λ e. absurd cc
from-safe (TunnResult.write_to_tunnel_v6 bytes addr) h = λ e. absurd cc
from-safe TunnResult.panicked h = absurd cc

locked-IsSafe :
    (t : Tunnel) (call : Tunn → Tunn × TunnResult)
    → t.is_poisoned ≡ false
    → IsQuiet (call t.tunn)
    → IsSafe (locked t call)
locked-IsSafe t call h quiet = rw h (quiet, from-safe (call t.tunn).1 quiet)

module _ (c : Crypto) where
  sent-IsQuiet :
      (t : Tunn) (starting : Bool) (h : Handshake) (n : ℕ) (e : Bytes) (s w : ℕ)
      → IsQuiet (initiation_sent c t starting (Send.format_handshake_initiation c h n e s w).1)
  unfolding Send.format_handshake_initiation
  sent-IsQuiet t starting h n e s w = elim (Bool-cases (ltb n 148)) [
    | inl x ↦ rw x refl
    | inr x ↦ rw x refl
  ]

  initiation-IsQuiet :
      (t : Tunn) (n : ℕ) (force : Bool) (env : Env)
      → IsQuiet (format_handshake_initiation c t n force env)
  unfolding format_handshake_initiation
  initiation-IsQuiet t n force env = elim (Bool-cases (is_in_progress t.handshake && not force)) [
    | inl x ↦ rw x refl
    | inr x ↦ rw x (
        sent-IsQuiet
          (record (if is_expired t.handshake
            then record t { timers = clear t.timers env.clear_now }
            else t) {
              handshake =
                  (Send.format_handshake_initiation c t.handshake n env.ephemeral env.stamp_now
                    env.sent_now).0;
            })
          (not (is_in_progress t.handshake)) t.handshake n env.ephemeral env.stamp_now env.sent_now)
  ]

  formatted-IsQuiet :
      (t : Tunn) (s : Session) (src : Bytes) (n : ℕ)
      → length src + 32 ≤ n
      → IsQuiet (data_sent c t src (format_packet_data c s src n).1)
  unfolding format_packet_data
  formatted-IsQuiet t s src n h =
      let fits : leb (length src + 32) n ≡ true = ground arith in rw fits refl

  encapsulate-IsQuiet :
      (t : Tunn) (src : Bytes) (n : ℕ) (env : Env)
      → length src + 32 ≤ n
      → IsQuiet (encapsulate c t src n env)
  unfolding encapsulate
  encapsulate-IsQuiet t src n env h = with_session (session_at t t.current)
    where
      with_session : (s : Option Session) → IsQuiet (encapsulate_with c t s src n env)
      with_session none = initiation-IsQuiet (queue_packet t src) n false env
      with_session (some s) =
          formatted-IsQuiet (put_session t t.current (some (format_packet_data c s src n).0)) s src
            n h

  dst_len-enough : (src : Bytes) → length src + 32 ≤ dst_len src
  dst_len-enough src = ground arith

  -- `write` does not panic and leaves a mutex that is not poisoned so, whatever the packet and the
  -- state of the tunnel are.
  pub write-IsSafe :
      (t : Tunnel) (src : Bytes) (env : Env) → t.is_poisoned ≡ false → IsSafe (write c t src env)
  unfolding write
  write-IsSafe t src env h =
      locked-IsSafe t (λ tunn. encapsulate c tunn src (dst_len src) env) h
        (encapsulate-IsQuiet t.tunn src (dst_len src) env (dst_len-enough src))

  pub force_handshake-IsSafe :
      (t : Tunnel) (env : Env) → t.is_poisoned ≡ false → IsSafe (force_handshake c t env)
  unfolding force_handshake
  force_handshake-IsSafe t env h =
      locked-IsSafe t (λ tunn. format_handshake_initiation c tunn 148 true env) h
        (initiation-IsQuiet t.tunn 148 true env)
