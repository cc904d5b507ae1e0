-- ===== src/Tunnel/Sizes/Calls.antt =====
-- The sizes of a tunnel after any calls of its methods: boringtun/src/noise/mod.rs and
-- boringtun/src/noise/timers.rs.
use boringtun.Prelude.{
  ℕ, arith, refl, ◌∙◌, Bool, List, [], ◌∷◌, Option, Result, ok, err, panic, length-replicate,
  length-map, ◌≡◌, none, bind_ok, ok_injective,
}
use boringtun.Bytes.{Bytes}
use boringtun.Crypto.{Crypto}
use mathlib.Core.Path.{subst}
use boringtun.Packet.{Packet, IpAddr}
use boringtun.Handshake.State as Handshake
use boringtun.RateLimiter.{RateLimiter}
use boringtun.Tunnel.Timers
use boringtun.Tunnel.State.{Tunn, Env, new, set_static_private}
use boringtun.Tunnel.Packets.{
  encapsulate, decapsulate, format_handshake_initiation, handle_verified_packet,
}
use boringtun.Tunnel.Update.{update_timers}
use boringtun.Tunnel.Sizes.{IsTimers, IsSized, format_initiation-IsSized, encapsulate-IsSized}
use boringtun.Tunnel.Sizes.Receive.{decapsulate-IsSized, handle_packet-IsSized}
use boringtun.Tunnel.Sizes.Expiry.{update_timers-IsSized}

-- A call of a method that changes the tunnel and that other modules use, with the length of its
-- buffer and what it reads of the world.
pub data Call : Type 0 where
  encapsulating : Bytes → ℕ → Env → Call
  decapsulating : Option IpAddr → Bytes → ℕ → Env → Call
  updating_timers : ℕ → Env → Call
  formatting_initiation : ℕ → Bool → Env → Call
  handling_verified : Packet → ℕ → Env → Call
  setting_static_private : Bytes → Bytes → Option RateLimiter → Bytes → Bytes → ℕ → Call

-- A call that panics, on keys that do not belong together, leaves the tunnel as it is here.
abbrev or_before : Tunn → Result Tunn → Tunn
or_before t (ok t') = t'
or_before t (err e) = t
or_before t panic = t

module _ (c : Crypto) where
  abbrev pub after_call : Tunn → Call → Tunn
  after_call t (encapsulating src n env) = (encapsulate c t src n env).0
  after_call t (decapsulating addr datagram n env) = (decapsulate c t addr datagram n env).0
  after_call t (updating_timers n env) = (update_timers c t n env).0
  after_call t (formatting_initiation n force env) = (format_handshake_initiation c t n force env).0
  after_call t (handling_verified packet n env) = (handle_verified_packet c t packet n env).0
  after_call t (setting_static_private private public rl nonce_key secret_key now) =
      or_before t (set_static_private c t private public rl nonce_key secret_key now)

  abbrev pub after_calls : Tunn → List Call → Tunn
  after_calls t [] = t
  after_calls t (call ∷ rest) = after_calls (after_call t call) rest

  new-IsSized :
      (private peer : Bytes) (preshared : Option Bytes) (keepalive : Option ℕ) (index : ℕ)
      (rl : Option RateLimiter) (nonce_key secret_key : Bytes) (system_now now : ℕ)
      → IsSized
          (new c private peer preshared keepalive index rl nonce_key secret_key system_now now)
  unfolding new Timers.new IsSized IsTimers
  new-IsSized private peer preshared keepalive index rl nonce_key secret_key system_now now =
      (((length-replicate {A = ℕ} 9 0, length-replicate {A = ℕ} 8 0), refl), omega arith)

  or_before-IsSized :
      (t : Tunn) (r : Result Tunn)
      → IsSized t
      → ((t' : Tunn) → r ≡ ok t' → IsSized t')
      → IsSized (or_before t r)
  or_before-IsSized t (ok t') h k = k t' refl
  or_before-IsSized t (err e) h k = h
  or_before-IsSized t panic h k = h

  set_private-IsSized :
      (t t' : Tunn) (private public : Bytes) (rl : Option RateLimiter)
      (nonce_key secret_key : Bytes) (now : ℕ)
      → IsSized t
      → set_static_private c t private public rl nonce_key secret_key now ≡ ok t'
      → IsSized t'
  unfolding set_static_private IsSized IsTimers
  set_private-IsSized t t' private public rl nonce_key secret_key now h made =
      let (hs, first, e) =
        bind_ok (Handshake.set_static_private c t.handshake private public) _ made in
      subst IsSized (ok_injective e) ((h.0.0, length-map t.sessions (λ _. none) ∙ h.0.1), h.1)

  call-IsSized : (t : Tunn) (call : Call) → IsSized t → IsSized (after_call t call)
  call-IsSized t (encapsulating src n env) h = encapsulate-IsSized c t src n env h
  call-IsSized t (decapsulating addr datagram n env) h =
      decapsulate-IsSized c t addr datagram n env h
  call-IsSized t (updating_timers n env) h = update_timers-IsSized c t n env h
  call-IsSized t (formatting_initiation n force env) h = format_initiation-IsSized c t n force env h
  call-IsSized t (handling_verified packet n env) h = handle_packet-IsSized c t packet n env h
  call-IsSized t (setting_static_private private public rl nonce_key secret_key now) h =
      or_before-IsSized t _ h
        (λ t' made. set_private-IsSized t t' private public rl nonce_key secret_key now h made)

  calls-IsSized : (t : Tunn) (calls : List Call) → IsSized t → IsSized (after_calls t calls)
  calls-IsSized t [] h = h
  calls-IsSized t (call ∷ rest) h = calls-IsSized (after_call t call) rest (call-IsSized t call h)

  -- A tunnel keeps its nine timers, its eight sessions with as many session timers, and at most 256
  -- packets in its queue, whatever calls of `encapsulate`, `decapsulate`, `handle_verified_packet`,
  -- `update_timers`, `format_handshake_initiation` and `set_static_private` follow its making, with any
  -- arguments and any clocks. A call of `set_static_private` that panics changes nothing here.
  pub sizes_kept :
      (private peer : Bytes) (preshared : Option Bytes) (keepalive : Option ℕ) (index : ℕ)
      (rl : Option RateLimiter) (nonce_key secret_key : Bytes) (system_now now : ℕ)
      (calls : List Call)
      → IsSized (
          after_calls
            (new c private peer preshared keepalive index rl nonce_key secret_key system_now now)
            calls)
  sizes_kept private peer preshared keepalive index rl nonce_key secret_key system_now now calls =
      calls-IsSized _ calls
        (new-IsSized private peer preshared keepalive index rl nonce_key secret_key system_now now)
