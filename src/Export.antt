-- ===== src/Export.antt =====
-- The tunnel for other languages: boringtun/src/export.rs.
pub mod Sound
mod Tests
use boringtun.Prelude.{
  ℕ, ◌+◌, ◌%◌, ◌^◌, Bool, true, false, List, [], ◌∷◌, Option, none, some, map, WireGuardError,
  lock_failed, length, ltb, if◌then◌else◌,
}
use boringtun.Bytes.{Bytes}
use boringtun.Crypto.{Crypto}
use boringtun.RateLimiter.{RateLimiter}
use boringtun.Tunnel.State.{Tunn, Env, TunnResult}
use boringtun.Tunnel.State as TunnelState
use boringtun.Tunnel.Packets.{decapsulate, encapsulate, format_handshake_initiation}
use boringtun.Tunnel.Update.{update_timers}
use boringtun.Key.{KeyBytes, KeyResult, key_ok, key_err, key_panic, ◌>>=◌, from_str, Base64}

abbrev pub min_buffer_size : ℕ
min_buffer_size = 148

-- A mutex is poisoned once a call panicked while it held the lock.
pub record Tunnel : Type 0 where
  pub tunn : Tunn
  pub is_poisoned : Bool

-- `TunnelResult`, or the panic of the call
pub data TunnelResult : Type 0 where
  done : TunnelResult
  err : WireGuardError → TunnelResult
  write_to_network : Bytes → TunnelResult
  write_to_tunnel_v4 : Bytes → TunnelResult
  write_to_tunnel_v6 : Bytes → TunnelResult
  panicked : TunnelResult

-- `TunnelResult::from`
abbrev pub from : TunnResult → TunnelResult
from TunnResult.done = TunnelResult.done
from (TunnResult.failed e) = TunnelResult.err e
from (TunnResult.write_to_network bytes) = TunnelResult.write_to_network bytes
from (TunnResult.write_to_tunnel_v4 bytes addr) = TunnelResult.write_to_tunnel_v4 bytes
from (TunnResult.write_to_tunnel_v6 bytes addr) = TunnelResult.write_to_tunnel_v6 bytes
from TunnResult.panicked = TunnelResult.panicked

abbrev pub is_panic : TunnResult → Bool
is_panic TunnResult.panicked = true
is_panic _ = false

-- `lock()`, then a call that holds the lock
abbrev pub locked : Tunnel → (Tunn → Tunn × TunnResult) → Tunnel × TunnelResult
locked t call = when_locked t.is_poisoned (call t.tunn)
  where
    when_locked : Bool → Tunn × TunnResult → Tunnel × TunnelResult
    when_locked true r = (t, TunnelResult.err lock_failed)
    when_locked false r = (record { tunn = r.0; is_poisoned = is_panic r.1 }, from r.1)

-- `(src.len() + 32).max(MIN_BUFFER_SIZE)`
abbrev pub dst_len : Bytes → ℕ
dst_len src = if ltb min_buffer_size (length src + 32) then length src + 32 else min_buffer_size

module _ (c : Crypto) where
  abbrev pub preshared_bytes : Base64 → Option Bytes → KeyResult (Option Bytes)
  preshared_bytes base64 none = key_ok none
  preshared_bytes base64 (some key) = do k ← from_str base64 key; key_ok (some k.bytes)

  -- `Tunnel::new`, on the text of the keys; then what `Tunn::new` reads of the world
  unfoldable pub new :
      Base64
      → Bytes
      → Bytes
      → Option Bytes
      → Option ℕ
      → ℕ
      → Bytes
      → Bytes
      → ℕ
      → ℕ
      → KeyResult Tunnel
  new base64 private_key server_public_key preshared_key keep_alive index nonce_key secret_key
        system_now now =
      do
        private ← from_str base64 private_key
        server ← from_str base64 server_public_key
        preshared ← preshared_bytes base64 preshared_key
        key_ok (record {
          tunn =
              TunnelState.new c private.bytes server.bytes preshared keep_alive index none nonce_key
                secret_key system_now now;
          is_poisoned = false;
        })

  unfoldable pub tick : Tunnel → Env → Tunnel × TunnelResult
  tick t env = locked t (λ tunn. update_timers c tunn min_buffer_size env)

  unfoldable pub force_handshake : Tunnel → Env → Tunnel × TunnelResult
  force_handshake t env =
      locked t (λ tunn. format_handshake_initiation c tunn min_buffer_size true env)

  unfoldable pub read : Tunnel → Bytes → Env → Tunnel × TunnelResult
  read t src env = locked t (λ tunn. decapsulate c tunn none src (dst_len src) env)

  unfoldable pub write : Tunnel → Bytes → Env → Tunnel × TunnelResult
  write t src env = locked t (λ tunn. encapsulate c tunn src (dst_len src) env)
