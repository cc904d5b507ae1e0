-- ===== src/Tunnel/State.antt =====
-- The state of a tunnel of boringtun/src/noise/mod.rs, its queue and its choice of a session.
use boringtun.Prelude.{
  ℕ, ◌%◌, ◌*◌, ◌^◌, Bool, true, false, ◌||◌, List, [], ◌∷◌, ◌++◌, Option, none, some, map, Result,
  ok, WireGuardError, length, get_or, set, replicate, ltb, leb, ◌==◌, if◌then◌else◌, ◌>>=◌,
}
use boringtun.Bytes.{Bytes}
use boringtun.Crypto.{Crypto}
use boringtun.Session.{Session}
use boringtun.Handshake.State.{Handshake}
use boringtun.Handshake.State
use boringtun.RateLimiter.{RateLimiter}
use boringtun.RateLimiter
use boringtun.Tunnel.Timers.{Timers, TimerName, n_sessions, tick, clear}
use boringtun.Tunnel.Timers

abbrev pub max_queue_depth : ℕ
max_queue_depth = 256

abbrev pub peer_handshake_rate_limit : ℕ
peer_handshake_rate_limit = 10

pub data TunnResult : Type 0 where
  done : TunnResult
  failed : WireGuardError → TunnResult
  write_to_network : Bytes → TunnResult
  write_to_tunnel_v4 : Bytes → Bytes → TunnResult
  write_to_tunnel_v6 : Bytes → Bytes → TunnResult
  panicked : TunnResult

-- The limiter may be shared with other tunnels; here is its state at this tunnel's calls.
pub record Tunn : Type 0 where
  pub handshake : Handshake
  pub sessions : List (Option Session)
  pub current : ℕ
  pub packet_queue : List Bytes
  pub timers : Timers
  pub tx_bytes : ℕ
  pub rx_bytes : ℕ
  pub rate_limiter : RateLimiter

-- What a call reads of the world: the clocks, in the order of the readings, and a random secret.
pub record Env : Type 0 where
  pub now : ℕ
  pub limiter_now : ℕ
  pub elapsed_now : ℕ
  pub clear_now : ℕ
  pub stamp_now : ℕ
  pub sent_now : ℕ
  pub ephemeral : Bytes

-- `self.sessions[idx % N_SESSIONS]`
abbrev pub session_at : Tunn → ℕ → Option Session
session_at t idx = get_or t.sessions (idx % n_sessions) none

abbrev pub put_session : Tunn → ℕ → Option Session → Tunn
put_session t idx s = record t { sessions = set t.sessions (idx % n_sessions) s }

abbrev pub is_none : Option Session → Bool
is_none none = true
is_none (some s) = false

abbrev pub timer_tick : Tunn → TimerName → Tunn
timer_tick t name = record t { timers = tick t.timers name }

-- The limiter of its own that a tunnel makes, and its random keys, or one that is shared.
abbrev pub limiter_or_new : Crypto → Option RateLimiter → Bytes → Bytes → Bytes → ℕ → RateLimiter
limiter_or_new c none public nonce_key secret_key now =
    RateLimiter.new c public peer_handshake_rate_limit nonce_key secret_key now
limiter_or_new c (some rl) public nonce_key secret_key now = rl

abbrev pub is_own : Option RateLimiter → Bool
is_own none = true
is_own (some rl) = false

module _ (c : Crypto) where
  -- `Tunn::new`
  unfoldable pub new :
      Bytes
      → Bytes
      → Option Bytes
      → Option ℕ
      → ℕ
      → Option RateLimiter
      → Bytes
      → Bytes
      → ℕ
      → ℕ
      → Tunn
  new private peer preshared persistent_keepalive index rate_limiter nonce_key secret_key system_now
        now =
      let public = c.public_key private in
      record {
        handshake =
            State.new c private public peer (index * 2 ^ 8 % 2 ^ 32) preshared system_now now;
        sessions = replicate n_sessions none;
        current = 0;
        packet_queue = [];
        timers = Timers.new persistent_keepalive (is_own rate_limiter) now;
        tx_bytes = 0;
        rx_bytes = 0;
        rate_limiter = limiter_or_new c rate_limiter public nonce_key secret_key now;
      }

  -- `Tunn::set_static_private`
  unfoldable pub set_static_private :
      Tunn → Bytes → Bytes → Option RateLimiter → Bytes → Bytes → ℕ → Result Tunn
  set_static_private t private public rate_limiter nonce_key secret_key now = do
    h ← State.set_static_private c t.handshake private public
    ok (record t {
      timers = record (t.timers) { should_reset_rr = is_own rate_limiter };
      rate_limiter = limiter_or_new c rate_limiter public nonce_key secret_key now;
      handshake = h;
      sessions = map (λ _. none) t.sessions;
    })

-- A packet that finds the queue full is dropped.
unfoldable pub queue_packet : Tunn → Bytes → Tunn
queue_packet t packet =
    if ltb (length t.packet_queue) max_queue_depth
    then record t { packet_queue = t.packet_queue ++ (packet ∷ []) }
    else t

unfoldable pub requeue_packet : Tunn → Bytes → Tunn
requeue_packet t packet =
    if ltb (length t.packet_queue) max_queue_depth
    then record t { packet_queue = packet ∷ t.packet_queue }
    else t

unfoldable pub pop_front : List Bytes → Option Bytes × List Bytes
pop_front [] = (none, [])
pop_front (packet ∷ rest) = (some packet, rest)

unfoldable pub dequeue_packet : Tunn → Tunn × Option Bytes
dequeue_packet t =
    let (packet, rest) = pop_front t.packet_queue in (record t { packet_queue = rest }, packet)

-- A session is used if there was none, or if it was made no earlier than the one in use.
unfoldable pub set_current_session : Tunn → ℕ → Tunn
set_current_session t new_idx =
    if t.current == new_idx
    then t
    else if is_none (session_at t t.current)
        || leb (get_or t.timers.session_timers (t.current % n_sessions) 0)
            (get_or t.timers.session_timers (new_idx % n_sessions) 0)
    then record t { current = new_idx }
    else t

-- `clear_all`
unfoldable pub clear_all : Tunn → ℕ → Tunn
clear_all t now = record t {
  sessions = map (λ _. none) t.sessions;
  packet_queue = [];
  timers = clear t.timers now;
}
