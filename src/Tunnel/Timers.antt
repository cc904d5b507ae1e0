-- ===== src/Tunnel/Timers.antt =====
-- `Timers` of boringtun/src/noise/timers.rs. Times are nanoseconds, those of the timers since the
-- tunnel was made.
use boringtun.Prelude.{
  ℕ, ◌*◌, ◌%◌, Bool, true, false, List, Option, none, some, map, replicate, get_or, set,
}
use boringtun.Handshake.Tai64n.{nanos_per_sec, duration_since}

abbrev pub n_sessions : ℕ
n_sessions = 8

abbrev pub secs : ℕ → ℕ
secs n = n * nanos_per_sec

abbrev pub rekey_after_time : ℕ
rekey_after_time = secs 120

abbrev pub reject_after_time : ℕ
reject_after_time = secs 180

abbrev pub rekey_attempt_time : ℕ
rekey_attempt_time = secs 90

abbrev pub rekey_timeout : ℕ
rekey_timeout = secs 5

abbrev pub keepalive_timeout : ℕ
keepalive_timeout = secs 10

abbrev pub cookie_expiration_time : ℕ
cookie_expiration_time = secs 120

pub data TimerName : Type 0 where
  time_current : TimerName
  time_session_established : TimerName
  time_last_handshake_started : TimerName
  time_last_packet_received : TimerName
  time_last_packet_sent : TimerName
  time_last_data_packet_received : TimerName
  time_last_data_packet_sent : TimerName
  time_cookie_received : TimerName
  time_persistent_keepalive : TimerName
  top : TimerName

-- `timer_name as usize`
abbrev pub as_usize : TimerName → ℕ
as_usize time_current = 0
as_usize time_session_established = 1
as_usize time_last_handshake_started = 2
as_usize time_last_packet_received = 3
as_usize time_last_packet_sent = 4
as_usize time_last_data_packet_received = 5
as_usize time_last_data_packet_sent = 6
as_usize time_cookie_received = 7
as_usize time_persistent_keepalive = 8
as_usize top = 9

pub record Timers : Type 0 where
  pub is_initiator : Bool
  pub time_started : ℕ
  pub timers : List ℕ
  pub session_timers : List ℕ
  pub want_keepalive : Bool
  pub want_handshake : Bool
  pub persistent_keepalive : ℕ
  pub should_reset_rr : Bool

abbrev pub u16_or_default : Option ℕ → ℕ
u16_or_default none = 0
u16_or_default (some n) = n

-- `Timers::new`
unfoldable pub new : Option ℕ → Bool → ℕ → Timers
new persistent_keepalive reset_rr now = record {
  is_initiator = false;
  time_started = now;
  timers = replicate (as_usize top) 0;
  session_timers = replicate n_sessions 0;
  want_keepalive = false;
  want_handshake = false;
  persistent_keepalive = u16_or_default persistent_keepalive;
  should_reset_rr = reset_rr;
}

-- Reading and writing a timer: `Top` is never used as an index.
abbrev pub get : Timers → TimerName → ℕ
get t name = get_or t.timers (as_usize name) 0

abbrev pub put : Timers → TimerName → ℕ → Timers
put t name time = record t { timers = set t.timers (as_usize name) time }

unfoldable pub clear : Timers → ℕ → Timers
clear t now = record t {
  timers = map (λ _. duration_since now t.time_started) t.timers;
  want_handshake = false;
  want_keepalive = false;
}

-- The flags that a packet sets.
unfoldable pub note : Timers → TimerName → Timers
note t time_last_packet_received = record t { want_keepalive = true; want_handshake = false }
note t time_last_packet_sent = record t { want_handshake = true; want_keepalive = false }
note t _ = t

-- `Tunn::timer_tick`
unfoldable pub tick : Timers → TimerName → Timers
tick t name = put (note t name) name (get t time_current)

-- `Tunn::timer_tick_session_established`
unfoldable pub session_established : Timers → Bool → ℕ → Timers
session_established t is_initiator session_idx =
    let t' = tick t time_session_established in
    record t' {
      session_timers = set t'.session_timers (session_idx % n_sessions) (get t' time_current);
      is_initiator = is_initiator;
    }
