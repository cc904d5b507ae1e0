-- ===== src/Handshake/Tai64n.antt =====
-- `Tai64N` and `TimeStamper` of boringtun/src/noise/handshake.rs. An instant and a duration are
-- numbers of nanoseconds; what the clocks show is given.
use boringtun.Prelude.{ℕ, ◌+◌, ◌-◌, ◌/◌, ◌%◌, ◌^◌, ◌++◌, Bool, ◌&&◌, ◌||◌, ltb, ◌==◌}
use boringtun.Bytes.{Bytes, slice, to_be_bytes, from_be_bytes}

pub record Tai64N : Type 0 where
  pub secs : ℕ
  pub nano : ℕ

pub record TimeStamper : Type 0 where
  pub duration_at_start : ℕ
  pub instant_at_start : ℕ

abbrev pub nanos_per_sec : ℕ
nanos_per_sec = 10 ^ 9

abbrev pub tai64_base : ℕ
tai64_base = 2 ^ 62 + 37

-- `Instant::duration_since` is zero for a later instant.
abbrev pub duration_since : ℕ → ℕ → ℕ
duration_since now earlier = now - earlier

-- `TimeStamper::new` at a reading of both clocks
unfoldable pub new : ℕ → ℕ → TimeStamper
new system_now now = record { duration_at_start = system_now; instant_at_start = now }

unfoldable pub stamp : TimeStamper → ℕ → Bytes
stamp s now =
    let time = duration_since now s.instant_at_start + s.duration_at_start in
    to_be_bytes 8 ((time / nanos_per_sec + tai64_base) % 2 ^ 64)
    ++ to_be_bytes 4 (time % nanos_per_sec)

unfoldable pub zero : Tai64N
zero = record { secs = 0; nano = 0 }

unfoldable pub parse : Bytes → Tai64N
parse buf = record { secs = from_be_bytes (slice 0 8 buf); nano = from_be_bytes (slice 8 12 buf) }

unfoldable pub after : Tai64N → Tai64N → Bool
after t other = ltb other.secs t.secs || ((t.secs == other.secs) && ltb other.nano t.nano)
