-- ===== src/Clock.antt =====
-- The clock of boringtun/src/sleepyinstant: differences of the times that the system tells. The other
-- modules take a time as its nanoseconds.
mod Tests
use boringtun.Prelude.{
  ℕ, ◌+◌, ◌-◌, ◌*◌, ◌<◌, ◌≤◌, ◌≡◌, arith, Option, none, some, ltb, if◌then◌else◌,
}
use boringtun.Handshake.Tai64n.{nanos_per_sec, duration_since}

-- `TimeSpec` of the crate `nix`, for a clock that does not show negative seconds
pub record TimeSpec : Type 0 where
  pub tv_sec : ℕ
  pub tv_nsec : ℕ

pub record Duration : Type 0 where
  pub secs : ℕ
  pub nanos : ℕ

-- `checked_duration_since`: there is no result where the difference of the seconds is negative.
unfoldable pub checked_duration_since : TimeSpec → TimeSpec → Option Duration
checked_duration_since t earlier =
    if ltb t.tv_nsec earlier.tv_nsec
    then (if ltb t.tv_sec (earlier.tv_sec + 1)
        then none
        else some (record {
          secs = t.tv_sec - earlier.tv_sec - 1;
          nanos = t.tv_nsec + nanos_per_sec - earlier.tv_nsec;
        }))
    else if ltb t.tv_sec earlier.tv_sec
    then none
    else some (record { secs = t.tv_sec - earlier.tv_sec; nanos = t.tv_nsec - earlier.tv_nsec })

abbrev pub or_zero : Option Duration → Duration
or_zero none = record { secs = 0; nanos = 0 }
or_zero (some d) = d

-- `Instant::duration_since`
unfoldable pub time_between : TimeSpec → TimeSpec → Duration
time_between t earlier = or_zero (checked_duration_since t earlier)

abbrev pub total_nanos : ℕ → ℕ → ℕ
total_nanos secs nanos = secs * nanos_per_sec + nanos

-- The difference of two times, whose nanoseconds are less than a second, is the difference of their
-- total nanoseconds, and zero if the earlier one is later; its nanoseconds are less than a second
-- too.
pub time_between_lem :
    (t earlier : TimeSpec)
    → t.tv_nsec < nanos_per_sec
    → earlier.tv_nsec < nanos_per_sec
    → let d = time_between t earlier in
      (total_nanos d.secs d.nanos
        ≡ duration_since
            (total_nanos t.tv_sec t.tv_nsec)
            (total_nanos earlier.tv_sec earlier.tv_nsec))
      × (d.nanos < nanos_per_sec)
unfolding time_between checked_duration_since
time_between_lem t earlier p q = ground arith
