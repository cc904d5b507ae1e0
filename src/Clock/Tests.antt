-- ===== src/Clock/Tests.antt =====
-- A run of the clock of boringtun/src/sleepyinstant/unix.rs.
use boringtun.Prelude.{◌≡◌, ◌<◌, arith}
use boringtun.Handshake.Tai64n.{duration_since}
use boringtun.Clock.{time_between, total_nanos, nanos_per_sec, time_between_lem}

time_between_lem_example :
    let d =
      time_between (record { tv_sec = 7; tv_nsec = 5 }) (record { tv_sec = 5; tv_nsec = 9 }) in
    (total_nanos d.secs d.nanos ≡ duration_since (total_nanos 7 5) (total_nanos 5 9))
    × (d.nanos < nanos_per_sec)
time_between_lem_example =
    time_between_lem (record { tv_sec = 7; tv_nsec = 5 }) (record { tv_sec = 5; tv_nsec = 9 })
      (omega arith) (omega arith)
