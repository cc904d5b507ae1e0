-- ===== src/Tunnel.antt =====
-- `Tunn` of boringtun/src/noise/mod.rs and boringtun/src/noise/timers.rs.
pub mod Timers
pub mod State
pub mod Packets
pub mod Update
pub mod Outcomes
pub mod Sizes
pub mod Clearing
pub mod Steady
pub mod Inner
mod Tests
