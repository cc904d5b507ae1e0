-- ===== src/Device.antt =====
-- The user-space device: boringtun/src/device.
pub mod Lfsr
pub mod Maps
pub mod AllowedIps
pub mod Peer
pub mod State
pub mod Handlers
pub mod Events
pub mod Lock
mod Tests
