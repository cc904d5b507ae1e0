-- ===== src/Handshake.antt =====
-- boringtun/src/noise/handshake.rs: the Noise IKpsk2 handshake of a tunnel. The clocks and the
-- random secrets of a call are its arguments, and a call returns the new state beside its result.
pub mod Tai64n
pub mod State
pub mod Send
pub mod Receive
pub mod Wire
pub mod Keys
pub mod Index
pub mod Steps
pub mod Agreement
mod Tests
