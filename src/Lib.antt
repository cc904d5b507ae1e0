-- ===== src/Lib.antt =====
-- The protocol core of boringtun, a userspace WireGuard, in boringtun/src/noise, and around it the
-- device of boringtun/src/device, keys as text, the clock and the exported tunnel.
--
-- Parts and files. A tunnel (boringtun/src/noise/mod.rs, `Tunn`) has one handshake, eight slots for
-- sessions, a queue, timers and a rate limiter. `encapsulate` sends a packet over the session in use,
-- or queues it and begins a handshake. `decapsulate` gives a datagram to the rate limiter, which
-- parses it and checks its macs, then to the handshake or to the session of its index.
-- `update_timers` is called from outside at times and renews or expires sessions. A device
-- (boringtun/src/device/mod.rs, `Device`) has peers, each with a tunnel, an endpoint and the addresses
-- that it may use, and finds a peer by its key, by the index in a datagram, or by the destination of a
-- packet. Its handlers move packets between the sockets, the tunnels and the interface.
--   * Prelude: tests, lists and results; Prelude/Outcome is boringtun/src/noise/errors.rs. A panic is
--     a result of its own.
--   * Bits, Bytes: bits of numbers, little-endian and big-endian bytes, slices.
--   * Crypto: the wrappers at the top of boringtun/src/noise/handshake.rs over a record of the
--     primitives that other crates provide. IsLawful names what the code relies on: sizes, opening
--     what was sealed, and a common secret. Nothing says that the primitives are secret. Crypto/Toy
--     is an instance for the runs in the test modules.
--   * Packet: parse_incoming_packet and dst_address of boringtun/src/noise/mod.rs. Packet/Wire is a
--     description of the four layouts, Packet/Shape and Packet/RoundTrip compare the two.
--   * Replay: ReceivingKeyCounterValidator of boringtun/src/noise/session.rs. Replay/Window is its
--     specification with sets of counters, Replay/Digits reads the bitmap, Replay/Cleared and
--     Replay/Clear are about the loops, Replay/Mark compares bitmap and window, Replay/History is
--     about sequences of counters.
--   * Session: Session of boringtun/src/noise/session.rs. Session/Receive and Session/Keys are about one
--     packet, Session/Nonces about sending, Session/Transport about two sessions.
--   * Handshake: Handshake of boringtun/src/noise/handshake.rs. Handshake/Tai64n has the stamps,
--     Handshake/State the state, Handshake/Send and Handshake/Receive the messages; Handshake/Index,
--     Handshake/Wire, Handshake/Keys, Handshake/Steps and Handshake/Agreement reason about them.
--   * RateLimiter: RateLimiter of boringtun/src/noise/rate_limiter.rs. RateLimiter/Soundness is about
--     verify_packet, RateLimiter/Cookie about cookie replies.
--   * Tunnel: Tunnel/Timers and Tunnel/Update are boringtun/src/noise/timers.rs, Tunnel/State and
--     Tunnel/Packets are boringtun/src/noise/mod.rs. Tunnel/Sizes, Tunnel/Inner, Tunnel/Outcomes,
--     Tunnel/Clearing and Tunnel/Steady reason about them.
--   * Key: boringtun/src/serialization.rs, over the base64 of another crate. Key/Hex and Key/Text
--     reason about it.
--   * Clock: differences of times, boringtun/src/sleepyinstant/unix.rs.
--   * Device: boringtun/src/device. Device/Lfsr is IndexLfsr of mod.rs, Device/AllowedIps is
--     allowed_ips.rs over the tables of the crates ip_network and ip_network_table, whose laws
--     IsTables names, Device/Peer is peer.rs over the calls of sockets, Device/State and
--     Device/State/Listening are Device of mod.rs, Device/Handlers and Device/Handlers/Outgoing are
--     its handlers, and Device/Maps stands for the HashMaps. Device/Lfsr/Distinct,
--     Device/Peer/Endpoints, Device/Peer/Routes, Device/State/Consistent with its neighbours,
--     Device/Handlers/Flush, Device/Handlers/Allowed, Device/Handlers/Dispatch and
--     Device/Handlers/Tables reason about them, and Device/Events about runs of commands and
--     handlers in any order. Device/Lock is dev_lock.rs as a step relation on the places of
--     threads. Device/AllowedIps/Toy is an instance of the tables.
--   * Export: the tunnel of boringtun/src/export.rs, with the lock that a panic poisons.
--
-- Conventions. A method takes the state and returns the new one beside its result. A destination
-- buffer is its length, and what a method writes is its result. Bytes are numbers, usize has 64 bits,
-- and sums of machine words wrap as in a release build. Clock readings are nanoseconds, given as
-- arguments, and random secrets are arguments too: `Env` of Tunnel/State collects them for a
-- method, one for each reading. The constructors RateLimiter.new and Tunn::new have one argument for
-- their several readings. A hash that is updated several times is the hash of the concatenation.
--
-- Fuel. The three loops that clear skipped counters run on fuel, as much as there are counters left
-- to clear, at most 1024, and each round moves past one or more. The loop that flushes a queue gets
-- two turns more than there are packets in the queue.
--
-- An `Arc<Mutex<Peer>>` of the device is a place in a list of peers that only grows; the tables hold
-- places. A handler is the body of its loop for one packet, with the packet as an argument and what it
-- sends as a list.
--
-- Not modelled: atomics and the locks but the device's (their values are state that is passed on,
-- one call at a time; a limiter that several tunnels share is its state at the calls of one),
-- zeroing of secrets, logging, estimate_loss and stats, which show numbers, some of them floating-
-- point, the reading of clocks, the opening of devices, the event loop and its threads
-- (boringtun/src/device/mod.rs and the event queues), the configuration protocol
-- (boringtun/src/device/api.rs), bindings (boringtun/src/ffi, boringtun/src/jni.rs) and the command
-- line (boringtun-cli).
pub mod Prelude
pub mod Bits
pub mod Bytes
pub mod Crypto
pub mod Packet
pub mod Replay
pub mod Session
pub mod Handshake
pub mod RateLimiter
pub mod Tunnel
pub mod Key
pub mod Clock
pub mod Device
pub mod Export
