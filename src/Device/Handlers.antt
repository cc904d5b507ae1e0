-- ===== src/Device/Handlers.antt =====
-- The handlers of datagrams of boringtun/src/device/mod.rs, on a listening socket and on a connected
-- one. Each is the body of its loop; a panic leaves nothing to look at. The reads themselves are not
-- part of the model.
pub mod Outgoing
pub mod Flush
pub mod Allowed
pub mod Dispatch
pub mod Tables
mod Tests
use boringtun.Prelude.{
  ℕ, zero, suc, ◌+◌, ◌*◌, ◌/◌, ◌-◌, ◌^◌, Bool, true, false, ◌&&◌, ◌||◌, not, List, [], ◌∷◌, ◌++◌,
  Option, none, some, map, Result, ok, err, panic, ◌>>=◌, ◌>>◌, assert, length, get_elem?, set,
  if◌then◌else◌, connection_expired, WireGuardError,
}
use boringtun.Bytes.{Bytes}
use boringtun.Crypto.{Crypto}
use boringtun.Packet.{
  Packet, IpAddr, v4, v6, handshake_init, handshake_response, packet_cookie_reply, packet_data,
  dst_address,
}
use boringtun.RateLimiter.{RateLimiter, Verified, verify_packet, reset_count}
use boringtun.RateLimiter
use boringtun.Handshake.Receive.{parse_handshake_anon, HalfHandshake}
use boringtun.Tunnel.State.{
  Tunn, Env, TunnResult, done, failed, write_to_network, write_to_tunnel_v4, write_to_tunnel_v6,
  panicked,
}
use boringtun.Tunnel.Packets.{decapsulate, encapsulate, handle_verified_packet}
use boringtun.Tunnel.Update.{update_timers}
use boringtun.Device.Maps.{lookup, nat_key, bytes_key}
use boringtun.Device.AllowedIps.{IpTables, AllowedIps, find}
use boringtun.Device.Peer.{
  Peer, SocketAddr, Endpoint, Sockets, is_allowed_ip, is_ipv4, set_endpoint, connect_endpoint,
  shutdown_endpoint, Connected, connected, refused, unconnected_panic,
}
use boringtun.Device.State.{Device, put_cell}

abbrev pub max_udp_size : ℕ
max_udp_size = 65535

-- What a handler does outside: it sends over a socket of the device, or over a connected one, writes
-- to the interface, and has a connected socket watched.
pub data Output : Type 0 where
  send_to : SocketAddr → Bytes → Output
  send : ℕ → Bytes → Output
  write4 : Bytes → Output
  write6 : Bytes → Output
  register_conn_handler : ℕ → ℕ → IpAddr → Output

-- How the loop that flushes the queue of a peer ends: it stops, it panics, or the fuel is used up.
pub data Ending : Type 0 where
  stopped : Ending
  flush_panicked : Ending
  out_of_fuel : Ending

module _ (c : Crypto) where
  abbrev pub flush_more :
      Tunn × TunnResult → Tunn × List Bytes × Ending → Tunn × List Bytes × Ending
  flush_more (t, write_to_network packet) (t', packets, ending) = (t', packet ∷ packets, ending)
  flush_more (t, panicked) rest = (t, [], flush_panicked)
  flush_more (t, done) rest = (t, [], stopped)
  flush_more (t, failed e) rest = (t, [], stopped)
  flush_more (t, write_to_tunnel_v4 packet addr) rest = (t, [], stopped)
  flush_more (t, write_to_tunnel_v6 packet addr) rest = (t, [], stopped)

  -- The loop `while let Some(packet)`, with the world of each call
  unfoldable pub flush : ℕ → Tunn → (ℕ → Env) → Tunn × List Bytes × Ending
  flush zero t envs = (t, [], out_of_fuel)
  flush (suc fuel) t envs =
      let r = decapsulate c t none [] max_udp_size (envs fuel) in
      let rest = flush fuel r.0 envs in flush_more r rest

  -- Fuel that is enough
  abbrev pub flush_queue : Tunn → (ℕ → Env) → Tunn × List Bytes × Ending
  flush_queue t envs = flush (length t.packet_queue + 2) t envs

-- `peer.lock()` on a place that is not in the store does not occur.
abbrev pub cell_of : {ts : IpTables} → Device ts → ℕ → Result (Peer ts)
cell_of d id = or_panic (get_elem? d.cells id)
  where
    or_panic : {A : Type 0} → Option A → Result A
    or_panic none = panic
    or_panic (some a) = ok a

abbrev pub unwrap : {A : Type 0} → Option A → Result A
unwrap none = panic
unwrap (some a) = ok a

abbrev pub unless_panicked : {A : Type 0} → Ending → A → Result A
unless_panicked stopped a = ok a
unless_panicked flush_panicked a = panic
unless_panicked out_of_fuel a = panic

module _ (c : Crypto) (ts : IpTables) where
  -- The packets of a decapsulation for one peer: what goes out at once, and whether the queue is
  -- flushed. What comes out for the interface is checked against the addresses that the peer may use.
  abbrev pub reply_of : Peer ts → (Bytes → Output) → TunnResult → Result (List Output × Bool)
  reply_of p to_peer done = ok ([], false)
  reply_of p to_peer (failed e) = ok ([], false)
  reply_of p to_peer (write_to_network packet) = ok (to_peer packet ∷ [], true)
  reply_of p to_peer (write_to_tunnel_v4 packet addr) =
      ok ((if is_allowed_ip ts p (v4 addr) then write4 packet ∷ [] else []), false)
  reply_of p to_peer (write_to_tunnel_v6 packet addr) =
      ok ((if is_allowed_ip ts p (v6 addr) then write6 packet ∷ [] else []), false)
  reply_of p to_peer panicked = panic

  abbrev pub flushed :
      Peer ts → (Bytes → Output) → (ℕ → Env) → Bool → Result (Peer ts × List Output)
  flushed p to_peer envs false = ok (p, [])
  flushed p to_peer envs true =
      let (t, packets, ending) = flush_queue c p.tunnel envs in
      unless_panicked ending (record p { tunnel = t }, map to_peer packets)

  -- Both handlers of datagrams, from the result of the tunnel on
  unfoldable pub answer :
      Peer ts → (Bytes → Output) → TunnResult → (ℕ → Env) → Result (Peer ts × List Output)
  answer p to_peer r envs = do
    reply ← reply_of p to_peer r
    let (now, flush_it) = reply
    after ← flushed p to_peer envs flush_it
    let (p', later) = after
    ok (p', now ++ later)

  -- The peer that a datagram is for: the sender of an initiation by its key, else the receiver by
  -- the upper 24 bits of the index. The error of an initiation that does not open is no peer.
  abbrev pub by_sender : Device ts → Result HalfHandshake → Result (Option ℕ)
  by_sender d (ok hh) = ok (lookup d.peers hh.peer_static_public)
  by_sender d (err e) = ok none
  by_sender d panic = panic

  unfoldable pub find_peer : Device ts → Bytes × Bytes → Packet → Result (Option ℕ)
  find_peer d key_pair (handshake_init p) =
      by_sender d (parse_handshake_anon c key_pair.0 key_pair.1 p)
  find_peer d key_pair (handshake_response p) = ok (lookup d.peers_by_idx (p.receiver_idx / 2 ^ 8))
  find_peer d key_pair (packet_cookie_reply p) = ok (lookup d.peers_by_idx (p.receiver_idx / 2 ^ 8))
  find_peer d key_pair (packet_data p) = ok (lookup d.peers_by_idx (p.receiver_idx / 2 ^ 8))

module _ (c : Crypto) (ts : IpTables) (sockets : Sockets) where
  abbrev pub watched : ℕ → IpAddr → Endpoint × Connected → Result (Endpoint × List Output)
  watched id addr (e, connected sock) = ok (e, register_conn_handler id sock addr ∷ [])
  watched id addr (e, refused) = ok (e, [])
  watched id addr (e, unconnected_panic) = panic

  abbrev pub is_unconnected : Option ℕ → Bool
  is_unconnected none = true
  is_unconnected (some conn) = false

  abbrev pub watch_if :
      Bool → Device ts → ℕ → Endpoint → SocketAddr → Result (Endpoint × List Output)
  watch_if true d id e addr = watched id addr.ip (connect_endpoint sockets e d.listen_port d.fwmark)
  watch_if false d id e addr = ok (e, [])

  -- The end of the loop: the endpoint of the peer, and a connected socket for it. That the handler of
  -- the socket can be registered is taken for granted.
  unfoldable pub connect_peer :
      Device ts → ℕ → Endpoint → SocketAddr → Result (Endpoint × List Output)
  connect_peer d id e addr = do
    changed ← set_endpoint sockets e addr
    let (e', endpoint_changed) = changed
    watch_if (d.use_connected_socket && (endpoint_changed || is_unconnected e'.conn)) d id e' addr

  abbrev pub finish_answered :
      Device ts
      → ℕ
      → Peer ts
      → SocketAddr
      → (ℕ → Env)
      → TunnResult
      → Result (Device ts × List Output)
  finish_answered d id p addr envs r = do
    answered ← answer c ts p (send_to addr) r envs
    let (p', outputs) = answered
    endpoint ← connect_peer d id p'.endpoint addr
    let (e, watching) = endpoint
    ok (put_cell ts d id (record p' { endpoint = e }), outputs ++ watching)

  -- After an error of the tunnel the loop goes on with the next datagram.
  abbrev pub finish_datagram :
      Device ts
      → ℕ
      → Peer ts
      → SocketAddr
      → (ℕ → Env)
      → TunnResult
      → Result (Device ts × List Output)
  finish_datagram d id p addr envs (failed e) = ok (put_cell ts d id p, [])
  finish_datagram d id p addr envs r = finish_answered d id p addr envs r

  abbrev pub for_peer :
      Device ts
      → Packet
      → SocketAddr
      → Env
      → (ℕ → Env)
      → Option ℕ
      → Result (Device ts × List Output)
  for_peer d packet addr env envs none = ok (d, [])
  for_peer d packet addr env envs (some id) = do
    p ← cell_of d id
    let (t, r) = handle_verified_packet c p.tunnel packet max_udp_size env
    finish_datagram d id (record p { tunnel = t }) addr envs r

  abbrev pub for_verified :
      Device ts
      → Bytes × Bytes
      → SocketAddr
      → Env
      → (ℕ → Env)
      → Verified
      → Result (Device ts × List Output)
  for_verified d key_pair addr env envs (RateLimiter.packet packet) = do
    peer ← find_peer c ts d key_pair packet
    for_peer d packet addr env envs peer
  for_verified d key_pair addr env envs (RateLimiter.write_to_network cookie) =
      ok (d, send_to addr cookie ∷ [])
  for_verified d key_pair addr env envs (RateLimiter.refused e) = ok (d, [])
  for_verified d key_pair addr env envs RateLimiter.panicked = panic

  -- A datagram on a listening socket
  unfoldable pub udp_handler :
      Device ts → Bytes → SocketAddr → Env → (ℕ → Env) → Result (Device ts × List Output)
  udp_handler d packet addr env envs = do
    key_pair ← unwrap d.key_pair
    rate_limiter ← unwrap d.rate_limiter
    let (limiter, verified) =
        verify_packet c rate_limiter (some addr.ip) packet max_udp_size env.limiter_now
    for_verified (record d { rate_limiter = some limiter }) key_pair addr env envs verified

  -- A datagram on the socket that is connected to a peer
  unfoldable pub conn_handler :
      Device ts → ℕ → ℕ → IpAddr → Bytes → Env → (ℕ → Env) → Result (Device ts × List Output)
  conn_handler d id conn peer_addr datagram env envs = do
    p ← cell_of d id
    let (t, r) = decapsulate c p.tunnel (some peer_addr) datagram max_udp_size env
    answered ← answer c ts (record p { tunnel = t }) (send conn) r envs
    let (p', outputs) = answered
    ok (put_cell ts d id p', outputs)
