-- ===== src/Device/Handlers/Outgoing.antt =====
-- The handlers of boringtun/src/device/mod.rs for a packet that the interface gives and for the
-- timers.
use boringtun.Prelude.{
  ℕ, List, [], ◌∷◌, ◌++◌, Option, none, some, Result, ok, panic, ◌>>=◌, connection_expired,
}
use boringtun.Bytes.{Bytes}
use boringtun.Crypto.{Crypto}
use boringtun.Packet.{IpAddr, dst_address}
use boringtun.RateLimiter.{RateLimiter, reset_count}
use boringtun.Tunnel.State.{
  Env, TunnResult, done, failed, write_to_network, write_to_tunnel_v4, write_to_tunnel_v6, panicked,
}
use boringtun.Tunnel.Packets.{encapsulate}
use boringtun.Tunnel.Update.{update_timers}
use boringtun.Device.Maps.{nat_key, bytes_key}
use boringtun.Device.AllowedIps.{IpTables, find}
use boringtun.Device.Peer.{Peer, SocketAddr, Endpoint, Sockets, shutdown_endpoint}
use boringtun.Device.State.{Device, put_cell}
use boringtun.Device.Handlers.{Output, send, send_to, max_udp_size, cell_of, unwrap}

module _ (c : Crypto) (ts : IpTables) (sockets : Sockets) where
  -- A connected socket is preferred. Without an endpoint nothing is sent.
  abbrev pub to_endpoint : Endpoint → Bytes → List Output
  to_endpoint e packet = by_conn e.conn e.addr
    where
      by_conn : Option ℕ → Option SocketAddr → List Output
      by_conn (some conn) addr = send conn packet ∷ []
      by_conn none (some addr) = send_to addr packet ∷ []
      by_conn none none = []

  abbrev pub sent_or_not : Endpoint → TunnResult → Result (List Output)
  sent_or_not e done = ok []
  sent_or_not e (failed error) = ok []
  sent_or_not e (write_to_network packet) = ok (to_endpoint e packet)
  sent_or_not e (write_to_tunnel_v4 packet addr) = panic
  sent_or_not e (write_to_tunnel_v6 packet addr) = panic
  sent_or_not e panicked = panic

  abbrev pub routed_to : Device ts → Bytes → Env → Option ℕ → Result (Device ts × List Output)
  routed_to d src env none = ok (d, [])
  routed_to d src env (some id) = do
    p ← cell_of d id
    let (t, r) = encapsulate c p.tunnel src max_udp_size env
    outputs ← sent_or_not p.endpoint r
    ok (put_cell ts d id (record p { tunnel = t }), outputs)

  abbrev pub routed_by : Device ts → Bytes → Env → Option IpAddr → Result (Device ts × List Output)
  routed_by d src env none = ok (d, [])
  routed_by d src env (some dst_addr) = routed_to d src env (find ts d.peers_by_ip dst_addr)

  -- A packet that the interface gives, once both sockets are open
  unfoldable pub iface_handler : Device ts → Bytes → Env → Result (Device ts × List Output)
  iface_handler d src env = do
    udp4 ← unwrap d.udp4
    udp6 ← unwrap d.udp6
    routed_by d src env (dst_address src)

  -- The timers of one peer: a session that expired closes the connection.
  abbrev pub timed : Peer ts → SocketAddr → TunnResult → Result (Peer ts × List Output)
  timed p addr done = ok (p, [])
  timed p addr (failed connection_expired) = do
    e ← shutdown_endpoint sockets p.endpoint
    ok (record p { endpoint = e }, [])
  timed p addr (failed e) = ok (p, [])
  timed p addr (write_to_network packet) = ok (p, send_to addr packet ∷ [])
  timed p addr (write_to_tunnel_v4 packet src) = panic
  timed p addr (write_to_tunnel_v6 packet src) = panic
  timed p addr panicked = panic

  abbrev pub timer_of : Peer ts → Option SocketAddr → Env → Result (Peer ts × List Output)
  timer_of p none env = ok (p, [])
  timer_of p (some addr) env =
      let (t, r) = update_timers c p.tunnel max_udp_size env in
      timed (record p { tunnel = t }) addr r

  -- The loop over the peers
  unfoldable pub timers_of :
      Device ts → List (Bytes × ℕ) → (ℕ → Env) → Result (Device ts × List Output)
  timers_of d [] envs = ok (d, [])
  timers_of d ((key, id) ∷ rest) envs = do
    p ← cell_of d id
    one ← timer_of p p.endpoint.addr (envs id)
    let (p', outputs) = one
    others ← timers_of (put_cell ts d id p') rest envs
    let (d', more) = others
    ok (d', outputs ++ more)

  abbrev pub timers_unless :
      Device ts → (ℕ → Env) → Option ℕ → Option ℕ → Result (Device ts × List Output)
  timers_unless d envs (some udp4) (some udp6) = timers_of d d.peers envs
  timers_unless d envs (some udp4) none = ok (d, [])
  timers_unless d envs none udp6 = ok (d, [])

  -- The other timer
  unfoldable pub reset_handler : Device ts → ℕ → Device ts
  reset_handler d now = record d { rate_limiter = reset_limiter d.rate_limiter }
    where
      reset_limiter : Option RateLimiter → Option RateLimiter
      reset_limiter none = none
      reset_limiter (some rl) = some (reset_count rl now)

  unfoldable pub timer_handler : Device ts → (ℕ → Env) → Result (Device ts × List Output)
  timer_handler d envs = timers_unless d envs d.udp4 d.udp6
