-- ===== src/Device/Handlers/Tests.antt =====
-- Runs of the handlers of boringtun/src/device/mod.rs.
use boringtun.Prelude.{
  ◌≡◌, refl, true, List, [], ◌∷◌, ◌++◌, none, some, Result, ok, err, panic, All, replicate,
}
use boringtun.Bytes.{Bytes, from_le_bytes, from_be_bytes, bytes_eq}
use boringtun.Replay.{will_accept, mark_did_receive}
use boringtun.Replay
use boringtun.Crypto.Toy.{toy, cut_tag}
use boringtun.Packet.{v4, parse_incoming_packet}
use boringtun.RateLimiter
use boringtun.Session
use boringtun.Tunnel.State.{Tunn, Env}
use boringtun.Tunnel.State as TunnelState
use boringtun.Tunnel.Packets.{
  decapsulate, handle_verified_packet, handle_data, validate_decapsulated_packet, validated,
}
use boringtun.Device.AllowedIps.Toy.{toy_tables, longest}
use boringtun.Device.AllowedIps.{find}
use boringtun.Device.Peer.{Peer, SocketAddr, Sockets, is_allowed_ip, set_endpoint}
use boringtun.Device.State.{Device}
use boringtun.Device.Handlers.{
  Output, write4, answer, connect_peer, find_peer, conn_handler, udp_handler, max_udp_size,
}
use boringtun.Device.Handlers.Allowed.{IsPermitted, conn_handler_writes}
use boringtun.Device.Handlers.Allowed.Udp.{IsFromPeer, udp_handler_writes}

abbrev sockets : Sockets
sockets = record {
  new_socket = λ v. some 7;
  set_reuse_address = λ s. true;
  bind = λ s a. true;
  connect = λ s a. true;
  set_nonblocking = λ s. true;
  set_mark = λ s m. true;
  try_clone = λ s. some 8;
  shutdown = λ s. true;
}

abbrev addr : SocketAddr
addr = record { ip = v4 (192 ∷ 0 ∷ 2 ∷ 1 ∷ []); port = 51820; flowinfo = 0; scope_id = 0 }

-- A tunnel with a session of the local index 0
abbrev tunnel : Tunn
tunnel =
    record (TunnelState.new toy (1 ∷ []) (toy.public_key (2 ∷ [])) none none 0 none [] [] 1000 0) {
      sessions = some (Session.new 0 2 (1 ∷ []) (1 ∷ [])) ∷ replicate 7 none;
    }

abbrev peer : Peer toy_tables
peer = record {
  tunnel = tunnel;
  index = 0;
  endpoint = record { addr = some addr; conn = some 8 };
  allowed_ips = record { ips = ((v4 (10 ∷ 0 ∷ 0 ∷ 0 ∷ []), 8), tt) ∷ [] };
  preshared_key = none;
}

abbrev device : Device toy_tables
device = record {
  key_pair = some (1 ∷ [], toy.public_key (1 ∷ []));
  listen_port = 51820;
  fwmark = none;
  udp4 = some 3;
  udp6 = some 4;
  peers = (toy.public_key (2 ∷ []), 0) ∷ [];
  peers_by_ip = record { ips = ((v4 (10 ∷ 0 ∷ 0 ∷ 0 ∷ []), 8), 0) ∷ [] };
  peers_by_idx = (0, 0) ∷ [];
  next_index = record { initial = 5; lfsr = 5; mask = 9 };
  use_connected_socket = true;
  mtu = 1420;
  rate_limiter = some (RateLimiter.new toy (toy.public_key (1 ∷ [])) 100 [] [] 0);
  cells = peer ∷ [];
}

abbrev env : Env
env = record {
  now = 5;
  limiter_now = 5;
  elapsed_now = 6;
  clear_now = 6;
  stamp_now = 6;
  sent_now = 7;
  ephemeral = 9 ∷ [];
}

-- An IPv4 packet from 10.1.2.3, and the datagram that it comes in
abbrev inner : Bytes
inner = 69 ∷ 0 ∷ 0 ∷ 20 ∷ 0 ∷ 0 ∷ 0 ∷ 0 ∷ 64 ∷ 17 ∷ 0 ∷ 0 ∷ 10 ∷ 1 ∷ 2 ∷ 3 ∷ 10 ∷ 9 ∷ 9 ∷ 9 ∷ []

abbrev datagram : Bytes
datagram = 4 ∷ (replicate 15 0 ++ (inner ++ (1 ∷ replicate 15 0)))

abbrev or_device : Result (Device toy_tables × List Output) → Device toy_tables × List Output
or_device (ok r) = r
or_device (err e) = (device, [])
or_device panic = (device, [])

abbrev conn_result : Device toy_tables × List Output
conn_result =
    or_device (conn_handler toy toy_tables sockets device 0 8 addr.ip datagram env (λ n. env))

conn_ok :
    conn_handler toy toy_tables sockets device 0 8 addr.ip datagram env (λ n. env)
    ≡ ok (conn_result.0, write4 inner ∷ [])
unfolding conn_handler answer decapsulate RateLimiter.verify_packet RateLimiter.verify_parsed
    parse_incoming_packet from_le_bytes RateLimiter.verify_limited handle_verified_packet
    handle_data Session.receive_packet_data Session.new Session.receive_checked
    Session.receiving_counter_quick_check will_accept Replay.new mark_did_receive
    Session.receive_opened cut_tag Session.receiving_counter_mark validate_decapsulated_packet
    validated from_be_bytes is_allowed_ip find longest
conn_ok = refl

conn_handler_writes_example :
    All
      (IsPermitted peer (decapsulate toy tunnel (some addr.ip) datagram max_udp_size env).1)
      (write4 inner ∷ [])
conn_handler_writes_example =
    conn_handler_writes toy toy_tables sockets device conn_result.0 0 8 addr.ip datagram env
      (λ n. env) peer (write4 inner ∷ []) refl conn_ok

abbrev udp_result : Device toy_tables × List Output
udp_result = or_device (udp_handler toy toy_tables sockets device datagram addr env (λ n. env))

udp_ok :
    udp_handler toy toy_tables sockets device datagram addr env (λ n. env)
    ≡ ok (udp_result.0, write4 inner ∷ [])
unfolding udp_handler find_peer answer decapsulate RateLimiter.verify_packet
    RateLimiter.verify_parsed parse_incoming_packet from_le_bytes RateLimiter.verify_limited
    handle_verified_packet handle_data Session.receive_packet_data Session.new
    Session.receive_checked Session.receiving_counter_quick_check will_accept Replay.new
    mark_did_receive Session.receive_opened cut_tag Session.receiving_counter_mark
    validate_decapsulated_packet validated from_be_bytes is_allowed_ip find longest connect_peer
    set_endpoint bytes_eq
udp_ok = refl

udp_handler_writes_example :
    All (IsFromPeer toy toy_tables sockets device datagram addr env) (write4 inner ∷ [])
udp_handler_writes_example =
    udp_handler_writes toy toy_tables sockets device udp_result.0 datagram addr env (λ n. env)
      (write4 inner ∷ []) udp_ok
