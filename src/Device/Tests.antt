-- ===== src/Device/Tests.antt =====
-- Runs of the device of boringtun/src/device.
mod Busy
use boringtun.Prelude.{
  ℕ, ◌+◌, ◌*◌, ◌≡◌, ◌≢◌, ◌↔◌, refl, arith, true, false, List, [], ◌∷◌, none, some, Result, ok, err,
  panic, All, replicate,
}
use boringtun.Bytes.{Bytes, bytes_eq, from_be_bytes, from_le_bytes}
use boringtun.Crypto.Toy.{toy, fit}
use boringtun.Packet.{v4, dst_address, Packet, packet_data}
use boringtun.Tunnel.State.{Tunn, Env}
use boringtun.Tunnel.State as TunnelState
use boringtun.Tunnel.Packets.{encapsulate}
use boringtun.Tunnel.Packets
use boringtun.Tunnel.Update
use boringtun.Tunnel.Timers
use boringtun.Handshake.Send
use boringtun.Handshake.State as HandshakeState
use boringtun.Device.Maps.{lookup, nat_key, bytes_key}
use boringtun.Device.Lfsr.{
  IndexLfsr, default, next, next_n, shifted, value_of, random_index, default_of,
}
use boringtun.Device.Lfsr.Distinct.{IsDistinct, IsIndex, indices-IsDistinct}
use boringtun.Device.AllowedIps.{AllowedIp, insert_all, from_iter, insert, find}
use boringtun.Device.AllowedIps
use boringtun.Device.AllowedIps.Toy.{toy_tables, toy_tables-IsTables, longest}
use boringtun.Device.Peer.{
  Peer, SocketAddr, Endpoint, Sockets, set_endpoint, shutdown_endpoint, is_allowed_ip,
}
use boringtun.Device.Peer
use boringtun.Device.Peer.Endpoints.{HasAddr, set_endpoint_lem}
use boringtun.Device.Peer.Routes.{IsCovered, allowed-IsCovered}
use boringtun.Device.State.{Device, Fresh, new, set_key, rekey_cells, update_peer, remove_peer}
use boringtun.Device.State.Consistent.{IsConsistent, IsPurged}
use boringtun.Device.State.Listening.{Listeners, open_listen_socket, shut_cells, set_fwmark}
use boringtun.Device.State.Listening.Unconnected.{
  LeavesUnconnected, open_listen_socket-LeavesUnconnected,
}
use boringtun.Device.State.Removal.{remove_peer-purges}
use boringtun.Device.State.Commands.{updating, setting_key}
use boringtun.Device.Events.{
  Event, commanded, limiter_fired, listening, iface_ready, timers_fired, marking, run,
  run-IsConsistent,
}
use boringtun.Device.Handlers.Outgoing.{reset_handler, iface_handler, timer_handler, timers_of}
use boringtun.Device.Handlers.{Output}
use boringtun.Device.Handlers.{find_peer, flush_queue, out_of_fuel}
use boringtun.Device.Handlers.Dispatch.{IsPeer, find_peer_iff}
use boringtun.Device.Handlers.Flush.{flush_queue_ends}

abbrev pub draws : List ℕ
draws = 0 ∷ 5 ∷ 9 ∷ []

abbrev pub register : IndexLfsr
register = record { initial = 5; lfsr = 5; mask = 9 }

pub begun : default draws ≡ some register
unfolding default random_index default_of
begun = refl

-- Two numbers of the register
abbrev given : List ℕ
given = 14155784 ∷ 13 ∷ []

abbrev pub sockets : Sockets
sockets = record {
  new_socket = λ v. some 7;
  set_reuse_address = λ s. true;
  bind = λ s a. true;
  connect = λ s a. true;
  set_nonblocking = λ s. true;
  set_mark = λ s m. true;
  try_clone = λ s. some 8;
  shutdown = λ s. true;
}

abbrev pub listeners : Listeners
listeners = record {
  new_dgram = λ v. some 3;
  local_port = λ s. some 40000;
  register_udp_handler = λ s. true;
}

abbrev pub fresh : Fresh
fresh = record { nonce_key = []; secret_key = []; system_now = 1000; now = 0 }

abbrev pub addr : SocketAddr
addr = record { ip = v4 (192 ∷ 0 ∷ 2 ∷ 1 ∷ []); port = 51820; flowinfo = 0; scope_id = 0 }

abbrev pub network : AllowedIp
network = record { addr = v4 (10 ∷ 0 ∷ 0 ∷ 0 ∷ []); cidr = 8 }

abbrev pub key : Bytes
key = toy.public_key (2 ∷ [])

abbrev events : List Event
events =
    commanded (setting_key (1 ∷ []) fresh)
    ∷ commanded (updating key false (some addr) (network ∷ []) none none fresh)
    ∷ limiter_fired 2000000000
    ∷ []

abbrev pub start : Device toy_tables
start = new toy_tables register true 1420

abbrev or_start : Result (Device toy_tables × List Output) → Device toy_tables
or_start (ok o) = o.0
or_start (err e) = start
or_start panic = start

-- The device with one peer
abbrev device : Device toy_tables
device = or_start (run toy toy_tables sockets listeners start events)

made : run toy toy_tables sockets listeners start events ≡ ok (device, [])
unfolding run set_key rekey_cells update_peer next shifted value_of Peer.new from_iter insert_all
    insert AllowedIps.new new
made = refl

device-IsConsistent : IsConsistent toy_tables device
device-IsConsistent =
    run-IsConsistent toy toy_tables sockets listeners toy_tables-IsTables draws register begun true
      1420 events device [] (tt, ((omega arith, tt), (tt, tt))) made

abbrev pub env : Env
env = record {
  now = 5;
  limiter_now = 5;
  elapsed_now = 6;
  clear_now = 6;
  stamp_now = 6;
  sent_now = 7;
  ephemeral = 9 ∷ [];
}

ran : next_n 2 register ≡ ok (record { initial = 5; lfsr = shifted (shifted 5); mask = 9 }, given)
unfolding next_n next shifted value_of
ran = refl

indices-IsDistinct_example : IsDistinct given × All IsIndex given
indices-IsDistinct_example = indices-IsDistinct draws 2 begun ran

abbrev endpoint : Endpoint
endpoint = record { addr = none; conn = some 8 }

set_endpoint_lem_example : HasAddr endpoint addr (set_endpoint sockets endpoint addr)
set_endpoint_lem_example = set_endpoint_lem sockets endpoint addr

known_key : lookup device.peers key ≡ some 0
unfolding run set_key rekey_cells update_peer next shifted value_of Peer.new from_iter insert_all
    insert AllowedIps.new new bytes_eq fit reset_handler
known_key = refl

abbrev or_device : Result (Device toy_tables) → Device toy_tables
or_device (ok d) = d
or_device (err e) = start
or_device panic = start

abbrev removed : Device toy_tables
removed = or_device (remove_peer toy_tables sockets device key)

removed_ok : remove_peer toy_tables sockets device key ≡ ok removed
unfolding run set_key rekey_cells update_peer next shifted value_of Peer.new from_iter insert_all
    insert AllowedIps.new new bytes_eq fit reset_handler remove_peer shutdown_endpoint
removed_ok = refl

remove_peer-purges_example : IsPurged toy_tables removed 0
remove_peer-purges_example =
    remove_peer-purges toy_tables toy_tables-IsTables sockets device removed key 0
      device-IsConsistent known_key removed_ok

-- A packet for the session 5 of the peer, whose index is 13
abbrev packet : Packet
packet = packet_data (record {
  receiver_idx = 13 * 256 + 5;
  counter = 0;
  encrypted_encapsulated_packet = replicate 16 0;
})

find_peer_iff_example :
    (find_peer toy toy_tables device ([], []) packet ≡ ok (some 0)) ↔ IsPeer device 0 13
find_peer_iff_example =
    find_peer_iff toy toy_tables device ([], []) packet (13 * 256 + 5) 0 device-IsConsistent refl

abbrev tunnel : Tunn
tunnel = TunnelState.new toy (1 ∷ []) key none none 13 none [] [] 1000 0

abbrev queued : Tunn
queued = record tunnel { packet_queue = (1 ∷ []) ∷ (2 ∷ []) ∷ [] }

flush_queue_ends_example : (flush_queue toy queued (λ n. env)).2 ≢ out_of_fuel
flush_queue_ends_example = flush_queue_ends toy queued (λ n. env)

abbrev peer : Peer toy_tables
peer = record {
  tunnel = tunnel;
  index = 13;
  endpoint = record { addr = some addr; conn = none };
  allowed_ips = record { ips = ((v4 (10 ∷ 0 ∷ 0 ∷ 0 ∷ []), 8), tt) ∷ [] };
  preshared_key = none;
}

peer_made : Peer.new toy_tables tunnel 13 (some addr) (network ∷ []) none ≡ ok peer
unfolding Peer.new from_iter insert_all insert AllowedIps.new
peer_made = refl

allowed : is_allowed_ip toy_tables peer (v4 (10 ∷ 1 ∷ 2 ∷ 3 ∷ [])) ≡ true
unfolding is_allowed_ip find longest from_be_bytes from_le_bytes
allowed = refl

allowed-IsCovered_example :
    IsCovered toy_tables toy_tables-IsTables (network ∷ []) (v4 (10 ∷ 1 ∷ 2 ∷ 3 ∷ []))
allowed-IsCovered_example =
    allowed-IsCovered toy_tables toy_tables-IsTables tunnel 13 (some addr) (network ∷ []) none peer
      (v4 (10 ∷ 1 ∷ 2 ∷ 3 ∷ [])) (omega arith, tt) peer_made allowed

-- The device whose peer has a connected socket
abbrev connected : Device toy_tables
connected = record start {
  peers = (key, 0) ∷ [];
  peers_by_idx = (13, 0) ∷ [];
  cells = record peer { endpoint = record { addr = some addr; conn = some 8 } } ∷ [];
}

connected_key : lookup connected.peers key ≡ some 0
unfolding bytes_eq fit
connected_key = refl

open_listen_socket-LeavesUnconnected_example :
    LeavesUnconnected 0 (open_listen_socket toy_tables sockets listeners connected 0)
open_listen_socket-LeavesUnconnected_example =
    open_listen_socket-LeavesUnconnected toy_tables sockets listeners connected 0 0 key
      connected_key
