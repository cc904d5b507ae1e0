-- ===== src/Device/Tests/Busy.antt =====
-- A run of the device of boringtun/src/device/mod.rs with its sockets open.
use boringtun.Prelude.{
  ◌≡◌, refl, arith, true, false, List, [], ◌∷◌, none, some, Result, ok, err, panic,
}
use boringtun.Bytes.{Bytes, from_be_bytes, from_le_bytes}
use boringtun.Crypto.Toy.{toy}
use boringtun.Packet.{dst_address}
use boringtun.Tunnel.State.{Tunn, Env}
use boringtun.Tunnel.State as TunnelState
use boringtun.Tunnel.Packets.{encapsulate}
use boringtun.Tunnel.Packets
use boringtun.Tunnel.Update
use boringtun.Tunnel.Timers
use boringtun.Handshake.Send
use boringtun.Handshake.State as HandshakeState
use boringtun.Device.Maps.{nat_key, bytes_key}
use boringtun.Device.Lfsr.{next, shifted, value_of}
use boringtun.Device.AllowedIps.{AllowedIp, insert_all, from_iter, insert, find}
use boringtun.Device.AllowedIps
use boringtun.Device.AllowedIps.Toy.{toy_tables, toy_tables-IsTables, longest}
use boringtun.Device.Peer.{
  Peer, SocketAddr, Endpoint, Sockets, set_endpoint, shutdown_endpoint, is_allowed_ip,
}
use boringtun.Device.Peer
use boringtun.Device.State.{Device, new, set_key, rekey_cells, update_peer}
use boringtun.Device.State.Consistent.{IsConsistent}
use boringtun.Device.State.Listening.{open_listen_socket, shut_cells, set_fwmark}
use boringtun.Device.State.Commands.{updating, setting_key}
use boringtun.Device.Events.{
  Event, commanded, listening, iface_ready, timers_fired, marking, run, run-IsConsistent,
}
use boringtun.Device.Handlers.Outgoing.{iface_handler, timer_handler, timers_of}
use boringtun.Device.Handlers.{Output}
use boringtun.Device.Tests.{
  draws, register, sockets, listeners, fresh, addr, network, key, start, env, begun,
}

-- An IPv4 packet to 10.1.2.3
abbrev outgoing : Bytes
outgoing = 69 ∷ 0 ∷ 0 ∷ 20 ∷ 0 ∷ 0 ∷ 0 ∷ 0 ∷ 64 ∷ 17 ∷ 0 ∷ 0 ∷ 10 ∷ 9 ∷ 9 ∷ 9 ∷ 10 ∷ 1 ∷ 2 ∷ 3 ∷ []

-- The device opens its sockets, gets a key and a peer, sends a packet of the interface to it and looks
-- at the timers.
abbrev busy_events : List Event
busy_events =
    listening 0
    ∷ commanded (setting_key (1 ∷ []) fresh)
    ∷ commanded (updating key false (some addr) (network ∷ []) none none fresh)
    ∷ iface_ready outgoing env
    ∷ timers_fired (λ id. env)
    ∷ marking 3
    ∷ []

abbrev result_of : Result (Device toy_tables × List Output) → Device toy_tables × List Output
result_of (ok o) = o
result_of (err e) = (start, [])
result_of panic = (start, [])

abbrev busy : Device toy_tables × List Output
busy = result_of (run toy toy_tables sockets listeners start busy_events)

busy_made : run toy toy_tables sockets listeners start busy_events ≡ ok (busy.0, busy.1)
unfolding run set_key rekey_cells update_peer next shifted value_of Peer.new from_iter insert_all
    insert AllowedIps.new new open_listen_socket shut_cells iface_handler timer_handler timers_of
    set_fwmark dst_address find longest from_be_bytes from_le_bytes encapsulate TunnelState.new
    Packets.format_handshake_initiation TunnelState.queue_packet HandshakeState.new
    Send.format_handshake_initiation Update.update_timers Update.update_session_timers
    Update.expire_sessions Update.start_update Timers.tick Timers.note Timers.new Update.checked_sub
    Update.update_live Update.clear_old_cookie Update.and_since Update.expire
    Send.append_mac1_and_mac2 HandshakeState.inc_index Update.update_handshake Update.act
    Send.write_initiation
busy_made = refl

run-IsConsistent_example : IsConsistent toy_tables busy.0
run-IsConsistent_example =
    run-IsConsistent toy toy_tables sockets listeners toy_tables-IsTables draws register begun true
      1420 busy_events busy.0 busy.1 (tt, (tt, ((omega arith, tt), (tt, (tt, (tt, tt)))))) busy_made
