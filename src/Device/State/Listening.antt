-- ===== src/Device/State/Listening.antt =====
-- `open_listen_socket` and `set_fwmark` of boringtun/src/device/mod.rs.
pub mod Unconnected
use boringtun.Prelude.{
  ℕ, Bool, true, false, ◌&&◌, List, [], ◌∷◌, Option, none, some, Result, ok, err, panic, ◌>>=◌,
  get_elem?, set, ◌==◌, if◌then◌else◌,
}
use boringtun.Bytes.{Bytes}
use boringtun.Packet.{IpAddr, v4, v6}
use boringtun.Device.AllowedIps.{IpTables}
use boringtun.Device.Peer.{Peer, SocketAddr, Sockets, shutdown_endpoint, unspecified}
use boringtun.Device.State.{Device}

-- The calls of `socket2` and of the event queue that only listening sockets need: a socket of a
-- family, the port that it got, and whether its handler is registered
pub record Listeners : Type 0 where
  pub new_dgram : Bool → Option ℕ
  pub local_port : ℕ → Option ℕ
  pub register_udp_handler : ℕ → Bool

-- The device, with the error `Error::IoError` or without it, or a panic
pub data Opened (ts : IpTables) : Type 0 where
  opened : Device ts → Opened ts
  not_opened : Device ts → Opened ts
  open_panicked : Opened ts

module _ (ts : IpTables) (sockets : Sockets) where
  abbrev pub shut_cell : List (Peer ts) → ℕ → Option (Peer ts) → Result (List (Peer ts))
  shut_cell cells id none = ok cells
  shut_cell cells id (some p) = do
    e ← shutdown_endpoint sockets p.endpoint
    ok (set cells id (record p { endpoint = e }))

  -- The loop over the peers
  unfoldable pub shut_cells : List (Bytes × ℕ) → List (Peer ts) → Result (List (Peer ts))
  shut_cells [] cells = ok cells
  shut_cells ((key, id) ∷ rest) cells = do
    cells' ← shut_cell cells id (get_elem? cells id)
    shut_cells rest cells'

  -- The mark of a socket, if there is one: true unless the socket refuses it
  abbrev pub mark_sock : ℕ → Option ℕ → Bool
  mark_sock mark none = true
  mark_sock mark (some sock) = sockets.set_mark sock mark

  abbrev pub mark_cell : ℕ → Option (Peer ts) → Bool
  mark_cell mark none = true
  mark_cell mark (some p) = mark_sock mark p.endpoint.conn

  -- The loop over the peers
  abbrev pub mark_peers : ℕ → List (Bytes × ℕ) → List (Peer ts) → Bool
  mark_peers mark [] cells = true
  mark_peers mark ((key, id) ∷ rest) cells =
      mark_cell mark (get_elem? cells id) && mark_peers mark rest cells

  -- The mark is kept, also when a socket refuses it. The result is false for an error.
  unfoldable pub set_fwmark : Device ts → ℕ → Device ts × Bool
  set_fwmark d mark = (
    record d { fwmark = some mark },
    mark_sock mark d.udp4 && (mark_sock mark d.udp6 && mark_peers mark d.peers d.cells),
  )

  module _ (listeners : Listeners) where
    -- A socket of a family that is bound to a port
    abbrev pub set_up_dgram : SocketAddr → Option ℕ → Option ℕ
    set_up_dgram addr none = none
    set_up_dgram addr (some sock) =
        if sockets.set_reuse_address sock
          && (sockets.bind sock addr && sockets.set_nonblocking sock)
        then some sock
        else none

    -- A random port is asked for as port 0.
    abbrev pub port_of : ℕ → ℕ → Option ℕ
    port_of port udp_sock4 = if port == 0 then listeners.local_port udp_sock4 else some port

    abbrev pub registered : Device ts → ℕ → Option ℕ → Opened ts → Opened ts
    registered d sock none next = open_panicked
    registered d sock (some clone) next =
        if listeners.register_udp_handler clone then next else not_opened d

    abbrev pub open_6 : Device ts → ℕ → ℕ → Option ℕ → Opened ts
    open_6 d udp_sock4 port none = not_opened d
    open_6 d udp_sock4 port (some udp_sock6) =
        registered d udp_sock4 (sockets.try_clone udp_sock4) (
          registered d udp_sock6 (sockets.try_clone udp_sock6) (
            opened (record d { udp4 = some udp_sock4; udp6 = some udp_sock6; listen_port = port })))

    abbrev pub open_with_port : Device ts → ℕ → Option ℕ → Opened ts
    open_with_port d udp_sock4 none = not_opened d
    open_with_port d udp_sock4 (some port) =
        open_6 d udp_sock4 port
          (set_up_dgram (unspecified sockets (v6 []) port) (listeners.new_dgram false))

    abbrev pub open_4 : Device ts → ℕ → Option ℕ → Opened ts
    open_4 d port none = not_opened d
    open_4 d port (some udp_sock4) = open_with_port d udp_sock4 (port_of port udp_sock4)

    abbrev pub open_after : Device ts → ℕ → Result (List (Peer ts)) → Opened ts
    open_after d port (ok cells) =
        open_4 (record d { cells = cells }) port
          (set_up_dgram (unspecified sockets (v4 []) port) (listeners.new_dgram true))
    open_after d port (err e) = open_panicked
    open_after d port panic = open_panicked

    -- The old sockets are closed first.
    unfoldable pub open_listen_socket : Device ts → ℕ → Opened ts
    open_listen_socket d port =
        open_after (record d { udp4 = none; udp6 = none }) port (shut_cells d.peers d.cells)
