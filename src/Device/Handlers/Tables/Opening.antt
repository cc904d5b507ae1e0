-- ===== src/Device/Handlers/Tables/Opening.antt =====
-- `open_listen_socket` and `set_fwmark` of boringtun/src/device/mod.rs leave the tables of the device
-- alone.
use boringtun.Prelude.{
  ℕ, refl, List, [], ◌∷◌, Option, none, some, Result, ok, err, panic, OnOk, on_ok, on_panic,
  OnOk-bind, OnOk-map, Option-cases, Bool-cases, inl, inr, get_elem?,
}
use boringtun.Bytes.{Bytes}
use boringtun.Device.AllowedIps.{IpTables}
use boringtun.Device.Peer.{Peer, Endpoint, Sockets, shut, shutdown_endpoint}
use boringtun.Device.State.{Device}
use boringtun.Device.State.Consistent.{KeepsIndices, KeepsIndices-trans, set-KeepsIndices}
use boringtun.Device.State.Listening.{
  Listeners, Opened, opened, not_opened, open_panicked, shut_cell, shut_cells, registered, open_6,
  open_with_port, open_4, open_after, open_listen_socket, set_fwmark,
}
use boringtun.Device.Handlers.Tables.{KeepsTables}

-- With or without an error, the device has the tables of another.
abbrev pub KeepsOpened : {ts : IpTables} → Device ts → Opened ts → Type 0
KeepsOpened d (opened d') = KeepsTables d d'
KeepsOpened d (not_opened d') = KeepsTables d d'
KeepsOpened d open_panicked = Unit

module _ (ts : IpTables) (sockets : Sockets) where
  pub shut-runs : (conn : Option ℕ) → OnOk (λ (_ : Unit {0}). Unit {0}) (shut sockets conn)
  shut-runs none = on_ok tt
  shut-runs (some conn) = elim (Bool-cases (sockets.shutdown conn)) [
    | inl e ↦ rw e (on_ok tt)
    | inr e ↦ rw e on_panic
  ]

  shutdown-runs : (e : Endpoint) → OnOk (λ (_ : Endpoint). Unit {0}) (shutdown_endpoint sockets e)
  unfolding shutdown_endpoint
  shutdown-runs e = OnOk-bind (shut sockets e.conn) _ (shut-runs e.conn) (λ u _. on_ok tt)

  shut_cell-Keeps :
      (cells : List (Peer ts)) (id : ℕ)
      → OnOk (KeepsIndices cells) (shut_cell ts sockets cells id (get_elem? cells id))
  shut_cell-Keeps cells id = elim (Option-cases (get_elem? cells id)) [
    | inl absent ↦ rw absent (on_ok (λ i q here. (q, here, refl)))
    | inr (p, here) ↦ rw here (
        OnOk-bind (shutdown_endpoint sockets p.endpoint) _ (shutdown-runs p.endpoint)
          (λ e _. on_ok (set-KeepsIndices cells id p (record p { endpoint = e }) here refl)))
  ]

  shut_cells-Keeps :
      (peers : List (Bytes × ℕ)) (cells : List (Peer ts))
      → OnOk (KeepsIndices cells) (shut_cells ts sockets peers cells)
  unfolding shut_cells
  shut_cells-Keeps [] cells = on_ok (λ i q here. (q, here, refl))
  shut_cells-Keeps ((key, id) ∷ rest) cells =
      OnOk-bind (shut_cell ts sockets cells id (get_elem? cells id)) _ (shut_cell-Keeps cells id)
        (λ cells' kept.
          OnOk-map (shut_cells ts sockets rest cells') (shut_cells-Keeps rest cells')
            (λ cells'' later. KeepsIndices-trans cells cells' cells'' kept later))

  pub set_fwmark-Keeps : (d : Device ts) (mark : ℕ) → KeepsTables d (set_fwmark ts sockets d mark).0
  unfolding set_fwmark
  set_fwmark-Keeps d mark = record {
    peers = refl;
    by_idx = refl;
    by_ip = refl;
    register = refl;
    indices = λ i q here. (q, here, refl);
  }

  module _ (listeners : Listeners) (d : Device ts) where
    registered-Keeps :
        (d' : Device ts) (sock : ℕ) (clone : Option ℕ) (next : Opened ts)
        → KeepsTables d d'
        → KeepsOpened d next
        → KeepsOpened d (registered ts sockets listeners d' sock clone next)
    registered-Keeps d' sock none next h k = tt
    registered-Keeps d' sock (some clone) next h k =
        elim (Bool-cases (listeners.register_udp_handler clone)) [ inl e ↦ rw e k | inr e ↦ rw e h ]

    open_6-Keeps :
        (d' : Device ts) (udp_sock4 port : ℕ) (udp_sock6 : Option ℕ)
        → KeepsTables d d'
        → KeepsOpened d (open_6 ts sockets listeners d' udp_sock4 port udp_sock6)
    open_6-Keeps d' udp_sock4 port none h = h
    open_6-Keeps d' udp_sock4 port (some udp_sock6) h =
        registered-Keeps d' udp_sock4 (sockets.try_clone udp_sock4) _ h (
          registered-Keeps d' udp_sock6 (sockets.try_clone udp_sock6) _ h (record {
            peers = h.peers;
            by_idx = h.by_idx;
            by_ip = h.by_ip;
            register = h.register;
            indices = h.indices;
          }))

    open_with_port-Keeps :
        (d' : Device ts) (udp_sock4 : ℕ) (port : Option ℕ)
        → KeepsTables d d'
        → KeepsOpened d (open_with_port ts sockets listeners d' udp_sock4 port)
    open_with_port-Keeps d' udp_sock4 none h = h
    open_with_port-Keeps d' udp_sock4 (some port) h = open_6-Keeps d' udp_sock4 port _ h

    open_4-Keeps :
        (d' : Device ts) (port : ℕ) (udp_sock4 : Option ℕ)
        → KeepsTables d d'
        → KeepsOpened d (open_4 ts sockets listeners d' port udp_sock4)
    open_4-Keeps d' port none h = h
    open_4-Keeps d' port (some udp_sock4) h = open_with_port-Keeps d' udp_sock4 _ h

    open_after-Keeps :
        (port : ℕ) (r : Result (List (Peer ts)))
        → OnOk (KeepsIndices d.cells) r
        → KeepsOpened d
            (open_after ts sockets listeners (record d { udp4 = none; udp6 = none }) port r)
    open_after-Keeps port (ok cells) (on_ok kept) =
        open_4-Keeps (record d { udp4 = none; udp6 = none; cells = cells }) port _
          (record { peers = refl; by_idx = refl; by_ip = refl; register = refl; indices = kept })
    open_after-Keeps port (err e) h = tt
    open_after-Keeps port panic h = tt

    pub open_listen_socket-Keeps :
        (port : ℕ) → KeepsOpened d (open_listen_socket ts sockets listeners d port)
    unfolding open_listen_socket
    open_listen_socket-Keeps port = open_after-Keeps port _ (shut_cells-Keeps d.peers d.cells)
