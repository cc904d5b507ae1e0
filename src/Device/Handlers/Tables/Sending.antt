-- ===== src/Device/Handlers/Tables/Sending.antt =====
-- The handlers of the interface and of the timers of boringtun/src/device/mod.rs leave the tables of
-- the device alone.
use boringtun.Prelude.{
  ℕ, ◌≡◌, refl, List, [], ◌∷◌, Option, none, some, Result, ok, err, panic, ◌>>=◌, OnOk, on_ok,
  on_panic, OnOk-bind, Option-cases, inl, inr, get_elem?, ◌>>◌, destination_buffer_too_small,
  incorrect_packet_length, unexpected_packet, wrong_packet_type, wrong_index, wrong_key,
  wrong_tai64n_timestamp, invalid_mac, invalid_aead_tag, invalid_counter, duplicate_counter,
  invalid_packet, no_current_session, lock_failed, connection_expired, under_load,
}
use boringtun.Bytes.{Bytes}
use boringtun.Crypto.{Crypto}
use boringtun.Packet.{IpAddr, dst_address}
use boringtun.Tunnel.State.{
  Env, TunnResult, done, failed, write_to_network, write_to_tunnel_v4, write_to_tunnel_v6, panicked,
}
use boringtun.Tunnel.Packets.{encapsulate}
use boringtun.Tunnel.Update.{update_timers}
use boringtun.Device.AllowedIps.{IpTables, find}
use boringtun.Device.Peer.{Peer, SocketAddr, Endpoint, Sockets, shut, shutdown_endpoint}
use boringtun.Device.State.{Device, put_cell}
use boringtun.Device.Handlers.{Output, unwrap, max_udp_size}
use boringtun.Device.Handlers.Outgoing.{
  sent_or_not, routed_to, routed_by, iface_handler, timed, timer_of, timers_of, timers_unless,
  timer_handler,
}
use boringtun.Device.Handlers.Tables.Opening.{shut-runs}
use boringtun.Device.Handlers.Tables.{
  KeepsTables-refl, KeepsTables-trans, put_cell-KeepsTables, unwrap-runs, Keeps,
}

module _ (c : Crypto) (ts : IpTables) (sockets : Sockets) where
  sent_or_not-runs :
      (e : Endpoint) (r : TunnResult)
      → OnOk (λ (_ : List Output). Unit {0}) (sent_or_not c ts sockets e r)
  sent_or_not-runs e done = on_ok tt
  sent_or_not-runs e (failed x) = on_ok tt
  sent_or_not-runs e (write_to_network packet) = on_ok tt
  sent_or_not-runs e (write_to_tunnel_v4 packet addr) = on_panic
  sent_or_not-runs e (write_to_tunnel_v6 packet addr) = on_panic
  sent_or_not-runs e panicked = on_panic

  routed_to-Keeps :
      (d : Device ts) (src : Bytes) (env : Env) (peer : Option ℕ)
      → OnOk (Keeps c ts d) (routed_to c ts sockets d src env peer)
  routed_to-Keeps d src env none = on_ok (KeepsTables-refl d)
  routed_to-Keeps d src env (some id) = elim (Option-cases (get_elem? d.cells id)) [
    | inl absent ↦ rw absent on_panic
    | inr (p, here) ↦ rw here (
        OnOk-bind
          (sent_or_not c ts sockets p.endpoint (encapsulate c p.tunnel src max_udp_size env).1) _
          (sent_or_not-runs p.endpoint (encapsulate c p.tunnel src max_udp_size env).1)
          (λ outputs _. on_ok (put_cell-KeepsTables d id p _ here refl)))
  ]

  routed_by-Keeps :
      (d : Device ts) (src : Bytes) (env : Env) (dst : Option IpAddr)
      → OnOk (Keeps c ts d) (routed_by c ts sockets d src env dst)
  routed_by-Keeps d src env none = on_ok (KeepsTables-refl d)
  routed_by-Keeps d src env (some addr) = routed_to-Keeps d src env (find ts d.peers_by_ip addr)

  pub iface_handler-Keeps :
      (d : Device ts) (src : Bytes) (env : Env)
      → OnOk (Keeps c ts d) (iface_handler c ts sockets d src env)
  unfolding iface_handler
  iface_handler-Keeps d src env =
      OnOk-bind (unwrap d.udp4) _ (unwrap-runs c ts sockets d.udp4) (λ udp4 _.
        OnOk-bind (unwrap d.udp6) _ (unwrap-runs c ts sockets d.udp6)
          (λ udp6 _. routed_by-Keeps d src env (dst_address src)))

  abbrev HasIndex : ℕ → Peer ts × List Output → Type 0
  HasIndex i o = o.0.index ≡ i

  expired-HasIndex :
      (p : Peer ts) (addr : SocketAddr)
      → OnOk (HasIndex p.index) (timed c ts sockets p addr (failed connection_expired))
  unfolding shutdown_endpoint
  expired-HasIndex p addr =
      by_shut (shut sockets p.endpoint.conn) (shut-runs ts sockets p.endpoint.conn)
    where
      by_shut :
          (r : Result (Unit {0}))
          → OnOk (λ (_ : Unit {0}). Unit {0}) r
          → OnOk (HasIndex p.index) (
              (r >> ok (record (p.endpoint) { conn = none })) >>= λ e.
              ok (record p { endpoint = e }, []))
      by_shut (ok u) h = on_ok refl
      by_shut (err e) h = elim h [ ]
      by_shut panic h = on_panic

  timed-HasIndex :
      (p : Peer ts) (addr : SocketAddr) (r : TunnResult)
      → OnOk (HasIndex p.index) (timed c ts sockets p addr r)
  timed-HasIndex p addr done = on_ok refl
  timed-HasIndex p addr (failed connection_expired) = expired-HasIndex p addr
  timed-HasIndex p addr (failed destination_buffer_too_small) = on_ok refl
  timed-HasIndex p addr (failed incorrect_packet_length) = on_ok refl
  timed-HasIndex p addr (failed unexpected_packet) = on_ok refl
  timed-HasIndex p addr (failed wrong_packet_type) = on_ok refl
  timed-HasIndex p addr (failed wrong_index) = on_ok refl
  timed-HasIndex p addr (failed wrong_key) = on_ok refl
  timed-HasIndex p addr (failed wrong_tai64n_timestamp) = on_ok refl
  timed-HasIndex p addr (failed invalid_mac) = on_ok refl
  timed-HasIndex p addr (failed invalid_aead_tag) = on_ok refl
  timed-HasIndex p addr (failed invalid_counter) = on_ok refl
  timed-HasIndex p addr (failed duplicate_counter) = on_ok refl
  timed-HasIndex p addr (failed invalid_packet) = on_ok refl
  timed-HasIndex p addr (failed no_current_session) = on_ok refl
  timed-HasIndex p addr (failed lock_failed) = on_ok refl
  timed-HasIndex p addr (failed under_load) = on_ok refl
  timed-HasIndex p addr (write_to_network packet) = on_ok refl
  timed-HasIndex p addr (write_to_tunnel_v4 packet src) = on_panic
  timed-HasIndex p addr (write_to_tunnel_v6 packet src) = on_panic
  timed-HasIndex p addr panicked = on_panic

  timer_of-HasIndex :
      (p : Peer ts) (addr : Option SocketAddr) (env : Env)
      → OnOk (HasIndex p.index) (timer_of c ts sockets p addr env)
  timer_of-HasIndex p none env = on_ok refl
  timer_of-HasIndex p (some addr) env =
      let (t, r) = update_timers c p.tunnel max_udp_size env in
      timed-HasIndex (record p { tunnel = t }) addr r

  timers_of-Keeps :
      (d : Device ts) (peers : List (Bytes × ℕ)) (envs : ℕ → Env)
      → OnOk (Keeps c ts d) (timers_of c ts sockets d peers envs)
  unfolding timers_of
  timers_of-Keeps d [] envs = on_ok (KeepsTables-refl d)
  timers_of-Keeps d ((key, id) ∷ rest) envs = elim (Option-cases (get_elem? d.cells id)) [
    | inl absent ↦ rw absent on_panic
    | inr (p, here) ↦ rw here (
        OnOk-bind (timer_of c ts sockets p p.endpoint.addr (envs id)) _
          (timer_of-HasIndex p p.endpoint.addr (envs id))
          (λ one same.
            OnOk-bind (timers_of c ts sockets (put_cell ts d id one.0) rest envs) _
              (timers_of-Keeps (put_cell ts d id one.0) rest envs)
              (λ others kept. on_ok (
                KeepsTables-trans d (put_cell ts d id one.0) others.0
                  (put_cell-KeepsTables d id p one.0 here same) kept))))
  ]

  pub timer_handler-Keeps :
      (d : Device ts) (envs : ℕ → Env) → OnOk (Keeps c ts d) (timer_handler c ts sockets d envs)
  unfolding timer_handler
  timer_handler-Keeps d envs = by_sockets d.udp4 d.udp6
    where
      by_sockets :
          (udp4 udp6 : Option ℕ) → OnOk (Keeps c ts d) (timers_unless c ts sockets d envs udp4 udp6)
      by_sockets (some udp4) (some udp6) = timers_of-Keeps d d.peers envs
      by_sockets (some udp4) none = on_ok (KeepsTables-refl d)
      by_sockets none udp6 = on_ok (KeepsTables-refl d)
