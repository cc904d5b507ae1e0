-- ===== src/Device/Handlers/Tables.antt =====
-- The handlers of datagrams of boringtun/src/device/mod.rs leave the tables of the device alone.
pub mod Sending
pub mod Opening
use boringtun.Prelude.{
  ℕ, ◌≡◌, refl, sym, ap, ◌∙◌, Bool, true, false, List, [], ◌∷◌, ◌++◌, Option, none, some, Result,
  ok, err, panic, ◌>>=◌, OnOk, on_ok, on_panic, OnOk-bind, OnOk-map, Option-cases, inl, inr,
  get_elem?, Member, connection_expired, assert, ◌>>◌, Bool-cases,
}
use mathlib.Core.Path.{subst}
use boringtun.Bytes.{Bytes}
use boringtun.Crypto.{Crypto}
use boringtun.Packet.{Packet, IpAddr, dst_address}
use boringtun.RateLimiter.{RateLimiter, Verified, verify_packet}
use boringtun.RateLimiter
use boringtun.Tunnel.State.{
  Tunn, Env, TunnResult, done, failed, write_to_network, write_to_tunnel_v4, write_to_tunnel_v6,
  panicked,
}
use boringtun.Tunnel.Packets.{handle_verified_packet, decapsulate, encapsulate}
use boringtun.Tunnel.Update.{update_timers}
use boringtun.Device.AllowedIps.{IpTables, AllowedIps}
use boringtun.Device.Maps.{lookup, nat_key, bytes_key}
use boringtun.Device.Peer.{Peer, SocketAddr, Endpoint, Sockets, shut, shutdown_endpoint}
use boringtun.Device.State.{Device, put_cell}
use boringtun.Device.State.Consistent.{
  IsConsistent, KeepsIndices, KeepsIndices-trans, set-KeepsIndices, cells-IsConsistent,
}
use boringtun.Device.Handlers.{
  Output, send, send_to, reply_of, flushed, flush_queue, answer, unless_panicked, Ending, stopped,
  flush_panicked, out_of_fuel, connect_peer, finish_answered, finish_datagram, for_peer,
  for_verified, udp_handler, conn_handler, find_peer, unwrap, max_udp_size,
}
use boringtun.Device.Handlers.Allowed.Found.{find_peer-OnOk}
use boringtun.Device.Handlers.Allowed.Udp.{connect_peer-OnOk}
use boringtun.Device.Handlers.Outgoing.{
  sent_or_not, routed_to, routed_by, iface_handler, timed, timer_of, timers_of, timers_unless,
  timer_handler, reset_handler,
}

-- The tables and the register are the same, and each peer stays at its place with its index.
pub record KeepsTables {ts : IpTables} (d d' : Device ts) : Type 0 where
  pub peers : d'.peers ≡ d.peers
  pub by_idx : d'.peers_by_idx ≡ d.peers_by_idx
  pub by_ip : d'.peers_by_ip ≡ d.peers_by_ip
  pub register : d'.next_index ≡ d.next_index
  pub indices : KeepsIndices d.cells d'.cells

pub KeepsTables-refl : {ts : IpTables} (d : Device ts) → KeepsTables d d
KeepsTables-refl d = record {
  peers = refl;
  by_idx = refl;
  by_ip = refl;
  register = refl;
  indices = λ id p e. (p, e, refl);
}

pub KeepsTables-trans :
    {ts : IpTables} (d e f : Device ts) → KeepsTables d e → KeepsTables e f → KeepsTables d f
KeepsTables-trans d e f h k = record {
  peers = k.peers ∙ h.peers;
  by_idx = k.by_idx ∙ h.by_idx;
  by_ip = k.by_ip ∙ h.by_ip;
  register = k.register ∙ h.register;
  indices = KeepsIndices-trans d.cells e.cells f.cells h.indices k.indices;
}

pub put_cell-KeepsTables :
    {ts : IpTables} (d : Device ts) (id : ℕ) (p p' : Peer ts)
    → get_elem? d.cells id ≡ some p
    → p'.index ≡ p.index
    → KeepsTables d (put_cell ts d id p')
put_cell-KeepsTables d id p p' here same = record {
  peers = refl;
  by_idx = refl;
  by_ip = refl;
  register = refl;
  indices = set-KeepsIndices d.cells id p p' here same;
}

module _ (c : Crypto) (ts : IpTables) where
  -- The device that comes out
  abbrev pub Keeps : Device ts → Device ts × List Output → Type 0
  Keeps d o = KeepsTables d o.0

  abbrev HasIndex : ℕ → Peer ts × List Output → Type 0
  HasIndex i o = o.0.index ≡ i

  flushed-HasIndex :
      (p : Peer ts) (to_peer : Bytes → Output) (envs : ℕ → Env) (flush_it : Bool)
      → OnOk (HasIndex p.index) (flushed c ts p to_peer envs flush_it)
  flushed-HasIndex p to_peer envs false = on_ok refl
  flushed-HasIndex p to_peer envs true = by_ending (flush_queue c p.tunnel envs).2 _
    where
      by_ending :
          (ending : Ending) (outputs : List Output)
          → OnOk (HasIndex p.index) (
              unless_panicked ending
                (record p { tunnel = (flush_queue c p.tunnel envs).0 }, outputs))
      by_ending stopped outputs = on_ok refl
      by_ending flush_panicked outputs = on_panic
      by_ending out_of_fuel outputs = on_panic

  reply_of-runs :
      (p : Peer ts) (to_peer : Bytes → Output) (r : TunnResult)
      → OnOk (λ (_ : List Output × Bool). Unit {0}) (reply_of c ts p to_peer r)
  reply_of-runs p to_peer done = on_ok tt
  reply_of-runs p to_peer (failed e) = on_ok tt
  reply_of-runs p to_peer (write_to_network packet) = on_ok tt
  reply_of-runs p to_peer (write_to_tunnel_v4 packet addr) = on_ok tt
  reply_of-runs p to_peer (write_to_tunnel_v6 packet addr) = on_ok tt
  reply_of-runs p to_peer panicked = on_panic

  answer-HasIndex :
      (p : Peer ts) (to_peer : Bytes → Output) (r : TunnResult) (envs : ℕ → Env)
      → OnOk (HasIndex p.index) (answer c ts p to_peer r envs)
  unfolding answer
  answer-HasIndex p to_peer r envs =
      OnOk-bind (reply_of c ts p to_peer r) _ (reply_of-runs p to_peer r) (λ reply _.
        OnOk-bind (flushed c ts p to_peer envs reply.1) _ (flushed-HasIndex p to_peer envs reply.1)
          (λ after same. on_ok same))

  module _ (sockets : Sockets) where
    finish_answered-Keeps :
        (d : Device ts) (id : ℕ) (p q : Peer ts) (addr : SocketAddr) (envs : ℕ → Env)
        (r : TunnResult)
        → get_elem? d.cells id ≡ some p
        → q.index ≡ p.index
        → OnOk (Keeps d) (finish_answered c ts sockets d id q addr envs r)
    finish_answered-Keeps d id p q addr envs r here same =
        OnOk-bind (answer c ts q (send_to addr) r envs) _ (answer-HasIndex q (send_to addr) r envs)
          (λ answered kept.
            OnOk-bind (connect_peer c ts sockets d id answered.0.endpoint addr) _
              (connect_peer-OnOk c ts sockets q r d id answered.0.endpoint addr)
              (λ endpoint _. on_ok (put_cell-KeepsTables d id p _ here (kept ∙ same))))

    finish_datagram-Keeps :
        (d : Device ts) (id : ℕ) (p q : Peer ts) (addr : SocketAddr) (envs : ℕ → Env)
        (r : TunnResult)
        → get_elem? d.cells id ≡ some p
        → q.index ≡ p.index
        → OnOk (Keeps d) (finish_datagram c ts sockets d id q addr envs r)
    finish_datagram-Keeps d id p q addr envs (failed e) here same =
        on_ok (put_cell-KeepsTables d id p q here same)
    finish_datagram-Keeps d id p q addr envs done here same =
        finish_answered-Keeps d id p q addr envs done here same
    finish_datagram-Keeps d id p q addr envs (write_to_network packet) here same =
        finish_answered-Keeps d id p q addr envs (write_to_network packet) here same
    finish_datagram-Keeps d id p q addr envs (write_to_tunnel_v4 packet src) here same =
        finish_answered-Keeps d id p q addr envs (write_to_tunnel_v4 packet src) here same
    finish_datagram-Keeps d id p q addr envs (write_to_tunnel_v6 packet src) here same =
        finish_answered-Keeps d id p q addr envs (write_to_tunnel_v6 packet src) here same
    finish_datagram-Keeps d id p q addr envs panicked here same =
        finish_answered-Keeps d id p q addr envs panicked here same

    for_peer-Keeps :
        (d : Device ts) (packet : Packet) (addr : SocketAddr) (env : Env) (envs : ℕ → Env)
        (peer : Option ℕ)
        → OnOk (Keeps d) (for_peer c ts sockets d packet addr env envs peer)
    for_peer-Keeps d packet addr env envs none = on_ok (KeepsTables-refl d)
    for_peer-Keeps d packet addr env envs (some id) = elim (Option-cases (get_elem? d.cells id)) [
      | inl absent ↦ rw absent on_panic
      | inr (p, here) ↦
          (let (t, r) = handle_verified_packet c p.tunnel packet max_udp_size env in
            rw here (finish_datagram-Keeps d id p (record p { tunnel = t }) addr envs r here refl))
    ]

    for_verified-Keeps :
        (d : Device ts) (key_pair : Bytes × Bytes) (addr : SocketAddr) (env : Env) (envs : ℕ → Env)
        (v : Verified)
        → OnOk (Keeps d) (for_verified c ts sockets d key_pair addr env envs v)
    for_verified-Keeps d key_pair addr env envs (RateLimiter.packet packet) =
        OnOk-bind (find_peer c ts d key_pair packet) _ (find_peer-OnOk c ts d key_pair packet)
          (λ peer _. for_peer-Keeps d packet addr env envs peer)
    for_verified-Keeps d key_pair addr env envs (RateLimiter.write_to_network cookie) =
        on_ok (KeepsTables-refl d)
    for_verified-Keeps d key_pair addr env envs (RateLimiter.refused e) = on_ok (KeepsTables-refl d)
    for_verified-Keeps d key_pair addr env envs RateLimiter.panicked = on_panic

    pub unwrap-runs : {A : Type 0} (o : Option A) → OnOk (λ (_ : A). Unit {0}) (unwrap o)
    unwrap-runs none = on_panic
    unwrap-runs (some a) = on_ok tt

    pub udp_handler-Keeps :
        (d : Device ts) (packet : Bytes) (addr : SocketAddr) (env : Env) (envs : ℕ → Env)
        → OnOk (Keeps d) (udp_handler c ts sockets d packet addr env envs)
    unfolding udp_handler
    udp_handler-Keeps d packet addr env envs =
        OnOk-bind (unwrap d.key_pair) _ (unwrap-runs d.key_pair) (λ key_pair _.
          OnOk-bind (unwrap d.rate_limiter) _ (unwrap-runs d.rate_limiter) (λ limiter _.
            (let (rl, v) =
                verify_packet c limiter (some addr.ip) packet max_udp_size env.limiter_now in
              OnOk-map _
                (for_verified-Keeps (record d { rate_limiter = some rl }) key_pair addr env envs v)
                (λ o kept. record {
                  peers = kept.peers;
                  by_idx = kept.by_idx;
                  by_ip = kept.by_ip;
                  register = kept.register;
                  indices = kept.indices;
                }))))

    pub conn_handler-Keeps :
        (d : Device ts) (id conn : ℕ) (peer_addr : IpAddr) (datagram : Bytes) (env : Env)
        (envs : ℕ → Env)
        → OnOk (Keeps d) (conn_handler c ts sockets d id conn peer_addr datagram env envs)
    unfolding conn_handler
    conn_handler-Keeps d id conn peer_addr datagram env envs =
        elim (Option-cases (get_elem? d.cells id)) [
          | inl absent ↦ rw absent on_panic
          | inr (p, here) ↦
              (let (t, r) = decapsulate c p.tunnel (some peer_addr) datagram max_udp_size env in
                rw here (
                  OnOk-bind (answer c ts (record p { tunnel = t }) (send conn) r envs) _
                    (answer-HasIndex (record p { tunnel = t }) (send conn) r envs)
                    (λ answered kept. on_ok (put_cell-KeepsTables d id p _ here kept))))
        ]

-- What leaves the tables alone leaves them in agreement.
pub KeepsTables-IsConsistent :
    {ts : IpTables} (d d' : Device ts) → KeepsTables d d' → IsConsistent ts d → IsConsistent ts d'
KeepsTables-IsConsistent {ts} d d' kept before =
    let k = cells-IsConsistent d d'.cells before kept.indices in
    record {
      by_idx = λ i id h.
          (let (key, p, has_key, here, is_i) =
              k.by_idx i id (sym (ap (λ m. lookup m i) kept.by_idx) ∙ h) in
            (key, p, ap (λ m. lookup m key) kept.peers ∙ has_key, here, is_i));
      known = λ key id h.
          (let (p, here, found) = k.known key id (sym (ap (λ m. lookup m key) kept.peers) ∙ h) in
            (p, here, ap (λ m. lookup m p.index) kept.by_idx ∙ found));
      one_key = λ key key' id h h'.
          k.one_key key key' id (sym (ap (λ m. lookup m key) kept.peers) ∙ h)
            (sym (ap (λ m. lookup m key') kept.peers) ∙ h');
      by_ip = λ e m.
          (let (key, has_key) =
              k.by_ip e
                (subst (λ (t : AllowedIps ts ℕ). Member e (ts.entries t.ips)) kept.by_ip m) in
            (key, ap (λ m. lookup m key) kept.peers ∙ has_key));
    }
