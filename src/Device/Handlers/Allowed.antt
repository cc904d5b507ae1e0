-- ===== src/Device/Handlers/Allowed.antt =====
-- What the handlers of boringtun/src/device/mod.rs write to the interface.
pub mod Found
pub mod Udp
use boringtun.Prelude.{
  ℕ, ◌≡◌, refl, sym, ap, ◌∙◌, Bool, true, false, List, [], ◌∷◌, ◌++◌, map, Option, none, some,
  Result, ok, err, panic, ◌>>=◌, All, bind_ok, ok_injective, if◌then◌else◌, OnOk, on_ok, on_panic,
  OnOk-bind, of_ok, Bool-cases, inl, inr, get_elem?,
}
use mathlib.Core.Path.{subst}
use boringtun.Bytes.{Bytes}
use boringtun.Crypto.{Crypto}
use boringtun.Packet.{IpAddr, v4, v6}
use boringtun.Tunnel.State.{
  Tunn, Env, TunnResult, done, failed, write_to_network, write_to_tunnel_v4, write_to_tunnel_v6,
  panicked,
}
use boringtun.Tunnel.Packets.{decapsulate}
use boringtun.Device.AllowedIps.{IpTables}
use boringtun.Device.Peer.{Peer, Sockets, is_allowed_ip}
use boringtun.Device.State.{Device}
use boringtun.Device.Handlers.{
  Output, send, send_to, write4, write6, register_conn_handler, reply_of, flushed, answer,
  flush_queue, unless_panicked, Ending, stopped, flush_panicked, out_of_fuel, conn_handler, cell_of,
  max_udp_size,
}

-- The output writes to the interface only what the tunnel gave with this result, and only if the
-- peer may use the address of the sender.
abbrev pub IsPermitted : {ts : IpTables} → Peer ts → TunnResult → Output → Type 0
IsPermitted p r (send_to addr packet) = Unit
IsPermitted p r (send conn packet) = Unit
IsPermitted p r (register_conn_handler id conn addr) = Unit
IsPermitted {ts} p r (write4 written) =
    (addr : Bytes) × (r ≡ write_to_tunnel_v4 written addr) × (is_allowed_ip ts p (v4 addr) ≡ true)
IsPermitted {ts} p r (write6 written) =
    (addr : Bytes) × (r ≡ write_to_tunnel_v6 written addr) × (is_allowed_ip ts p (v6 addr) ≡ true)

module _ (c : Crypto) (ts : IpTables) (p : Peer ts) (r : TunnResult) where
  pub All-append :
      (xs ys : List Output)
      → All (IsPermitted p r) xs
      → All (IsPermitted p r) ys
      → All (IsPermitted p r) (xs ++ ys)
  All-append [] ys h k = k
  All-append (x ∷ xs) ys h k = (h.0, All-append xs ys h.1 k)

  All-sent :
      (to_peer : Bytes → Output)
      → ((packet : Bytes) → IsPermitted p r (to_peer packet))
      → (packets : List Bytes) → All (IsPermitted p r) (map to_peer packets)
  All-sent to_peer harmless [] = tt
  All-sent to_peer harmless (x ∷ xs) = (harmless x, All-sent to_peer harmless xs)

  flushed-OnOk :
      (q : Peer ts) (to_peer : Bytes → Output)
      → ((packet : Bytes) → IsPermitted p r (to_peer packet))
      → (envs : ℕ → Env) (flush_it : Bool)
      → OnOk
          (λ (o : Peer ts × List Output). All (IsPermitted p r) o.1)
          (flushed c ts q to_peer envs flush_it)
  flushed-OnOk q to_peer harmless envs false = on_ok tt
  flushed-OnOk q to_peer harmless envs true = by_ending (flush_queue c q.tunnel envs)
    where
      by_ending :
          (f : Tunn × List Bytes × Ending)
          → OnOk
              (λ (o : Peer ts × List Output). All (IsPermitted p r) o.1)
              (unless_panicked f.2 (record q { tunnel = f.0 }, map to_peer f.1))
      by_ending (t, packets, stopped) = on_ok (All-sent to_peer harmless packets)
      by_ending (t, packets, flush_panicked) = on_panic
      by_ending (t, packets, out_of_fuel) = on_panic

module _ (c : Crypto) (ts : IpTables) where
  if-written :
      (p : Peer ts) (r : TunnResult) (b : Bool) (o : Output)
      → (b ≡ true → IsPermitted p r o)
      → All (IsPermitted p r) (if b then o ∷ [] else [])
  if-written p r true o h = (h refl, tt)
  if-written p r false o h = tt

  reply_of-OnOk :
      (p : Peer ts) (to_peer : Bytes → Output) (r : TunnResult)
      → ((packet : Bytes) → IsPermitted p r (to_peer packet))
      → OnOk (λ (o : List Output × Bool). All (IsPermitted p r) o.0) (reply_of c ts p to_peer r)
  reply_of-OnOk p to_peer done harmless = on_ok tt
  reply_of-OnOk p to_peer (failed e) harmless = on_ok tt
  reply_of-OnOk p to_peer (write_to_network packet) harmless = on_ok (harmless packet, tt)
  reply_of-OnOk p to_peer (write_to_tunnel_v4 packet addr) harmless = on_ok (
      if-written p (write_to_tunnel_v4 packet addr) (is_allowed_ip ts p (v4 addr)) (write4 packet)
        (λ e. (addr, refl, e)))
  reply_of-OnOk p to_peer (write_to_tunnel_v6 packet addr) harmless = on_ok (
      if-written p (write_to_tunnel_v6 packet addr) (is_allowed_ip ts p (v6 addr)) (write6 packet)
        (λ e. (addr, refl, e)))
  reply_of-OnOk p to_peer panicked harmless = on_panic

  pub answer-OnOk :
      (p : Peer ts) (to_peer : Bytes → Output) (r : TunnResult) (envs : ℕ → Env)
      → ((packet : Bytes) → IsPermitted p r (to_peer packet))
      → OnOk
          (λ (o : Peer ts × List Output). All (IsPermitted p r) o.1)
          (answer c ts p to_peer r envs)
  unfolding answer
  answer-OnOk p to_peer r envs harmless =
      OnOk-bind (reply_of c ts p to_peer r) _ (reply_of-OnOk p to_peer r harmless) (λ reply now.
        OnOk-bind (flushed c ts p to_peer envs reply.1) _
          (flushed-OnOk c ts p r p to_peer harmless envs reply.1)
          (λ after later. on_ok (All-append c ts p r reply.0 after.1 now later)))

  -- A handler of a connected socket that returns wrote to the interface at most the packet that the
  -- tunnel of the peer decapsulated, and only if the peer may use its source address.
  pub conn_handler_writes :
      (sockets : Sockets) (d d' : Device ts) (id conn : ℕ) (peer_addr : IpAddr) (datagram : Bytes)
      (env : Env) (envs : ℕ → Env) (p : Peer ts) (outputs : List Output)
      → get_elem? d.cells id ≡ some p
      → conn_handler c ts sockets d id conn peer_addr datagram env envs ≡ ok (d', outputs)
      → All
          (IsPermitted p (decapsulate c p.tunnel (some peer_addr) datagram max_udp_size env).1)
          outputs
  unfolding conn_handler is_allowed_ip
  conn_handler_writes sockets d d' id conn peer_addr datagram env envs p outputs here made =
      let r = decapsulate c p.tunnel (some peer_addr) datagram max_udp_size env in
      let (o, answered, e) =
        bind_ok (answer c ts (record p { tunnel = r.0 }) (send conn) r.1 envs) _
          (rw here at made) in
      subst (λ (x : Device ts × List Output). All (IsPermitted p r.1) x.1) (ok_injective e)
        (of_ok _ (answer-OnOk (record p { tunnel = r.0 }) (send conn) r.1 envs (λ packet. tt))
          answered)
