-- ===== src/Device/Handlers/Allowed/Udp.antt =====
-- What the handler of the listening sockets of boringtun/src/device/mod.rs writes to the interface.
use boringtun.Prelude.{
  ℕ, ◌≡◌, refl, sym, ap, ◌∙◌, ok_injective, Bool, true, false, List, [], ◌∷◌, Option, none, some,
  Result, ok, err, panic, All, bind_ok, OnOk, on_ok, on_panic, OnOk-bind, OnOk-map, of_ok,
  Option-cases, inl, inr, get_elem?,
}
use boringtun.Bytes.{Bytes}
use boringtun.Crypto.{Crypto}
use boringtun.Packet.{Packet, IpAddr}
use boringtun.RateLimiter.{RateLimiter, Verified, verify_packet}
use boringtun.RateLimiter
use boringtun.Tunnel.State.{
  Tunn, Env, TunnResult, done, failed, write_to_network, write_to_tunnel_v4, write_to_tunnel_v6,
  panicked,
}
use boringtun.Tunnel.Packets.{handle_verified_packet}
use boringtun.Device.AllowedIps.{IpTables}
use boringtun.Device.Peer.{
  Peer, is_allowed_ip, SocketAddr, Endpoint, Sockets, Connected, connected, refused,
  unconnected_panic, set_endpoint, connect_endpoint,
}
use boringtun.Device.Peer.Endpoints.{HasAddr, set_endpoint_lem}
use boringtun.Device.State.{Device}
use boringtun.Device.Handlers.{
  Output, send, send_to, write4, write6, register_conn_handler, answer, watched, watch_if,
  connect_peer, finish_answered, finish_datagram, for_peer, for_verified, udp_handler, find_peer,
  unwrap, max_udp_size,
}
use boringtun.Device.Handlers.Allowed.Found.{
  IsFor, find_peer-IsFor, find_peer-found, find_peer-counted,
}
use boringtun.Device.Handlers.Allowed.{IsPermitted, All-append, answer-OnOk}

module _ (c : Crypto) (ts : IpTables) (sockets : Sockets) where
  module _ (q : Peer ts) (r : TunnResult) where
    abbrev pub AllPermitted : {A : Type 0} → A × List Output → Type 0
    AllPermitted o = All (IsPermitted q r) o.1

    watched-OnOk :
        (id : ℕ) (addr : IpAddr) (o : Endpoint × Connected)
        → OnOk AllPermitted (watched c ts sockets id addr o)
    watched-OnOk id addr (e, connected sock) = on_ok (tt, tt)
    watched-OnOk id addr (e, refused) = on_ok tt
    watched-OnOk id addr (e, unconnected_panic) = on_panic

    watch_if-OnOk :
        (b : Bool) (d : Device ts) (id : ℕ) (e : Endpoint) (addr : SocketAddr)
        → OnOk AllPermitted (watch_if c ts sockets b d id e addr)
    watch_if-OnOk true d id e addr =
        watched-OnOk id addr.ip (connect_endpoint sockets e d.listen_port d.fwmark)
    watch_if-OnOk false d id e addr = on_ok tt

    set-OnOk :
        (e : Endpoint) (addr : SocketAddr) (o : Result (Endpoint × Bool))
        → HasAddr e addr o
        → OnOk (λ (_ : Endpoint × Bool). Unit {0}) o
    set-OnOk e addr (ok (e', true)) h = on_ok tt
    set-OnOk e addr (ok (e', false)) h = on_ok tt
    set-OnOk e addr (err x) h = elim h [ ]
    set-OnOk e addr panic h = on_panic

    pub connect_peer-OnOk :
        (d : Device ts) (id : ℕ) (e : Endpoint) (addr : SocketAddr)
        → OnOk AllPermitted (connect_peer c ts sockets d id e addr)
    unfolding connect_peer
    connect_peer-OnOk d id e addr =
        OnOk-bind (set_endpoint sockets e addr) _
          (set-OnOk e addr _ (set_endpoint_lem sockets e addr))
          (λ changed _. watch_if-OnOk _ d id changed.0 addr)

  answered-OnOk :
      (d : Device ts) (id : ℕ) (p : Peer ts) (addr : SocketAddr) (envs : ℕ → Env) (r : TunnResult)
      → OnOk
          (λ (o : Device ts × List Output). All (IsPermitted p r) o.1)
          (finish_answered c ts sockets d id p addr envs r)
  answered-OnOk d id p addr envs r =
      OnOk-bind (answer c ts p (send_to addr) r envs) _
        (answer-OnOk c ts p (send_to addr) r envs (λ packet. tt))
        (λ answered now.
          OnOk-bind (connect_peer c ts sockets d id answered.0.endpoint addr) _
            (connect_peer-OnOk p r d id answered.0.endpoint addr)
            (λ endpoint later. on_ok (All-append c ts p r answered.1 endpoint.1 now later)))

  finish-OnOk :
      (d : Device ts) (id : ℕ) (p : Peer ts) (addr : SocketAddr) (envs : ℕ → Env) (r : TunnResult)
      → OnOk
          (λ (o : Device ts × List Output). All (IsPermitted p r) o.1)
          (finish_datagram c ts sockets d id p addr envs r)
  finish-OnOk d id p addr envs (failed e) = on_ok tt
  finish-OnOk d id p addr envs done = answered-OnOk d id p addr envs done
  finish-OnOk d id p addr envs (write_to_network packet) =
      answered-OnOk d id p addr envs (write_to_network packet)
  finish-OnOk d id p addr envs (write_to_tunnel_v4 packet src) =
      answered-OnOk d id p addr envs (write_to_tunnel_v4 packet src)
  finish-OnOk d id p addr envs (write_to_tunnel_v6 packet src) =
      answered-OnOk d id p addr envs (write_to_tunnel_v6 packet src)
  finish-OnOk d id p addr envs panicked = answered-OnOk d id p addr envs panicked

  -- What the tunnel of a peer made of a packet
  abbrev pub handled : Peer ts → Packet → Env → TunnResult
  handled p packet env = (handle_verified_packet c p.tunnel packet max_udp_size env).1

  -- The packet that the limiter of the device lets a datagram pass as, and the peer that the tables
  -- of the device name for this packet
  pub record IsReceived (d : Device ts) (datagram : Bytes) (addr : SocketAddr) (env : Env)
      (packet : Packet) (id : ℕ) (p : Peer ts) : Type 0 where
    pub key_pair : Bytes × Bytes
    pub limiter : RateLimiter
    pub has_key : d.key_pair ≡ some key_pair
    pub has_limiter : d.rate_limiter ≡ some limiter
    pub passed :
        (verify_packet c limiter (some addr.ip) datagram max_udp_size env.limiter_now).1
        ≡ RateLimiter.packet packet
    pub is_for : IsFor c ts d key_pair packet id
    pub here : get_elem? d.cells id ≡ some p

  -- The output writes to the interface only what the tunnel of the peer that the datagram is for made
  -- of its packet, and only if the peer may use the address of the sender.
  abbrev pub IsFromPeer : Device ts → Bytes → SocketAddr → Env → Output → Type 0
  IsFromPeer d datagram addr env (send_to to packet) = Unit
  IsFromPeer d datagram addr env (send conn packet) = Unit
  IsFromPeer d datagram addr env (register_conn_handler id conn peer_addr) = Unit
  IsFromPeer d datagram addr env (write4 written) =
      (id : ℕ) × (p : Peer ts) × (packet : Packet) × IsReceived d datagram addr env packet id p
      × IsPermitted p (handled p packet env) (write4 written)
  IsFromPeer d datagram addr env (write6 written) =
      (id : ℕ) × (p : Peer ts) × (packet : Packet) × IsReceived d datagram addr env packet id p
      × IsPermitted p (handled p packet env) (write6 written)

  module _ (d : Device ts) (datagram : Bytes) (addr : SocketAddr) (env : Env) where
    from_peer :
        (id : ℕ) (p : Peer ts) (t : Tunn) (packet : Packet)
        → IsReceived d datagram addr env packet id p
        → (outputs : List Output)
        → All (IsPermitted (record p { tunnel = t }) (handled p packet env)) outputs
        → All (IsFromPeer d datagram addr env) outputs
    unfolding is_allowed_ip
    from_peer id p t packet got [] h = tt
    from_peer id p t packet got (send_to to x ∷ os) h = (tt, from_peer id p t packet got os h.1)
    from_peer id p t packet got (send conn x ∷ os) h = (tt, from_peer id p t packet got os h.1)
    from_peer id p t packet got (register_conn_handler i conn to ∷ os) h =
        (tt, from_peer id p t packet got os h.1)
    from_peer id p t packet got (write4 x ∷ os) h =
        ((id, p, packet, got, h.0), from_peer id p t packet got os h.1)
    from_peer id p t packet got (write6 x ∷ os) h =
        ((id, p, packet, got, h.0), from_peer id p t packet got os h.1)

    abbrev AllFromPeer : Device ts × List Output → Type 0
    AllFromPeer o = All (IsFromPeer d datagram addr env) o.1

    module _ (key_pair : Bytes × Bytes) (limiter rl : RateLimiter)
        (has_key : d.key_pair ≡ some key_pair) (has_limiter : d.rate_limiter ≡ some limiter)
        (envs : ℕ → Env) where
      -- The limiter has counted the datagram.
      abbrev counted : Device ts
      counted = record d { rate_limiter = some rl }

      for_peer-OnOk :
          (packet : Packet) (peer : Option ℕ)
          → (verify_packet c limiter (some addr.ip) datagram max_udp_size env.limiter_now).1
            ≡ RateLimiter.packet packet
          → find_peer c ts d key_pair packet ≡ ok peer
          → OnOk AllFromPeer (for_peer c ts sockets counted packet addr env envs peer)
      for_peer-OnOk packet none passed found = on_ok tt
      for_peer-OnOk packet (some id) passed found = elim (Option-cases (get_elem? d.cells id)) [
        | inl absent ↦ rw absent on_panic
        | inr (p, here) ↦
            (let t = (handle_verified_packet c p.tunnel packet max_udp_size env).0 in
              let got : IsReceived d datagram addr env packet id p = record {
                key_pair = key_pair;
                limiter = limiter;
                has_key = has_key;
                has_limiter = has_limiter;
                passed = passed;
                is_for = find_peer-IsFor c ts d key_pair packet id found;
                here = here;
              } in
              rw here (
                OnOk-map
                  (finish_datagram c ts sockets counted id (record p { tunnel = t }) addr envs
                    (handled p packet env))
                  (finish-OnOk counted id (record p { tunnel = t }) addr envs
                    (handled p packet env))
                  (λ o h. from_peer id p t packet got o.1 h)))
      ]

      for_verified-OnOk :
          (v : Verified)
          → (verify_packet c limiter (some addr.ip) datagram max_udp_size env.limiter_now).1 ≡ v
          → OnOk AllFromPeer (for_verified c ts sockets counted key_pair addr env envs v)
      for_verified-OnOk (RateLimiter.packet packet) passed =
          OnOk-bind (find_peer c ts counted key_pair packet) _
            (find_peer-found c ts counted key_pair packet)
            (λ peer found.
              for_peer-OnOk packet peer passed
                (sym (find_peer-counted c ts d rl key_pair packet) ∙ found))
      for_verified-OnOk (RateLimiter.write_to_network cookie) passed = on_ok (tt, tt)
      for_verified-OnOk (RateLimiter.refused e) passed = on_ok tt
      for_verified-OnOk RateLimiter.panicked passed = on_panic

  -- If the handler of a listening socket returns, each packet that it wrote to the interface is what
  -- the tunnel of a peer took out of the packet that the limiter let the datagram pass as. The tables
  -- of the device name this peer for the packet, the sender of an initiation by its key and the
  -- receiver of another packet by the upper 24 bits of its index, and the peer may use the address
  -- of the sender of what was written.
  pub udp_handler_writes :
      (d d' : Device ts) (datagram : Bytes) (addr : SocketAddr) (env : Env) (envs : ℕ → Env)
      (outputs : List Output)
      → udp_handler c ts sockets d datagram addr env envs ≡ ok (d', outputs)
      → All (IsFromPeer d datagram addr env) outputs
  unfolding udp_handler
  udp_handler_writes d d' datagram addr env envs outputs made =
      let (key_pair, has_key, e) = bind_ok (unwrap d.key_pair) _ made in
      let (limiter, has_limiter, e') = bind_ok (unwrap d.rate_limiter) _ e in
      let v = verify_packet c limiter (some addr.ip) datagram max_udp_size env.limiter_now in
      of_ok (AllFromPeer d datagram addr env)
        (for_verified-OnOk d datagram addr env key_pair limiter v.0 (unwrap_some has_key)
          (unwrap_some has_limiter) envs v.1 refl)
        e'
    where
      unwrap_some : {A : Type 0} {o : Option A} {a : A} → unwrap o ≡ ok a → o ≡ some a
      unwrap_some {o = none} h = absurd cc
      unwrap_some {o = some x} h = ap some (ok_injective h)
