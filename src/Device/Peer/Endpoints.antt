-- ===== src/Device/Peer/Endpoints.antt =====
-- The connections of an endpoint of boringtun/src/device/peer.rs.
use boringtun.Prelude.{
  ℕ, ◌≡◌, ◌≢◌, refl, sym, ◌∙◌, Bool, true, false, ◌&&◌, Option, none, some, Result, ok, err, panic,
  ◌>>◌, Bool-cases, inl, inr, ◌==◌, ==_iff, ap,
}
use boringtun.Bytes.{bytes_eq_sound, bytes_eq_refl}
use boringtun.Packet.{IpAddr, v4, v6}
use boringtun.Device.Peer.{Endpoint, SocketAddr, Sockets, shut, set_endpoint, is_addr, ip_eq}

-- What an endpoint and the answer of `set_endpoint` say of the endpoint before.
abbrev pub HasAddr : Endpoint → SocketAddr → Result (Endpoint × Bool) → Type 0
HasAddr e addr (ok (e', true)) = (e'.addr ≡ some addr) × (e'.conn ≡ none) × (e.addr ≢ some addr)
HasAddr e addr (ok (e', false)) = (e' ≡ e) × (e.addr ≡ some addr)
HasAddr e addr (err r) = ⊥
HasAddr e addr panic = (e.conn ≢ none) × (e.addr ≢ some addr)

ip_eq_sound : (a b : IpAddr) → ip_eq a b ≡ true → a ≡ b
ip_eq_sound (v4 a) (v4 b) h = ap v4 (bytes_eq_sound a b h)
ip_eq_sound (v4 a) (v6 b) h = absurd cc
ip_eq_sound (v6 a) (v4 b) h = absurd cc
ip_eq_sound (v6 a) (v6 b) h = ap v6 (bytes_eq_sound a b h)

ip_eq_refl : (a : IpAddr) → ip_eq a a ≡ true
ip_eq_refl (v4 a) = bytes_eq_refl a
ip_eq_refl (v6 a) = bytes_eq_refl a

and_split : (a b : Bool) → (a && b) ≡ true → (a ≡ true) × (b ≡ true)
and_split true true h = (refl, refl)
and_split true false h = absurd cc
and_split false b h = absurd cc

is_addr_sound : (o : Option SocketAddr) (addr : SocketAddr) → is_addr o addr ≡ true → o ≡ some addr
is_addr_sound none addr h = absurd cc
is_addr_sound (some a) addr h =
    let (h₁, h₂) = and_split _ _ h in
    let (same_ip, same_port) = and_split _ _ h₁ in
    let (same_flow, same_scope) = and_split _ _ h₂ in
    λ i. some (record {
      ip = ip_eq_sound a.ip addr.ip same_ip i;
      port = (==_iff a.port addr.port).0 same_port i;
      flowinfo = (==_iff a.flowinfo addr.flowinfo).0 same_flow i;
      scope_id = (==_iff a.scope_id addr.scope_id).0 same_scope i;
    })

==_refl : (n : ℕ) → (n == n) ≡ true
==_refl n = (==_iff n n).1 refl

is_addr_refl : (addr : SocketAddr) → is_addr (some addr) addr ≡ true
is_addr_refl addr =
    rw (ip_eq_refl addr.ip, ==_refl addr.port, ==_refl addr.flowinfo, ==_refl addr.scope_id) refl

is_addr_ne : (o : Option SocketAddr) (addr : SocketAddr) → is_addr o addr ≡ false → o ≢ some addr
is_addr_ne o addr h e = ne (sym h ∙ ap (λ x. is_addr x addr) e ∙ is_addr_refl addr)
  where
    ne : false ≢ true
    ne q = cc

module _ (sockets : Sockets) where
  moved-HasAddr :
      (e : Endpoint) (addr : SocketAddr)
      → e.addr ≢ some addr
      → (conn : Option ℕ) → e.conn ≡ conn
      → HasAddr e addr (shut sockets conn >> ok (record { addr = some addr; conn = none }, true))
  moved-HasAddr e addr moved none at_conn = (refl, refl, moved)
  moved-HasAddr e addr moved (some conn) at_conn = elim (Bool-cases (sockets.shutdown conn)) [
    | inl s ↦ rw s (refl, refl, moved)
    | inr s ↦ rw s (open_still, moved)
  ]
    where
      open_still : e.conn ≢ none
      open_still q = some_ne_none (sym at_conn ∙ q)
        where
          some_ne_none : some conn ≢ none
          some_ne_none r = cc

  -- `set_endpoint` says whether the address is a new one. If it is, the endpoint has it and no
  -- connection; if it is not, the endpoint is as before. A panic needs a new address and an open
  -- connection.
  pub set_endpoint_lem :
      (e : Endpoint) (addr : SocketAddr) → HasAddr e addr (set_endpoint sockets e addr)
  unfolding set_endpoint
  set_endpoint_lem e addr = elim (Bool-cases (is_addr e.addr addr)) [
    | inl same ↦ rw same (refl, is_addr_sound e.addr addr same)
    | inr moved ↦ rw moved (moved-HasAddr e addr (is_addr_ne e.addr addr moved) e.conn refl)
  ]
