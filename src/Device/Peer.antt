-- ===== src/Device/Peer.antt =====
-- `Peer` and `Endpoint` of boringtun/src/device/peer.rs. A socket is a number. The calls of `socket2`
-- are a parameter, and so is `IpAddr::from_str`.
pub mod Endpoints
pub mod Routes
use boringtun.Prelude.{
  ℕ, ◌+◌, ◌-◌, ◌*◌, ◌<◌, ◌≤◌, Bool, true, false, ◌&&◌, not, List, [], ◌∷◌, ◌++◌, Option, none, some,
  map, Result, ok, err, panic, ◌>>=◌, ◌>>◌, assert, leb, ltb, ◌==◌, if◌then◌else◌,
}
use boringtun.Bytes.{Bytes, bytes_eq}
use boringtun.Packet.{IpAddr, v4, v6}
use boringtun.Device.AllowedIps.{IpTables, AllowedIps, AllowedIp, from_iter, find}
use boringtun.Tunnel.State.{Tunn}

-- `SocketAddr`. For IPv4 the flow label and the scope are 0.
pub record SocketAddr : Type 0 where
  pub ip : IpAddr
  pub port : ℕ
  pub flowinfo : ℕ
  pub scope_id : ℕ

pub record Endpoint : Type 0 where
  pub addr : Option SocketAddr
  pub conn : Option ℕ

pub record Peer (ts : IpTables) : Type 0 where
  pub tunnel : Tunn
  pub index : ℕ
  pub endpoint : Endpoint
  pub allowed_ips : AllowedIps ts (Unit {0})
  pub preshared_key : Option Bytes

-- `socket2::Socket`: whether each call succeeds, and the socket it makes
pub record Sockets : Type 0 where
  pub new_socket : Bool → Option ℕ
  pub set_reuse_address : ℕ → Bool
  pub bind : ℕ → SocketAddr → Bool
  pub connect : ℕ → SocketAddr → Bool
  pub set_nonblocking : ℕ → Bool
  pub set_mark : ℕ → ℕ → Bool
  pub try_clone : ℕ → Option ℕ
  pub shutdown : ℕ → Bool

abbrev pub ip_eq : IpAddr → IpAddr → Bool
ip_eq (v4 a) (v4 b) = bytes_eq a b
ip_eq (v4 a) (v6 b) = false
ip_eq (v6 a) (v4 b) = false
ip_eq (v6 a) (v6 b) = bytes_eq a b

abbrev pub is_ipv4 : IpAddr → Bool
is_ipv4 (v4 a) = true
is_ipv4 (v6 a) = false

-- `endpoint.addr == Some(addr)`
abbrev pub is_addr : Option SocketAddr → SocketAddr → Bool
is_addr none addr = false
is_addr (some a) addr =
    (ip_eq a.ip addr.ip && a.port == addr.port)
    && (a.flowinfo == addr.flowinfo && a.scope_id == addr.scope_id)

-- `str::split`
unfoldable pub split : Bytes → ℕ → List Bytes
split [] c = [] ∷ []
split (b ∷ s) c = let rest = split s c in if b == c then [] ∷ rest else prepend b rest
  where
    prepend : ℕ → List Bytes → List Bytes
    prepend b [] = (b ∷ []) ∷ []
    prepend b (part ∷ parts) = (b ∷ part) ∷ parts

-- `Err("Invalid IP format")`, here `none`, unless the prefix fits the address
abbrev pub fitting : Option IpAddr → Option ℕ → Option AllowedIp
fitting (some (v4 octets)) (some cidr) =
    if leb cidr 32 then some (record { addr = v4 octets; cidr = cidr }) else none
fitting (some (v6 octets)) (some cidr) =
    if leb cidr 128 then some (record { addr = v6 octets; cidr = cidr }) else none
fitting (some addr) none = none
fitting none cidr = none

module _ (parse_ip : Bytes → Option IpAddr) (parse_u8 : Bytes → Option ℕ) where
  abbrev pub two_parts : List Bytes → Option AllowedIp
  two_parts [] = none
  two_parts (ip ∷ []) = none
  two_parts (ip ∷ cidr ∷ []) = fitting (parse_ip ip) (parse_u8 cidr)
  two_parts (ip ∷ cidr ∷ more ∷ parts) = none

  -- `AllowedIP::from_str`, on the character `/`
  unfoldable pub from_str : Bytes → Option AllowedIp
  from_str s = two_parts (split s 47)

module _ (ts : IpTables) where
  -- `Peer::new`
  unfoldable pub new :
      Tunn → ℕ → Option SocketAddr → List AllowedIp → Option Bytes → Result (Peer ts)
  new tunnel index endpoint allowed_ips preshared_key = do
    ips ← from_iter ts (map (λ ip. (ip, tt)) allowed_ips)
    ok (record {
      tunnel = tunnel;
      index = index;
      endpoint = record { addr = endpoint; conn = none };
      allowed_ips = ips;
      preshared_key = preshared_key;
    })

  abbrev pub is_some_unit : Option (Unit {0}) → Bool
  is_some_unit none = false
  is_some_unit (some u) = true

  unfoldable pub is_allowed_ip : Peer ts → IpAddr → Bool
  is_allowed_ip p addr = is_some_unit (find ts p.allowed_ips addr)

-- What a new connection may come to: a socket, an error, or a panic
pub data Connected : Type 0 where
  connected : ℕ → Connected
  refused : Connected
  unconnected_panic : Connected

module _ (sockets : Sockets) where
  -- `conn.shutdown(Shutdown::Both).unwrap()`, if there is a connection
  abbrev pub shut : Option ℕ → Result (Unit {0})
  shut none = ok tt
  shut (some conn) = assert (sockets.shutdown conn)

  -- `shutdown_endpoint`
  unfoldable pub shutdown_endpoint : Endpoint → Result Endpoint
  shutdown_endpoint e = do shut e.conn; ok (record e { conn = none })

  -- `set_endpoint`
  unfoldable pub set_endpoint : Endpoint → SocketAddr → Result (Endpoint × Bool)
  set_endpoint e addr =
      if not (is_addr e.addr addr)
      then (do shut e.conn; ok (record { addr = some addr; conn = none }, true))
      else ok (e, false)

  abbrev pub marked : ℕ → Option ℕ → Bool
  marked udp_conn none = true
  marked udp_conn (some fwmark) = sockets.set_mark udp_conn fwmark

  -- The address of all interfaces of the family of an address
  abbrev pub unspecified : IpAddr → ℕ → SocketAddr
  unspecified (v4 a) port = record {
    ip = v4 (0 ∷ 0 ∷ 0 ∷ 0 ∷ []);
    port = port;
    flowinfo = 0;
    scope_id = 0;
  }
  unspecified (v6 a) port = record {
    ip = v6 (0 ∷ 0 ∷ 0 ∷ 0 ∷ 0 ∷ 0 ∷ 0 ∷ 0 ∷ 0 ∷ 0 ∷ 0 ∷ 0 ∷ 0 ∷ 0 ∷ 0 ∷ 0 ∷ []);
    port = port;
    flowinfo = 0;
    scope_id = 0;
  }

  abbrev pub set_up : ℕ → SocketAddr → ℕ → Option ℕ → Bool
  set_up udp_conn addr port fwmark =
      sockets.set_reuse_address udp_conn
      && (sockets.bind udp_conn (unspecified addr.ip port)
          && (sockets.connect udp_conn addr
              && (sockets.set_nonblocking udp_conn && marked udp_conn fwmark)))

  abbrev pub keep_clone : Endpoint → ℕ → Option ℕ → Endpoint × Connected
  keep_clone e udp_conn none = (e, unconnected_panic)
  keep_clone e udp_conn (some clone) = (record e { conn = some clone }, connected udp_conn)

  abbrev pub connect_socket : Endpoint → SocketAddr → ℕ → Option ℕ → Option ℕ → Endpoint × Connected
  connect_socket e addr port fwmark none = (e, refused)
  connect_socket e addr port fwmark (some udp_conn) =
      if set_up udp_conn addr port fwmark
      then keep_clone e udp_conn (sockets.try_clone udp_conn)
      else (e, refused)

  abbrev pub connect_to : Endpoint → Option SocketAddr → ℕ → Option ℕ → Endpoint × Connected
  connect_to e none port fwmark = (e, unconnected_panic)
  connect_to e (some addr) port fwmark =
      connect_socket e addr port fwmark (sockets.new_socket (is_ipv4 addr.ip))

  abbrev pub connect_unless : Endpoint → Option ℕ → ℕ → Option ℕ → Endpoint × Connected
  connect_unless e (some conn) port fwmark = (e, refused)
  connect_unless e none port fwmark = connect_to e e.addr port fwmark

  -- `connect_endpoint`
  unfoldable pub connect_endpoint : Endpoint → ℕ → Option ℕ → Endpoint × Connected
  connect_endpoint e port fwmark = connect_unless e e.conn port fwmark
