-- ===== src/Device/State.antt =====
-- `Device` of boringtun/src/device/mod.rs: its peers, and the tables that find them.
pub mod Consistent
pub mod Removal
pub mod Addition
pub mod Keys
pub mod Commands
pub mod Listening
use boringtun.Prelude.{
  ℕ, ◌+◌, Bool, true, false, not, List, [], ◌∷◌, ◌++◌, Option, none, some, map, Result, ok, err,
  panic, ◌>>=◌, ◌>>◌, assert, length, get_elem?, set, ◌==◌, if◌then◌else◌,
}
use boringtun.Bytes.{Bytes, bytes_eq}
use boringtun.Crypto.{Crypto}
use boringtun.RateLimiter.{RateLimiter}
use boringtun.RateLimiter
use boringtun.Tunnel.State.{Tunn}
use boringtun.Tunnel.State as Tunnel
use boringtun.Device.Lfsr.{IndexLfsr, next}
use boringtun.Device.Maps.{lookup, insert, remove, nat_key, bytes_key}
use boringtun.Device.AllowedIps.{IpTables, AllowedIps, AllowedIp, insert_all}
use boringtun.Device.AllowedIps
use boringtun.Device.Peer.{Peer, SocketAddr, Sockets, shutdown_endpoint}
use boringtun.Device.Peer

abbrev pub handshake_rate_limit : ℕ
handshake_rate_limit = 100

-- An `Arc<Mutex<Peer>>` is a place of `cells`, in which no peer is moved or taken away. The limiter
-- is shared with the tunnels that got it; here is its state at the device's calls.
pub record Device (ts : IpTables) : Type 0 where
  pub key_pair : Option (Bytes × Bytes)
  pub listen_port : ℕ
  pub fwmark : Option ℕ
  pub udp4 : Option ℕ
  pub udp6 : Option ℕ
  pub peers : List (Bytes × ℕ)
  pub peers_by_ip : AllowedIps ts ℕ
  pub peers_by_idx : List (ℕ × ℕ)
  pub next_index : IndexLfsr
  pub use_connected_socket : Bool
  pub mtu : ℕ
  pub rate_limiter : Option RateLimiter
  pub cells : List (Peer ts)

-- What a call reads of the world: the keys of a limiter that is made, and the clocks.
pub record Fresh : Type 0 where
  pub nonce_key : Bytes
  pub secret_key : Bytes
  pub system_now : ℕ
  pub now : ℕ

module _ (ts : IpTables) where
  -- The device of `Device::new`, whose files and events are not part of the model
  unfoldable pub new : IndexLfsr → Bool → ℕ → Device ts
  new next_index use_connected_socket mtu = record {
    key_pair = none;
    listen_port = 0;
    fwmark = none;
    udp4 = none;
    udp6 = none;
    peers = [];
    peers_by_ip = AllowedIps.new ts;
    peers_by_idx = [];
    next_index = next_index;
    use_connected_socket = use_connected_socket;
    mtu = mtu;
    rate_limiter = none;
    cells = [];
  }

  -- A change of the endpoint of the peer at a place
  abbrev pub put_cell : Device ts → ℕ → Peer ts → Device ts
  put_cell d id p = record d { cells = set d.cells id p }

  unfoldable pub clear_peers : Device ts → Device ts
  clear_peers d = record d {
    peers = [];
    peers_by_idx = [];
    peers_by_ip = AllowedIps.clear ts d.peers_by_ip;
  }

module _ (ts : IpTables) (sockets : Sockets) where
  -- `peer.lock()` on a place that is not in the store does not occur.
  abbrev pub remove_found : Device ts → Bytes → ℕ → Option (Peer ts) → Result (Device ts)
  remove_found d pub_key id none = ok d
  remove_found d pub_key id (some p) = do
    endpoint ← shutdown_endpoint sockets p.endpoint
    ok (record d {
      peers = remove d.peers pub_key;
      peers_by_idx = remove d.peers_by_idx p.index;
      peers_by_ip = AllowedIps.remove ts d.peers_by_ip (λ q. id == q);
      cells = set d.cells id (record p { endpoint = endpoint });
    })

  abbrev pub remove_if_found : Device ts → Bytes → Option ℕ → Result (Device ts)
  remove_if_found d pub_key none = ok d
  remove_if_found d pub_key (some id) = remove_found d pub_key id (get_elem? d.cells id)

  unfoldable pub remove_peer : Device ts → Bytes → Result (Device ts)
  remove_peer d pub_key = remove_if_found d pub_key (lookup d.peers pub_key)

abbrev pub is_absent : Option ℕ → Bool
is_absent none = true
is_absent (some id) = false

module _ (c : Crypto) (ts : IpTables) where
  abbrev pub add_peer :
      Device ts
      → Bytes
      → Option SocketAddr
      → List AllowedIp
      → Option ℕ
      → Option Bytes
      → Fresh
      → ℕ
      → Option (Bytes × Bytes)
      → Result (Device ts)
  add_peer d pub_key endpoint allowed_ips keepalive preshared_key fresh next_index none = ok d
  add_peer d pub_key endpoint allowed_ips keepalive preshared_key fresh next_index (some key_pair) =
      do
        let tunn =
            Tunnel.new c key_pair.0 pub_key preshared_key keepalive next_index none fresh.nonce_key
              fresh.secret_key fresh.system_now fresh.now
        peer ← Peer.new ts tunn next_index endpoint allowed_ips preshared_key
        let id = length d.cells
        by_ip ← insert_all ts d.peers_by_ip (map (λ ip. (ip, id)) allowed_ips)
        ok (record d {
          peers = insert d.peers pub_key id;
          peers_by_idx = insert d.peers_by_idx next_index id;
          peers_by_ip = by_ip;
          cells = d.cells ++ (peer ∷ []);
        })

  unfoldable pub update_peer :
      Sockets
      → Device ts
      → Bytes
      → Bool
      → Option SocketAddr
      → List AllowedIp
      → Option ℕ
      → Option Bytes
      → Fresh
      → Result (Device ts)
  update_peer sockets d pub_key true endpoint allowed_ips keepalive preshared_key fresh =
      remove_peer ts sockets d pub_key
  update_peer sockets d pub_key false endpoint allowed_ips keepalive preshared_key fresh = do
    assert (is_absent (lookup d.peers pub_key))
    drawn ← next d.next_index
    let (g, next_index) = drawn
    add_peer (record d { next_index = g }) pub_key endpoint allowed_ips keepalive preshared_key
        fresh next_index d.key_pair

  -- The new private key of the tunnel at a place
  abbrev pub set_cell_key : Bytes → Bytes → RateLimiter → Fresh → Peer ts → Result (Peer ts)
  set_cell_key private public limiter fresh p = do
    t ←
        Tunnel.set_static_private c p.tunnel private public (some limiter) fresh.nonce_key
          fresh.secret_key fresh.now
    ok (record p { tunnel = t })

  abbrev pub rekey_cell :
      Bytes
      → Bytes
      → RateLimiter
      → Fresh
      → List (Peer ts)
      → ℕ
      → Option (Peer ts)
      → Result (List (Peer ts))
  rekey_cell private public limiter fresh cells id none = ok cells
  rekey_cell private public limiter fresh cells id (some p) = do
    p' ← set_cell_key private public limiter fresh p
    ok (set cells id p')

  -- The loop over the values of `peers`
  unfoldable pub rekey_cells :
      Bytes
      → Bytes
      → RateLimiter
      → Fresh
      → List (Bytes × ℕ)
      → List (Peer ts)
      → Result (List (Peer ts))
  rekey_cells private public limiter fresh [] cells = ok cells
  rekey_cells private public limiter fresh ((key, id) ∷ rest) cells = do
    cells' ← rekey_cell private public limiter fresh cells id (get_elem? cells id)
    rekey_cells private public limiter fresh rest cells'

  abbrev pub is_own_key : Bytes → Option (Bytes × Bytes) → Bool
  is_own_key public none = false
  is_own_key public (some p) = bytes_eq public p.1

  unfoldable pub set_key : Device ts → Bytes → Fresh → Result (Device ts)
  set_key d private fresh =
      let public = c.public_key private in
      if is_own_key public d.key_pair then ok d else (do
        let limiter =
            RateLimiter.new c public handshake_rate_limit fresh.nonce_key fresh.secret_key fresh.now
        cells ← rekey_cells private public limiter fresh d.peers d.cells
        ok (record d {
          cells = cells;
          key_pair = some (private, public);
          rate_limiter = some limiter;
        }))
