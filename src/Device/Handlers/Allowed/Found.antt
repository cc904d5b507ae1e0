-- ===== src/Device/Handlers/Allowed/Found.antt =====
-- The results of `find_peer`, the dispatch in `register_udp_handler` of
-- boringtun/src/device/mod.rs.
use boringtun.Prelude.{
  ℕ, ◌/◌, ◌^◌, ok_injective, ◌≡◌, refl, Option, some, Result, ok, err, panic, OnOk, on_ok, on_panic,
}
use boringtun.Bytes.{Bytes}
use boringtun.Crypto.{Crypto}
use boringtun.Packet.{Packet, handshake_init, handshake_response, packet_cookie_reply, packet_data}
use boringtun.Handshake.Receive.{HalfHandshake, parse_handshake_anon}
use boringtun.RateLimiter.{RateLimiter}
use boringtun.Device.Maps.{lookup, nat_key, bytes_key}
use boringtun.Device.AllowedIps.{IpTables}
use boringtun.Device.State.{Device}
use boringtun.Device.Handlers.{by_sender, find_peer}

module _ (c : Crypto) (ts : IpTables) where
  -- The tables of the device name the place for the packet: the sender of an initiation stands there
  -- under its key, and the receiver of another packet by the upper 24 bits of its index.
  abbrev pub IsFor : Device ts → Bytes × Bytes → Packet → ℕ → Type 0
  IsFor d key_pair (handshake_init p) id =
      (hh : HalfHandshake) × (parse_handshake_anon c key_pair.0 key_pair.1 p ≡ ok hh)
      × (lookup d.peers hh.peer_static_public ≡ some id)
  IsFor d key_pair (handshake_response p) id =
      lookup d.peers_by_idx (p.receiver_idx / 2 ^ 8) ≡ some id
  IsFor d key_pair (packet_cookie_reply p) id =
      lookup d.peers_by_idx (p.receiver_idx / 2 ^ 8) ≡ some id
  IsFor d key_pair (packet_data p) id = lookup d.peers_by_idx (p.receiver_idx / 2 ^ 8) ≡ some id

  pub find_peer-IsFor :
      (d : Device ts) (key_pair : Bytes × Bytes) (packet : Packet) (id : ℕ)
      → find_peer c ts d key_pair packet ≡ ok (some id)
      → IsFor d key_pair packet id
  unfolding find_peer
  find_peer-IsFor d key_pair (handshake_init p) id found =
      by_half (parse_handshake_anon c key_pair.0 key_pair.1 p) found
    where
      by_half :
          (r : Result HalfHandshake)
          → by_sender c ts d r ≡ ok (some id)
          → (hh : HalfHandshake) × (r ≡ ok hh) × (lookup d.peers hh.peer_static_public ≡ some id)
      by_half (ok hh) h = (hh, refl, ok_injective h)
      by_half (err e) h = absurd cc
      by_half panic h = absurd cc
  find_peer-IsFor d key_pair (handshake_response p) id found = ok_injective found
  find_peer-IsFor d key_pair (packet_cookie_reply p) id found = ok_injective found
  find_peer-IsFor d key_pair (packet_data p) id found = ok_injective found

  pub find_peer-OnOk :
      (d : Device ts) (key_pair : Bytes × Bytes) (packet : Packet)
      → OnOk (λ (_ : Option ℕ). Unit {0}) (find_peer c ts d key_pair packet)
  unfolding find_peer
  find_peer-OnOk d key_pair (handshake_init p) =
      by_half (parse_handshake_anon c key_pair.0 key_pair.1 p)
    where
      by_half : (r : Result HalfHandshake) → OnOk (λ (_ : Option ℕ). Unit {0}) (by_sender c ts d r)
      by_half (ok hh) = on_ok tt
      by_half (err e) = on_ok tt
      by_half panic = on_panic
  find_peer-OnOk d key_pair (handshake_response p) = on_ok tt
  find_peer-OnOk d key_pair (packet_cookie_reply p) = on_ok tt
  find_peer-OnOk d key_pair (packet_data p) = on_ok tt

  -- The result of `find_peer`, if it has one
  pub find_peer-found :
      (d : Device ts) (key_pair : Bytes × Bytes) (packet : Packet)
      → OnOk
          (λ (peer : Option ℕ). find_peer c ts d key_pair packet ≡ ok peer)
          (find_peer c ts d key_pair packet)
  find_peer-found d key_pair packet =
      kept (find_peer c ts d key_pair packet) (find_peer-OnOk d key_pair packet)
    where
      kept :
          (r : Result (Option ℕ))
          → OnOk (λ (_ : Option ℕ). Unit {0}) r
          → OnOk (λ (peer : Option ℕ). r ≡ ok peer) r
      kept (ok peer) h = on_ok refl
      kept (err e) h = elim h [ ]
      kept panic h = on_panic

  -- `find_peer` does not read the limiter.
  pub find_peer-counted :
      (d : Device ts) (rl : RateLimiter) (key_pair : Bytes × Bytes) (packet : Packet)
      → find_peer c ts (record d { rate_limiter = some rl }) key_pair packet
        ≡ find_peer c ts d key_pair packet
  unfolding find_peer
  find_peer-counted d rl key_pair (handshake_init p) =
      by_half (parse_handshake_anon c key_pair.0 key_pair.1 p)
    where
      by_half :
          (r : Result HalfHandshake)
          → by_sender c ts (record d { rate_limiter = some rl }) r ≡ by_sender c ts d r
      by_half (ok hh) = refl
      by_half (err e) = refl
      by_half panic = refl
  find_peer-counted d rl key_pair (handshake_response p) = refl
  find_peer-counted d rl key_pair (packet_cookie_reply p) = refl
  find_peer-counted d rl key_pair (packet_data p) = refl
