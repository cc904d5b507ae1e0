-- ===== src/Device/Handlers/Dispatch.antt =====
-- The peer that a datagram goes to: the handler of the listening sockets of
-- boringtun/src/device/mod.rs.
use boringtun.Prelude.{
  ℕ, ◌/◌, ◌^◌, ◌≡◌, ◌↔◌, sym, ap, ◌∙◌, Option, none, some, ok, get_elem?, some_injective,
  ok_injective,
}
use mathlib.Core.Path.{subst}
use boringtun.Bytes.{Bytes}
use boringtun.Crypto.{Crypto}
use boringtun.Packet.{Packet, handshake_init, handshake_response, packet_cookie_reply, packet_data}
use boringtun.Device.Maps.{lookup, nat_key, bytes_key}
use boringtun.Device.AllowedIps.{IpTables}
use boringtun.Device.Peer.{Peer}
use boringtun.Device.State.{Device}
use boringtun.Device.State.Consistent.{IsConsistent}
use boringtun.Device.Handlers.{find_peer}

-- The index that a packet is addressed to, if it is no initiation
abbrev pub receiver : Packet → Option ℕ
receiver (handshake_init p) = none
receiver (handshake_response p) = some p.receiver_idx
receiver (packet_cookie_reply p) = some p.receiver_idx
receiver (packet_data p) = some p.receiver_idx

-- A peer of the device stands at the place and has the index.
abbrev pub IsPeer : {ts : IpTables} → Device ts → ℕ → ℕ → Type 0
IsPeer {ts} d id i =
    (key : Bytes) × (p : Peer ts) × (lookup d.peers key ≡ some id)
    × (get_elem? d.cells id ≡ some p)
    × (p.index ≡ i)

module _ (c : Crypto) (ts : IpTables) where
  by_receiver :
      (d : Device ts) (key_pair : Bytes × Bytes) (packet : Packet) (r : ℕ)
      → receiver packet ≡ some r
      → find_peer c ts d key_pair packet ≡ ok (lookup d.peers_by_idx (r / 2 ^ 8))
  unfolding find_peer
  by_receiver d key_pair (handshake_init p) r h = absurd cc
  by_receiver d key_pair (handshake_response p) r h =
      ap (λ (x : ℕ). ok (lookup d.peers_by_idx (x / 2 ^ 8))) (some_injective h)
  by_receiver d key_pair (packet_cookie_reply p) r h =
      ap (λ (x : ℕ). ok (lookup d.peers_by_idx (x / 2 ^ 8))) (some_injective h)
  by_receiver d key_pair (packet_data p) r h =
      ap (λ (x : ℕ). ok (lookup d.peers_by_idx (x / 2 ^ 8))) (some_injective h)

  index_of_place :
      (d : Device ts) (id i : ℕ)
      → IsConsistent ts d
      → IsPeer d id i
      → lookup d.peers_by_idx i ≡ some id
  index_of_place d id i agree (key, p, has_key, here, is_i) =
      let (q, here', found) = agree.known key id has_key in
      subst (λ j. lookup d.peers_by_idx j ≡ some id)
        (ap (λ (x : Peer ts). x.index) (some_injective (sym here' ∙ here)) ∙ is_i) found

  -- If the tables of the device agree and a packet is addressed to a receiver, then the peer found
  -- for it stands at a place exactly if a peer of the device stands there whose index is the upper
  -- 24 bits of the receiver.
  pub find_peer_iff :
      (d : Device ts) (key_pair : Bytes × Bytes) (packet : Packet) (r id : ℕ)
      → IsConsistent ts d
      → receiver packet ≡ some r
      → (find_peer c ts d key_pair packet ≡ ok (some id)) ↔ IsPeer d id (r / 2 ^ 8)
  find_peer_iff d key_pair packet r id agree addressed = (
    (λ found.
        agree.by_idx (r / 2 ^ 8) id
          (ok_injective (sym (by_receiver d key_pair packet r addressed) ∙ found))),
    (λ there.
        by_receiver d key_pair packet r addressed
        ∙ ap ok (index_of_place d id (r / 2 ^ 8) agree there)),
  )
