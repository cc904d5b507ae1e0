-- ===== src/Device/State/Addition.antt =====
-- A peer that `update_peer` of boringtun/src/device/mod.rs adds.
pub mod Indices
use boringtun.Prelude.{
  ℕ, ◌<◌, ◌≡◌, ◌≢◌, refl, sym, ap, ◌∙◌, arith, Bool, true, false, List, [], ◌∷◌, ◌++◌, Option, none,
  some, map, Result, ok, err, panic, ◌>>=◌, ◌>>◌, assert, length, get_elem?, get_elem?-append_new,
  get_elem?-append_old, get_elem?-lt, Member, at_head, in_tail, OnOk, on_ok, on_panic, OnOk-bind,
  of_ok, IsOk, is_ok, All, ◌⊎◌, inl, inr, some_injective, Option-cases,
}
use mathlib.Core.Path.{subst}
use boringtun.Bytes.{Bytes}
use boringtun.Crypto.{Crypto}
use boringtun.Device.Lfsr.{IndexLfsr, next}
use boringtun.Device.Maps.{
  lookup, insert, nat_key, bytes_key, lookup-insert, lookup-insert_self, lookup-insert_ne,
}
use boringtun.Device.AllowedIps.{IpTables, IsTables, AllowedIps, AllowedIp, insert_all}
use boringtun.Device.Peer.{Peer, SocketAddr, Sockets}
use boringtun.Device.Peer.Routes.{IsFitting, IsFrom, insert_all-IsOk, new-IsOk}
use boringtun.Device.State.{Device, update_peer, add_peer, is_absent, Fresh}
use boringtun.Device.State.Consistent.{IsConsistent}

module _ (ts : IpTables) where
  -- The device with the peer `p` at a new place
  abbrev pub with_peer : Device ts → Bytes → Peer ts → AllowedIps ts ℕ → Device ts
  with_peer d key p by_ip = record d {
    peers = insert d.peers key (length d.cells);
    peers_by_idx = insert d.peers_by_idx p.index (length d.cells);
    peers_by_ip = by_ip;
    cells = d.cells ++ (p ∷ []);
  }

  module _ (d : Device ts) (key : Bytes) (p : Peer ts) (by_ip' : AllowedIps ts ℕ)
      (before : IsConsistent ts d) (new_key : lookup d.peers key ≡ none)
      (new_index : lookup d.peers_by_idx p.index ≡ none)
      (routed : (e : ts.Network × ℕ)
        → Member e (ts.entries by_ip'.ips)
        → (e.1 ≡ length d.cells) ⊎ Member e (ts.entries d.peers_by_ip.ips)) where
    abbrev after : Device ts
    after = with_peer d key p by_ip'

    -- A place in use is an old one.
    old_place : (k : Bytes) (id : ℕ) → lookup d.peers k ≡ some id → id ≢ length d.cells
    old_place k id h e = too_large (get_elem?-lt d.cells id (before.known k id h).1) e
      where
        too_large : id < length d.cells → id ≡ length d.cells → ⊥
        too_large lt same = omega arith

    old_key : (k : Bytes) (id : ℕ) → lookup d.peers k ≡ some id → key ≢ k
    old_key k id h same = none_ne_some (sym new_key ∙ ap (λ x. lookup d.peers x) same ∙ h)
      where
        none_ne_some : none ≡ some id → ⊥
        none_ne_some e = cc

    old_index : (i id : ℕ) → lookup d.peers_by_idx i ≡ some id → p.index ≢ i
    old_index i id h same =
        none_ne_some (sym new_index ∙ ap (λ x. lookup d.peers_by_idx x) same ∙ h)
      where
        none_ne_some : none ≡ some id → ⊥
        none_ne_some e = cc

    still : (k : Bytes) (id : ℕ) → lookup d.peers k ≡ some id → lookup after.peers k ≡ some id
    still k id h = lookup-insert_ne d.peers (length d.cells) (old_key k id h) ∙ h

    at_new : get_elem? after.cells (length d.cells) ≡ some p
    at_new = get_elem?-append_new d.cells p

    by_idx :
        (i id : ℕ)
        → lookup after.peers_by_idx i ≡ some id
        → (k : Bytes) × (q : Peer ts) × (lookup after.peers k ≡ some id)
          × (get_elem? after.cells id ≡ some q)
          × (q.index ≡ i)
    by_idx i id h = elim (lookup-insert d.peers_by_idx h) [
      | inl (is_i, is_id) ↦ (
        key,
        p,
        lookup-insert_self d.peers key (length d.cells) ∙ ap some is_id,
        subst (λ (x : ℕ). get_elem? after.cells x ≡ some p) is_id at_new,
        is_i,
      )
      | inr (ne, found) ↦
          (let (k, q, has_k, has_q, is_i) = before.by_idx i id found in
            (k, q, still k id has_k, get_elem?-append_old d.cells _ id has_q, is_i))
    ]

    known :
        (k : Bytes) (id : ℕ)
        → lookup after.peers k ≡ some id
        → (q : Peer ts) × (get_elem? after.cells id ≡ some q)
          × (lookup after.peers_by_idx q.index ≡ some id)
    known k id h = elim (lookup-insert d.peers h) [
      | inl (same, is_id) ↦ (
        p,
        subst (λ (x : ℕ). get_elem? after.cells x ≡ some p) is_id at_new,
        lookup-insert_self d.peers_by_idx p.index (length d.cells) ∙ ap some is_id,
      )
      | inr (ne, found) ↦
          (let (q, has_q, at_index) = before.known k id found in
            (
              q,
              get_elem?-append_old d.cells _ id has_q,
              lookup-insert_ne d.peers_by_idx (length d.cells) (old_index q.index id at_index)
                  ∙ at_index,
            ))
    ]

    one_key :
        (k k' : Bytes) (id : ℕ)
        → lookup after.peers k ≡ some id
        → lookup after.peers k' ≡ some id
        → k ≡ k'
    one_key k k' id h h' = elim (lookup-insert d.peers h) [
      | inl (same, is_id) ↦ elim (lookup-insert d.peers h') [
        | inl (same', is_id') ↦ sym same ∙ same'
        | inr (ne, found) ↦ absurd (old_place k' id found (sym is_id))
      ]
      | inr (ne, found) ↦ elim (lookup-insert d.peers h') [
        | inl (same', is_id') ↦ absurd (old_place k id found (sym is_id'))
        | inr (ne', found') ↦ before.one_key k k' id found found'
      ]
    ]

    pub with_peer-IsConsistent : IsConsistent ts after
    with_peer-IsConsistent = record {
      by_idx = by_idx;
      known = known;
      one_key = one_key;
      by_ip = λ e m. elim (routed e m) [
        | inl new ↦ (key, lookup-insert_self d.peers key (length d.cells) ∙ ap some (sym new))
        | inr old ↦ (let (k, has_k) = before.by_ip e old in (k, still k e.1 has_k))
      ];
    }
