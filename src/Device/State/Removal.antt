-- ===== src/Device/State/Removal.antt =====
-- `remove_peer` and `clear_peers` of boringtun/src/device/mod.rs.
use boringtun.Prelude.{
  ℕ, ◌≡◌, ◌≢◌, refl, sym, ap, ◌∙◌, true, not, Option, none, some, ok, ◌>>=◌, ◌>>◌, get_elem?, set,
  ◌==◌, ==_iff, get_elem?-set_ne, Member, OnOk, on_ok, on_panic, of_ok, Option-cases, inl, inr,
  Bool-cases, ◌⊎◌, ok_injective, All-of_Member, some_injective, false_ne_true,
}
use mathlib.Core.Path.{subst}
use boringtun.Bytes.{Bytes}
use boringtun.Device.Maps.{lookup, remove, nat_key, bytes_key, lookup-remove, lookup-remove_ne}
use boringtun.Device.AllowedIps.{IpTables, IsTables}
use boringtun.Device.AllowedIps
use boringtun.Device.Peer.{Peer, Endpoint, Sockets, shutdown_endpoint, shut}
use boringtun.Device.State.{Device, remove_peer, remove_found, clear_peers}
use boringtun.Device.State.Consistent.{IsConsistent, IsPurged}

module _ (ts : IpTables) (laws : IsTables ts) where
  -- The device without the peer `p` at the place `id`
  abbrev pub without : Device ts → Bytes → ℕ → Peer ts → Endpoint → Device ts
  without d key id p e = record d {
    peers = remove d.peers key;
    peers_by_idx = remove d.peers_by_idx p.index;
    peers_by_ip = AllowedIps.remove ts d.peers_by_ip (λ q. id == q);
    cells = set d.cells id (record p { endpoint = e });
  }

  other_place : (id : ℕ) (q : ℕ) → not (id == q) ≡ true → id ≢ q
  other_place id q h e = false_ne_true (sym (ap not ((==_iff id q).1 e)) ∙ h)

  kept-Member :
      (d : Device ts) (key : Bytes) (id : ℕ) (p : Peer ts) (s : Endpoint) (e : ts.Network × ℕ)
      → Member e (ts.entries (without d key id p s).peers_by_ip.ips)
      → (id ≢ e.1) × Member e (ts.entries d.peers_by_ip.ips)
  unfolding AllowedIps.remove
  kept-Member d key id p s e m =
      let r = laws.entries-retain d.peers_by_ip.ips (λ _ v. not (id == v)) e m in
      (other_place id e.1 r.0, r.1)

  module _ (d : Device ts) (key : Bytes) (id : ℕ) (p : Peer ts) (s : Endpoint)
      (before : IsConsistent ts d) (has_key : lookup d.peers key ≡ some id)
      (has_cell : get_elem? d.cells id ≡ some p) where
    key_of : (other : Bytes) (id' : ℕ) → lookup d.peers other ≡ some id' → id ≢ id' → key ≢ other
    key_of other id' h ne same =
        ne (some_injective (sym has_key ∙ ap (λ k. lookup d.peers k) same ∙ h))

    index_known : lookup d.peers_by_idx p.index ≡ some id
    index_known =
        let (p', at_id, found) = before.known key id has_key in
        let same : p' ≡ p = some_injective (sym at_id ∙ has_cell) in
        subst (λ (q : Peer ts). lookup d.peers_by_idx q.index ≡ some id) same found

    by_idx :
        (i id' : ℕ)
        → lookup (without d key id p s).peers_by_idx i ≡ some id'
        → (k : Bytes) × (q : Peer ts) × (lookup (without d key id p s).peers k ≡ some id')
          × (get_elem? (without d key id p s).cells id' ≡ some q)
          × (q.index ≡ i)
    by_idx i id' h =
        let (ne, found) = lookup-remove d.peers_by_idx h in
        let (k, q, has_k, has_q, is_i) = before.by_idx i id' found in
        let apart : id ≢ id' = λ same. ne (same_index q i id' has_q is_i same) in
        (
          k,
          q,
          lookup-remove_ne d.peers (key_of k id' has_k apart) ∙ has_k,
          get_elem?-set_ne d.cells _ apart ∙ has_q,
          is_i,
        )
      where
        same_index :
            (q : Peer ts) (i id' : ℕ)
            → get_elem? d.cells id' ≡ some q
            → q.index ≡ i
            → id ≡ id'
            → p.index ≡ i
        same_index q i id' has_q is_i same = ap (λ (x : Peer ts). x.index) p_is_q ∙ is_i
          where
            p_is_q : p ≡ q
            p_is_q = some_injective (sym has_cell ∙ ap (get_elem? d.cells) same ∙ has_q)

    known :
        (k : Bytes) (id' : ℕ)
        → lookup (without d key id p s).peers k ≡ some id'
        → (q : Peer ts) × (get_elem? (without d key id p s).cells id' ≡ some q)
          × (lookup (without d key id p s).peers_by_idx q.index ≡ some id')
    known k id' h =
        let (ne, found) = lookup-remove d.peers h in
        let (q, has_q, by_index) = before.known k id' found in
        let apart : id ≢ id' =
          λ same. ne (before.one_key key k id' (has_key ∙ ap some same) found) in
        let other_index : p.index ≢ q.index = λ same.
          apart (
            some_injective (sym index_known ∙ ap (λ i. lookup d.peers_by_idx i) same ∙ by_index)) in
        (
          q,
          get_elem?-set_ne d.cells _ apart ∙ has_q,
          lookup-remove_ne d.peers_by_idx other_index ∙ by_index,
        )

    pub without-IsConsistent : IsConsistent ts (without d key id p s)
    without-IsConsistent = record {
      by_idx = by_idx;
      known = known;
      one_key = λ k k' id' h h'.
          before.one_key k k' id' (lookup-remove d.peers h).1 (lookup-remove d.peers h').1;
      by_ip = λ e m.
          (let (apart, old) = kept-Member d key id p s e m in
            let (k, has_k) = before.by_ip e old in
            (k, lookup-remove_ne d.peers (key_of k e.1 has_k apart) ∙ has_k));
    }

    pub without-IsPurged : IsPurged ts (without d key id p s) id
    without-IsPurged = (
      (λ k h.
          (let (ne, found) = lookup-remove d.peers h in
            ne (before.one_key key k id has_key found))),
      (λ i h.
          (let (ne, found) = lookup-remove d.peers_by_idx h in
            let (k, q, has_k, has_q, is_i) = before.by_idx i id found in
            ne (ap (λ (x : Peer ts). x.index) (some_injective (sym has_cell ∙ has_q)) ∙ is_i))),
      All-of_Member _ _ (λ e m. (kept-Member d key id p s e m).0),
    )

  removed-OnOk :
      (sockets : Sockets) (d : Device ts) (key : Bytes) (id : ℕ) (p : Peer ts)
      → OnOk
          (λ d'. (s : Endpoint) × (d' ≡ without d key id p s))
          (remove_found ts sockets d key id (some p))
  unfolding shutdown_endpoint
  removed-OnOk sockets d key id p = shut_or_not p.endpoint.conn
    where
      shut_or_not :
          (conn : Option ℕ)
          → OnOk
              (λ d'. (s : Endpoint) × (d' ≡ without d key id p s))
              ((shut sockets conn >> ok (record (p.endpoint) { conn = none })) >>= λ e.
                ok (without d key id p e))
      shut_or_not none = on_ok (_, refl)
      shut_or_not (some conn) = elim (Bool-cases (sockets.shutdown conn)) [
        | inl e ↦ rw e (on_ok (_, refl))
        | inr e ↦ rw e on_panic
      ]

  -- What `remove_peer` leaves: the device as it was, or the device without the peer.
  remove_peer-cases :
      (sockets : Sockets) (d : Device ts) (key : Bytes)
      → IsConsistent ts d
      → ((lookup d.peers key ≡ none) × (remove_peer ts sockets d key ≡ ok d))
        ⊎ ((id : ℕ) × (p : Peer ts) × (lookup d.peers key ≡ some id)
            × (get_elem? d.cells id ≡ some p)
            × OnOk
                (λ d'. (s : Endpoint) × (d' ≡ without d key id p s))
                (remove_peer ts sockets d key))
  unfolding remove_peer
  remove_peer-cases sockets d key before = elim (Option-cases (lookup d.peers key)) [
    | inl absent ↦ inl (absent, (rw absent refl))
    | inr found ↦
        (let (p, has_cell, by_index) = before.known key found.0 found.1 in
          inr (
            found.0,
            p,
            found.1,
            has_cell,
            (rw (found.1, has_cell) (removed-OnOk sockets d key found.0 p)),
          ))
  ]

  -- `remove_peer` keeps the tables of a device in agreement.
  pub remove_peer-IsConsistent :
      (sockets : Sockets) (d d' : Device ts) (key : Bytes)
      → IsConsistent ts d
      → remove_peer ts sockets d key ≡ ok d'
      → IsConsistent ts d'
  remove_peer-IsConsistent sockets d d' key before made =
      elim (remove_peer-cases sockets d key before) [
        | inl unknown ↦ subst (IsConsistent ts) (ok_injective (sym unknown.1 ∙ made)) before
        | inr (id, p, has_key, has_cell, outcome) ↦
            (let (s, e) = of_ok _ outcome made in
              subst (IsConsistent ts) (sym e)
                (without-IsConsistent d key id p s before has_key has_cell))
      ]

  -- If the tables of a device agree and a peer stands under a key, then after a `remove_peer` of the
  -- key that does not panic no table has this peer: not the peers by key, not those by index, and
  -- not those by address.
  pub remove_peer-purges :
      (sockets : Sockets) (d d' : Device ts) (key : Bytes) (id : ℕ)
      → IsConsistent ts d
      → lookup d.peers key ≡ some id
      → remove_peer ts sockets d key ≡ ok d'
      → IsPurged ts d' id
  remove_peer-purges sockets d d' key id before has_key made =
      elim (remove_peer-cases sockets d key before) [
        | inl unknown ↦ absurd (none_ne_some (sym unknown.0 ∙ has_key))
        | inr (id', p, has_key', has_cell, outcome) ↦
            (let (s, e) = of_ok _ outcome made in
              subst (IsPurged ts d') (some_injective (sym has_key' ∙ has_key)) (
                subst (λ b. IsPurged ts b id') (sym e)
                  (without-IsPurged d key id' p s before has_key' has_cell)))
      ]
    where
      none_ne_some : none ≡ some id → ⊥
      none_ne_some e = cc

  -- `clear_peers` leaves tables that agree: they are empty.
  pub clear_peers-IsConsistent : (d : Device ts) → IsConsistent ts (clear_peers ts d)
  unfolding clear_peers AllowedIps.clear
  clear_peers-IsConsistent d = record {
    by_idx = λ i id h. absurd (none_ne_some h);
    known = λ key id h. absurd (none_ne_some h);
    one_key = λ k k' id h h'. absurd (none_ne_some h);
    by_ip = λ e m. elim (subst (λ es. Member e es) laws.entries-empty m) [ ];
  }
    where
      none_ne_some : {n : ℕ} → none ≡ some n → ⊥
      none_ne_some e = cc

  pub remove_peer-tables :
      (sockets : Sockets) (d d' : Device ts) (key : Bytes)
      → IsConsistent ts d
      → remove_peer ts sockets d key ≡ ok d'
      → (d'.next_index ≡ d.next_index)
        × ((i id : ℕ) → lookup d'.peers_by_idx i ≡ some id → lookup d.peers_by_idx i ≡ some id)
  remove_peer-tables sockets d d' key before made = elim (remove_peer-cases sockets d key before) [
    | inl unknown ↦
        (let same : d ≡ d' = ok_injective (sym unknown.1 ∙ made) in
          (
            ap (λ (x : Device ts). x.next_index) (sym same),
            λ i id h. ap (λ (x : Device ts). lookup x.peers_by_idx i) same ∙ h,
          ))
    | inr (id, p, has_key, has_cell, outcome) ↦
        (let (s, e) = of_ok _ outcome made in
          (
            ap (λ (x : Device ts). x.next_index) e,
            λ i id' h.
                (lookup-remove d.peers_by_idx
                  (sym (ap (λ (x : Device ts). lookup x.peers_by_idx i) e) ∙ h)).1,
          ))
  ]
