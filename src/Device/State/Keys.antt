-- ===== src/Device/State/Keys.antt =====
-- `set_key` of boringtun/src/device/mod.rs.
use boringtun.Prelude.{
  ℕ, ◌≡◌, refl, sym, ap, List, [], ◌∷◌, some, ok, get_elem?, bind_ok, ok_injective, Option-cases,
  inl, inr, Bool-cases, ◌⊎◌,
}
use mathlib.Core.Path.{subst}
use boringtun.Bytes.{Bytes}
use boringtun.Crypto.{Crypto}
use boringtun.RateLimiter.{RateLimiter}
use boringtun.RateLimiter
use boringtun.Tunnel.State as Tunnel
use boringtun.Device.AllowedIps.{IpTables}
use boringtun.Device.Peer.{Peer}
use boringtun.Device.State.{
  Device, Fresh, handshake_rate_limit, set_key, set_cell_key, rekey_cell, rekey_cells, is_own_key,
}
use boringtun.Device.State.Consistent.{
  IsConsistent, KeepsIndices, KeepsIndices-trans, set-KeepsIndices, cells-IsConsistent,
}

module _ (c : Crypto) (ts : IpTables) (private public : Bytes) (limiter : RateLimiter)
    (fresh : Fresh) where
  set_cell_key-index :
      (p p' : Peer ts)
      → set_cell_key c ts private public limiter fresh p ≡ ok p'
      → p'.index ≡ p.index
  set_cell_key-index p p' h =
      let (t, made, e) =
        bind_ok
          (Tunnel.set_static_private c p.tunnel private public (some limiter) fresh.nonce_key
            fresh.secret_key fresh.now)
          _ h in
      sym (ap (λ (q : Peer ts). q.index) (ok_injective e))

  rekey_cell-KeepsIndices :
      (cells cells' : List (Peer ts)) (id : ℕ)
      → rekey_cell c ts private public limiter fresh cells id (get_elem? cells id) ≡ ok cells'
      → KeepsIndices cells cells'
  rekey_cell-KeepsIndices cells cells' id h = elim (Option-cases (get_elem? cells id)) [
    | inl absent ↦
        subst (KeepsIndices cells) (ok_injective (rw absent at h)) (λ i p e. (p, e, refl))
    | inr (p, here) ↦
        (let (p', made, e) =
            bind_ok (set_cell_key c ts private public limiter fresh p) _ (rw here at h) in
          subst (KeepsIndices cells) (ok_injective e)
            (set-KeepsIndices cells id p p' here (set_cell_key-index p p' made)))
  ]

  pub rekey_cells-KeepsIndices :
      (peers : List (Bytes × ℕ)) (cells cells' : List (Peer ts))
      → rekey_cells c ts private public limiter fresh peers cells ≡ ok cells'
      → KeepsIndices cells cells'
  unfolding rekey_cells
  rekey_cells-KeepsIndices [] cells cells' h =
      subst (KeepsIndices cells) (ok_injective h) (λ i p e. (p, e, refl))
  rekey_cells-KeepsIndices ((key, id) ∷ rest) cells cells' h =
      let (mid, first, later) =
        bind_ok (rekey_cell c ts private public limiter fresh cells id (get_elem? cells id)) _ h in
      KeepsIndices-trans cells mid cells' (rekey_cell-KeepsIndices cells mid id first)
        (rekey_cells-KeepsIndices rest mid cells' later)

-- The device that `set_key` makes
abbrev IsRekeyed : {ts : IpTables} → Device ts → Device ts → Type 0
IsRekeyed {ts} d d' =
    (d' ≡ d)
    ⊎ ((cells : List (Peer ts)) × (kp : Bytes × Bytes) × (limiter : RateLimiter) × KeepsIndices
          d.cells cells
        × (record d { cells = cells; key_pair = some kp; rate_limiter = some limiter } ≡ d'))

module _ (c : Crypto) (ts : IpTables) where
  set_key-IsRekeyed :
      (d d' : Device ts) (private : Bytes) (fresh : Fresh)
      → set_key c ts d private fresh ≡ ok d'
      → IsRekeyed d d'
  unfolding set_key
  set_key-IsRekeyed d d' private fresh h =
      elim (Bool-cases (is_own_key c ts (c.public_key private) d.key_pair)) [
        | inl e ↦ inl (sym (ok_injective (rw e at h)))
        | inr e ↦
            (let limiter =
                RateLimiter.new c (c.public_key private) handshake_rate_limit fresh.nonce_key
                  fresh.secret_key fresh.now in
              let (cells, rekeyed, same) =
                bind_ok
                  (rekey_cells c ts private (c.public_key private) limiter fresh d.peers d.cells) _
                  (rw e at h) in
              inr (
                cells,
                (private, c.public_key private),
                limiter,
                rekey_cells-KeepsIndices c ts private (c.public_key private) limiter fresh d.peers
                    d.cells cells rekeyed,
                ok_injective same,
              ))
      ]

  -- A new private key does not change the tables.
  pub set_key-IsConsistent :
      (d d' : Device ts) (private : Bytes) (fresh : Fresh)
      → IsConsistent ts d
      → set_key c ts d private fresh ≡ ok d'
      → IsConsistent ts d'
  set_key-IsConsistent d d' private fresh before h = elim (set_key-IsRekeyed d d' private fresh h) [
    | inl same ↦ subst (IsConsistent ts) (sym same) before
    | inr (cells, kp, limiter, kept, same) ↦
        subst (IsConsistent ts) same (rekeyed cells kp limiter kept)
  ]
    where
      rekeyed :
          (cells : List (Peer ts)) (kp : Bytes × Bytes) (limiter : RateLimiter)
          → KeepsIndices d.cells cells
          → IsConsistent ts
              (record d { cells = cells; key_pair = some kp; rate_limiter = some limiter })
      rekeyed cells kp limiter kept =
          let k = cells-IsConsistent d cells before kept in
          record { by_idx = k.by_idx; known = k.known; one_key = k.one_key; by_ip = k.by_ip }

  pub set_key-tables :
      (d d' : Device ts) (private : Bytes) (fresh : Fresh)
      → set_key c ts d private fresh ≡ ok d'
      → (d'.peers_by_idx ≡ d.peers_by_idx) × (d'.next_index ≡ d.next_index)
  set_key-tables d d' private fresh h = elim (set_key-IsRekeyed d d' private fresh h) [
    | inl same ↦
        (ap (λ (x : Device ts). x.peers_by_idx) same, ap (λ (x : Device ts). x.next_index) same)
    | inr (cells, kp, limiter, kept, same) ↦ (
      sym (ap (λ (x : Device ts). x.peers_by_idx) same),
      sym (ap (λ (x : Device ts). x.next_index) same),
    )
  ]
