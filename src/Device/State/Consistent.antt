-- ===== src/Device/State/Consistent.antt =====
-- The tables of a device of boringtun/src/device/mod.rs agree.
use boringtun.Prelude.{
  ℕ, ◌≡◌, ◌≢◌, refl, sym, ap, ◌∙◌, List, some, get_elem?, set, Member, All, Bool-cases, inl, inr,
  ◌==◌, ==_iff, some_injective, false_ne_true, get_elem?-set_self, get_elem?-set_ne, get_elem?-lt,
}
use mathlib.Core.Path.{subst}
use boringtun.Bytes.{Bytes}
use boringtun.Device.Maps.{lookup, nat_key, bytes_key}
use boringtun.Device.AllowedIps.{IpTables}
use boringtun.Device.Peer.{Peer}
use boringtun.Device.State.{Device}

-- `peers` and `peers_by_idx` hold the same places, each under one key and under the peer's index,
-- and `peers_by_ip` holds no other places.
pub record IsConsistent (ts : IpTables) (d : Device ts) : Type 0 where
  pub by_idx :
      (i id : ℕ)
      → lookup d.peers_by_idx i ≡ some id
      → (key : Bytes) × (p : Peer ts) × (lookup d.peers key ≡ some id)
        × (get_elem? d.cells id ≡ some p)
        × (p.index ≡ i)
  pub known :
      (key : Bytes) (id : ℕ)
      → lookup d.peers key ≡ some id
      → (p : Peer ts) × (get_elem? d.cells id ≡ some p) × (lookup d.peers_by_idx p.index ≡ some id)
  pub one_key :
      (key key' : Bytes) (id : ℕ)
      → lookup d.peers key ≡ some id
      → lookup d.peers key' ≡ some id
      → key ≡ key'
  pub by_ip :
      (e : ts.Network × ℕ)
      → Member e (ts.entries d.peers_by_ip.ips)
      → (key : Bytes) × (lookup d.peers key ≡ some e.1)

-- No table has the place.
abbrev pub IsPurged : (ts : IpTables) → Device ts → ℕ → Type 0
IsPurged ts d id =
    ((k : Bytes) → lookup d.peers k ≢ some id)
    × ((i : ℕ) → lookup d.peers_by_idx i ≢ some id)
    × All (λ (e : ts.Network × ℕ). id ≢ e.1) (ts.entries d.peers_by_ip.ips)

-- Each peer stays at its place and keeps its index.
abbrev pub KeepsIndices : {ts : IpTables} → List (Peer ts) → List (Peer ts) → Type 0
KeepsIndices {ts} cells cells' =
    (id : ℕ) (p : Peer ts)
    → get_elem? cells id ≡ some p
    → (p' : Peer ts) × (get_elem? cells' id ≡ some p') × (p'.index ≡ p.index)

pub KeepsIndices-trans :
    {ts : IpTables} (xs ys zs : List (Peer ts))
    → KeepsIndices xs ys
    → KeepsIndices ys zs
    → KeepsIndices xs zs
KeepsIndices-trans xs ys zs h k id p e =
    let (q, at_q, same) = h id p e in let (r, at_r, same') = k id q at_q in (r, at_r, same' ∙ same)

pub set-KeepsIndices :
    {ts : IpTables} (cells : List (Peer ts)) (id : ℕ) (p p' : Peer ts)
    → get_elem? cells id ≡ some p
    → p'.index ≡ p.index
    → KeepsIndices cells (set cells id p')
set-KeepsIndices {ts} cells id p p' at_p same id' q at_q = elim (Bool-cases (id == id')) [
  | inl e ↦
      (let here : id ≡ id' = (==_iff id id').0 e in
        let p_is_q : p ≡ q = some_injective (sym at_p ∙ ap (get_elem? cells) here ∙ at_q) in
        (
          p',
          subst (λ (x : ℕ). get_elem? (set cells id p') x ≡ some p') here
              (get_elem?-set_self cells id p' (get_elem?-lt cells id at_p)),
          same ∙ ap (λ (x : Peer ts). x.index) p_is_q,
        ))
  | inr e ↦ (
    q,
    get_elem?-set_ne cells p' (λ here. false_ne_true (sym e ∙ (==_iff id id').1 here)) ∙ at_q,
    refl,
  )
]

-- New contents of the peers do not matter to the tables.
pub cells-IsConsistent :
    {ts : IpTables} (d : Device ts) (cells : List (Peer ts))
    → IsConsistent ts d
    → KeepsIndices d.cells cells
    → IsConsistent ts (record d { cells = cells })
cells-IsConsistent d cells before kept = record {
  by_idx = λ i id h.
      (let (k, p, has_k, has_p, is_i) = before.by_idx i id h in
        let (p', has_p', same) = kept id p has_p in (k, p', has_k, has_p', same ∙ is_i));
  known = λ k id h.
      (let (p, has_p, found) = before.known k id h in
        let (p', has_p', same) = kept id p has_p in
        (p', has_p', ap (λ i. lookup d.peers_by_idx i) same ∙ found));
  one_key = before.one_key;
  by_ip = before.by_ip;
}
