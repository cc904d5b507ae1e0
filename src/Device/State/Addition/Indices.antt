-- ===== src/Device/State/Addition/Indices.antt =====
-- The indices of the peers that `update_peer` of boringtun/src/device/mod.rs adds.
use boringtun.Prelude.{
  ℕ, suc, ◌≡◌, ◌≢◌, refl, sym, Bool, true, false, not, List, [], ◌∷◌, ◌++◌, Option, none, some, map,
  ok, ◌>>◌, assert, length, Member, at_head, in_tail, OnOk, on_ok, on_panic, OnOk-bind, All, inl,
  inr, Option-cases, OnOk-of_IsOk, OnOk-known, ◌==◌,
}
use mathlib.Core.Path.{subst}
use boringtun.Bytes.{Bytes}
use boringtun.Crypto.{Crypto}
use boringtun.Device.Lfsr.{IndexLfsr, next, next_n, default, shifted}
use boringtun.Device.Lfsr.Distinct.{indices-IsDistinct}
use boringtun.Device.Maps.{lookup, insert, nat_key, bytes_key, lookup-insert}
use boringtun.Device.AllowedIps.{IpTables, IsTables, AllowedIp}
use boringtun.Device.Peer.{SocketAddr, Sockets}
use boringtun.Device.Peer.Routes.{IsFitting, insert_all-IsOk, new-IsOk}
use boringtun.Device.State.{Device, update_peer, add_peer, Fresh}
use boringtun.Device.State.Consistent.{IsConsistent}
use boringtun.Device.State.Addition.{with_peer-IsConsistent}

-- The indices in use are among the numbers that the register has given away.
abbrev pub HasDrawn : (ts : IpTables) → IndexLfsr → Device ts → Type 0
HasDrawn ts first d =
    (n : ℕ) × (values : List ℕ) × (next_n n first ≡ ok (d.next_index, values))
    × ((i id : ℕ) → lookup d.peers_by_idx i ≡ some id → Member i values)

next-OnOk : (g : IndexLfsr) → OnOk (λ _. Unit {0}) (next g)
unfolding next
next-OnOk g = checked (shifted g.lfsr == g.initial) _
  where
    checked : {A : Type 0} (b : Bool) (a : A) → OnOk (λ (_ : A). Unit {0}) (assert (not b) >> ok a)
    checked true a = on_panic
    checked false a = on_ok tt

next_n-suc :
    (n : ℕ) (first g g' : IndexLfsr) (values : List ℕ) (v : ℕ)
    → next_n n first ≡ ok (g, values)
    → next g ≡ ok (g', v)
    → next_n (suc n) first ≡ ok (g', v ∷ values)
unfolding next_n
next_n-suc n first g g' values v before now = rw (before, now) refl

All-Member : {A : Type 0} (P : A → Type 0) (xs : List A) (x : A) → All P xs → Member x xs → P x
All-Member P [] x h m = elim m [ ]
All-Member P (y ∷ xs) x h (at_head e) = subst P (sym e) h.0
All-Member P (y ∷ xs) x h (in_tail m) = All-Member P xs x h.1 m

tagged_place :
    (ips : List AllowedIp) (id : ℕ) (ip : AllowedIp) (place : ℕ)
    → Member {A = AllowedIp × ℕ} (ip, place) (map (λ x. (x, id)) ips)
    → place ≡ id
tagged_place [] id ip place m = elim m [ ]
tagged_place (x ∷ ips) id ip place (at_head e) = λ i. (e i).1
tagged_place (x ∷ ips) id ip place (in_tail m) = tagged_place ips id ip place m

All-tagged :
    (ips : List AllowedIp) (id : ℕ)
    → All IsFitting ips
    → All (λ (item : AllowedIp × ℕ). IsFitting item.0) (map (λ x. (x, id)) ips)
All-tagged [] id h = tt
All-tagged (x ∷ ips) id h = (h.0, All-tagged ips id h.1)

module _ (c : Crypto) (ts : IpTables) (laws : IsTables ts) (draws : List ℕ) (first : IndexLfsr)
    (begun : default draws ≡ some first) where
  -- The next number is no index in use.
  next_index-new :
      (d : Device ts) (g : IndexLfsr) (v : ℕ)
      → HasDrawn ts first d
      → next d.next_index ≡ ok (g, v)
      → lookup d.peers_by_idx v ≡ none
  next_index-new d g v (n, values, drawn, used) now =
      elim (Option-cases (lookup d.peers_by_idx v)) [
        | inl free ↦ free
        | inr taken ↦
            (let distinct =
                indices-IsDistinct draws (suc n) begun
                  (next_n-suc n first d.next_index g values v drawn now) in
              absurd (All-Member (λ y. v ≢ y) values v distinct.0.0 (used v taken.0 taken.1) refl))
      ]

  abbrev Goal : Device ts → Type 0
  Goal d = IsConsistent ts d × HasDrawn ts first d

  drawn_more :
      (d : Device ts) (g : IndexLfsr) (v : ℕ)
      → HasDrawn ts first d
      → next d.next_index ≡ ok (g, v)
      → (n : ℕ) × (values : List ℕ) × (next_n n first ≡ ok (g, v ∷ values))
        × ((i id : ℕ) → lookup d.peers_by_idx i ≡ some id → Member i values)
  drawn_more d g v (n, values, drawn, used) now =
      (suc n, values, next_n-suc n first d.next_index g values v drawn now, used)

  add_peer-OnOk :
      (d : Device ts) (key : Bytes) (endpoint : Option SocketAddr) (ips : List AllowedIp)
      (keepalive : Option ℕ) (psk : Option Bytes) (fresh : Fresh) (g : IndexLfsr) (v : ℕ)
      (key_pair : Option (Bytes × Bytes))
      → All IsFitting ips
      → Goal d
      → lookup d.peers key ≡ none
      → next d.next_index ≡ ok (g, v)
      → OnOk Goal (
          add_peer c ts
            (record d { next_index = g })
            key
            endpoint
            ips
            keepalive
            psk
            fresh
            v
            key_pair)
  add_peer-OnOk d key endpoint ips keepalive psk fresh g v none fit (before, had) absent now =
      let (n, values, drawn, used) = drawn_more d g v had now in
      on_ok (
        record {
          by_idx = before.by_idx;
          known = before.known;
          one_key = before.one_key;
          by_ip = before.by_ip;
        },
        (n, v ∷ values, drawn, λ i id h. in_tail (used i id h)),
      )
  add_peer-OnOk d key endpoint ips keepalive psk fresh g v (some kp) fit (before, had) absent now =
      let (n, values, drawn, used) = drawn_more d g v had now in
      let free = next_index-new d g v had now in
      let d₁ : Device ts = record d { next_index = g } in
      let before₁ : IsConsistent ts d₁ = record {
        by_idx = before.by_idx;
        known = before.known;
        one_key = before.one_key;
        by_ip = before.by_ip;
      } in
      OnOk-bind _ _ (OnOk-of_IsOk (new-IsOk ts laws _ v endpoint ips psk fit)) (λ p made.
        OnOk-bind _ _
          (OnOk-of_IsOk (
            insert_all-IsOk ts laws d.peers_by_ip (map (λ ip. (ip, length d.cells)) ips)
              (All-tagged ips (length d.cells) fit)))
          (λ by_ip routed. on_ok (
            subst
                (λ (i : ℕ). IsConsistent ts (record d₁ {
                  peers = insert d.peers key (length d.cells);
                  peers_by_idx = insert d.peers_by_idx i (length d.cells);
                  peers_by_ip = by_ip;
                  cells = d.cells ++ (p ∷ []);
                }))
                made.0
                (with_peer-IsConsistent ts d₁ key p by_ip before₁ absent
                  (subst (λ i. lookup d.peers_by_idx i ≡ none) (sym made.0) free)
                  (λ e m. elim (routed e m) [
                    | inl (ip, place, found) ↦ inl (tagged_place ips (length d.cells) ip e.1 place)
                    | inr old ↦ inr old
                  ])),
            (
              n,
              v ∷ values,
              drawn,
              λ i id h. elim (lookup-insert d.peers_by_idx h) [
                | inl same ↦ at_head (sym same.0)
                | inr old ↦ in_tail (used i id old.1)
              ],
            ),
          )))

  -- A peer that is added keeps the tables in agreement.
  pub update_peer-OnOk :
      (sockets : Sockets) (d : Device ts) (key : Bytes) (endpoint : Option SocketAddr)
      (ips : List AllowedIp) (keepalive : Option ℕ) (psk : Option Bytes) (fresh : Fresh)
      → All IsFitting ips
      → IsConsistent ts d × HasDrawn ts first d
      → OnOk
          (λ d'. IsConsistent ts d' × HasDrawn ts first d')
          (update_peer c ts sockets d key false endpoint ips keepalive psk fresh)
  unfolding update_peer
  update_peer-OnOk sockets d key endpoint ips keepalive psk fresh fit before =
      elim (Option-cases (lookup d.peers key)) [
        | inl absent ↦ rw absent (
            OnOk-bind _ _ (OnOk-known _ (next-OnOk d.next_index)) (λ drawn now.
              add_peer-OnOk d key endpoint ips keepalive psk fresh drawn.0 drawn.1 d.key_pair fit
                before absent now))
        | inr present ↦ rw (present.1) on_panic
      ]
