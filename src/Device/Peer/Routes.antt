-- ===== src/Device/Peer/Routes.antt =====
-- The allowed addresses of a peer of boringtun/src/device/peer.rs.
use mathlib.Core.Path.{subst}
use boringtun.Prelude.{
  ℕ, ◌%◌, ◌^◌, ◌≤◌, ◌≡◌, ◌⊎◌, refl, sym, ap, ◌∙◌, arith, Bool, true, false, List, [], ◌∷◌, Option,
  none, some, map, ok, All, IsOk, is_ok, IsOk-bind, leb, leb→le, inl, inr, Member, at_head, in_tail,
  if◌then◌else◌, Option-cases, IsOk-map, is_ok_of, Member-weaken,
}
use boringtun.Bytes.{Bytes}
use boringtun.Packet.{IpAddr, v4, v6}
use boringtun.Device.AllowedIps.{
  IpTables, IsTables, AllowedIps, AllowedIp, insert, insert_all, from_iter, inserted_at, find,
  data_of,
}
use boringtun.Device.AllowedIps
use boringtun.Device.Peer.{
  fitting, from_str, two_parts, split, Peer, is_allowed_ip, is_some_unit, SocketAddr,
}
use boringtun.Device.Peer
use boringtun.Tunnel.State.{Tunn}

abbrev pub Fits : IpAddr → ℕ → Type 0
Fits (v4 octets) cidr = cidr ≤ 32
Fits (v6 octets) cidr = cidr ≤ 128

-- The prefix is no longer than the address.
abbrev pub IsFitting : AllowedIp → Type 0
IsFitting ip = Fits ip.addr ip.cidr

abbrev pub AllFit : Option AllowedIp → Type 0
AllFit none = Unit
AllFit (some ip) = IsFitting ip

if-AllFit :
    (b : Bool) (ip : AllowedIp) → (b ≡ true → IsFitting ip) → AllFit (if b then some ip else none)
if-AllFit true ip h = h refl
if-AllFit false ip h = tt

fitting-AllFit : (addr : Option IpAddr) (cidr : Option ℕ) → AllFit (fitting addr cidr)
fitting-AllFit (some (v4 octets)) (some cidr) = if-AllFit (leb cidr 32) _ (leb→le cidr 32)
fitting-AllFit (some (v6 octets)) (some cidr) = if-AllFit (leb cidr 128) _ (leb→le cidr 128)
fitting-AllFit (some (v4 octets)) none = tt
fitting-AllFit (some (v6 octets)) none = tt
fitting-AllFit none cidr = tt

pub from_str-AllFit :
    (parse_ip : Bytes → Option IpAddr) (parse_u8 : Bytes → Option ℕ) (s : Bytes)
    → AllFit (from_str parse_ip parse_u8 s)
unfolding from_str
from_str-AllFit parse_ip parse_u8 s = parts (split s 47)
  where
    parts : (ps : List Bytes) → AllFit (two_parts parse_ip parse_u8 ps)
    parts [] = tt
    parts (ip ∷ []) = tt
    parts (ip ∷ cidr ∷ []) = fitting-AllFit (parse_ip ip) (parse_u8 cidr)
    parts (ip ∷ cidr ∷ more ∷ ps) = tt

module _ (ts : IpTables) (laws : IsTables ts) where
  truncated :
      (addr : IpAddr) (cidr : ℕ)
      → Fits addr cidr
      → (n : ts.Network) × (ts.new_truncate addr cidr ≡ some n)
  truncated (v4 octets) cidr h = laws.new_truncate-v4 octets cidr h
  truncated (v6 octets) cidr h = laws.new_truncate-v6 octets cidr h

  as_u8 : (addr : IpAddr) (cidr : ℕ) → Fits addr cidr → cidr % 2 ^ 8 ≡ cidr
  as_u8 (v4 octets) cidr h = omega arith
  as_u8 (v6 octets) cidr h = omega arith

  -- The entry comes from one of the items.
  abbrev pub IsFrom : {D : Type 0} → List (AllowedIp × D) → ts.Network × D → Type 0
  IsFrom items e =
      (ip : AllowedIp) × Member (ip, e.1) items × (ts.new_truncate ip.addr ip.cidr ≡ some e.0)

  pub insert-IsOk :
      {D : Type 0} (a : AllowedIps ts D) (ip : AllowedIp) (d : D)
      → IsFitting ip
      → IsOk
          (λ r.
            (e : ts.Network × D)
            → Member e (ts.entries r.0.ips)
            → IsFrom ((ip, d) ∷ []) e ⊎ Member e (ts.entries a.ips))
          (insert ts a ip.addr ip.cidr d)
  unfolding insert
  insert-IsOk {D} a ip d h =
      let (n, found) = truncated ip.addr ip.cidr h in
      rw (as_u8 ip.addr ip.cidr h, found)
        (is_ok (λ e m. elim (laws.entries-insert a.ips n d e m) [
          | inl same ↦ inl (ip, at_head (λ i. (ip, (same i).1)), found ∙ (λ i. some (sym same i).0))
          | inr before ↦ inr before
        ]))

  pub insert_all-IsOk :
      {D : Type 0} (a : AllowedIps ts D) (items : List (AllowedIp × D))
      → All (λ (item : AllowedIp × D). IsFitting item.0) items
      → IsOk
          (λ r.
            (e : ts.Network × D)
            → Member e (ts.entries r.ips)
            → IsFrom items e ⊎ Member e (ts.entries a.ips))
          (insert_all ts a items)
  unfolding insert_all
  insert_all-IsOk a [] h = is_ok (λ e m. inr m)
  insert_all-IsOk a ((ip, d) ∷ rest) h =
      IsOk-bind (insert ts a ip.addr ip.cidr d) _ (insert-IsOk a ip d h.0) (λ r first.
        IsOk-map _ (insert_all-IsOk r.0 rest h.1) (λ b later e m. elim (later e m) [
          | inl (ip', at_place, found) ↦ inl (ip', in_tail at_place, found)
          | inr n ↦ elim (first e n) [
            | inl (ip', at_place, found) ↦ inl (ip', Member-weaken at_place, found)
            | inr before ↦ inr before
          ]
        ]))

  -- One of the networks contains the address.
  abbrev pub IsCovered : List AllowedIp → IpAddr → Type 0
  IsCovered ips addr =
      (ip : AllowedIp) × Member ip ips
      × (n : ts.Network) × (ts.new_truncate ip.addr ip.cidr ≡ some n)
      × (ts.contains n addr ≡ true)

  Member-untagged :
      (ips : List AllowedIp) (ip : AllowedIp) (u : Unit {0})
      → Member {A = AllowedIp × Unit {0}} (ip, u) (map (λ x. (x, tt)) ips)
      → Member ip ips
  Member-untagged [] ip u m = elim m [ ]
  Member-untagged (x ∷ ips) ip u (at_head e) = at_head (λ i. (e i).0)
  Member-untagged (x ∷ ips) ip u (in_tail m) = in_tail (Member-untagged ips ip u m)

  All-tagged :
      (ips : List AllowedIp)
      → All IsFitting ips
      → All (λ (item : AllowedIp × Unit {0}). IsFitting item.0) (map (λ x. (x, tt)) ips)
  All-tagged [] h = tt
  All-tagged (x ∷ ips) h = (h.0, All-tagged ips h.1)

  allowed-Member :
      (p : Peer ts) (addr : IpAddr)
      → is_allowed_ip ts p addr ≡ true
      → (e : ts.Network × Unit {0}) × (ts.contains e.0 addr ≡ true)
        × Member e (ts.entries p.allowed_ips.ips)
  unfolding is_allowed_ip find
  allowed-Member p addr h = elim (Option-cases (ts.longest_match p.allowed_ips.ips addr)) [
    | inl e ↦ absurd (refused e)
    | inr found ↦
        (let m = laws.longest_match-Member p.allowed_ips.ips addr found.0 found.1 in
          (found.0, m.0, m.1))
  ]
    where
      refused : ts.longest_match p.allowed_ips.ips addr ≡ none → ⊥
      refused e = false_ne_true (sym (ap (λ o. Peer.is_some_unit ts (data_of ts o)) e) ∙ h)
        where
          false_ne_true : false ≡ true → ⊥
          false_ne_true q = cc

  not_empty :
      (e : ts.Network × Unit {0}) → Member e (ts.entries (AllowedIps.new ts {D = Unit {0}}).ips) → ⊥
  unfolding AllowedIps.new
  not_empty e m = elim (subst (λ es. Member e es) laws.entries-empty m) [ ]

  abbrev Allows : List AllowedIp → AllowedIps ts (Unit {0}) → Type 0
  Allows ips table =
      (addr : IpAddr) (e : ts.Network × Unit {0})
      → (ts.contains e.0 addr ≡ true) × Member e (ts.entries table.ips)
      → IsCovered ips addr

  from_iter-IsOk :
      (ips : List AllowedIp)
      → All IsFitting ips
      → IsOk (Allows ips) (from_iter ts (map (λ ip. (ip, tt)) ips))
  unfolding from_iter
  from_iter-IsOk ips h =
      IsOk-map _ (insert_all-IsOk (AllowedIps.new ts) (map (λ x. (x, tt)) ips) (All-tagged ips h))
        (λ table made addr e m. elim (made e m.1) [
          | inl (ip, place, found) ↦ (ip, Member-untagged ips ip e.1 place, e.0, found, m.0)
          | inr none_yet ↦ absurd (not_empty e none_yet)
        ])

  new-Allows :
      (tunnel : Tunn) (index : ℕ) (endpoint : Option SocketAddr) (ips : List AllowedIp)
      (psk : Option Bytes)
      → All IsFitting ips
      → IsOk
          (λ p.
            ((p.index ≡ index)
              × (p.tunnel ≡ tunnel)
              × (p.endpoint.addr ≡ endpoint)
              × (p.endpoint.conn ≡ none))
            × ((addr : IpAddr) → is_allowed_ip ts p addr ≡ true → IsCovered ips addr))
          (Peer.new ts tunnel index endpoint ips psk)
  unfolding Peer.new
  new-Allows tunnel index endpoint ips psk h =
      IsOk-bind (from_iter ts (map (λ ip. (ip, tt)) ips)) _ (from_iter-IsOk ips h) (λ table allows.
        is_ok (
          (refl, refl, refl, refl),
          λ addr yes. (let m = allowed-Member _ addr yes in allows addr m.0 (m.1, m.2)),
        ))

  pub new-IsOk :
      (tunnel : Tunn) (index : ℕ) (endpoint : Option SocketAddr) (ips : List AllowedIp)
      (psk : Option Bytes)
      → All IsFitting ips
      → IsOk
          (λ p.
            (p.index ≡ index)
            × (p.tunnel ≡ tunnel)
            × (p.endpoint.addr ≡ endpoint)
            × (p.endpoint.conn ≡ none))
          (Peer.new ts tunnel index endpoint ips psk)
  new-IsOk tunnel index endpoint ips psk h =
      IsOk-map _ (new-Allows tunnel index endpoint ips psk h) (λ p made. made.0)

  -- If the prefixes of the networks that `Peer::new` is given are no longer than their addresses,
  -- an address that the peer allows is in one of these networks. The laws of the tables of
  -- networks are a condition.
  pub allowed-IsCovered :
      (tunnel : Tunn) (index : ℕ) (endpoint : Option SocketAddr) (ips : List AllowedIp)
      (psk : Option Bytes) (p : Peer ts) (addr : IpAddr)
      → All IsFitting ips
      → Peer.new ts tunnel index endpoint ips psk ≡ ok p
      → is_allowed_ip ts p addr ≡ true
      → IsCovered ips addr
  allowed-IsCovered tunnel index endpoint ips psk p addr h made allowed =
      (is_ok_of _ (new-Allows tunnel index endpoint ips psk h) made).1 addr allowed
