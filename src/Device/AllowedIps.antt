-- ===== src/Device/AllowedIps.antt =====
-- `AllowedIps` of boringtun/src/device/allowed_ips.rs, over the crates `ip_network` and
-- `ip_network_table`, which are a parameter, and `AllowedIP` of boringtun/src/device/peer.rs.
pub mod Toy
use boringtun.Prelude.{
  ℕ, ◌%◌, ◌^◌, ◌≤◌, ◌≡◌, ◌⊎◌, Bool, true, not, List, [], ◌∷◌, Option, none, some, map, Result, ok,
  panic, ◌>>=◌, Member,
}
use boringtun.Packet.{IpAddr, v4, v6}

-- `IpNetwork` and `IpNetworkTable<D>`. Without a network `new_truncate` is an error. `contains` is
-- `IpNetwork::contains`, which only statements use.
pub record IpTables : Type 1 where
  pub Network : Type 0
  pub Table : Type 0 → Type 0
  pub new_truncate : IpAddr → ℕ → Option Network
  pub network_address : Network → IpAddr
  pub netmask : Network → ℕ
  pub contains : Network → IpAddr → Bool
  pub empty : {D : Type 0} → Table D
  pub insert : {D : Type 0} → Table D → Network → D → Table D × Option D
  pub longest_match : {D : Type 0} → Table D → IpAddr → Option (Network × D)
  pub retain : {D : Type 0} → Table D → (Network → D → Bool) → Table D
  pub entries : {D : Type 0} → Table D → List (Network × D)

-- What the code relies on: the lengths of prefixes that there are, and what each operation does to
-- the entries.
pub record IsTables (ts : IpTables) : Type 1 where
  pub new_truncate-v4 :
      (octets : List ℕ) (cidr : ℕ)
      → cidr ≤ 32
      → (n : ts.Network) × (ts.new_truncate (v4 octets) cidr ≡ some n)
  pub new_truncate-v6 :
      (octets : List ℕ) (cidr : ℕ)
      → cidr ≤ 128
      → (n : ts.Network) × (ts.new_truncate (v6 octets) cidr ≡ some n)
  pub entries-empty : {D : Type 0} → ts.entries {D = D} ts.empty ≡ []
  pub entries-insert :
      {D : Type 0} (t : ts.Table D) (n : ts.Network) (d : D) (e : ts.Network × D)
      → Member e (ts.entries (ts.insert t n d).0)
      → (e ≡ (n, d)) ⊎ Member e (ts.entries t)
  pub inserted :
      {D : Type 0} (t : ts.Table D) (n : ts.Network) (d : D)
      → Member (n, d) (ts.entries (ts.insert t n d).0)
  pub entries-retain :
      {D : Type 0} (t : ts.Table D) (keep : ts.Network → D → Bool) (e : ts.Network × D)
      → Member e (ts.entries (ts.retain t keep))
      → (keep e.0 e.1 ≡ true) × Member e (ts.entries t)
  pub retained :
      {D : Type 0} (t : ts.Table D) (keep : ts.Network → D → Bool) (e : ts.Network × D)
      → keep e.0 e.1 ≡ true
      → Member e (ts.entries t)
      → Member e (ts.entries (ts.retain t keep))
  pub longest_match-Member :
      {D : Type 0} (t : ts.Table D) (a : IpAddr) (e : ts.Network × D)
      → ts.longest_match t a ≡ some e
      → (ts.contains e.0 a ≡ true) × Member e (ts.entries t)

pub record AllowedIps (ts : IpTables) (D : Type 0) : Type 0 where
  pub ips : ts.Table D

-- `AllowedIP`
pub record AllowedIp : Type 0 where
  pub addr : IpAddr
  pub cidr : ℕ

module _ (ts : IpTables) {D : Type 0} where
  unfoldable pub new : AllowedIps ts D
  new = record { ips = ts.empty }

  unfoldable pub clear : AllowedIps ts D → AllowedIps ts D
  clear a = record a { ips = ts.empty }

  -- `expect`
  abbrev pub inserted_at :
      AllowedIps ts D → Option (ts.Network) → D → Result (AllowedIps ts D × Option D)
  inserted_at a none data_ = panic
  inserted_at a (some network) data_ =
      let (ips, old) = ts.insert a.ips network data_ in ok (record a { ips = ips }, old)

  unfoldable pub insert : AllowedIps ts D → IpAddr → ℕ → D → Result (AllowedIps ts D × Option D)
  insert a key cidr data_ = inserted_at a (ts.new_truncate key (cidr % 2 ^ 8)) data_

  abbrev pub data_of : Option (ts.Network × D) → Option D
  data_of none = none
  data_of (some (net, data_)) = some data_

  unfoldable pub find : AllowedIps ts D → IpAddr → Option D
  find a key = data_of (ts.longest_match a.ips key)

  unfoldable pub remove : AllowedIps ts D → (D → Bool) → AllowedIps ts D
  remove a predicate = record a { ips = ts.retain a.ips (λ _ v. not (predicate v)) }

  abbrev pub iter_item : ts.Network × D → D × IpAddr × ℕ
  iter_item (ipa, d) = (d, ts.network_address ipa, ts.netmask ipa)

  unfoldable pub iter : AllowedIps ts D → List (D × IpAddr × ℕ)
  iter a = map iter_item (ts.entries a.ips)

  -- The loop of `from_iter`, and of `Device::update_peer`.
  unfoldable pub insert_all : AllowedIps ts D → List (AllowedIp × D) → Result (AllowedIps ts D)
  insert_all a [] = ok a
  insert_all a ((ip, data_) ∷ rest) = do r ← insert a ip.addr ip.cidr data_; insert_all r.0 rest

  unfoldable pub from_iter : List (AllowedIp × D) → Result (AllowedIps ts D)
  from_iter items = insert_all new items
