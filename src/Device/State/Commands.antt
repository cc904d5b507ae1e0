-- ===== src/Device/State/Commands.antt =====
-- The changes of a device of boringtun/src/device/mod.rs.
use boringtun.Prelude.{
  ℕ, ◌≡◌, refl, sym, ap, ◌∙◌, Bool, true, false, List, [], Option, some, Result, ok, ok_injective,
  of_ok, All, Member,
}
use mathlib.Core.Path.{subst}
use boringtun.Bytes.{Bytes}
use boringtun.Crypto.{Crypto}
use boringtun.Device.Lfsr.{IndexLfsr, default, next_n}
use boringtun.Device.Maps.{lookup, nat_key, bytes_key}
use boringtun.Device.AllowedIps.{IpTables, IsTables, AllowedIp}
use boringtun.Device.AllowedIps
use boringtun.Device.Peer.{SocketAddr, Sockets}
use boringtun.Device.Peer.Routes.{IsFitting}
use boringtun.Device.State.{Device, Fresh, new, update_peer, clear_peers, set_key}
use boringtun.Device.State.Consistent.{IsConsistent}
use boringtun.Device.State.Removal.{
  remove_peer-IsConsistent, clear_peers-IsConsistent, remove_peer-tables,
}
use boringtun.Device.State.Addition.Indices.{HasDrawn, update_peer-OnOk}
use boringtun.Device.State.Keys.{set_key-IsConsistent, set_key-tables}

-- A call of `update_peer`, `clear_peers` or `set_key`
pub data Command : Type 0 where
  updating :
      Bytes → Bool → Option SocketAddr → List AllowedIp → Option ℕ → Option Bytes → Fresh → Command
  clearing : Command
  setting_key : Bytes → Fresh → Command

-- The networks of a peer that is added have prefixes no longer than their addresses.
abbrev pub IsAllowed : Command → Type 0
IsAllowed (updating key gone endpoint ips keepalive psk fresh) = All IsFitting ips
IsAllowed clearing = Unit
IsAllowed (setting_key private fresh) = Unit

module _ (c : Crypto) (ts : IpTables) (sockets : Sockets) where
  abbrev pub execute : Device ts → Command → Result (Device ts)
  execute d (updating key gone endpoint ips keepalive psk fresh) =
      update_peer c ts sockets d key gone endpoint ips keepalive psk fresh
  execute d clearing = ok (clear_peers ts d)
  execute d (setting_key private fresh) = set_key c ts d private fresh

  module _ (laws : IsTables ts) (draws : List ℕ) (first : IndexLfsr)
      (begun : default draws ≡ some first) where
    abbrev pub IsSound : Device ts → Type 0
    IsSound d = IsConsistent ts d × HasDrawn ts first d

    pub execute-IsSound :
        (d d' : Device ts) (command : Command)
        → IsAllowed command
        → IsSound d
        → execute d command ≡ ok d'
        → IsSound d'
    unfolding update_peer clear_peers
    execute-IsSound d d' (updating key true endpoint ips keepalive psk fresh) fit
          (before, (n, values, drawn, used)) made =
        let (same, older) = remove_peer-tables ts laws sockets d d' key before made in
        (
          remove_peer-IsConsistent ts laws sockets d d' key before made,
          (
            n,
            values,
            drawn ∙ ap (λ g. ok (g, values)) (sym same),
            λ i id h. used i id (older i id h),
          ),
        )
    execute-IsSound d d' (updating key false endpoint ips keepalive psk fresh) fit before made =
        of_ok _
          (update_peer-OnOk c ts laws draws first begun sockets d key endpoint ips keepalive psk
            fresh fit before)
          made
    execute-IsSound d d' clearing fit (before, (n, values, drawn, used)) made =
        subst IsSound (ok_injective made)
          (clear_peers-IsConsistent ts laws d, (n, values, drawn, λ i id h. absurd cc))
    execute-IsSound d d' (setting_key private fresh) fit (before, (n, values, drawn, used)) made =
        let (same, same') = set_key-tables c ts d d' private fresh made in
        (
          set_key-IsConsistent c ts d d' private fresh before made,
          (
            n,
            values,
            drawn ∙ ap (λ g. ok (g, values)) (sym same'),
            λ i id h. used i id (ap (λ m. lookup m i) (sym same) ∙ h),
          ),
        )

    pub new-IsSound : (connected : Bool) (mtu : ℕ) → IsSound (new ts first connected mtu)
    unfolding new AllowedIps.new next_n
    new-IsSound connected mtu = (
      record {
        by_idx = λ i id h. absurd cc;
        known = λ key id h. absurd cc;
        one_key = λ k k' id h h'. absurd cc;
        by_ip = λ e m. elim (subst (λ es. Member e es) laws.entries-empty m) [ ];
      },
      (0, [], refl, λ i id h. absurd cc),
    )
