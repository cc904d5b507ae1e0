-- ===== src/Device/Events.antt =====
-- Runs of the device of boringtun/src/device/mod.rs: its handlers and its changes, one at a time, in
-- any order.
use boringtun.Prelude.{
  ℕ, ◌≡◌, refl, sym, ap, ◌∙◌, Bool, List, [], ◌∷◌, ◌++◌, some, Result, ok, panic, ◌>>=◌, bind_ok,
  ok_injective, of_ok, All,
}
use mathlib.Core.Path.{subst}
use boringtun.Bytes.{Bytes}
use boringtun.Crypto.{Crypto}
use boringtun.Packet.{IpAddr}
use boringtun.Tunnel.State.{Env}
use boringtun.Device.Lfsr.{IndexLfsr, default}
use boringtun.Device.Maps.{lookup, nat_key}
use boringtun.Device.AllowedIps.{IpTables, IsTables}
use boringtun.Device.Peer.{SocketAddr, Sockets}
use boringtun.Device.State.{Device, new}
use boringtun.Device.State.Consistent.{IsConsistent}
use boringtun.Device.State.Listening.{
  Listeners, Opened, opened, not_opened, open_panicked, open_listen_socket, set_fwmark,
}
use boringtun.Device.State.Commands.{
  Command, IsAllowed, execute, execute-IsSound, new-IsSound, IsSound,
}
use boringtun.Device.Handlers.{Output, udp_handler, conn_handler}
use boringtun.Device.Handlers.Outgoing.{iface_handler, timer_handler, reset_handler}
use boringtun.Device.Handlers.Tables.{
  KeepsTables, KeepsTables-IsConsistent, udp_handler-Keeps, conn_handler-Keeps,
}
use boringtun.Device.Handlers.Tables.Opening.{
  KeepsOpened, open_listen_socket-Keeps, set_fwmark-Keeps,
}
use boringtun.Device.Handlers.Tables.Sending.{iface_handler-Keeps, timer_handler-Keeps}

-- What happens to a device: a command, the opening of the listening sockets for a port, a mark for
-- the sockets, a datagram on a listening socket or on the socket that is
-- connected to the peer at a place, a packet on the interface, and the two timers
pub data Event : Type 0 where
  commanded : Command → Event
  listening : ℕ → Event
  marking : ℕ → Event
  udp_arrived : Bytes → SocketAddr → Env → (ℕ → Env) → Event
  conn_arrived : ℕ → ℕ → IpAddr → Bytes → Env → (ℕ → Env) → Event
  iface_ready : Bytes → Env → Event
  timers_fired : (ℕ → Env) → Event
  limiter_fired : ℕ → Event

-- A command adds peers only with networks whose prefixes are no longer than their addresses.
abbrev pub IsPossible : Event → Type 0
IsPossible (commanded command) = IsAllowed command
IsPossible (listening port) = Unit
IsPossible (marking mark) = Unit
IsPossible (udp_arrived datagram addr env envs) = Unit
IsPossible (conn_arrived id conn addr datagram env envs) = Unit
IsPossible (iface_ready packet env) = Unit
IsPossible (timers_fired envs) = Unit
IsPossible (limiter_fired now) = Unit

module _ (c : Crypto) (ts : IpTables) (sockets : Sockets) (listeners : Listeners) where
  abbrev pub without_output : Result (Device ts) → Result (Device ts × List Output)
  without_output r = r >>= λ d. ok (d, [])

  -- The device goes on after an error.
  abbrev pub after_opening : Opened ts → Result (Device ts)
  after_opening (opened d) = ok d
  after_opening (not_opened d) = ok d
  after_opening open_panicked = panic

  abbrev pub step : Device ts → Event → Result (Device ts × List Output)
  step d (commanded command) = without_output (execute c ts sockets d command)
  step d (listening port) =
      without_output (after_opening (open_listen_socket ts sockets listeners d port))
  step d (marking mark) = ok ((set_fwmark ts sockets d mark).0, [])
  step d (udp_arrived datagram addr env envs) = udp_handler c ts sockets d datagram addr env envs
  step d (conn_arrived id conn addr datagram env envs) =
      conn_handler c ts sockets d id conn addr datagram env envs
  step d (iface_ready packet env) = iface_handler c ts sockets d packet env
  step d (timers_fired envs) = timer_handler c ts sockets d envs
  step d (limiter_fired now) = ok (reset_handler c ts sockets d now, [])

  unfoldable pub run : Device ts → List Event → Result (Device ts × List Output)
  run d [] = ok (d, [])
  run d (event ∷ events) = do
    one ← step d event
    let (d', outputs) = one
    others ← run d' events
    let (d'', more) = others
    ok (d'', outputs ++ more)

  module _ (laws : IsTables ts) (draws : List ℕ) (first : IndexLfsr)
      (begun : default draws ≡ some first) where
    abbrev Sound : Device ts → Type 0
    Sound = IsSound c ts sockets laws draws first begun

    kept-Sound : (d d' : Device ts) → KeepsTables d d' → Sound d → Sound d'
    kept-Sound d d' kept (before, (n, values, drawn, used)) = (
      KeepsTables-IsConsistent d d' kept before,
      (
        n,
        values,
        drawn ∙ ap (λ g. ok (g, values)) (sym kept.register),
        λ i id h. used i id (sym (ap (λ m. lookup m i) kept.by_idx) ∙ h),
      ),
    )

    reset-KeepsTables : (d : Device ts) (now : ℕ) → KeepsTables d (reset_handler c ts sockets d now)
    unfolding reset_handler
    reset-KeepsTables d now = record {
      peers = refl;
      by_idx = refl;
      by_ip = refl;
      register = refl;
      indices = λ id p e. (p, e, refl);
    }

    opened-KeepsTables :
        (d d' : Device ts) (r : Opened ts)
        → KeepsOpened d r
        → after_opening r ≡ ok d'
        → KeepsTables d d'
    opened-KeepsTables d d' (opened d'') kept e = subst (KeepsTables d) (ok_injective e) kept
    opened-KeepsTables d d' (not_opened d'') kept e = subst (KeepsTables d) (ok_injective e) kept
    opened-KeepsTables d d' open_panicked kept e = absurd cc

    step-Sound :
        (d : Device ts) (event : Event) (o : Device ts × List Output)
        → IsPossible event
        → Sound d
        → step d event ≡ ok o
        → Sound o.0
    step-Sound d (commanded command) o fit before made =
        let (d', one, e) = bind_ok (execute c ts sockets d command) _ made in
        subst (λ (x : Device ts × List Output). Sound x.0) (ok_injective e)
          (execute-IsSound c ts sockets laws draws first begun d d' command fit before one)
    step-Sound d (listening port) o fit before made =
        let r = open_listen_socket ts sockets listeners d port in
        let (d', one, e) = bind_ok (after_opening r) _ made in
        subst (λ (x : Device ts × List Output). Sound x.0) (ok_injective e)
          (kept-Sound d d'
            (opened-KeepsTables d d' r (open_listen_socket-Keeps ts sockets listeners d port) one)
            before)
    step-Sound d (marking mark) o fit before made =
        subst (λ (x : Device ts × List Output). Sound x.0) (ok_injective made)
          (kept-Sound d (set_fwmark ts sockets d mark).0 (set_fwmark-Keeps ts sockets d mark)
            before)
    step-Sound d (udp_arrived datagram addr env envs) o fit before made =
        kept-Sound d o.0 (of_ok _ (udp_handler-Keeps c ts sockets d datagram addr env envs) made)
          before
    step-Sound d (conn_arrived id conn addr datagram env envs) o fit before made =
        kept-Sound d o.0
          (of_ok _ (conn_handler-Keeps c ts sockets d id conn addr datagram env envs) made) before
    step-Sound d (iface_ready packet env) o fit before made =
        kept-Sound d o.0 (of_ok _ (iface_handler-Keeps c ts sockets d packet env) made) before
    step-Sound d (timers_fired envs) o fit before made =
        kept-Sound d o.0 (of_ok _ (timer_handler-Keeps c ts sockets d envs) made) before
    step-Sound d (limiter_fired now) o fit before made =
        subst (λ (x : Device ts × List Output). Sound x.0) (ok_injective made)
          (kept-Sound d (reset_handler c ts sockets d now) (reset-KeepsTables d now) before)

    run-Sound :
        (events : List Event) (d : Device ts) (o : Device ts × List Output)
        → All IsPossible events
        → Sound d
        → run d events ≡ ok o
        → Sound o.0
    unfolding run
    run-Sound [] d o fit before made =
        subst (λ (x : Device ts × List Output). Sound x.0) (ok_injective made) before
    run-Sound (event ∷ events) d o fit before made =
        let (one, first_step, rest) = bind_ok (step d event) _ made in
        let (others, later, e) = bind_ok (run one.0 events) _ rest in
        let after =
          run-Sound events one.0 others fit.1 (step-Sound d event one fit.0 before first_step)
            later in
        subst (λ (x : Device ts × List Output). Sound x.0) (ok_injective e) after

    -- After any run of handlers and commands on a new device that returns, the opening of its
    -- listening sockets among them, the tables of the device agree: each entry of the peers by index
    -- is a peer that stands under a key and has this index, each peer under a key is found by its
    -- index, no peer stands under two keys, and each entry of the peers by address is a peer that
    -- stands under a key. The register of indices is made by `default`, the tables of networks have
    -- their laws, and a peer that is added comes with networks whose prefixes are no longer than
    -- their addresses.
    pub run-IsConsistent :
        (connected : Bool) (mtu : ℕ) (events : List Event) (d : Device ts) (outputs : List Output)
        → All IsPossible events
        → run (new ts first connected mtu) events ≡ ok (d, outputs)
        → IsConsistent ts d
    run-IsConsistent connected mtu events d outputs fit made =
        (run-Sound events (new ts first connected mtu) (d, outputs) fit
          (new-IsSound c ts sockets laws draws first begun connected mtu) made).0
