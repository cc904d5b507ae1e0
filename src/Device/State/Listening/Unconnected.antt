-- ===== src/Device/State/Listening/Unconnected.antt =====
-- After `open_listen_socket` of boringtun/src/device/mod.rs no peer has a connected socket.
use boringtun.Prelude.{
  ℕ, ◌≡◌, ◌≢◌, refl, sym, ap, ◌∙◌, List, [], ◌∷◌, Option, none, some, Result, ok, err, panic,
  get_elem?, set, ◌==◌, ==_iff, Bool-cases, Option-cases, inl, inr, ◌⊎◌, bind_ok, ok_injective,
  some_injective, false_ne_true, get_elem?-set_self, get_elem?-set_ne, get_elem?-lt,
}
use mathlib.Core.Path.{subst}
use boringtun.Bytes.{Bytes, bytes_eq}
use boringtun.Device.Maps.{lookup, bytes_key}
use boringtun.Device.AllowedIps.{IpTables}
use boringtun.Device.Peer.{Peer, Endpoint, Sockets, shut, shutdown_endpoint}
use boringtun.Device.State.{Device}
use boringtun.Device.State.Listening.{
  Listeners, Opened, opened, not_opened, open_panicked, shut_cell, shut_cells, registered, open_6,
  open_with_port, open_4, open_after, open_listen_socket,
}

-- The peer at the place, if there is one, has no connected socket.
abbrev pub IsUnconnected : {ts : IpTables} → List (Peer ts) → ℕ → Type 0
IsUnconnected cells id = no_conn (get_elem? cells id)
  where
    no_conn : {ts : IpTables} → Option (Peer ts) → Type 0
    no_conn none = Unit
    no_conn (some p) = p.endpoint.conn ≡ none

module _ (ts : IpTables) (sockets : Sockets) where
  shutdown-conn : (e e' : Endpoint) → shutdown_endpoint sockets e ≡ ok e' → e'.conn ≡ none
  unfolding shutdown_endpoint
  shutdown-conn e e' h =
      let (u, first, same) = bind_ok (shut sockets e.conn) (λ _. ok (record e { conn = none })) h in
      ap (λ (x : Endpoint). x.conn) (sym (ok_injective same))

  -- A peer without a connection that is put somewhere leaves the others as they are.
  set-IsUnconnected :
      (cells : List (Peer ts)) (id id' : ℕ) (p q : Peer ts)
      → get_elem? cells id ≡ some p
      → q.endpoint.conn ≡ none
      → (id ≡ id') ⊎ IsUnconnected cells id'
      → IsUnconnected (set cells id q) id'
  set-IsUnconnected cells id id' p q here gone which = elim (Bool-cases (id == id')) [
    | inl e ↦
        (let same : id ≡ id' = (==_iff id id').0 e in
          subst (λ (x : ℕ). IsUnconnected (set cells id q) x) same
            (rw (get_elem?-set_self cells id q (get_elem?-lt cells id here)) gone))
    | inr e ↦
        (let ne : id ≢ id' = λ same. false_ne_true (sym e ∙ (==_iff id id').1 same) in
          elim which [
            | inl same ↦ absurd (ne same)
            | inr old ↦ rw (get_elem?-set_ne cells q ne) old
          ])
  ]

  shut_cell-IsUnconnected :
      (cells cells' : List (Peer ts)) (id id' : ℕ)
      → shut_cell ts sockets cells id (get_elem? cells id) ≡ ok cells'
      → (id ≡ id') ⊎ IsUnconnected cells id'
      → IsUnconnected cells' id'
  shut_cell-IsUnconnected cells cells' id id' h which = elim (Option-cases (get_elem? cells id)) [
    | inl absent ↦
        (let same : cells ≡ cells' = ok_injective (rw absent at h) in
          subst (λ (x : List (Peer ts)). IsUnconnected x id') same
            (elim which [
              | inl here ↦ subst (λ (x : ℕ). IsUnconnected cells x) here (rw absent tt)
              | inr old ↦ old
            ]))
    | inr (p, here) ↦
        (let (e, shut_down, same) =
            bind_ok (shutdown_endpoint sockets p.endpoint)
              (λ e. ok (set cells id (record p { endpoint = e }))) (rw here at h) in
          subst (λ (x : List (Peer ts)). IsUnconnected x id') (ok_injective same)
            (set-IsUnconnected cells id id' p (record p { endpoint = e }) here
              (shutdown-conn p.endpoint e shut_down) which))
  ]

  shut_cells-IsUnconnected :
      (peers : List (Bytes × ℕ)) (cells cells' : List (Peer ts)) (key : Bytes) (id : ℕ)
      → shut_cells ts sockets peers cells ≡ ok cells'
      → (lookup peers key ≡ some id) ⊎ IsUnconnected cells id
      → IsUnconnected cells' id
  unfolding shut_cells
  shut_cells-IsUnconnected [] cells cells' key id h (inl found) = absurd cc
  shut_cells-IsUnconnected [] cells cells' key id h (inr old) =
      subst (λ (x : List (Peer ts)). IsUnconnected x id) (ok_injective h) old
  shut_cells-IsUnconnected ((k, i) ∷ rest) cells cells' key id h which =
      let (mid, first, later) =
        bind_ok (shut_cell ts sockets cells i (get_elem? cells i)) (shut_cells ts sockets rest) h in
      shut_cells-IsUnconnected rest mid cells' key id later (split which first)
    where
      split :
          {mid : List (Peer ts)}
          → (lookup ((k, i) ∷ rest) key ≡ some id) ⊎ IsUnconnected cells id
          → shut_cell ts sockets cells i (get_elem? cells i) ≡ ok mid
          → (lookup rest key ≡ some id) ⊎ IsUnconnected mid id
      split (inr old) first = inr (shut_cell-IsUnconnected cells _ i id first (inr old))
      split (inl found) first = elim (Bool-cases (bytes_eq k key)) [
        | inl e ↦
            inr (shut_cell-IsUnconnected cells _ i id first (inl (some_injective (rw e at found))))
        | inr e ↦ inl (rw e at found)
      ]

-- With or without an error, the peer at the place has no connected socket.
abbrev pub LeavesUnconnected : {ts : IpTables} → ℕ → Opened ts → Type 0
LeavesUnconnected id (opened d) = IsUnconnected d.cells id
LeavesUnconnected id (not_opened d) = IsUnconnected d.cells id
LeavesUnconnected id open_panicked = Unit

module _ (ts : IpTables) (sockets : Sockets) (listeners : Listeners) where
  registered-Leaves :
      (d : Device ts) (id sock : ℕ) (clone : Option ℕ) (next : Opened ts)
      → IsUnconnected d.cells id
      → LeavesUnconnected id next
      → LeavesUnconnected id (registered ts sockets listeners d sock clone next)
  registered-Leaves d id sock none next h k = tt
  registered-Leaves d id sock (some clone) next h k =
      elim (Bool-cases (listeners.register_udp_handler clone)) [ inl e ↦ rw e k | inr e ↦ rw e h ]

  open_6-Leaves :
      (d : Device ts) (id udp_sock4 port : ℕ) (udp_sock6 : Option ℕ)
      → IsUnconnected d.cells id
      → LeavesUnconnected id (open_6 ts sockets listeners d udp_sock4 port udp_sock6)
  open_6-Leaves d id udp_sock4 port none h = h
  open_6-Leaves d id udp_sock4 port (some udp_sock6) h =
      registered-Leaves d id udp_sock4 (sockets.try_clone udp_sock4) _ h
        (registered-Leaves d id udp_sock6 (sockets.try_clone udp_sock6) _ h h)

  open_with_port-Leaves :
      (d : Device ts) (id udp_sock4 : ℕ) (port : Option ℕ)
      → IsUnconnected d.cells id
      → LeavesUnconnected id (open_with_port ts sockets listeners d udp_sock4 port)
  open_with_port-Leaves d id udp_sock4 none h = h
  open_with_port-Leaves d id udp_sock4 (some port) h = open_6-Leaves d id udp_sock4 port _ h

  open_4-Leaves :
      (d : Device ts) (id port : ℕ) (udp_sock4 : Option ℕ)
      → IsUnconnected d.cells id
      → LeavesUnconnected id (open_4 ts sockets listeners d port udp_sock4)
  open_4-Leaves d id port none h = h
  open_4-Leaves d id port (some udp_sock4) h = open_with_port-Leaves d id udp_sock4 _ h

  -- Unless it panics, `open_listen_socket` leaves a peer of the device without a connected socket,
  -- also when it ends with an error.
  pub open_listen_socket-LeavesUnconnected :
      (d : Device ts) (port id : ℕ) (key : Bytes)
      → lookup d.peers key ≡ some id
      → LeavesUnconnected id (open_listen_socket ts sockets listeners d port)
  unfolding open_listen_socket
  open_listen_socket-LeavesUnconnected d port id key found =
      by_cells (shut_cells ts sockets d.peers d.cells) refl
    where
      by_cells :
          (r : Result (List (Peer ts)))
          → shut_cells ts sockets d.peers d.cells ≡ r
          → LeavesUnconnected id
              (open_after ts sockets listeners (record d { udp4 = none; udp6 = none }) port r)
      by_cells (ok cells) e =
          open_4-Leaves (record d { udp4 = none; udp6 = none; cells = cells }) id port _
            (shut_cells-IsUnconnected ts sockets d.peers d.cells cells key id e (inl found))
      by_cells (err x) e = tt
      by_cells panic e = tt
