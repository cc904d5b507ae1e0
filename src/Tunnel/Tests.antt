-- ===== src/Tunnel/Tests.antt =====
-- Runs of a tunnel of boringtun/src/noise/mod.rs.
use boringtun.Prelude.{[], ◌∷◌, List, none, replicate}
use boringtun.Bytes.{Bytes}
use boringtun.Crypto.Toy.{toy}
use boringtun.Tunnel.State.{Tunn, Env, new}
use boringtun.Tunnel.Packets.{validate_decapsulated_packet}
use boringtun.Packet.{Packet, packet_data}
use boringtun.Prelude.{◌≡◌, ◌≢◌, refl, arith, true, false, some, connection_expired}
use boringtun.Session
use boringtun.Handshake.State.{is_expired}
use boringtun.Handshake.State
use boringtun.Tunnel.State.{failed, panicked}
use boringtun.Handshake.Tai64n.{duration_since}
use boringtun.Tunnel.Steady.{IsTimely}
use boringtun.Tunnel.Steady.Running.{update_timers_runs}
use boringtun.Tunnel.Timers
use boringtun.Tunnel.Update.{
  update_timers, update_session_timers, expire_sessions, start_update, checked_sub, update_live,
  clear_old_cookie, and_since, expire,
}
use boringtun.Tunnel.Clearing.{IsCleared, update_timers-IsCleared}
use boringtun.Tunnel.Inner.{IsWritten, validate_lem}
use boringtun.Tunnel.Sizes.{IsSized}
use boringtun.Tunnel.Sizes.Calls.{
  Call, encapsulating, decapsulating, updating_timers, handling_verified, setting_static_private,
  formatting_initiation, after_calls, sizes_kept,
}

abbrev tunnel : Tunn
tunnel = new toy (1 ∷ []) (toy.public_key (2 ∷ [])) none none 3 none [] [] 1000 0

abbrev env : Env
env = record {
  now = 5;
  limiter_now = 5;
  elapsed_now = 6;
  clear_now = 6;
  stamp_now = 6;
  sent_now = 7;
  ephemeral = 9 ∷ [];
}

-- A data packet for no session
abbrev arriving : Packet
arriving =
    packet_data
      (record { receiver_idx = 3; counter = 0; encrypted_encapsulated_packet = replicate 16 0 })

abbrev calls : List Call
calls =
    encapsulating (1 ∷ 2 ∷ []) 148 env
    ∷ decapsulating none [] 148 env
    ∷ updating_timers 148 env
    ∷ handling_verified arriving 148 env
    ∷ setting_static_private (1 ∷ []) (toy.public_key (1 ∷ [])) none [] [] 9
    ∷ formatting_initiation 148 true env
    ∷ []

sizes_kept_example : IsSized (after_calls toy tunnel calls)
sizes_kept_example =
    sizes_kept toy (1 ∷ []) (toy.public_key (2 ∷ [])) none none 3 none [] [] 1000 0 calls

-- An IPv4 header that says 20 bytes, and one byte more.
abbrev ipv4 : Bytes
ipv4 = 69 ∷ 0 ∷ 0 ∷ 20 ∷ (replicate 17 1)

validate_lem_example : IsWritten ipv4 (validate_decapsulated_packet tunnel ipv4).1
validate_lem_example = validate_lem tunnel ipv4

-- A tunnel with a session and a queued packet, and the clock 540 seconds after its making.
abbrev old : Tunn
old = record tunnel {
  sessions = some (Session.new 1 2 [] []) ∷ replicate 7 none;
  packet_queue = (1 ∷ []) ∷ [];
}

abbrev late_env : Env
late_env = record env { now = 540000000000; clear_now = 540000000001 }

old-live : is_expired old.handshake ≡ false
unfolding new State.new
old-live = refl

old-expires : (update_timers toy old 148 late_env).1 ≡ failed connection_expired
unfolding update_timers update_session_timers expire_sessions start_update new Timers.new
    checked_sub update_live State.new clear_old_cookie and_since expire
old-expires = refl

update_timers-IsCleared_example : IsCleared (update_timers toy old 148 late_env).0
update_timers-IsCleared_example = update_timers-IsCleared toy old 148 late_env old-live old-expires

tunnel-IsTimely : IsTimely (duration_since env.now tunnel.timers.time_started) tunnel.timers
unfolding new Timers.new
tunnel-IsTimely = (
  (
    omega arith,
    (
      omega arith,
      (
        omega arith,
        (
          omega arith,
          (omega arith, (omega arith, (omega arith, (omega arith, (omega arith, tt))))),
        ),
      ),
    ),
  ),
  (
    omega arith,
    (
      omega arith,
      (omega arith, (omega arith, (omega arith, (omega arith, (omega arith, (omega arith, tt)))))),
    ),
  ),
)

update_timers_runs_example : (update_timers toy tunnel 148 env).1 ≢ panicked
update_timers_runs_example =
    update_timers_runs toy 148 (omega arith) tunnel env
      (sizes_kept toy (1 ∷ []) (toy.public_key (2 ∷ [])) none none 3 none [] [] 1000 0 [])
      tunnel-IsTimely
