-- ===== src/Export/Tests.antt =====
-- Runs of the tunnel of boringtun/src/export.rs.
use boringtun.Prelude.{◌≡◌, refl, true, false, [], ◌∷◌, none, some, replicate}
use boringtun.Crypto.Toy.{toy}
use boringtun.Session
use boringtun.Session.{format_packet_data}
use boringtun.Tunnel.State.{Tunn, Env, dequeue_packet, pop_front}
use boringtun.Tunnel.State as TunnelState
use boringtun.Tunnel.Packets.{decapsulate, send_queued_packet, encapsulate}
use boringtun.Export.{Tunnel, TunnelResult, read, write}
use boringtun.Export.Sound.{IsSafe, write-IsSafe}

abbrev env : Env
env = record {
  now = 5;
  limiter_now = 5;
  elapsed_now = 6;
  clear_now = 6;
  stamp_now = 6;
  sent_now = 7;
  ephemeral = 9 ∷ [];
}

-- A tunnel with a session in use and a packet of 200 bytes in its queue
abbrev tunn : Tunn
tunn =
    record (TunnelState.new toy (1 ∷ []) (toy.public_key (2 ∷ [])) none none 0 none [] [] 1000 0) {
      sessions = some (Session.new 0 2 [] []) ∷ replicate 7 none;
      packet_queue = replicate 200 1 ∷ [];
    }

abbrev tunnel : Tunnel
tunnel = record { tunn = tunn; is_poisoned = false }

write-IsSafe_example : IsSafe (write toy tunnel (replicate 200 1) env)
write-IsSafe_example = write-IsSafe toy tunnel (replicate 200 1) env refl

-- A read of nothing has a buffer of 148 bytes: the packet of the queue does not fit.
read_panics : (read toy tunnel [] env).1 ≡ TunnelResult.panicked
unfolding read decapsulate send_queued_packet dequeue_packet pop_front TunnelState.new encapsulate
    format_packet_data
read_panics = refl

read_poisons : (read toy tunnel [] env).0.is_poisoned ≡ true
unfolding read decapsulate send_queued_packet dequeue_packet pop_front TunnelState.new encapsulate
    format_packet_data
read_poisons = refl
