-- ===== src/Device/Handlers/Flush.antt =====
-- The loop of boringtun/src/device/mod.rs that flushes the queue of a peer, and its end.
pub mod Turn
use boringtun.Prelude.{
  ℕ, zero, suc, ◌+◌, ◌≤◌, ◌<◌, ◌≡◌, ◌≢◌, refl, ap, ◌∙◌, arith, Bool, true, false, List, [], ◌∷◌,
  Option, none, some, Result, ok, err, panic, length, ltb, if◌then◌else◌, ◌==◌, ◌⊎◌, inl, inr,
  Bool-cases,
}
use boringtun.Bytes.{Bytes}
use boringtun.Crypto.{Crypto}
use boringtun.Session.{Session, format_packet_data}
use boringtun.Handshake.State.{Handshake, is_in_progress, is_expired}
use boringtun.Handshake.Send
use boringtun.Handshake.Send.{append_mac1_and_mac2}
use boringtun.Tunnel.State.{
  Tunn, Env, TunnResult, done, failed, write_to_network, write_to_tunnel_v4, write_to_tunnel_v6,
  panicked, queue_packet, dequeue_packet, pop_front, session_at, max_queue_depth,
}
use boringtun.Tunnel.Packets.{
  decapsulate, encapsulate, encapsulate_with, data_sent, format_handshake_initiation,
  initiation_sent, send_queued_packet, or_requeue, send_dequeued,
}
use boringtun.Tunnel.Timers.{clear}
use boringtun.Device.Handlers.{Ending, out_of_fuel, flush, flush_more, flush_queue, max_udp_size}
use boringtun.Device.Handlers.Flush.Turn.{IsWaiting, IsLess, queued-IsLess, queued-IsDone}

module _ (c : Crypto) where
  decapsulate-queued :
      (t : Tunn) (dst_len : ℕ) (env : Env)
      → decapsulate c t none [] dst_len env ≡ send_queued_packet c t dst_len env
  unfolding decapsulate
  decapsulate-queued t dst_len env = refl

  -- The ending of the loop by its first result
  ending-more :
      (r : Tunn × TunnResult) (rest : Tunn × List Bytes × Ending)
      → rest.2 ≢ out_of_fuel
      → (flush_more c r rest).2 ≢ out_of_fuel
  ending-more (t, write_to_network packet) rest h = h
  ending-more (t, panicked) rest h = λ e. absurd cc
  ending-more (t, done) rest h = λ e. absurd cc
  ending-more (t, failed e) rest h = λ e'. absurd cc
  ending-more (t, write_to_tunnel_v4 packet addr) rest h = λ e. absurd cc
  ending-more (t, write_to_tunnel_v6 packet addr) rest h = λ e. absurd cc

  ending-done :
      (r : Tunn × TunnResult) (rest : Tunn × List Bytes × Ending)
      → r.1 ≡ done
      → (flush_more c r rest).2 ≢ out_of_fuel
  ending-done (t, done) rest h = λ e. absurd cc
  ending-done (t, write_to_network packet) rest h = absurd cc
  ending-done (t, panicked) rest h = absurd cc
  ending-done (t, failed e) rest h = absurd cc
  ending-done (t, write_to_tunnel_v4 packet addr) rest h = absurd cc
  ending-done (t, write_to_tunnel_v6 packet addr) rest h = absurd cc

  flush-waiting :
      (fuel : ℕ) (t : Tunn) (envs : ℕ → Env)
      → IsWaiting t
      → (flush c (suc fuel) t envs).2 ≢ out_of_fuel
  unfolding flush
  flush-waiting fuel t envs h = ending-done (decapsulate c t none [] max_udp_size (envs fuel)) _ (
      ap (λ r. r.1) (decapsulate-queued t max_udp_size (envs fuel))
      ∙ queued-IsDone c t max_udp_size (envs fuel) h)

  waiting-ends :
      (fuel : ℕ) (t : Tunn) (envs : ℕ → Env)
      → 1 ≤ fuel
      → IsWaiting t
      → (flush c fuel t envs).2 ≢ out_of_fuel
  waiting-ends zero t envs h waits = absurd (omega arith)
  waiting-ends (suc fuel) t envs h waits = flush-waiting fuel t envs waits

  flush-ends :
      (fuel : ℕ) (t : Tunn) (envs : ℕ → Env)
      → length t.packet_queue + 2 ≤ fuel
      → (flush c fuel t envs).2 ≢ out_of_fuel
  unfolding flush decapsulate
  flush-ends zero t envs h = absurd (omega arith)
  flush-ends (suc fuel) t envs h =
      more (λ t' h'. flush-ends fuel t' envs h') (decapsulate c t none [] max_udp_size (envs fuel))
        (queued-IsLess c t max_udp_size (envs fuel))
    where
      more :
          ((t' : Tunn) → length t'.packet_queue + 2 ≤ fuel → (flush c fuel t' envs).2 ≢ out_of_fuel)
          → (r : Tunn × TunnResult) → IsLess t r
          → (flush_more c r (flush c fuel r.0 envs)).2 ≢ out_of_fuel
      more again (t', write_to_network packet) (inl shorter) = again t' (omega arith)
      more again (t', write_to_network packet) (inr waits) =
          waiting-ends fuel t' envs (omega arith) waits
      more again (t', panicked) less = λ e. absurd cc
      more again (t', done) less = λ e. absurd cc
      more again (t', failed e) less = λ e'. absurd cc
      more again (t', write_to_tunnel_v4 packet addr) less = λ e. absurd cc
      more again (t', write_to_tunnel_v6 packet addr) less = λ e. absurd cc

  -- The loop that flushes the queue of a tunnel ends, whatever the queue, the session and the state
  -- of the handshake are: it takes at most two turns more than there are packets in the queue.
  pub flush_queue_ends : (t : Tunn) (envs : ℕ → Env) → (flush_queue c t envs).2 ≢ out_of_fuel
  flush_queue_ends t envs = flush-ends (length t.packet_queue + 2) t envs (omega arith)
