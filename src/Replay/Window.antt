-- ===== src/Replay/Window.antt =====
-- What the window of session.rs promises, over sets of counters in place of a bitmap: a counter is
-- good if it is new, or recent enough and not yet received.
use Prim.Native.Nat.{max}
use boringtun.Prelude.{ℕ, ◌+◌, Bool, false, not, ◌&&◌, ◌||◌, leb, ◌==◌, if◌then◌else◌}
use boringtun.Replay.{n_bits}

pub record Window : Type 0 where
  pub next : ℕ
  pub received : ℕ → Bool

abbrev pub accepts : Window → ℕ → Bool
accepts w c = leb w.next c || (leb w.next (c + n_bits) && not (w.received c))

abbrev pub receive : Window → ℕ → Window
receive w c = record { next = max w.next (c + 1); received = λ j. (c == j) || w.received j }

unfoldable pub mark : Window → ℕ → Window
mark w c = if accepts w c then receive w c else w

abbrev pub empty : Window
empty = record { next = 0; received = λ j. false }
