-- ===== src/Handshake/Index.antt =====
-- The session indices of boringtun/src/noise/handshake.rs: `inc_index`.
use Prim.Native.Nat.{bit_or}
use boringtun.Prelude.{ℕ, zero, suc, ◌+◌, ◌*◌, ◌/◌, ◌%◌, ◌^◌, ◌<◌, ◌≡◌, ◌≢◌, refl, ap, ◌∙◌, arith}
use boringtun.Bits.{bit_and_high, bit_or_low}
use boringtun.Handshake.State.{next_of}

-- The upper 24 bits stay, and the lower 8 count up and go round.
pub next_of_lem : (i : ℕ) → i < 2 ^ 32 → next_of i ≡ i / 256 * 256 + (i + 1) % 256
unfolding next_of
next_of_lem i h =
    ap (λ t. bit_or t ((i % 256 + 1) % 256)) (bit_and_high 8 24 i (omega arith))
    ∙ bit_or_low 8 (i / 256) ((i % 256 + 1) % 256) (omega arith)
    ∙ omega arith

pub next_of-lt : (i : ℕ) → i < 2 ^ 32 → next_of i < 2 ^ 32
next_of-lt i h = omega (arith, next_of_lem i h)

-- The index after `n` sessions.
pub nth_index : ℕ → ℕ → ℕ
nth_index zero i = i
nth_index (suc n) i = next_of (nth_index n i)

-- The upper 24 bits stay and the low byte counts up modulo 256.
pub nth_index_lem :
    (n i : ℕ)
    → i < 2 ^ 32
    → (nth_index n i < 2 ^ 32)
      × (nth_index n i / 256 ≡ i / 256)
      × (nth_index n i % 256 ≡ (i + n) % 256)
unfolding nth_index
nth_index_lem zero i h = (h, refl, omega arith)
nth_index_lem (suc n) i h =
    let ih = nth_index_lem n i h in
    (
      next_of-lt (nth_index n i) ih.0,
      omega (arith, ih, next_of_lem (nth_index n i)),
      omega (arith, ih, next_of_lem (nth_index n i)),
    )

-- The indices of two sessions of one tunnel that are fewer than 256 handshakes apart are
-- different, both have the same upper 24 bits, and the later one falls into the slot, of the eight
-- for sessions, that its place in the sequence says. The tunnel's first index is a u32.
pub nth_index-distinct :
    (m n i : ℕ)
    → i < 2 ^ 32
    → m < n
    → n < m + 256
    → (nth_index m i ≢ nth_index n i)
      × (nth_index m i / 2 ^ 8 ≡ nth_index n i / 2 ^ 8)
      × (nth_index n i % 8 ≡ (i + n) % 8)
nth_index-distinct m n i h lt near =
    let a = nth_index_lem m i h in
    let b = nth_index_lem n i h in (omega (arith, a, b), omega (arith, a, b), omega (arith, b))
