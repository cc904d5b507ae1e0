-- ===== src/Device/Lfsr.antt =====
-- `IndexLfsr` of boringtun/src/device/mod.rs: the indices of peers, from a shift register.
pub mod Register
pub mod Distinct
use Prim.Native.Nat.{bit_and, bit_xor}
use boringtun.Prelude.{
  ℕ, zero, suc, ◌+◌, ◌-◌, ◌/◌, ◌%◌, ◌^◌, not, List, [], ◌∷◌, Option, none, some, Result, ok, ◌>>=◌,
  ◌>>◌, assert, ltb, ◌==◌, if◌then◌else◌,
}

pub record IndexLfsr : Type 0 where
  pub initial : ℕ
  pub lfsr : ℕ
  pub mask : ℕ

abbrev pub lfsr_max : ℕ
lfsr_max = 0xffffff

abbrev pub lfsr_poly : ℕ
lfsr_poly = 0xd80000

-- `random_index` on the numbers that the generator draws: the index, and the draws that are left.
-- Without a result the loop goes on.
unfoldable pub random_index : List ℕ → Option (ℕ × List ℕ)
random_index [] = none
random_index (draw ∷ draws) =
    let i = bit_and draw lfsr_max in
    let rest = random_index draws in if ltb 0 i then some (i, draws) else rest

-- `IndexLfsr::default()`
unfoldable pub default_of : ℕ → ℕ → IndexLfsr
default_of seed mask = record { initial = seed; lfsr = seed; mask = mask }

abbrev pub with_mask : ℕ → Option (ℕ × List ℕ) → Option IndexLfsr
with_mask seed none = none
with_mask seed (some (mask, draws)) = some (default_of seed mask)

abbrev pub with_seed : Option (ℕ × List ℕ) → Option IndexLfsr
with_seed none = none
with_seed (some (seed, draws)) = with_mask seed (random_index draws)

unfoldable pub default : List ℕ → Option IndexLfsr
default draws = with_seed (random_index draws)

-- The register one step on, in u32 arithmetic.
unfoldable pub shifted : ℕ → ℕ
shifted lfsr = bit_xor (lfsr / 2) (bit_and ((2 ^ 32 - bit_and lfsr 1) % 2 ^ 32) lfsr_poly)

unfoldable pub value_of : ℕ → ℕ → ℕ
value_of lfsr mask = bit_xor ((lfsr + (2 ^ 32 - 1)) % 2 ^ 32) mask

-- `next`, which panics when the register is back where it began.
unfoldable pub next : IndexLfsr → Result (IndexLfsr × ℕ)
next g = do
  let lfsr' = shifted g.lfsr
  assert (not (lfsr' == g.initial))
  ok (record g { lfsr = lfsr' }, value_of g.lfsr g.mask)

-- `n` calls of `next`: the last value comes first.
unfoldable pub next_n : ℕ → IndexLfsr → Result (IndexLfsr × List ℕ)
next_n zero g = ok (g, [])
next_n (suc n) g = do
  before ← next_n n g
  let (g', values) = before
  now ← next g'
  let (g'', value) = now
  ok (g'', value ∷ values)
