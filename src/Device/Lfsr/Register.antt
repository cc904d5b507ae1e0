-- ===== src/Device/Lfsr/Register.antt =====
-- The steps of the register of boringtun/src/device/mod.rs, a permutation of the 24-bit numbers.
use Prim.Native.Nat.{bit_xor}
use boringtun.Prelude.{
  ℕ, ◌-◌, ◌/◌, ◌%◌, ◌^◌, ◌≤◌, ◌<◌, ◌≡◌, refl, sym, ap, ◌∙◌, arith, ◌⊎◌, inl, inr,
}
use boringtun.Bits.{bit_and-one}
use boringtun.Bits.Xor.{bit_xor-lt, bit_xor-bit_xor, bit_xor-high, bit_xor-zero}
use boringtun.Device.Lfsr.{shifted, value_of, lfsr_poly}

even_or_odd : (a : ℕ) → (a % 2 ≡ 0) ⊎ (a % 2 ≡ 1)
even_or_odd a = ground arith

shifted_even : (a : ℕ) → a < 2 ^ 24 → a % 2 ≡ 0 → shifted a ≡ a / 2
unfolding shifted
shifted_even a small e = rw (bit_and-one a, e) (bit_xor-zero 24 (a / 2) (omega arith))

shifted_odd : (a : ℕ) → a % 2 ≡ 1 → shifted a ≡ bit_xor (a / 2) lfsr_poly
unfolding shifted
shifted_odd a e = rw (bit_and-one a, e) refl

-- The digit that tells an odd number is put in front.
shifted_high : (a : ℕ) → a < 2 ^ 24 → a % 2 ≡ 1 → 2 ^ 23 ≤ shifted a
shifted_high a small e = rw (shifted_odd a e) (
    omega (
      arith,
      bit_xor-high 23 (a / 2) lfsr_poly,
      ap (λ (t : ℕ). bit_xor t 1) none_there,
      refl {a = bit_xor 0 1},
    ))
  where
    none_there : a / 2 / 2 ^ 23 ≡ 0
    none_there = omega arith

pub shifted-lt : (a : ℕ) → a < 2 ^ 24 → shifted a < 2 ^ 24
shifted-lt a small = elim (even_or_odd a) [
  | inl e ↦ omega (arith, shifted_even a small e)
  | inr e ↦ rw (shifted_odd a e) (bit_xor-lt 24 (a / 2) lfsr_poly (omega arith) (omega arith))
]

pub shifted-pos : (a : ℕ) → a < 2 ^ 24 → 0 < a → 0 < shifted a
shifted-pos a small pos = elim (even_or_odd a) [
  | inl e ↦ omega (arith, shifted_even a small e)
  | inr e ↦ omega (arith, shifted_high a small e)
]

-- The register never loses a state.
pub shifted_injective : (a b : ℕ) → a < 2 ^ 24 → b < 2 ^ 24 → shifted a ≡ shifted b → a ≡ b
shifted_injective a b p q h = elim (even_or_odd a) [
  | inl e ↦ elim (even_or_odd b) [
    | inl f ↦ omega (arith, h, shifted_even a p e, shifted_even b q f)
    | inr f ↦ absurd (omega (arith, h, shifted_even a p e, shifted_high b q f))
  ]
  | inr e ↦ elim (even_or_odd b) [
    | inl f ↦ absurd (omega (arith, h, shifted_high a p e, shifted_even b q f))
    | inr f ↦ omega (
      arith,
      bit_xor-bit_xor 24 (a / 2) lfsr_poly (omega arith) (omega arith),
      bit_xor-bit_xor 24 (b / 2) lfsr_poly (omega arith) (omega arith),
      ap (λ (t : ℕ). bit_xor t lfsr_poly) (sym (shifted_odd a e) ∙ h ∙ shifted_odd b f),
    )
  ]
]

-- The values of different states are different, and have 24 bits.
value_of_lem : (a m : ℕ) → 0 < a → a < 2 ^ 24 → value_of a m ≡ bit_xor (a - 1) m
unfolding value_of
value_of_lem a m pos small = ap (λ (t : ℕ). bit_xor t m) (omega arith)

pub value_of-lt : (a m : ℕ) → 0 < a → a < 2 ^ 24 → m < 2 ^ 24 → value_of a m < 2 ^ 24
value_of-lt a m pos small fits =
    rw (value_of_lem a m pos small) (bit_xor-lt 24 (a - 1) m (omega arith) fits)

pub value_of_injective :
    (a b m : ℕ)
    → 0 < a
    → a < 2 ^ 24
    → 0 < b
    → b < 2 ^ 24
    → m < 2 ^ 24
    → value_of a m ≡ value_of b m
    → a ≡ b
value_of_injective a b m pa a24 pb b24 fits h = omega (
  arith,
  bit_xor-bit_xor 24 (a - 1) m (omega arith) fits,
  bit_xor-bit_xor 24 (b - 1) m (omega arith) fits,
  ap (λ (t : ℕ). bit_xor t m) (sym (value_of_lem a m pa a24) ∙ h ∙ value_of_lem b m pb b24),
)
