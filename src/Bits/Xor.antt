-- ===== src/Bits/Xor.antt =====
-- The exclusive or of the native numbers, which boringtun/src/device/mod.rs asks of u32.
use Prim.Native.Nat.{bit_xor, bit_xor-bitwise, differ}
use native.Mathlib.Nat.{pow-suc, div-div-eq-div-mul}
use boringtun.Prelude.{ℕ, zero, suc, ◌+◌, ◌/◌, ◌%◌, ◌^◌, ◌<◌, ◌≡◌, refl, sym, ap, ◌∙◌, arith}
use boringtun.Bits.{fuel_enough}

differ_lem : (a b : ℕ) → a < 2 → b < 2 → differ a b ≡ (a + b) % 2
differ_lem zero zero p q = refl
differ_lem zero (suc zero) p q = refl
differ_lem zero (suc (suc b)) p q = absurd (omega arith)
differ_lem (suc zero) zero p q = refl
differ_lem (suc zero) (suc zero) p q = refl
differ_lem (suc zero) (suc (suc b)) p q = absurd (omega arith)
differ_lem (suc (suc a)) b p q = absurd (omega arith)

bit_xor_digit :
    (a b : ℕ)
    → (bit_xor a b / 2 ≡ bit_xor (a / 2) (b / 2)) × (bit_xor a b % 2 ≡ (a % 2 + b % 2) % 2)
bit_xor_digit zero b = omega (arith, bit_xor-bitwise 0 b, bit_xor-bitwise 0 (b / 2))
bit_xor_digit (suc a) b = omega (
  arith,
  bit_xor-bitwise (suc a) b,
  bit_xor-bitwise (suc a / 2) (b / 2),
  fuel_enough (λ y. y) differ a (suc a / 2) (suc a / 2) (b / 2) (omega arith) (omega arith),
  differ_lem (suc a % 2) (b % 2) (omega arith) (omega arith),
)

div_one : (a : ℕ) → a / 2 ^ 0 ≡ a
div_one a = omega arith

zero_below : (a : ℕ) → a < 2 ^ 0 → a ≡ 0
zero_below a h = omega arith

pub bit_xor-lt : (n a b : ℕ) → a < 2 ^ n → b < 2 ^ n → bit_xor a b < 2 ^ n
bit_xor-lt zero a b p q = rw (zero_below a p, zero_below b q) (omega arith)
bit_xor-lt (suc n) a b p q = omega (
  arith,
  pow-suc 2 n,
  bit_xor_digit a b,
  bit_xor-lt n (a / 2) (b / 2) (omega (arith, pow-suc 2 n)) (omega (arith, pow-suc 2 n)),
)

-- Undone by a second time.
pub bit_xor-bit_xor : (n a b : ℕ) → a < 2 ^ n → b < 2 ^ n → bit_xor (bit_xor a b) b ≡ a
bit_xor-bit_xor zero a b p q = rw (zero_below a p, zero_below b q) refl
bit_xor-bit_xor (suc n) a b p q =
    let once = bit_xor_digit a b in
    let twice = bit_xor_digit (bit_xor a b) b in
    let below =
      bit_xor-bit_xor n (a / 2) (b / 2) (omega (arith, pow-suc 2 n)) (omega (arith, pow-suc 2 n)) in
    omega (arith, once, twice, ap (λ (t : ℕ). bit_xor t (b / 2)) once.0, below)

-- The digits from `k` on.
pub bit_xor-high : (k a b : ℕ) → bit_xor a b / 2 ^ k ≡ bit_xor (a / 2 ^ k) (b / 2 ^ k)
bit_xor-high zero a b = rw (div_one a, div_one b, div_one (bit_xor a b)) refl
bit_xor-high (suc k) a b =
    sym (shifted (bit_xor a b))
    ∙ ap (λ (t : ℕ). t / 2 ^ k) (bit_xor_digit a b).0
    ∙ bit_xor-high k (a / 2) (b / 2)
    ∙ ap (λ (t : ℕ). bit_xor t (b / 2 / 2 ^ k)) (shifted a)
    ∙ ap (bit_xor (a / 2 ^ suc k)) (shifted b)
  where
    shifted : (x : ℕ) → x / 2 / 2 ^ k ≡ x / 2 ^ suc k
    shifted x = div-div-eq-div-mul x 2 (2 ^ k) ∙ ap (λ (t : ℕ). x / t) (omega (arith, pow-suc 2 k))

pub bit_xor-zero : (n a : ℕ) → a < 2 ^ n → bit_xor a 0 ≡ a
bit_xor-zero zero a h = rw (zero_below a h) refl
bit_xor-zero (suc n) a h =
    omega
      (arith, pow-suc 2 n, bit_xor_digit a 0, bit_xor-zero n (a / 2) (omega (arith, pow-suc 2 n)))
