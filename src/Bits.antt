-- ===== src/Bits.antt =====
-- The binary digits of the native numbers under `|`, `&`, shifts and the complement of a word:
-- what boringtun/src/noise/session.rs and boringtun/src/noise/handshake.rs ask of u64 and u32.
pub mod Xor
use Prim.Native.Nat.{min, max, digits, bit_and, bit_or, bit_and-bitwise, bit_or-bitwise}
use native.Mathlib.Nat.{pow-suc, mul-one, one-le-pow, div-div-eq-div-mul}
use boringtun.Prelude.{
  ℕ, zero, suc, ◌+◌, ◌-◌, ◌*◌, ◌/◌, ◌%◌, ◌^◌, ◌≤◌, ◌<◌, ◌≡◌, ◌≢◌, refl, ap, ◌∙◌, arith,
}

-- The digit of weight `2 ^ j`.
abbrev pub bit : ℕ → ℕ → ℕ
bit zero w = w % 2
bit (suc j) w = bit j (w / 2)

pub bit-lt : (j w : ℕ) → bit j w < 2
bit-lt zero w = omega arith
bit-lt (suc j) w = bit-lt j (w / 2)

-- More fuel than the first number's digits changes nothing.
module _ (z : ℕ → ℕ) (f : ℕ → ℕ → ℕ) where
  pub fuel_enough : (n m a b : ℕ) → a ≤ n → a ≤ m → digits z f n a b ≡ digits z f m a b
  fuel_enough zero zero a b p q = refl
  fuel_enough (suc n) zero zero b p q = refl
  fuel_enough (suc n) zero (suc a) b p q = absurd (omega arith)
  fuel_enough zero (suc m) zero b p q = refl
  fuel_enough zero (suc m) (suc a) b p q = absurd (omega arith)
  fuel_enough (suc n) (suc m) zero b p q = refl
  fuel_enough (suc n) (suc m) (suc a) b p q =
      ap (λ (t : ℕ). t * 2 + f (suc a % 2) (b % 2))
        (fuel_enough n m (suc a / 2) (b / 2) (omega arith) (omega arith))

bit_or_digit :
    (a b : ℕ) → (bit_or a b / 2 ≡ bit_or (a / 2) (b / 2)) × (bit_or a b % 2 ≡ max (a % 2) (b % 2))
bit_or_digit zero b = omega (arith, bit_or-bitwise 0 b, bit_or-bitwise 0 (b / 2))
bit_or_digit (suc a) b = omega (
  arith,
  bit_or-bitwise (suc a) b,
  bit_or-bitwise (suc a / 2) (b / 2),
  fuel_enough (λ y. y) max a (suc a / 2) (suc a / 2) (b / 2) (omega arith) (omega arith),
)

bit_and_digit :
    (a b : ℕ)
    → (bit_and a b / 2 ≡ bit_and (a / 2) (b / 2)) × (bit_and a b % 2 ≡ min (a % 2) (b % 2))
bit_and_digit zero b = omega (arith, bit_and-bitwise 0 b, bit_and-bitwise 0 (b / 2))
bit_and_digit (suc a) b = omega (
  arith,
  bit_and-bitwise (suc a) b,
  bit_and-bitwise (suc a / 2) (b / 2),
  fuel_enough (λ y. 0) min a (suc a / 2) (suc a / 2) (b / 2) (omega arith) (omega arith),
)

pub bit_and-lt : (n a b : ℕ) → b < 2 ^ n → bit_and a b < 2 ^ n
bit_and-lt zero a b h = rw (none b h) (omega (arith, least a a (omega arith)))
  where
    none : (b : ℕ) → b < 2 ^ 0 → b ≡ 0
    none b h = omega arith

    least : (n a : ℕ) → a ≤ n → bit_and a 0 ≡ 0
    least zero a h =
        omega
          (arith, bit_and-bitwise 0 0, ap (λ (t : ℕ). bit_and t 0) {x = a} {y = 0} (omega arith))
    least (suc n) a h = omega (arith, bit_and_digit a 0, least n (a / 2) (omega arith))
bit_and-lt (suc n) a b h = omega (
  arith,
  pow-suc 2 n,
  bit_and_digit a b,
  bit_and-lt n (a / 2) (b / 2) (omega (arith, pow-suc 2 n)),
)

pub bit-bit_or : (j a b : ℕ) → bit j (bit_or a b) ≡ max (bit j a) (bit j b)
bit-bit_or zero a b = (bit_or_digit a b).1
bit-bit_or (suc j) a b = ap (bit j) (bit_or_digit a b).0 ∙ bit-bit_or j (a / 2) (b / 2)

pub bit-bit_and : (j a b : ℕ) → bit j (bit_and a b) ≡ min (bit j a) (bit j b)
bit-bit_and zero a b = (bit_and_digit a b).1
bit-bit_and (suc j) a b = ap (bit j) (bit_and_digit a b).0 ∙ bit-bit_and j (a / 2) (b / 2)

pub bit-zero : (j : ℕ) → bit j 0 ≡ 0
bit-zero zero = refl
bit-zero (suc j) = bit-zero j

pub bit-pow_self : (k : ℕ) → bit k (2 ^ k) ≡ 1
bit-pow_self zero = refl
bit-pow_self (suc k) = ap (bit k) (omega (arith, pow-suc 2 k)) ∙ bit-pow_self k

pub bit-pow_ne : (j k : ℕ) → j ≢ k → bit j (2 ^ k) ≡ 0
bit-pow_ne zero zero ne = absurd (ne refl)
bit-pow_ne zero (suc k) ne = omega (arith, pow-suc 2 k)
bit-pow_ne (suc j) zero ne = bit-zero j
bit-pow_ne (suc j) (suc k) ne =
    ap (bit j) (omega (arith, pow-suc 2 k)) ∙ bit-pow_ne j k (λ e. ne (ap suc e))

-- `!x` on a word of `n` bits.
pub bit-complement : (j n x : ℕ) → j < n → x < 2 ^ n → bit j (2 ^ n - 1 - x) ≡ 1 - bit j x
bit-complement j zero x h lt = absurd (omega arith)
bit-complement zero (suc n) x h lt = omega (arith, pow-suc 2 n)
bit-complement (suc j) (suc n) x h lt =
    ap (bit j) halved ∙ bit-complement j n (x / 2) (omega arith) (omega (arith, pow-suc 2 n))
  where
    halved : (2 ^ suc n - 1 - x) / 2 ≡ 2 ^ n - 1 - x / 2
    halved = omega (arith, pow-suc 2 n)

-- A shift to the right brings a digit to the lowest place.
pub bit-shift : (j w : ℕ) → bit j w ≡ w / 2 ^ j % 2
bit-shift zero w = omega arith
bit-shift (suc j) w = bit-shift j (w / 2) ∙ ap (λ (t : ℕ). t % 2) shifted
  where
    shifted : w / 2 / 2 ^ j ≡ w / 2 ^ suc j
    shifted = div-div-eq-div-mul w 2 (2 ^ j) ∙ ap (λ (t : ℕ). w / t) (omega (arith, pow-suc 2 j))

bit_and-zero : (a b : ℕ) → b ≡ 0 → (n : ℕ) → a ≤ n → bit_and a b ≡ 0
bit_and-zero zero b e n h = bit_and-bitwise 0 b
bit_and-zero (suc a) b e zero h = absurd (omega arith)
bit_and-zero (suc a) b e (suc n) h =
    omega (
      arith,
      bit_and_digit (suc a) b,
      bit_and-zero (suc a / 2) (b / 2) (omega arith) n (omega arith),
    )

pub bit_and-one : (a : ℕ) → bit_and a 1 ≡ a % 2
bit_and-one a = omega (arith, bit_and_digit a 1, bit_and-zero (a / 2) 0 refl (a / 2) (omega arith))

bit_and_ones : (n q : ℕ) → q < 2 ^ n → bit_and q (2 ^ n - 1) ≡ q
bit_and_ones zero q h = omega (arith, bit_and-zero q 0 refl q (omega arith))
bit_and_ones (suc n) q h = omega (
  arith,
  pow-suc 2 n,
  bit_and_digit q (2 ^ suc n - 1),
  ap (bit_and (q / 2)) halved,
  bit_and_ones n (q / 2) (omega (arith, pow-suc 2 n)),
)
  where
    halved : (2 ^ suc n - 1) / 2 ≡ 2 ^ n - 1
    halved = omega (arith, pow-suc 2 n)

-- A mask of high digits cuts the lower ones off.
pub bit_and_high :
    (k n x : ℕ) → x / 2 ^ k < 2 ^ n → bit_and x ((2 ^ n - 1) * 2 ^ k) ≡ x / 2 ^ k * 2 ^ k
bit_and_high zero n x h =
    ap (bit_and x) (mul-one (2 ^ n - 1)) ∙ bit_and_ones n x (omega arith) ∙ omega arith
bit_and_high (suc k) n x h = omega (
  arith,
  bit_and_digit x ((2 ^ n - 1) * 2 ^ suc k),
  ap (bit_and (x / 2)) halved,
  bit_and_high k n (x / 2) (rw shifted h),
  shifted,
  ap (λ (t : ℕ). t * 2 ^ k) shifted,
  even (2 ^ n - 1),
  even (x / 2 ^ suc k),
)
  where
    shifted : x / 2 / 2 ^ k ≡ x / 2 ^ suc k
    shifted = div-div-eq-div-mul x 2 (2 ^ k) ∙ ap (λ (t : ℕ). x / t) (omega (arith, pow-suc 2 k))

    even : (m : ℕ) → m * 2 ^ suc k ≡ 2 * (m * 2 ^ k)
    even m = omega (arith, ap (λ (t : ℕ). m * t) (pow-suc 2 k))

    halved : (2 ^ n - 1) * 2 ^ suc k / 2 ≡ (2 ^ n - 1) * 2 ^ k
    halved = omega (arith, even (2 ^ n - 1))

bit_or-zero : (a b : ℕ) → b ≡ 0 → (n : ℕ) → a ≤ n → bit_or a b ≡ a
bit_or-zero zero b e n h = bit_or-bitwise 0 b ∙ e
bit_or-zero (suc a) b e zero h = absurd (omega arith)
bit_or-zero (suc a) b e (suc n) h =
    omega
      (arith, bit_or_digit (suc a) b, bit_or-zero (suc a / 2) (b / 2) (omega arith) n (omega arith))

-- `|` of a multiple of `2 ^ k` and a number below it is their sum.
pub bit_or_low : (k q r : ℕ) → r < 2 ^ k → bit_or (q * 2 ^ k) r ≡ q * 2 ^ k + r
bit_or_low zero q r h = rw (mul-one) (omega (arith, bit_or-zero q r (omega arith) q (omega arith)))
bit_or_low (suc k) q r h = omega (
  arith,
  bit_or_digit (q * 2 ^ suc k) r,
  ap (λ t. bit_or t (r / 2)) halved,
  bit_or_low k q (r / 2) (omega (arith, pow-suc 2 k)),
  even,
)
  where
    even : q * 2 ^ suc k ≡ 2 * (q * 2 ^ k)
    even = omega (arith, ap (λ (t : ℕ). q * t) (pow-suc 2 k))

    halved : q * 2 ^ suc k / 2 ≡ q * 2 ^ k
    halved = omega (arith, even)

pub pow-lt-pow : (k n : ℕ) → k < n → 2 ^ k < 2 ^ n
pow-lt-pow k zero h = absurd (omega arith)
pow-lt-pow zero (suc n) h = omega (arith, pow-suc 2 n, one-le-pow n 2)
pow-lt-pow (suc k) (suc n) h = omega (arith, pow-suc 2 n, pow-suc 2 k, pow-lt-pow k n (omega arith))
