-- ===== src/Replay/Digits.antt =====
-- What one access to the bitmap of session.rs does to every bit of it.
use boringtun.Prelude.{
  ℕ, ◌-◌, ◌/◌, ◌%◌, ◌^◌, ◌<◌, ◌≡◌, sym, ap, ◌∙◌, arith, Bool, length, get_or, set, length-set,
  get_or-set_self, get_or-set_ne, ◌==◌, if◌then◌else◌,
}
use native.Mathlib.Decide.{ℕ_discrete}
use Prim.Native.Nat.{bit_or, bit_and}
use boringtun.Bits.{
  bit, bit-lt, bit-bit_or, bit-bit_and, bit-zero, bit-pow_self, bit-pow_ne, bit-complement,
  bit-shift, bit_and-one, pow-lt-pow,
}
use boringtun.Replay.{
  ReceivingKeyCounterValidator, n_words, n_bits, word_of, bit_of, word_at, set_bit, clear_bit,
  clear_word, check_bit,
}

-- The bit of counter `j`, as a digit.
abbrev pub mark_of : ReceivingKeyCounterValidator → ℕ → ℕ
mark_of v j = bit (bit_of j) (word_at v j)

abbrev pub IsSized : ReceivingKeyCounterValidator → Type 0
IsSized v = length v.bitmap ≡ n_words

pub check_bit-eq-mark_of :
    (v : ReceivingKeyCounterValidator) (j : ℕ) → check_bit v j ≡ (mark_of v j == 1)
unfolding check_bit
check_bit-eq-mark_of v j =
    ap (λ t. t == 1)
      (bit_and-one (word_at v j / 2 ^ bit_of j) ∙ sym (bit-shift (bit_of j) (word_at v j)))

-- The word at `j` after a write to the word of `i`.
word_at-set :
    (v : ReceivingKeyCounterValidator) (i j w : ℕ)
    → IsSized v
    → get_or (set v.bitmap (word_of i) w) (word_of j) 0
      ≡ (if word_of i == word_of j then w else word_at v j)
word_at-set v i j w sized = elim (ℕ_discrete (word_of i) (word_of j)) [
  | yes e ↦ ground (
    arith,
    get_or-set_self v.bitmap (word_of i) w 0,
    ap (λ k. get_or (set v.bitmap (word_of i) w) k 0) e,
  )
  | no ne ↦ ground (arith, get_or-set_ne v.bitmap {i = word_of i} {j = word_of j} w 0 ne)
]

-- Two counters share a bit exactly when they are equal modulo the window.
abbrev same_bit : ℕ → ℕ → Bool
same_bit i j = i % n_bits == j % n_bits

same_word :
    (v : ReceivingKeyCounterValidator) (i j : ℕ) → word_of i ≡ word_of j → word_at v i ≡ word_at v j
same_word v i j e = ap (λ k. get_or v.bitmap k 0) e

pub mark_of-set_bit :
    (v : ReceivingKeyCounterValidator) (i j : ℕ)
    → IsSized v
    → mark_of (set_bit v i) j ≡ (if same_bit i j then 1 else mark_of v j)
unfolding set_bit
mark_of-set_bit v i j sized =
    ap (bit (bit_of j)) (word_at-set v i j (bit_or (word_at v i) (2 ^ bit_of i)) sized) ∙ split
  where
    split :
        bit
          (bit_of j)
          (if word_of i == word_of j then bit_or (word_at v i) (2 ^ bit_of i) else word_at v j)
        ≡ (if same_bit i j then 1 else mark_of v j)
    split = ground (
      arith,
      same_word v i j,
      bit-bit_or (bit_of j) (word_at v i) (2 ^ bit_of i),
      bit-lt (bit_of j) (word_at v j),
      bit-pow_self (bit_of i),
      bit-pow_ne (bit_of j) (bit_of i),
      ap (bit (bit_of j)) {x = word_at v i} {y = word_at v j},
    )

bit_of-lt : (i : ℕ) → bit_of i < 64
bit_of-lt i = omega arith

-- Clearing the bit of `i` in a word, seen at the bit of `j`.
cleared_word : ℕ → ℕ → ℕ
cleared_word w i = bit_and w (2 ^ 64 - 1 - 2 ^ bit_of i)

pow_in_word : (k : ℕ) → k < 64 → 2 ^ k < 2 ^ 64
pow_in_word k h = pow-lt-pow k 64 h

bit-cleared_word :
    (w i j : ℕ)
    → bit (bit_of j) (cleared_word w i) ≡ (if bit_of i == bit_of j then 0 else bit (bit_of j) w)
unfolding cleared_word
bit-cleared_word w i j = ground (
  arith,
  bit-bit_and (bit_of j) w (2 ^ 64 - 1 - 2 ^ bit_of i),
  bit-complement (bit_of j) 64 (2 ^ bit_of i) (bit_of-lt j) (pow_in_word (bit_of i) (bit_of-lt i)),
  bit-lt (bit_of j) w,
  bit-pow_self (bit_of i),
  bit-pow_ne (bit_of j) (bit_of i),
)

pub mark_of-clear_bit :
    (v : ReceivingKeyCounterValidator) (i j : ℕ)
    → IsSized v
    → mark_of (clear_bit v i) j ≡ (if same_bit i j then 0 else mark_of v j)
unfolding clear_bit cleared_word
mark_of-clear_bit v i j sized =
    ap (bit (bit_of j)) (word_at-set v i j (cleared_word (word_at v i) i) sized) ∙ split
  where
    split :
        bit
          (bit_of j)
          (if word_of i == word_of j then cleared_word (word_at v i) i else word_at v j)
        ≡ (if same_bit i j then 0 else mark_of v j)
    split = ground (
      arith,
      same_word v i j,
      bit-cleared_word (word_at v i) i j,
      ap (bit (bit_of j)) {x = word_at v i} {y = word_at v j},
    )

pub mark_of-clear_word :
    (v : ReceivingKeyCounterValidator) (i j : ℕ)
    → IsSized v
    → mark_of (clear_word v i) j ≡ (if word_of i == word_of j then 0 else mark_of v j)
unfolding clear_word
mark_of-clear_word v i j sized = ap (bit (bit_of j)) (word_at-set v i j 0 sized) ∙ split
  where
    split :
        bit (bit_of j) (if word_of i == word_of j then 0 else word_at v j)
        ≡ (if word_of i == word_of j then 0 else mark_of v j)
    split = ground (arith, bit-zero (bit_of j))

pub set_bit-IsSized : (v : ReceivingKeyCounterValidator) (i : ℕ) → IsSized v → IsSized (set_bit v i)
unfolding set_bit
set_bit-IsSized v i sized = length-set v.bitmap (word_of i) _ ∙ sized

pub clear_bit-IsSized :
    (v : ReceivingKeyCounterValidator) (i : ℕ) → IsSized v → IsSized (clear_bit v i)
unfolding clear_bit
clear_bit-IsSized v i sized = length-set v.bitmap (word_of i) _ ∙ sized

pub clear_word-IsSized :
    (v : ReceivingKeyCounterValidator) (i : ℕ) → IsSized v → IsSized (clear_word v i)
unfolding clear_word
clear_word-IsSized v i sized = length-set v.bitmap (word_of i) 0 ∙ sized
