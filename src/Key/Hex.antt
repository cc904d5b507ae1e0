-- ===== src/Key/Hex.antt =====
-- The hex text of bytes, for boringtun/src/serialization.rs.
use boringtun.Prelude.{
  ℕ, Option, ◌*◌, ◌/◌, ◌%◌, ◌≤◌, ◌<◌, ◌≡◌, ◌⊎◌, inl, inr, refl, ap, ◌∙◌, arith, true, false, [],
  ◌∷◌, some, none, length, All, Bool-cases, ◌==◌,
}
use mathlib.Core.Path.{ap₂}
use boringtun.Bytes.{Bytes, IsBytes}
use boringtun.Key.{
  KeyResult, key_ok, key_err, key_panic, ◌>>=◌, digit, two_digits, from_str_radix, is_boundary,
  hex_pairs, to_char, hex_text, illegal_character,
}

digit-to_char : (n : ℕ) → n < 16 → digit (to_char n) ≡ some n
digit-to_char n h = ground arith

not_plus : (n : ℕ) → n < 16 → (to_char n == 43) ≡ false
not_plus n h = ground arith

from_str_radix-to_char :
    (b : ℕ) → b < 256 → from_str_radix (to_char (b / 16)) (to_char (b % 16)) ≡ key_ok b
unfolding from_str_radix
from_str_radix-to_char b h =
    let high : b / 16 < 16 = omega arith in
    let low : b % 16 < 16 = omega arith in
    rw (not_plus (b / 16) high, digit-to_char (b / 16) high, digit-to_char (b % 16) low)
      (ap (λ (t : ℕ). key_ok t) (omega arith))

boundary-hex_text : (bs : Bytes) → IsBytes bs → is_boundary (hex_text bs) ≡ true
boundary-hex_text [] h = refl
boundary-hex_text (b ∷ bs) h = ground arith

pub length-hex_text : (bs : Bytes) → length (hex_text bs) ≡ 2 * length bs
length-hex_text [] = refl
length-hex_text (b ∷ bs) = omega (arith, length-hex_text bs)

pub hex_pairs-hex_text : (bs : Bytes) → IsBytes bs → hex_pairs (hex_text bs) ≡ key_ok bs
unfolding hex_pairs
hex_pairs-hex_text [] h = refl
hex_pairs-hex_text (b ∷ bs) h =
    rw (boundary-hex_text bs h.1, from_str_radix-to_char b h.0, hex_pairs-hex_text bs h.1) refl

-- A digit as `to_lower_hex` writes it.
abbrev pub IsLower : ℕ → Type 0
IsLower c = ((48 ≤ c) × (c ≤ 57)) ⊎ ((97 ≤ c) × (c ≤ 102))

abbrev pub IsAscii : ℕ → Type 0
IsAscii c = c < 128

digit-lt : (c n : ℕ) → digit c ≡ some n → n < 16
digit-lt c n h = ground arith

to_char-digit : (c n : ℕ) → IsLower c → digit c ≡ some n → to_char n ≡ c
to_char-digit c n (inl h) e = ground arith
to_char-digit c n (inr h) e = ground arith

-- What the reading of a text tells of it.
abbrev pub Reads : Bytes → KeyResult Bytes → Type 0
Reads s (key_ok bs) = (length s ≡ 2 * length bs) × (IsBytes bs × (All IsLower s → hex_text bs ≡ s))
Reads s (key_err e) = e ≡ illegal_character
Reads s key_panic = All IsAscii s → length s % 2 ≡ 1

abbrev ReadsPair : ℕ → ℕ → KeyResult ℕ → Type 0
ReadsPair b c (key_ok n) =
    (n < 256) × (IsLower b → IsLower c → (to_char (n / 16) ≡ b) × (to_char (n % 16) ≡ c))
ReadsPair b c (key_err e) = e ≡ illegal_character
ReadsPair b c key_panic = ⊥

two_digits-Reads :
    (b c : ℕ) (x y : Option ℕ) → digit b ≡ x → digit c ≡ y → ReadsPair b c (two_digits x y)
two_digits-Reads b c none y e f = refl
two_digits-Reads b c (some x) none e f = refl
two_digits-Reads b c (some x) (some y) e f =
    let p = digit-lt b x e in
    let q = digit-lt c y f in
    (
      omega arith,
      λ lb lc. (
        ap to_char (omega arith) ∙ to_char-digit b x lb e,
        ap to_char (omega arith) ∙ to_char-digit c y lc f,
      ),
    )

-- A sign stands for no digit.
signed-Reads :
    (b c : ℕ) (y : Option ℕ) → b ≡ 43 → digit c ≡ y → ReadsPair b c (two_digits (some 0) y)
signed-Reads b c none e f = refl
signed-Reads b c (some y) e f =
    let q = digit-lt c y f in (omega arith, λ lb lc. absurd (ground arith))

from_str_radix-Reads : (b c : ℕ) → ReadsPair b c (from_str_radix b c)
unfolding from_str_radix
from_str_radix-Reads b c = elim (Bool-cases (b == 43)) [
  | inl e ↦ rw e (signed-Reads b c (digit c) (ground arith) refl)
  | inr e ↦ rw e (two_digits-Reads b c (digit b) (digit c) refl refl)
]

boundary_ascii : (s : Bytes) → All IsAscii s → is_boundary s ≡ true
boundary_ascii [] h = refl
boundary_ascii (b ∷ s) h = ground arith

pair-Reads :
    (b c : ℕ) (rest : Bytes) (r : KeyResult ℕ) (later : KeyResult Bytes)
    → ReadsPair b c r
    → Reads rest later
    → Reads (b ∷ c ∷ rest) (do byte ← r; bytes ← later; key_ok (byte ∷ bytes))
pair-Reads b c rest (key_ok n) (key_ok bs) p h = (
  omega (arith, h.0),
  ((p.0, h.1.0), λ l. ap₂ ◌∷◌ (p.1 l.0 l.1.0).0 (ap₂ ◌∷◌ (p.1 l.0 l.1.0).1 (h.1.1 l.1.1))),
)
pair-Reads b c rest (key_ok n) (key_err e) p h = h
pair-Reads b c rest (key_ok n) key_panic p h = λ a. omega (arith, h a.1.1)
pair-Reads b c rest (key_err e) later p h = p
pair-Reads b c rest key_panic later p h = absurd p

pub hex_pairs-Reads : (s : Bytes) → Reads s (hex_pairs s)
unfolding hex_pairs
hex_pairs-Reads [] = (refl, (tt, λ l. refl))
hex_pairs-Reads (b ∷ []) = λ a. refl
hex_pairs-Reads (b ∷ c ∷ rest) = elim (Bool-cases (is_boundary rest)) [
  | inl e ↦ rw e (
      pair-Reads b c rest (from_str_radix b c) (hex_pairs rest) (from_str_radix-Reads b c)
        (hex_pairs-Reads rest))
  | inr e ↦ rw e (λ a. absurd (cc (boundary_ascii rest a.1.1)))
]
