-- ===== src/Bytes.antt =====
-- Byte strings: the conversions of integers that boringtun/src/noise takes from the standard
-- library (`to_le_bytes`, `from_le_bytes`, `to_be_bytes`, `from_be_bytes`), slices and arrays.
use boringtun.Prelude.{
  ℕ, zero, suc, ◌+◌, ◌-◌, ◌*◌, ◌/◌, ◌%◌, ◌^◌, ◌≤◌, ◌<◌, ◌≡◌, refl, sym, ap, ◌∙◌, arith, Bool, true,
  false, ◌&&◌, List, [], ◌∷◌, ◌++◌, length, take, drop, All, ◌==◌, length-append, length-take,
  length-drop, take-append-drop,
}
use native.Mathlib.Nat.{pow-suc}
use mathlib.Core.Path.{ap₂}
use mathlib.Core.List.{reverse, reverse-cons, reverse-reverse}

abbrev pub Bytes : Type 0
Bytes = List ℕ

abbrev pub IsBytes : Bytes → Type 0
IsBytes bs = All (λ b. b < 256) bs

-- The `n` lowest bytes of a number, the lowest first.
unfoldable pub to_le_bytes : ℕ → ℕ → Bytes
to_le_bytes zero x = []
to_le_bytes (suc n) x = (x % 256) ∷ to_le_bytes n (x / 256)

unfoldable pub from_le_bytes : Bytes → ℕ
from_le_bytes [] = 0
from_le_bytes (b ∷ bs) = b + 256 * from_le_bytes bs

unfoldable pub to_be_bytes : ℕ → ℕ → Bytes
to_be_bytes n x = reverse (to_le_bytes n x)

unfoldable pub from_be_bytes : Bytes → ℕ
from_be_bytes bs = from_le_bytes (reverse bs)

-- `&src[from..to]`
abbrev pub slice : ℕ → ℕ → Bytes → Bytes
slice from to src = take (to - from) (drop from src)

-- `==` on byte strings
unfoldable pub bytes_eq : Bytes → Bytes → Bool
bytes_eq [] [] = true
bytes_eq [] (y ∷ ys) = false
bytes_eq (x ∷ xs) [] = false
bytes_eq (x ∷ xs) (y ∷ ys) = x == y && bytes_eq xs ys

pub length-to_le_bytes : (n x : ℕ) → length (to_le_bytes n x) ≡ n
unfolding to_le_bytes
length-to_le_bytes zero x = refl
length-to_le_bytes (suc n) x = ap suc (length-to_le_bytes n (x / 256))

pub to_le_bytes-IsBytes : (n x : ℕ) → IsBytes (to_le_bytes n x)
unfolding to_le_bytes
to_le_bytes-IsBytes zero x = tt
to_le_bytes-IsBytes (suc n) x = (omega arith, to_le_bytes-IsBytes n (x / 256))

-- A number that fits `n` bytes is read back.
pub from_le_bytes-to_le_bytes : (n x : ℕ) → x < 256 ^ n → from_le_bytes (to_le_bytes n x) ≡ x
unfolding to_le_bytes from_le_bytes
from_le_bytes-to_le_bytes zero x h = omega arith
from_le_bytes-to_le_bytes (suc n) x h =
    omega
      (arith, pow-suc 256 n, from_le_bytes-to_le_bytes n (x / 256) (omega (arith, pow-suc 256 n)))

pub from_le_bytes-lt : (bs : Bytes) → IsBytes bs → from_le_bytes bs < 256 ^ length bs
unfolding from_le_bytes
from_le_bytes-lt [] h = omega arith
from_le_bytes-lt (b ∷ bs) h = omega (arith, pow-suc 256 (length bs), h.0, from_le_bytes-lt bs h.1)

drop_nil : (n : ℕ) → drop {A = ℕ} n [] ≡ []
drop_nil zero = refl
drop_nil (suc n) = refl

-- Bytes are written back.
pub to_le_bytes-from_le_bytes :
    (bs : Bytes) → IsBytes bs → to_le_bytes (length bs) (from_le_bytes bs) ≡ bs
unfolding to_le_bytes from_le_bytes
to_le_bytes-from_le_bytes [] h = refl
to_le_bytes-from_le_bytes (b ∷ bs) h =
    ap₂ ◌∷◌ (omega (arith, h.0))
      (ap (to_le_bytes (length bs)) (omega (arith, h.0)) ∙ to_le_bytes-from_le_bytes bs h.1)

length-reverse : (bs : Bytes) → length (reverse bs) ≡ length bs
length-reverse [] = refl
length-reverse (b ∷ bs) =
    ap length (reverse-cons b bs)
    ∙ omega (arith, length-append (reverse bs) (b ∷ []), length-reverse bs)

pub length-to_be_bytes : (n x : ℕ) → length (to_be_bytes n x) ≡ n
unfolding to_be_bytes
length-to_be_bytes n x = length-reverse (to_le_bytes n x) ∙ length-to_le_bytes n x

pub from_be_bytes-to_be_bytes : (n x : ℕ) → x < 256 ^ n → from_be_bytes (to_be_bytes n x) ≡ x
unfolding to_be_bytes from_be_bytes
from_be_bytes-to_be_bytes n x h =
    ap from_le_bytes (reverse-reverse (to_le_bytes n x)) ∙ from_le_bytes-to_le_bytes n x h

pub bytes_eq_refl : (bs : Bytes) → bytes_eq bs bs ≡ true
unfolding bytes_eq
bytes_eq_refl [] = refl
bytes_eq_refl (b ∷ bs) = ground (arith, bytes_eq_refl bs)

pub bytes_eq_sound : (xs ys : Bytes) → bytes_eq xs ys ≡ true → xs ≡ ys
unfolding bytes_eq
bytes_eq_sound [] [] h = refl
bytes_eq_sound [] (y ∷ ys) h = cc
bytes_eq_sound (x ∷ xs) [] h = cc
bytes_eq_sound (x ∷ xs) (y ∷ ys) h = ground (arith, bytes_eq_sound xs ys)

-- Cutting a string made of two at their border.
pub take-length-append : (xs ys : Bytes) → take (length xs) (xs ++ ys) ≡ xs
take-length-append [] ys = refl
take-length-append (x ∷ xs) ys = ap (◌∷◌ x) (take-length-append xs ys)

pub drop-length-append : (xs ys : Bytes) → drop (length xs) (xs ++ ys) ≡ ys
drop-length-append [] ys = refl
drop-length-append (x ∷ xs) ys = drop-length-append xs ys

pub take_all : (n : ℕ) (xs : Bytes) → length xs ≤ n → take n xs ≡ xs
take_all zero [] h = refl
take_all zero (x ∷ xs) h = absurd (omega arith)
take_all (suc n) [] h = refl
take_all (suc n) (x ∷ xs) h = ap (◌∷◌ x) (take_all n xs (omega arith))

drop-append :
    (n from : ℕ) (xs ys : Bytes) → length xs ≡ n → drop (n + from) (xs ++ ys) ≡ drop from ys
drop-append n from [] ys e = ap (λ (k : ℕ). drop k ys) {x = n + from} {y = from} (omega arith)
drop-append n from (x ∷ xs) ys e =
    ap (λ (k : ℕ). drop k (x ∷ (xs ++ ys))) {x = n + from} {y = suc (length xs + from)}
      (omega arith)
    ∙ drop-append (length xs) from xs ys refl

-- A slice behind a part of known length, and at it.
pub slice_skip :
    (n from to : ℕ) (xs ys : Bytes)
    → length xs ≡ n
    → slice (n + from) (n + to) (xs ++ ys) ≡ slice from to ys
slice_skip n from to xs ys e =
    ap₂ take {x = n + to - (n + from)} {y = to - from} (omega arith) (drop-append n from xs ys e)

pub slice_here : (n : ℕ) (xs ys : Bytes) → length xs ≡ n → slice 0 n (xs ++ ys) ≡ xs
slice_here n xs ys e =
    ap (λ (k : ℕ). take k (xs ++ ys)) {x = n - 0} {y = length xs} (omega arith)
    ∙ take-length-append xs ys

-- The same for what is left to the end of the string.
pub drop_skip :
    (n from : ℕ) (xs ys : Bytes) → length xs ≡ n → drop (n + from) (xs ++ ys) ≡ drop from ys
drop_skip n from xs ys e = drop-append n from xs ys e

-- Neighbouring slices make up the string.
pub slice-append-drop :
    (from to : ℕ) (src : Bytes) → from ≤ to → slice from to src ++ drop to src ≡ drop from src
slice-append-drop from to src h =
    ap (λ t. slice from to src ++ t) (drop-drop from (to - from) src to (omega arith))
    ∙ take-append-drop (to - from) (drop from src)
  where
    drop-drop : (a b : ℕ) (xs : Bytes) (c : ℕ) → a + b ≡ c → drop c xs ≡ drop b (drop a xs)
    drop-drop zero b xs c e = ap (λ (k : ℕ). drop k xs) {x = c} {y = b} (omega arith)
    drop-drop (suc a) b [] zero e = absurd (omega arith)
    drop-drop (suc a) b [] (suc c) e = sym (drop_nil b)
    drop-drop (suc a) b (x ∷ xs) zero e = absurd (omega arith)
    drop-drop (suc a) b (x ∷ xs) (suc c) e = drop-drop a b xs c (omega arith)

pub take-IsBytes : (n : ℕ) (xs : Bytes) → IsBytes xs → IsBytes (take n xs)
take-IsBytes zero xs h = tt
take-IsBytes (suc n) [] h = tt
take-IsBytes (suc n) (x ∷ xs) h = (h.0, take-IsBytes n xs h.1)

pub drop-IsBytes : (n : ℕ) (xs : Bytes) → IsBytes xs → IsBytes (drop n xs)
drop-IsBytes zero xs h = h
drop-IsBytes (suc n) [] h = tt
drop-IsBytes (suc n) (x ∷ xs) h = drop-IsBytes n xs h.1

pub slice-IsBytes : (from to : ℕ) (xs : Bytes) → IsBytes xs → IsBytes (slice from to xs)
slice-IsBytes from to xs h = take-IsBytes (to - from) (drop from xs) (drop-IsBytes from xs h)

pub length-slice :
    (from to : ℕ) (xs : Bytes) → from ≤ to → to ≤ length xs → length (slice from to xs) ≡ to - from
length-slice from to xs h le =
    omega (arith, length-take (to - from) (drop from xs), length-drop from xs)
