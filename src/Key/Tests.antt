-- ===== src/Key/Tests.antt =====
-- Runs of the keys of boringtun/src/serialization.rs.
use boringtun.Prelude.{
  ℕ, zero, suc, sym, ◌%◌, drop, ◌==◌, if◌then◌else◌, ◌+◌, ◌-◌, ◌*◌, ◌/◌, ◌≤◌, ◌≡◌, inr, refl, ap,
  ◌∙◌, arith, [], ◌∷◌, ◌++◌, Option, some, length, replicate, length-append, length-replicate, All,
}
use boringtun.Bytes.{Bytes, IsBytes, drop-length-append}
use boringtun.Key.{
  KeyBytes, Base64, IsBase64, key_ok, key_panic, hex_text, from_str, to_lower_hex, to_base64,
  hex_pairs,
}
use boringtun.Key.Hex.{IsLower}
use boringtun.Key.Text.{
  IsRead, from_str-to_lower_hex, from_str-to_base64, to_lower_hex-from_str, from_str_lem,
}

-- A concrete code of the right length. In front of the bytes it has the remainder of their number by
-- three, as often as there is room.
abbrev code_length : ℕ → ℕ
code_length n = (n + 2) / 3 * 4

abbrev front : ℕ → ℕ → ℕ
front len r = if r == 0 then len / 4 else if r == 1 then len / 4 + 2 else len / 4 + 1

unfoldable code : Bytes → Bytes
code bs = replicate (code_length (length bs) - length bs) (length bs % 3) ++ bs

unfoldable uncode : Bytes → Option Bytes
uncode [] = some []
uncode (r ∷ s) = some (drop (front (length (r ∷ s)) r) (r ∷ s))

length-code : (bs : Bytes) → length (code bs) ≡ code_length (length bs)
unfolding code
length-code bs = omega (
  arith,
  length-append (replicate (code_length (length bs) - length bs) (length bs % 3)) bs,
  length-replicate (code_length (length bs) - length bs) (length bs % 3),
)

uncode-front :
    (m r : ℕ) (bs : Bytes)
    → 1 ≤ m
    → front (m + length bs) r ≡ m
    → uncode (replicate m r ++ bs) ≡ some bs
unfolding uncode
uncode-front zero r bs h e = absurd (omega arith)
uncode-front (suc m) r bs h e =
    ap (λ (n : ℕ). some (drop n (replicate (suc m) r ++ bs)))
      {x = front (length (replicate (suc m) r ++ bs)) r} {y = length (replicate (suc m) r)}
      (ap (λ (n : ℕ). front n r)
          (length-append (replicate (suc m) r) bs
            ∙ ap (λ (k : ℕ). k + length bs) (length-replicate (suc m) r))
        ∙ e
        ∙ sym (length-replicate (suc m) r))
    ∙ ap some (drop-length-append (replicate (suc m) r) bs)

front_lem : (n : ℕ) → 1 ≤ n → front (code_length n - n + n) (n % 3) ≡ code_length n - n
front_lem n h = ground arith

uncode-code : (bs : Bytes) → uncode (code bs) ≡ some bs
unfolding code
uncode-code [] = unfold uncode in refl
uncode-code (b ∷ bs) =
    uncode-front (code_length (length (b ∷ bs)) - length (b ∷ bs)) (length (b ∷ bs) % 3) (b ∷ bs)
      (omega arith) (front_lem (length (b ∷ bs)) (omega arith))

abbrev toy_base64 : Base64
toy_base64 = record { encode = code; decode = uncode }

toy_base64-IsBase64 : IsBase64 toy_base64
toy_base64-IsBase64 = record { decode-encode = uncode-code; length-encode = length-code }

abbrev key : KeyBytes
key = record { bytes = replicate 32 171 }

key-IsBytes : IsBytes key.bytes
key-IsBytes = all_same 32
  where
    all_same : (n : ℕ) → IsBytes (replicate n 171)
    all_same zero = tt
    all_same (suc n) = (omega arith, all_same n)

from_str-to_lower_hex_example : from_str toy_base64 (to_lower_hex key) ≡ key_ok key
from_str-to_lower_hex_example = from_str-to_lower_hex toy_base64 key key-IsBytes refl

from_str-to_base64_example : from_str toy_base64 (to_base64 toy_base64 key) ≡ key_ok key
from_str-to_base64_example = from_str-to_base64 toy_base64 key toy_base64-IsBase64 refl

-- The text "abab…" of 64 digits
abbrev text : Bytes
text = to_lower_hex key

text_read : from_str toy_base64 text ≡ key_ok key
text_read = from_str-to_lower_hex toy_base64 key key-IsBytes refl

text_size : length text ≡ 64
unfolding to_lower_hex
text_size = refl

text-IsLower : All IsLower text
unfolding to_lower_hex
text-IsLower = all_same 32
  where
    all_same : (n : ℕ) → All IsLower (hex_text (replicate n 171))
    all_same zero = tt
    all_same (suc n) =
        (inr (omega arith, omega arith), (inr (omega arith, omega arith), all_same n))

to_lower_hex-from_str_example : to_lower_hex key ≡ text
to_lower_hex-from_str_example =
    to_lower_hex-from_str toy_base64 text key text_size text-IsLower text_read

-- The bytes of a character of two bytes, at an odd place of 64 bytes
abbrev cut : Bytes
cut = 48 ∷ 195 ∷ 169 ∷ replicate 61 48

from_str_lem_example : IsRead cut (from_str toy_base64 cut)
from_str_lem_example = from_str_lem toy_base64 cut

-- The panic of a slice
cut_panics : from_str toy_base64 cut ≡ key_panic
unfolding from_str hex_pairs
cut_panics = refl
