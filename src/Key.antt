-- ===== src/Key.antt =====
-- Keys as text: boringtun/src/serialization.rs. A string is the list of its UTF-8 bytes.
pub mod Hex
pub mod Text
mod Tests
use boringtun.Prelude.{
  ℕ, ◌+◌, ◌-◌, ◌*◌, ◌/◌, ◌%◌, ◌≡◌, Bool, true, false, ◌&&◌, ◌||◌, not, [], ◌∷◌, ◌++◌, Option, none,
  some, length, replicate, ltb, leb, ◌==◌, if◌then◌else◌,
}
use boringtun.Bytes.{Bytes}

abbrev pub key_size : ℕ
key_size = 32

pub record KeyBytes : Type 0 where
  pub bytes : Bytes

pub data KeyBytesError : Type 0 where
  illegal_character : KeyBytesError
  illegal_size : KeyBytesError

-- `Result<A, KeyBytesError>`, or the panic of a slice that cuts a character.
pub data KeyResult (A : Type 0) : Type 0 where
  key_ok : A → KeyResult A
  key_err : KeyBytesError → KeyResult A
  key_panic : KeyResult A

infixl 5 ◌>>=◌
abbrev pub ◌>>=◌ : {A B : Type 0} → KeyResult A → (A → KeyResult B) → KeyResult B
key_ok a >>= f = f a
key_err e >>= f = key_err e
key_panic >>= f = key_panic

-- `BASE64_STANDARD` of the crate `base64`
pub record Base64 : Type 0 where
  pub encode : Bytes → Bytes
  pub decode : Bytes → Option Bytes

pub record IsBase64 (b : Base64) : Type 0 where
  pub decode-encode : (bs : Bytes) → b.decode (b.encode bs) ≡ some bs
  pub length-encode : (bs : Bytes) → length (b.encode bs) ≡ (length bs + 2) / 3 * 4

-- `char::to_digit(16)` of a byte
abbrev pub digit : ℕ → Option ℕ
digit c =
    if leb 48 c && leb c 57
    then some (c - 48)
    else if leb 97 c && leb c 102
    then some (c - 87)
    else if leb 65 c && leb c 70
    then some (c - 55)
    else none

abbrev pub two_digits : Option ℕ → Option ℕ → KeyResult ℕ
two_digits (some x) (some y) = key_ok (x * 16 + y)
two_digits none y = key_err illegal_character
two_digits (some x) none = key_err illegal_character

-- `u8::from_str_radix(_, 16)` of two bytes, which may begin with a sign
unfoldable pub from_str_radix : ℕ → ℕ → KeyResult ℕ
from_str_radix b c =
    if b == 43 then two_digits (some 0) (digit c) else two_digits (digit b) (digit c)

-- A slice must not end before a continuation byte.
abbrev pub is_boundary : Bytes → Bool
is_boundary [] = true
is_boundary (b ∷ bs) = not (leb 128 b && ltb b 192)

-- The loop over the pairs of bytes. A slice begins where the one before has ended.
unfoldable pub hex_pairs : Bytes → KeyResult Bytes
hex_pairs [] = key_ok []
hex_pairs (b ∷ []) = key_panic
hex_pairs (b ∷ c ∷ rest) =
    let later = hex_pairs rest in
    if is_boundary rest
    then (do byte ← from_str_radix b c; bytes ← later; key_ok (byte ∷ bytes))
    else key_panic

-- A text that cannot be decoded leaves the bytes at zero.
abbrev pub decoded : Option Bytes → KeyResult KeyBytes
decoded none = key_ok (record { bytes = replicate key_size 0 })
decoded (some key) =
    if length key == key_size then key_ok (record { bytes = key }) else key_err illegal_character

-- `from_bytes`
unfoldable pub from_bytes : Bytes → KeyResult KeyBytes
from_bytes bytes =
    if length bytes == key_size then key_ok (record { bytes = bytes }) else key_err illegal_size

-- `to_char` of `to_lower_hex`
abbrev pub to_char : ℕ → ℕ
to_char nibble = if leb nibble 9 then 48 + nibble else nibble + 97 - 10

abbrev pub hex_text : Bytes → Bytes
hex_text [] = []
hex_text (b ∷ bs) = to_char (b / 16) ∷ to_char (b % 16) ∷ hex_text bs

unfoldable pub to_lower_hex : KeyBytes → Bytes
to_lower_hex k = hex_text k.bytes

module _ (base64 : Base64) where
  unfoldable pub from_str : Bytes → KeyResult KeyBytes
  from_str s =
      if length s == 64
      then (do internal ← hex_pairs s; key_ok (record { bytes = internal }))
      else if length s == 43 || length s == 44
      then decoded (base64.decode s)
      else key_err illegal_size

  unfoldable pub to_base64 : KeyBytes → Bytes
  to_base64 k = base64.encode k.bytes
