-- ===== src/Key/Text.antt =====
-- Keys from text and back: `from_str`, `to_lower_hex` and `to_base64` of
-- boringtun/src/serialization.rs.
use boringtun.Prelude.{
  ℕ, ◌+◌, ◌*◌, ◌/◌, ◌≡◌, ◌≢◌, refl, sym, ap, ◌∙◌, arith, true, some, none, Option, length, All,
  Bool-cases, inl, inr, ◌⊎◌, ◌==◌, ◌||◌,
}
use boringtun.Bytes.{Bytes, IsBytes}
use boringtun.Key.{
  KeyBytes, illegal_character, illegal_size, KeyResult, key_ok, key_err, key_panic, ◌>>=◌, Base64,
  IsBase64, hex_pairs, hex_text, decoded, from_str, to_lower_hex, to_base64,
}
use boringtun.Key.Hex.{
  IsLower, IsAscii, Reads, length-hex_text, hex_pairs-hex_text, hex_pairs-Reads,
}

-- What the outcome of `from_str` tells of the text.
abbrev pub IsRead : Bytes → KeyResult KeyBytes → Type 0
IsRead s (key_ok k) = length k.bytes ≡ 32
IsRead s (key_err illegal_character) = (length s ≡ 64) ⊎ ((length s ≡ 43) ⊎ (length s ≡ 44))
IsRead s (key_err illegal_size) = (length s ≢ 64) × (length s ≢ 43) × (length s ≢ 44)
IsRead s key_panic = (length s ≡ 64) × (All IsAscii s → ⊥)

decoded-IsRead :
    (s : Bytes) (o : Option Bytes) → (length s ≡ 43) ⊎ (length s ≡ 44) → IsRead s (decoded o)
decoded-IsRead s none fits = refl
decoded-IsRead s (some key) fits = elim (Bool-cases (length key == 32)) [
  | inl e ↦ rw e (ground arith)
  | inr e ↦ rw e (inr fits)
]

hex-IsRead :
    (s : Bytes) (r : KeyResult Bytes)
    → length s ≡ 64
    → Reads s r
    → IsRead s (r >>= λ internal. key_ok (record { bytes = internal }))
hex-IsRead s (key_ok bs) e h = omega (arith, h.0, e)
hex-IsRead s (key_err illegal_character) e h = inl e
hex-IsRead s (key_err illegal_size) e h = absurd (cc h)
hex-IsRead s key_panic e h = (e, λ a. absurd (omega (arith, h a, e)))

hex-IsLower :
    (s : Bytes) (r : KeyResult Bytes) (k : KeyBytes)
    → Reads s r
    → All IsLower s
    → (r >>= λ internal. key_ok (record { bytes = internal })) ≡ key_ok k
    → to_lower_hex k ≡ s
unfolding to_lower_hex
hex-IsLower s (key_ok bs) k h lower e =
    ap (λ (x : KeyBytes). hex_text x.bytes) (sym (key_ok_injective e)) ∙ h.1.1 lower
  where
    key_ok_injective : {a b : KeyBytes} → key_ok a ≡ key_ok b → a ≡ b
    key_ok_injective q = cc
hex-IsLower s (key_err x) k h lower e = absurd cc
hex-IsLower s key_panic k h lower e = absurd cc

sizes : (n : ℕ) → (n == 43 || n == 44) ≡ true → (n ≡ 43) ⊎ (n ≡ 44)
sizes n h = elim (Bool-cases (n == 43)) [ inl e ↦ inl (ground arith) | inr e ↦ inr (ground arith) ]

module _ (base64 : Base64) where
  -- A key of 32 bytes is read back from its hex text.
  pub from_str-to_lower_hex :
      (k : KeyBytes)
      → IsBytes k.bytes
      → length k.bytes ≡ 32
      → from_str base64 (to_lower_hex k) ≡ key_ok k
  unfolding from_str to_lower_hex
  from_str-to_lower_hex k bytes size =
      let long : (length (hex_text k.bytes) == 64) ≡ true =
        ground (arith, length-hex_text k.bytes) in
      rw (long, hex_pairs-hex_text k.bytes bytes) refl

  -- A key of 32 bytes is read back from its base64 text, for a base64 that decodes what it encodes
  -- into four characters for each three bytes begun.
  pub from_str-to_base64 :
      (k : KeyBytes)
      → IsBase64 base64
      → length k.bytes ≡ 32
      → from_str base64 (to_base64 base64 k) ≡ key_ok k
  unfolding from_str to_base64
  from_str-to_base64 k laws size =
      let len : length (base64.encode k.bytes) ≡ 44 =
        laws.length-encode k.bytes ∙ ap (λ (n : ℕ). (n + 2) / 3 * 4) size in
      rw (len, laws.decode-encode k.bytes, size) refl

  -- A text of 64 lower-case hex digits that is read as a key is the hex text of this key.
  pub to_lower_hex-from_str :
      (s : Bytes) (k : KeyBytes)
      → length s ≡ 64
      → All IsLower s
      → from_str base64 s ≡ key_ok k
      → to_lower_hex k ≡ s
  unfolding from_str
  to_lower_hex-from_str s k size lower made =
      let e : (length s == 64) ≡ true = ground arith in
      hex-IsLower s (hex_pairs s) k (hex_pairs-Reads s) lower (rw e at made)

  -- A key that `from_str` reads from any text has 32 bytes. The error of an illegal size means that
  -- the text has not 64, 43 or 44 bytes, and that of an illegal character that it has. Only a text of
  -- 64 bytes that are not all ASCII makes it panic.
  pub from_str_lem : (s : Bytes) → IsRead s (from_str base64 s)
  unfolding from_str
  from_str_lem s = elim (Bool-cases (length s == 64)) [
    | inl e ↦ rw e (hex-IsRead s (hex_pairs s) (ground arith) (hex_pairs-Reads s))
    | inr e ↦ elim (Bool-cases (length s == 43 || length s == 44)) [
      | inl f ↦ rw (e, f) (decoded-IsRead s (base64.decode s) (sizes (length s) f))
      | inr f ↦ rw (e, f) (ground arith, ground arith, ground arith)
    ]
  ]
