-- ===== src/Crypto/Toy.antt =====
-- A concrete instance of the cryptography: it has the laws and no secrecy. The witnesses use it.
use boringtun.Prelude.{
  ℕ, zero, suc, ◌+◌, ◌-◌, ◌%◌, ◌≡◌, refl, ap, ◌∙◌, arith, [], ◌∷◌, ◌++◌, Option, none, some, length,
  take, leb, if◌then◌else◌, length-append,
}
use native.Mathlib.Nat.{add_comm}
use boringtun.Bytes.{Bytes, take-length-append}
use boringtun.Crypto.{Crypto, IsLawful}

-- Exactly `n` bytes, cut or padded with zeros.
unfoldable pub fit : ℕ → Bytes → Bytes
fit zero bs = []
fit (suc n) [] = 0 ∷ fit n []
fit (suc n) (b ∷ bs) = b ∷ fit n bs

length-fit : (n : ℕ) (bs : Bytes) → length (fit n bs) ≡ n
unfolding fit
length-fit zero bs = refl
length-fit (suc n) [] = ap suc (length-fit n [])
length-fit (suc n) (b ∷ bs) = ap suc (length-fit n bs)

unfoldable pub blend : Bytes → Bytes → Bytes
blend [] ys = []
blend (x ∷ xs) [] = []
blend (x ∷ xs) (y ∷ ys) = (x + y) % 256 ∷ blend xs ys

blend_comm : (xs ys : Bytes) → blend xs ys ≡ blend ys xs
unfolding blend
blend_comm [] [] = refl
blend_comm [] (y ∷ ys) = refl
blend_comm (x ∷ xs) [] = refl
blend_comm (x ∷ xs) (y ∷ ys) = λ i. add_comm x y i % 256 ∷ blend_comm xs ys i

-- The tag is 16 bytes of the key and the associated data.
unfoldable pub tag : Bytes → Bytes → Bytes
tag k a = fit 16 (k ++ a)

unfoldable pub append_tag : Bytes → Bytes → Bytes → Bytes → Bytes
append_tag k n a d = d ++ tag k a

unfoldable pub cut_tag : Bytes → Bytes → Bytes → Bytes → Option Bytes
cut_tag k n a d = if leb 16 (length d) then some (take (length d - 16) d) else none

length-append_tag : (k n a d : Bytes) → length (append_tag k n a d) ≡ length d + 16
unfolding append_tag tag
length-append_tag k n a d = omega (arith, length-append d (fit 16 (k ++ a)), length-fit 16 (k ++ a))

cut_tag-append_tag : (k n a d : Bytes) → cut_tag k n a (append_tag k n a d) ≡ some d
unfolding cut_tag
cut_tag-append_tag k n a d = ground (arith, length-append_tag k n a d, untagged)
  where
    untagged : take (length (append_tag k n a d) - 16) (append_tag k n a d) ≡ d
    untagged =
        ap (λ (m : ℕ). take m (append_tag k n a d)) {x = length (append_tag k n a d) - 16}
          {y = length d} (omega (arith, length-append_tag k n a d))
        ∙ (unfold append_tag in take-length-append d (tag k a))

abbrev pub toy : Crypto
toy = record {
  hash = fit 32;
  hmac = λ k d. fit 32 (k ++ d);
  mac_16 = λ k d. fit 16 (k ++ d);
  mac_24 = λ k d. fit 24 (k ++ d);
  seal = append_tag;
  open_sealed = cut_tag;
  xseal = append_tag;
  xopen = cut_tag;
  public_key = fit 32;
  diffie_hellman = λ s p. blend (fit 32 s) p;
}

pub toy-IsLawful : IsLawful toy
toy-IsLawful = record {
  length-mac_16 = λ k d. length-fit 16 (k ++ d);
  length-mac_24 = λ k d. length-fit 24 (k ++ d);
  length-seal = length-append_tag;
  open-seal = cut_tag-append_tag;
  length-xseal = length-append_tag;
  xopen-xseal = cut_tag-append_tag;
  length-public_key = length-fit 32;
  diffie_hellman_comm = λ s t. blend_comm (fit 32 s) (fit 32 t);
}
