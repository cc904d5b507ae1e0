-- ===== src/Crypto.antt =====
-- The cryptography that boringtun/src/noise takes from other crates, as a parameter: `blake2`,
-- `hmac`, ring's ChaCha20-Poly1305, `chacha20poly1305` and `x25519_dalek`. Then the functions of
-- boringtun/src/noise/handshake.rs that wrap it.
pub mod Toy
use boringtun.Prelude.{
  ℕ, ◌+◌, ◌≡◌, ◌++◌, [], ◌∷◌, Option, none, some, Result, ok, err, panic, invalid_aead_tag, ◌>>=◌,
  ◌>>◌, assert, ensure, length, replicate, leb, ◌==◌,
}
use boringtun.Bytes.{Bytes, to_le_bytes}

-- A secret key stands for itself as bytes. A hash of several updates is a hash of their
-- concatenation.
pub record Crypto : Type 0 where
  -- `Blake2s256`
  pub hash : Bytes → Bytes
  -- `SimpleHmac<Blake2s256>`, key first
  pub hmac : Bytes → Bytes → Bytes
  -- `Blake2sMac` of 16 and of 24 bytes, key first
  pub mac_16 : Bytes → Bytes → Bytes
  pub mac_24 : Bytes → Bytes → Bytes
  -- ChaCha20-Poly1305: key, nonce, associated data, then the text; the tag stands behind it.
  pub seal : Bytes → Bytes → Bytes → Bytes → Bytes
  pub open_sealed : Bytes → Bytes → Bytes → Bytes → Option Bytes
  -- XChaCha20-Poly1305, likewise
  pub xseal : Bytes → Bytes → Bytes → Bytes → Bytes
  pub xopen : Bytes → Bytes → Bytes → Bytes → Option Bytes
  -- x25519: the public key of a secret, and the shared secret
  pub public_key : Bytes → Bytes
  pub diffie_hellman : Bytes → Bytes → Bytes

-- What the code relies on: sizes, that opening undoes sealing, and that both sides of a key
-- exchange compute one secret.
pub record IsLawful (c : Crypto) : Type 0 where
  pub length-mac_16 : (k d : Bytes) → length (c.mac_16 k d) ≡ 16
  pub length-mac_24 : (k d : Bytes) → length (c.mac_24 k d) ≡ 24
  pub length-seal : (k n a d : Bytes) → length (c.seal k n a d) ≡ length d + 16
  pub open-seal : (k n a d : Bytes) → c.open_sealed k n a (c.seal k n a d) ≡ some d
  pub length-xseal : (k n a d : Bytes) → length (c.xseal k n a d) ≡ length d + 16
  pub xopen-xseal : (k n a d : Bytes) → c.xopen k n a (c.xseal k n a d) ≡ some d
  pub length-public_key : (s : Bytes) → length (c.public_key s) ≡ 32
  pub diffie_hellman_comm :
      (s t : Bytes) → c.diffie_hellman s (c.public_key t) ≡ c.diffie_hellman t (c.public_key s)

abbrev pub key_len : ℕ
key_len = 32

-- `.map_err(|_| WireGuardError::InvalidAeadTag)`
abbrev pub or_invalid : Option Bytes → Result Bytes
or_invalid none = err invalid_aead_tag
or_invalid (some text) = ok text

-- The 12 bytes of a nonce: four of zero, then the counter.
abbrev pub nonce_of : ℕ → Bytes
nonce_of counter = replicate 4 0 ++ to_le_bytes 8 counter

module _ (c : Crypto) where
  unfoldable pub b2s_hash : Bytes → Bytes → Bytes
  b2s_hash data1 data2 = c.hash (data1 ++ data2)

  unfoldable pub b2s_hmac : Bytes → Bytes → Bytes
  b2s_hmac key data1 = c.hmac key data1

  unfoldable pub b2s_hmac2 : Bytes → Bytes → Bytes → Bytes
  b2s_hmac2 key data1 data2 = c.hmac key (data1 ++ data2)

  unfoldable pub b2s_kdf1 : Bytes → Bytes → Bytes
  b2s_kdf1 key input = b2s_hmac (b2s_hmac key input) (1 ∷ [])

  unfoldable pub b2s_kdf2 : Bytes → Bytes → Bytes × Bytes
  b2s_kdf2 key input =
      let temp = b2s_hmac key input in
      let out1 = b2s_hmac temp (1 ∷ []) in let out2 = b2s_hmac2 temp out1 (2 ∷ []) in (out1, out2)

  unfoldable pub b2s_kdf3 : Bytes → Bytes → Bytes × Bytes × Bytes
  b2s_kdf3 key input =
      let temp = b2s_hmac key input in
      let out1 = b2s_hmac temp (1 ∷ []) in
      let out2 = b2s_hmac2 temp out1 (2 ∷ []) in
      let out3 = b2s_hmac2 temp out2 (3 ∷ []) in (out1, out2, out3)

  unfoldable pub b2s_keyed_mac_16 : Bytes → Bytes → Bytes
  b2s_keyed_mac_16 key data1 = c.mac_16 key data1

  unfoldable pub b2s_keyed_mac_16_2 : Bytes → Bytes → Bytes → Bytes
  b2s_keyed_mac_16_2 key data1 data2 = c.mac_16 key (data1 ++ data2)

  unfoldable pub b2s_mac_24 : Bytes → Bytes → Bytes
  b2s_mac_24 key data1 = c.mac_24 key data1

  -- The buffer of every call has the size of the text and a tag, so nothing panics.
  unfoldable pub aead_chacha20_seal : Bytes → ℕ → Bytes → Bytes → Bytes
  aead_chacha20_seal key counter text aad = c.seal key (nonce_of counter) aad text

  -- `buffer.len()` is given. The scratch buffer has 48 bytes, and a copy wants equal lengths.
  unfoldable pub aead_chacha20_open : ℕ → Bytes → ℕ → Bytes → Bytes → Result Bytes
  aead_chacha20_open buffer_len key counter sealed aad = do
    assert (leb (length sealed) 48)
    plaintext ← or_invalid (c.open_sealed key (nonce_of counter) aad sealed)
    assert (length plaintext == buffer_len)
    ok plaintext
