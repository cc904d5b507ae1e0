-- ===== src/Prelude/Outcome.antt =====
-- boringtun/src/noise/errors.rs, and the outcome of a fallible call.
use mathlib.Core.Bool.{Bool, true, false}

-- `enum WireGuardError`
pub data WireGuardError : Type 0 where
  destination_buffer_too_small : WireGuardError
  incorrect_packet_length : WireGuardError
  unexpected_packet : WireGuardError
  wrong_packet_type : WireGuardError
  wrong_index : WireGuardError
  wrong_key : WireGuardError
  wrong_tai64n_timestamp : WireGuardError
  invalid_mac : WireGuardError
  invalid_aead_tag : WireGuardError
  invalid_counter : WireGuardError
  duplicate_counter : WireGuardError
  invalid_packet : WireGuardError
  no_current_session : WireGuardError
  lock_failed : WireGuardError
  connection_expired : WireGuardError
  under_load : WireGuardError

-- `Result<A, WireGuardError>`, and the panic of an `assert!`, an `unwrap` or a slice out of range.
pub data Result {ℓ} (A : Type ℓ) : Type ℓ where
  ok : A → Result A
  err : WireGuardError → Result A
  panic : Result A

infixl 5 ◌>>=◌ ◌>>◌
-- The `?` operator.
abbrev pub ◌>>=◌ {ℓ κ} : {A : Type ℓ} {B : Type κ} → Result A → (A → Result B) → Result B
ok a >>= f = f a
err e >>= f = err e
panic >>= f = panic

abbrev pub ◌>>◌ {ℓ} : {B : Type ℓ} → Result (Unit {0}) → Result B → Result B
m >> k = m >>= λ _. k

-- `if !test { return Err(e) }`
abbrev pub ensure : Bool → WireGuardError → Result (Unit {0})
ensure true e = ok tt
ensure false e = err e

-- `assert!(test)`
abbrev pub assert : Bool → Result (Unit {0})
assert true = ok tt
assert false = panic
