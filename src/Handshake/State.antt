-- ===== src/Handshake/State.antt =====
-- The state of a handshake of boringtun/src/noise/handshake.rs, and its small operations.
use Prim.Native.Nat.{bit_and, bit_or}
use mathlib.Core.List.{[], ◌∷◌}
use boringtun.Prelude.{
  ℕ, ◌+◌, ◌-◌, ◌%◌, ◌^◌, Bool, true, false, Option, Result, ok, ◌>>=◌, ◌>>◌, assert,
}
use boringtun.Bytes.{Bytes, bytes_eq}
use boringtun.Crypto.{Crypto, b2s_hash}
use boringtun.Handshake.Tai64n.{Tai64N, TimeStamper}
use boringtun.Handshake.Tai64n

-- `NoiseParams`
pub record NoiseParams : Type 0 where
  pub static_public : Bytes
  pub static_private : Bytes
  pub peer_static_public : Bytes
  pub static_shared : Bytes
  pub sending_mac1_key : Bytes
  pub cookie_key : Bytes
  pub preshared_key : Option Bytes

pub record HandshakeInitSentState : Type 0 where
  pub local_index : ℕ
  pub hash : Bytes
  pub chaining_key : Bytes
  pub ephemeral_private : Bytes
  pub time_sent : ℕ

-- The fields of `HandshakeState::InitReceived`
pub record InitReceived : Type 0 where
  pub hash : Bytes
  pub chaining_key : Bytes
  pub peer_ephemeral_public : Bytes
  pub peer_index : ℕ

pub data HandshakeState : Type 0 where
  none : HandshakeState
  init_sent : HandshakeInitSentState → HandshakeState
  init_received : InitReceived → HandshakeState
  expired : HandshakeState

pub record Cookies : Type 0 where
  pub last_mac1 : Option Bytes
  pub index : ℕ
  pub write_cookie : Option Bytes

pub record Handshake : Type 0 where
  pub params : NoiseParams
  pub next_index : ℕ
  pub previous : HandshakeState
  pub state : HandshakeState
  pub cookies : Cookies
  pub last_handshake_timestamp : Tai64N
  pub stamper : TimeStamper
  pub last_rtt : Option ℕ

-- The bytes of "mac1----" and "cookie--"
abbrev pub label_mac1 : Bytes
label_mac1 = 109 ∷ 97 ∷ 99 ∷ 49 ∷ 45 ∷ 45 ∷ 45 ∷ 45 ∷ []

abbrev pub label_cookie : Bytes
label_cookie = 99 ∷ 111 ∷ 111 ∷ 107 ∷ 105 ∷ 101 ∷ 45 ∷ 45 ∷ []

-- `Cookies::default()`
abbrev pub no_cookies : Cookies
no_cookies = record { last_mac1 = Option.none; index = 0; write_cookie = Option.none }

abbrev is_some : Option Bytes → Bool
is_some (Option.some b) = true
is_some Option.none = false

module _ (c : Crypto) where
  -- `NoiseParams::new`
  unfoldable pub new_params : Bytes → Bytes → Bytes → Option Bytes → NoiseParams
  new_params private public peer preshared = record {
    static_public = public;
    static_private = private;
    peer_static_public = peer;
    static_shared = c.diffie_hellman private peer;
    sending_mac1_key = b2s_hash c label_mac1 peer;
    cookie_key = b2s_hash c label_cookie peer;
    preshared_key = preshared;
  }

  -- `NoiseParams::set_static_private`, which panics if the keys do not belong together
  unfoldable pub set_params_private : NoiseParams → Bytes → Bytes → Result NoiseParams
  set_params_private p private public = do
    assert (bytes_eq (c.public_key private) public)
    ok (record p {
      static_private = private;
      static_public = public;
      static_shared = c.diffie_hellman private p.peer_static_public;
    })

  -- `Handshake::new`, at a reading of the clocks
  unfoldable pub new : Bytes → Bytes → Bytes → ℕ → Option Bytes → ℕ → ℕ → Handshake
  new private public peer global_idx preshared system_now now = record {
    params = new_params private public peer preshared;
    next_index = global_idx;
    previous = none;
    state = none;
    cookies = no_cookies;
    last_handshake_timestamp = Tai64n.zero;
    stamper = Tai64n.new system_now now;
    last_rtt = Option.none;
  }

  unfoldable pub set_static_private : Handshake → Bytes → Bytes → Result Handshake
  set_static_private h private public = do
    p ← set_params_private h.params private public
    ok (record h { params = p })

abbrev pub state_in_progress : HandshakeState → Bool
state_in_progress none = false
state_in_progress expired = false
state_in_progress _ = true

abbrev pub is_in_progress : Handshake → Bool
is_in_progress h = state_in_progress h.state

abbrev pub state_timer : HandshakeState → Option ℕ
state_timer (init_sent s) = Option.some s.time_sent
state_timer _ = Option.none

abbrev pub timer : Handshake → Option ℕ
timer h = state_timer h.state

unfoldable pub set_expired : Handshake → Handshake
set_expired h = record h { previous = expired; state = expired }

abbrev pub state_expired : HandshakeState → Bool
state_expired expired = true
state_expired _ = false

abbrev pub is_expired : Handshake → Bool
is_expired h = state_expired h.state

abbrev pub has_cookie : Handshake → Bool
has_cookie h = is_some h.cookies.write_cookie

unfoldable pub clear_cookie : Handshake → Handshake
clear_cookie h = record h { cookies = record (h.cookies) { write_cookie = Option.none } }

-- 24 bits of peer index, and 8 bits that count the sessions in a circle.
unfoldable pub next_of : ℕ → ℕ
next_of index = bit_or (bit_and index (2 ^ 32 - 1 - 0xff)) ((index % 256 + 1) % 256)

unfoldable pub inc_index : Handshake → Handshake × ℕ
inc_index h = (record h { next_index = next_of h.next_index }, next_of h.next_index)
