-- ===== src/Device/Lock.antt =====
-- The lock of the device: boringtun/src/device/dev_lock.rs, as a step relation on the threads that
-- use it. A mutex is held within a step only, and a wait is a step that is not possible yet.
pub mod Exclusion
mod Tests
use boringtun.Prelude.{ℕ, ◌≡◌, Bool, true, false, ◌==◌, if◌then◌else◌}

-- Where a thread is. With a guard it is `reading`. `try_writeable` gives the read lock up to wait for
-- the flag, takes it again for `prep_func`, gives it up for the write lock of `mut_func`, and takes it
-- again before the flag falls.
pub data Place : Type 0 where
  outside : Place
  reading : Place
  claiming : Place
  claimed : Place
  preparing : Place
  upgrading : Place
  writing : Place
  written : Place
  finishing : Place

-- The thread holds the read lock.
abbrev pub is_reader : Place → Bool
is_reader reading = true
is_reader preparing = true
is_reader finishing = true
is_reader _ = false

-- The thread holds the write lock.
abbrev pub is_writer : Place → Bool
is_writer writing = true
is_writer _ = false

-- `wants_write`, and the places of the threads, which are numbers
pub record Lock : Type 0 where
  pub wants_write : Bool
  pub places : ℕ → Place

-- What a step needs of the lock `inner`: nothing, that nobody writes, or that nobody holds it.
pub data Need : Type 0 where
  nothing : Need
  no_writer : Need
  nobody : Need

-- A step of one thread, with the flag before and after it. `read` and the first part of
-- `try_writeable` wait for the flag to fall.
pub data Move : Place → Bool → Place → Bool → Need → Type 0 where
  read : Move outside false reading false no_writer
  drop_guard : {w : Bool} → Move reading w outside w nothing
  try_writeable : {w : Bool} → Move reading w claiming w nothing
  claim : Move claiming false claimed true nothing
  relock : {w : Bool} → Move claimed w preparing w no_writer
  prepared : {w : Bool} → Move preparing w upgrading w nothing
  write : {w : Bool} → Move upgrading w writing w nobody
  mutated : {w : Bool} → Move writing w written w nothing
  relock_again : {w : Bool} → Move written w finishing w no_writer
  signal : {w : Bool} → Move finishing w reading false nothing

abbrev pub Meets : Need → Lock → Type 0
Meets nothing s = Unit
Meets no_writer s = (t : ℕ) → is_writer (s.places t) ≡ false
Meets nobody s = (t : ℕ) → (is_writer (s.places t) ≡ false) × (is_reader (s.places t) ≡ false)

abbrev pub put_place : (ℕ → Place) → ℕ → Place → ℕ → Place
put_place places t b u = if u == t then b else places u

pub data Step : Lock → Lock → Type 0 where
  moved :
      {s : Lock} {b : Place} {w : Bool} {need : Need} (t : ℕ)
      → Move (s.places t) s.wants_write b w need
      → Meets need s
      → Step s (record { wants_write = w; places = put_place s.places t b })

-- `Lock::new`
unfoldable pub new : Lock
new = record { wants_write = false; places = λ t. outside }

pub data Reachable : Lock → Type 0 where
  start : Reachable new
  after : {s s' : Lock} → Reachable s → Step s s' → Reachable s'
