-- ===== src/Device/Lock/Exclusion.antt =====
-- What the flag `wants_write` of boringtun/src/device/dev_lock.rs keeps other threads from.
use boringtun.Prelude.{
  ℕ, ◌≡◌, ◌≢◌, refl, sym, ◌∙◌, Bool, true, false, ◌==◌, ==_iff, ◌⊎◌, inl, inr, Bool-cases,
  false_ne_true,
}
use mathlib.Core.Path.{subst}
use boringtun.Device.Lock.{
  Place, outside, reading, claiming, claimed, preparing, upgrading, writing, written, finishing,
  is_reader, is_writer, Lock, Need, Move, read, drop_guard, try_writeable, claim, relock, prepared,
  write, mutated, relock_again, signal, put_place, Step, moved, new, Reachable, start, after,
}

-- The thread has set the flag.
abbrev pub is_owner : Place → Bool
is_owner outside = false
is_owner reading = false
is_owner claiming = false
is_owner claimed = true
is_owner preparing = true
is_owner upgrading = true
is_owner writing = true
is_owner written = true
is_owner finishing = true

-- A thread that has set the flag had it set, or found it down and left it up.
owner-before :
    {a b : Place} {w w' : Bool} {n : Need}
    → Move a w b w' n
    → is_owner b ≡ true
    → ((is_owner a ≡ true) × (w' ≡ w)) ⊎ ((w ≡ false) × (w' ≡ true))
owner-before read h = absurd cc
owner-before drop_guard h = absurd cc
owner-before try_writeable h = absurd cc
owner-before claim h = inr (refl, refl)
owner-before relock h = inl (refl, refl)
owner-before prepared h = inl (refl, refl)
owner-before write h = inl (refl, refl)
owner-before mutated h = inl (refl, refl)
owner-before relock_again h = inl (refl, refl)
owner-before signal h = absurd cc

-- Only a thread that has set the flag takes it down.
flag-after :
    {a b : Place} {w w' : Bool} {n : Need}
    → Move a w b w' n
    → w ≡ true
    → (w' ≡ true) ⊎ (is_owner a ≡ true)
flag-after read h = absurd cc
flag-after drop_guard h = inl h
flag-after try_writeable h = inl h
flag-after claim h = inl refl
flag-after relock h = inl h
flag-after prepared h = inl h
flag-after write h = inl h
flag-after mutated h = inl h
flag-after relock_again h = inl h
flag-after signal h = inr refl

-- While the flag is up, a thread reads only if it did or has set the flag.
reader-before :
    {a b : Place} {w w' : Bool} {n : Need}
    → Move a w b w' n
    → w ≡ true
    → is_owner a ≡ false
    → is_reader a ≡ false
    → is_reader b ≡ false
reader-before read h k r = absurd cc
reader-before drop_guard h k r = refl
reader-before try_writeable h k r = refl
reader-before claim h k r = refl
reader-before relock h k r = absurd cc
reader-before prepared h k r = refl
reader-before write h k r = refl
reader-before mutated h k r = refl
reader-before relock_again h k r = absurd cc
reader-before signal h k r = absurd cc

-- One thread at most has set the flag, which is up then.
record IsSafe (s : Lock) : Type 0 where
  flagged : (t : ℕ) → is_owner (s.places t) ≡ true → s.wants_write ≡ true
  one : (t u : ℕ) → is_owner (s.places t) ≡ true → is_owner (s.places u) ≡ true → t ≡ u

both : (b : Bool) → b ≡ true → b ≡ false → ⊥
both b h k = false_ne_true (sym k ∙ h)

module _ (s : Lock) (safe : IsSafe s) {b : Place} {w : Bool} {need : Need} (t : ℕ)
    (move : Move (s.places t) s.wants_write b w need) where
  abbrev s' : Lock
  s' = record { wants_write = w; places = put_place s.places t b }

  -- A place after the step is the new one of `t`, or an old one of another thread.
  place :
      (P : Place → Type 0) (u : ℕ)
      → P (put_place s.places t b u)
      → ((u ≡ t) × P b) ⊎ ((u ≢ t) × P (s.places u))
  place P u h = elim (Bool-cases (u == t)) [
    | inl e ↦ inl ((==_iff u t).0 e, (rw e at h))
    | inr e ↦ inr ((λ q. both (u == t) ((==_iff u t).1 q) e), (rw e at h))
  ]

  flag_up : is_owner b ≡ true → w ≡ true
  flag_up h = elim (owner-before move h) [
    | inl (owned, same) ↦ same ∙ safe.flagged t owned
    | inr (down, up) ↦ up
  ]

  -- Another thread that has set the flag is not met by a new one.
  alone : (u : ℕ) → u ≢ t → is_owner (s.places u) ≡ true → is_owner b ≡ true → ⊥
  alone u ne owned h = elim (owner-before move h) [
    | inl (mine, same) ↦ ne (safe.one u t owned mine)
    | inr (down, up) ↦ both s.wants_write (safe.flagged u owned) down
  ]

  flagged' : (u : ℕ) → is_owner (s'.places u) ≡ true → w ≡ true
  flagged' u h = elim (place (λ a. is_owner a ≡ true) u h) [
    | inl (same, owned) ↦ flag_up owned
    | inr (ne, owned) ↦ elim (flag-after move (safe.flagged u owned)) [
      | inl up ↦ up
      | inr mine ↦ absurd (ne (safe.one u t owned mine))
    ]
  ]

  one' : (u v : ℕ) → is_owner (s'.places u) ≡ true → is_owner (s'.places v) ≡ true → u ≡ v
  one' u v h k = elim (place (λ a. is_owner a ≡ true) u h) [
    | inl (is_t, owned) ↦ elim (place (λ a. is_owner a ≡ true) v k) [
      | inl (is_t', owned') ↦ is_t ∙ sym is_t'
      | inr (ne, owned') ↦ absurd (alone v ne owned' owned)
    ]
    | inr (ne, owned) ↦ elim (place (λ a. is_owner a ≡ true) v k) [
      | inl (is_t', owned') ↦ absurd (alone u ne owned owned')
      | inr (ne', owned') ↦ safe.one u v owned owned'
    ]
  ]

  step-IsSafe : IsSafe s'
  step-IsSafe = record { flagged = flagged'; one = one' }

reachable-IsSafe : {s : Lock} → Reachable s → IsSafe s
unfolding new
reachable-IsSafe start = record { flagged = λ t h. absurd cc; one = λ t u h k. absurd cc }
reachable-IsSafe (after before (moved {s} t move meets)) =
    step-IsSafe s (reachable-IsSafe before) t move

-- Any number of steps, at each of which the thread `t` has the flag set
pub data Holding (t : ℕ) : Lock → Lock → Type 0 where
  held : {s : Lock} → is_owner (s.places t) ≡ true → Holding t s s
  held_after :
      {s s' s'' : Lock}
      → Holding t s s'
      → Step s' s''
      → is_owner (s''.places t) ≡ true
      → Holding t s s''

reachable_still : {t : ℕ} {s s' : Lock} → Reachable s → Holding t s s' → Reachable s'
reachable_still r (held h) = r
reachable_still r (held_after holding step h) = after (reachable_still r holding) step

owner_still : {t : ℕ} {s s' : Lock} → Holding t s s' → is_owner (s'.places t) ≡ true
owner_still (held h) = h
owner_still (held_after holding step h) = h

not_true : (b : Bool) → (b ≡ true → ⊥) → b ≡ false
not_true true h = absurd (h refl)
not_true false h = refl

other_unowned :
    {s : Lock} (t u : ℕ)
    → Reachable s
    → is_owner (s.places t) ≡ true
    → u ≢ t
    → is_owner (s.places u) ≡ false
other_unowned t u reached owns ne = not_true _ (λ h. ne ((reachable-IsSafe reached).one u t h owns))

-- In one step, while another thread has the flag set
unread_next :
    {s s' : Lock} (t u : ℕ)
    → Reachable s
    → Step s s'
    → is_owner (s.places t) ≡ true
    → u ≢ t
    → is_reader (s.places u) ≡ false
    → is_reader (s'.places u) ≡ false
unread_next t u reached (moved {s} {b} v move meets) owns ne reads = elim (Bool-cases (u == v)) [
  | inl e ↦
      (let same : u ≡ v = (==_iff u v).0 e in
        let up = (reachable-IsSafe reached).flagged t owns in
        rw e (
          reader-before move up
            (subst (λ (x : ℕ). is_owner (s.places x) ≡ false) same
              (other_unowned t u reached owns ne))
            (subst (λ (x : ℕ). is_reader (s.places x) ≡ false) same reads)))
  | inr e ↦ rw e reads
]

unowned_unwritten : (a : Place) → is_owner a ≡ false → is_writer a ≡ false
unowned_unwritten outside h = refl
unowned_unwritten reading h = refl
unowned_unwritten claiming h = refl
unowned_unwritten claimed h = refl
unowned_unwritten preparing h = refl
unowned_unwritten upgrading h = refl
unowned_unwritten writing h = absurd cc
unowned_unwritten written h = refl
unowned_unwritten finishing h = refl

unread_still :
    (t u : ℕ) {s s' : Lock}
    → Reachable s
    → Holding t s s'
    → u ≢ t
    → is_reader (s.places u) ≡ false
    → is_reader (s'.places u) ≡ false
unread_still t u reached (held h) ne reads = reads
unread_still t u reached (held_after holding step h) ne reads =
    unread_next t u (reachable_still reached holding) step (owner_still holding) ne
      (unread_still t u reached holding ne reads)

-- From a state that the lock reaches, while a thread has the flag set, over any number of steps of
-- any threads, another thread that does not hold the read lock at the start of these steps does not
-- hold it after them, and it does not hold the write lock and has not set the flag either.
pub holder_alone :
    {s s' : Lock} (t u : ℕ)
    → Reachable s
    → Holding t s s'
    → u ≢ t
    → is_reader (s.places u) ≡ false
    → (is_reader (s'.places u) ≡ false)
      × (is_writer (s'.places u) ≡ false)
      × (is_owner (s'.places u) ≡ false)
holder_alone {s'} t u reached holding ne reads =
    let free = other_unowned t u (reachable_still reached holding) (owner_still holding) ne in
    (unread_still t u reached holding ne reads, unowned_unwritten (s'.places u) free, free)
