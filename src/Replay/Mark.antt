-- ===== src/Replay/Mark.antt =====
-- `will_accept` and `mark_did_receive` of session.rs against the window of sets.
use Prim.Native.Nat.{max}
use boringtun.Prelude.{
  ℕ, zero, suc, ◌+◌, ◌-◌, ◌^◌, ◌≤◌, ◌<◌, ◌≡◌, ◌≢◌, refl, ap, ◌∙◌, arith, Bool, true, false, ◌||◌,
  inl, inr, ltb, leb, ◌==◌, if◌then◌else◌, Bool-cases, Result, ok, err, invalid_counter,
  duplicate_counter, get_or, replicate,
}
use native.Mathlib.Decide.{dec_lt, ℕ_discrete}
use boringtun.Bits.{bit, bit-zero}
use boringtun.Replay.{
  ReceivingKeyCounterValidator, new, n_bits, n_words, add64, set_bit, check_bit, will_accept,
  skip_ahead, mark_did_receive, bit_of, word_of, clear_skipped,
}
use boringtun.Replay.Digits.{
  IsSized, mark_of, mark_of-set_bit, set_bit-IsSized, check_bit-eq-mark_of,
}
use boringtun.Replay.Clear.{clear_skipped-IsCleared}
use boringtun.Replay.Window.{Window, accepts, receive, empty}
use boringtun.Replay.Window

-- How the final check and the quick check report what the window decides.
abbrev pub verdict : Bool → Result (Unit {0})
verdict accepted = if accepted then ok tt else err invalid_counter

abbrev pub quick_verdict : ReceivingKeyCounterValidator → ℕ → Bool → Result (Unit {0})
quick_verdict v c accepted =
    if accepted
    then ok tt
    else if ltb (c + n_bits) v.next
    then err invalid_counter
    else err duplicate_counter

abbrev pub digit_of : Bool → ℕ
digit_of b = if b then 1 else 0

-- The bitmap holds what the window has received of the last `n_bits` counters.
pub record Refines (v : ReceivingKeyCounterValidator) (w : Window) : Type 0 where
  pub sized : IsSized v
  pub same_next : v.next ≡ w.next
  pub small : v.next ≤ 2 ^ 64 - n_bits
  pub recent : (j : ℕ) → j < v.next → v.next ≤ j + n_bits → mark_of v j ≡ digit_of (w.received j)
  pub unseen : (j : ℕ) → w.next ≤ j → w.received j ≡ false

zero_words : (k n : ℕ) → get_or {A = ℕ} (replicate n 0) k 0 ≡ 0
zero_words k zero = refl
zero_words zero (suc n) = refl
zero_words (suc k) (suc n) = zero_words k n

pub new-Refines : Refines new empty
unfolding new
new-Refines = record {
  sized = refl;
  same_next = refl;
  small = omega arith;
  recent = λ j p q. absurd (omega arith);
  unseen = λ j p. refl;
}

module _ {v : ReceivingKeyCounterValidator} {w : Window} (r : Refines v w) (c : ℕ)
    (fits : c < 2 ^ 64 - n_bits) where
  -- For a bitmap that holds a window and a counter that is not among the last `n_bits` of a u64,
  -- `will_accept` accepts the counter exactly if the window does, and tells an old one from a
  -- duplicate.
  pub will_accept_refines : will_accept v c ≡ quick_verdict v c (accepts w c)
  unfolding will_accept
  will_accept_refines = ground (arith, check_bit-eq-mark_of v c, r.recent c)

  set_bit-recent :
      (u : ReceivingKeyCounterValidator) (n : ℕ)
      → IsSized u
      → c < n
      → n ≤ c + n_bits
      → ((j : ℕ) → j < n → n ≤ j + n_bits → j ≢ c → mark_of u j ≡ digit_of (w.received j))
      → (j : ℕ) → j < n
      → n ≤ j + n_bits
      → mark_of (set_bit u c) j ≡ digit_of ((c == j) || w.received j)
  set_bit-recent u n sized below near old j p q = ground (arith, mark_of-set_bit u c j sized, old j)

  set_bit-Refines :
      c ≤ v.next
      → v.next ≤ c + n_bits
      → (n : ℕ) → n ≡ max w.next (c + 1)
      → n ≤ c + n_bits
      → Refines (record (set_bit v c) { next = n }) (receive w c)
  set_bit-Refines le near n e top = record {
    sized = set_bit-IsSized v c r.sized;
    same_next = e;
    small = omega (arith, r.same_next, r.small);
    recent =
        set_bit-recent v n r.sized (omega arith) top
          λ j p q ne. r.recent j (omega (arith, r.same_next)) (omega (arith, r.same_next));
    unseen = λ j p. ground (arith, r.unseen j);
  }

  -- The counters from `next` up to `counter` were dropped or are still on their way.
  skip_ahead-Refines : v.next < c → Refines (skip_ahead v c) (receive w c)
  unfolding skip_ahead
  skip_ahead-Refines lt = elim (Bool-cases (leb n_bits (c - v.next))) [
    | inl far ↦ rw far (filled blank refl λ j p q. blank_recent j (ground arith))
    | inr near ↦
        let near' : c < v.next + n_bits = ground arith in
        let cleared = (clear_skipped-IsCleared c fits v r.sized (omega arith) (omega arith)).3 in
        rw near (
          filled (clear_skipped v c) cleared.sized λ j p q. elim (dec_lt j v.next) [
            | yes old ↦ cleared.outside j old (omega arith) ∙ r.recent j old (omega arith)
            | no skipped ↦ ground (arith, cleared.inside j, r.unseen j, r.same_next)
          ])
  ]
    where
      filled :
          (u : ReceivingKeyCounterValidator)
          → IsSized u
          → ((j : ℕ) → j < c → c < j + n_bits → mark_of u j ≡ digit_of (w.received j))
          → Refines (record (set_bit u c) { next = add64 c 1 }) (receive w c)
      filled u sized old = record {
        sized = set_bit-IsSized u c sized;
        same_next = omega (arith, r.same_next);
        small = omega arith;
        recent =
            set_bit-recent u (add64 c 1) sized (omega arith) (omega arith)
              λ j p q ne. old j (omega arith) (omega arith);
        unseen = λ j p. ground (arith, r.unseen j);
      }

      blank : ReceivingKeyCounterValidator
      blank = record v { bitmap = replicate n_words 0 }

      blank_recent : (j : ℕ) → v.next ≤ j → mark_of blank j ≡ digit_of (w.received j)
      blank_recent j h =
          ap (bit (bit_of j)) (zero_words (word_of j) n_words)
          ∙ ground (arith, bit-zero (bit_of j), r.unseen j, r.same_next)

  -- The outcome of one counter, with the states that both sides reach.
  record Outcome (accepted : Bool) (v' : ReceivingKeyCounterValidator) (w' : Window) : Type 0 where
    marked : mark_did_receive v c ≡ (v', verdict accepted)
    decided : accepts w c ≡ accepted
    window : Window.mark w c ≡ w'
    related : Refines v' w'

  duplicate : check_bit v c ≡ true → c < v.next → v.next ≤ c + n_bits → Outcome false v w
  duplicate seen lt near = record {
    marked = unfold mark_did_receive in ground arith;
    decided = refused;
    window = unfold Window.mark in rw refused;
    related = r;
  }
    where
      refused : accepts w c ≡ false
      refused = ground (arith, check_bit-eq-mark_of v c, r.recent c, r.same_next)

  late :
      check_bit v c ≡ false
      → c < v.next
      → v.next ≤ c + n_bits
      → Outcome true (set_bit v c) (receive w c)
  unfolding set_bit
  late unseen lt near = record {
    marked = unfold mark_did_receive in ground arith;
    decided = taken;
    window = unfold Window.mark in rw taken;
    related = set_bit-Refines (omega arith) near v.next (omega (arith, r.same_next)) near;
  }
    where
      taken : accepts w c ≡ true
      taken = ground (arith, check_bit-eq-mark_of v c, r.recent c, r.same_next)

  too_old : c + n_bits < v.next → Outcome false v w
  too_old old = record {
    marked = unfold mark_did_receive in ground arith;
    decided = refused;
    window = unfold Window.mark in rw refused;
    related = r;
  }
    where
      refused : accepts w c ≡ false
      refused = ground (arith, r.same_next)

  in_order :
      c ≡ v.next → Outcome true (record (set_bit v c) { next = add64 v.next 1 }) (receive w c)
  in_order e = record {
    marked = unfold mark_did_receive in ground arith;
    decided = taken;
    window = unfold Window.mark in rw taken;
    related =
        set_bit-Refines (omega arith) (omega arith) (add64 v.next 1) (omega (arith, r.same_next))
          (omega arith);
  }
    where
      taken : accepts w c ≡ true
      taken = ground (arith, r.same_next)

  ahead : v.next < c → Outcome true (skip_ahead v c) (receive w c)
  ahead lt = record {
    marked = unfold mark_did_receive in ground arith;
    decided = taken;
    window = unfold Window.mark in rw taken;
    related = skip_ahead-Refines lt;
  }
    where
      taken : accepts w c ≡ true
      taken = ground (arith, r.same_next)

  by-Outcome :
      {b : Bool} {v' : ReceivingKeyCounterValidator} {w' : Window}
      → Outcome b v' w'
      → ((mark_did_receive v c).1 ≡ verdict (accepts w c))
        × Refines (mark_did_receive v c).0 (Window.mark w c)
  by-Outcome o = rw (o.marked, o.decided, o.window) (refl, o.related)

  -- For a bitmap that holds a window and a counter that is not among the last `n_bits` of a u64,
  -- `mark_did_receive` accepts the counter exactly if the window does, and leaves a bitmap that
  -- holds the window with that counter marked.
  pub mark_did_receive_refines :
      ((mark_did_receive v c).1 ≡ verdict (accepts w c))
      × Refines (mark_did_receive v c).0 (Window.mark w c)
  mark_did_receive_refines = elim (dec_lt (c + n_bits) v.next) [
    | yes old ↦ by-Outcome (too_old old)
    | no near ↦ elim (dec_lt v.next c) [
      | yes above ↦ by-Outcome (ahead above)
      | no upto ↦ elim (ℕ_discrete c v.next) [
        | yes e ↦ by-Outcome (in_order e)
        | no ne ↦ elim (Bool-cases (check_bit v c)) [
          | inl seen ↦ by-Outcome (duplicate seen (omega arith) (omega arith))
          | inr unseen ↦ by-Outcome (late unseen (omega arith) (omega arith))
        ]
      ]
    ]
  ]
