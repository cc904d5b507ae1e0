-- ===== src/Replay/Clear.antt =====
-- The loops of `mark_did_receive` in session.rs that mark the skipped counters unused.
use Prim.Native.Nat.{bit_and}
use boringtun.Prelude.{
  ℕ, zero, suc, ◌+◌, ◌-◌, ◌%◌, ◌^◌, ◌≤◌, ◌<◌, ◌≡◌, ap, ◌∙◌, arith, Bool, false, not, ◌&&◌, ◌⊎◌, inl,
  inr, ltb, ◌==◌, Bool-cases,
}
use mathlib.Core.Path.{subst}
use boringtun.Bits.{bit_and_high}
use boringtun.Replay.{
  ReceivingKeyCounterValidator, n_bits, word_size, add64, clear_bit, clear_word, clear_to_word,
  clear_words, clear_rest, run_to_word, run_words, run_rest, clear_skipped,
}
use boringtun.Replay.Cleared.{
  IsCleared, IsCleared-none, IsCleared-trans, clear_bit-IsCleared, clear_word-IsCleared,
}
use boringtun.Replay.Digits.{IsSized, clear_bit-IsSized, clear_word-IsSized}

-- The loop clears what it passes and stops between `i` and `counter` where its condition fails.
pub record StopsAt (i counter : ℕ) (more : ℕ → Bool) (v : ReceivingKeyCounterValidator)
    (r : ReceivingKeyCounterValidator × ℕ) : Type 0 where
  pub cleared : IsCleared i r.1 v r.0
  pub from : i ≤ r.1
  pub upto : r.1 ≤ counter
  pub stopped : more r.1 ≡ false

-- The conditions of the three loops
abbrev pub more_to_word : ℕ → ℕ → Bool
more_to_word counter i = not (i % word_size == 0) && ltb i counter

abbrev pub more_words : ℕ → ℕ → Bool
more_words counter i = ltb (add64 i word_size) counter

abbrev pub more_rest : ℕ → ℕ → Bool
more_rest counter i = ltb i counter

-- Where the three loops leave the window and `i`
abbrev pub after_to_word : ℕ → ReceivingKeyCounterValidator → ReceivingKeyCounterValidator × ℕ
after_to_word counter v = run_to_word counter v v.next

abbrev pub after_words : ℕ → ReceivingKeyCounterValidator → ReceivingKeyCounterValidator × ℕ
after_words counter v = run_words counter (after_to_word counter v).0 (after_to_word counter v).1

abbrev pub after_rest : ℕ → ReceivingKeyCounterValidator → ReceivingKeyCounterValidator × ℕ
after_rest counter v = run_rest counter (after_words counter v).0 (after_words counter v).1

module _ (counter : ℕ) (fits : counter < 2 ^ 64 - n_bits) where
  clear_to_word-StopsAt :
      (fuel : ℕ) (v : ReceivingKeyCounterValidator) (i : ℕ)
      → IsSized v
      → i ≤ counter
      → counter ≤ i + n_bits
      → counter - i ≤ fuel
      → StopsAt i counter (more_to_word counter) v (clear_to_word fuel counter v i)
  unfolding clear_to_word
  clear_to_word-StopsAt zero v i sized le near enough = record {
    cleared = IsCleared-none i v sized;
    from = omega arith;
    upto = le;
    stopped = ground arith;
  }
  clear_to_word-StopsAt (suc fuel) v i sized le near enough =
      elim (Bool-cases (more_to_word counter i)) [
        | inl more ↦
            let bounds : (i < counter) × (add64 i 1 ≡ i + 1) = ground arith in
            let rest =
              clear_to_word-StopsAt fuel (clear_bit v i) (i + 1) (clear_bit-IsSized v i sized)
                (omega arith) (omega arith) (omega arith) in
            rw (more, bounds.1)
              (record {
                cleared =
                    IsCleared-trans (omega arith) rest.from (omega (arith, rest.upto))
                      (clear_bit-IsCleared i v sized) rest.cleared;
                from = omega (arith, rest.from);
                upto = rest.upto;
                stopped = rest.stopped;
              })
        | inr done ↦ rw done (record {
          cleared = IsCleared-none i v sized;
          from = omega arith;
          upto = le;
          stopped = done;
        })
      ]

  next_word :
      (i : ℕ)
      → i % word_size ≡ 0
      → i < counter
      → bit_and (add64 i word_size) ((2 ^ 64 - word_size) % 2 ^ 64) ≡ i + word_size
  next_word i aligned lt =
      ap (λ t. bit_and t ((2 ^ 64 - word_size) % 2 ^ 64)) small
      ∙ bit_and_high 6 58 (i + word_size) (omega arith)
      ∙ omega arith
    where
      small : add64 i word_size ≡ i + word_size
      small = omega arith

  clear_words-StopsAt :
      (fuel : ℕ) (v : ReceivingKeyCounterValidator) (i : ℕ)
      → IsSized v
      → i ≤ counter
      → counter ≤ i + n_bits
      → (i % word_size ≡ 0) ⊎ (i ≡ counter)
      → counter - i ≤ fuel
      → StopsAt i counter (more_words counter) v (clear_words fuel counter v i)
  unfolding clear_words
  clear_words-StopsAt zero v i sized le near al enough = record {
    cleared = IsCleared-none i v sized;
    from = omega arith;
    upto = le;
    stopped = ground arith;
  }
  clear_words-StopsAt (suc fuel) v i sized le near al enough =
      elim (Bool-cases (more_words counter i)) [
        | inl more ↦
            let bounds : (i + word_size < counter) × (i % word_size ≡ 0) = ground arith in
            let rest =
              clear_words-StopsAt fuel (clear_word v i) (i + word_size)
                (clear_word-IsSized v i sized) (omega arith) (omega arith) (inl (omega arith))
                (omega arith) in
            rw (more, next_word i bounds.1 (omega arith))
              (record {
                cleared =
                    IsCleared-trans (omega arith) rest.from (omega (arith, rest.upto))
                      (clear_word-IsCleared i v bounds.1 sized) rest.cleared;
                from = omega (arith, rest.from);
                upto = rest.upto;
                stopped = rest.stopped;
              })
        | inr done ↦ rw done (record {
          cleared = IsCleared-none i v sized;
          from = omega arith;
          upto = le;
          stopped = done;
        })
      ]

  clear_rest-StopsAt :
      (fuel : ℕ) (v : ReceivingKeyCounterValidator) (i : ℕ)
      → IsSized v
      → i ≤ counter
      → counter ≤ i + n_bits
      → counter - i ≤ fuel
      → StopsAt i counter (more_rest counter) v (clear_rest fuel counter v i)
  unfolding clear_rest
  clear_rest-StopsAt zero v i sized le near enough = record {
    cleared = IsCleared-none i v sized;
    from = omega arith;
    upto = le;
    stopped = ground arith;
  }
  clear_rest-StopsAt (suc fuel) v i sized le near enough = elim (Bool-cases (more_rest counter i)) [
    | inl more ↦
        let bounds : (i < counter) × (add64 i 1 ≡ i + 1) = ground arith in
        let rest =
          clear_rest-StopsAt fuel (clear_bit v i) (i + 1) (clear_bit-IsSized v i sized)
            (omega arith) (omega arith) (omega arith) in
        rw (more, bounds.1)
          (record {
            cleared =
                IsCleared-trans (omega arith) rest.from (omega (arith, rest.upto))
                  (clear_bit-IsCleared i v sized) rest.cleared;
            from = omega (arith, rest.from);
            upto = rest.upto;
            stopped = rest.stopped;
          })
    | inr done ↦ rw done (record {
      cleared = IsCleared-none i v sized;
      from = omega arith;
      upto = le;
      stopped = done;
    })
  ]

  module _ (v : ReceivingKeyCounterValidator) (sized : IsSized v) (le : v.next ≤ counter)
      (near : counter ≤ v.next + n_bits) where
    first-StopsAt : StopsAt v.next counter (more_to_word counter) v (after_to_word counter v)
    first-StopsAt = clear_to_word-StopsAt (counter - v.next) v v.next sized le near (omega arith)

    second-StopsAt :
        StopsAt
          (after_to_word counter v).1
          counter
          (more_words counter)
          (after_to_word counter v).0
          (after_words counter v)
    second-StopsAt =
        let a = first-StopsAt in
        clear_words-StopsAt (counter - (after_to_word counter v).1) (after_to_word counter v).0
          (after_to_word counter v).1 a.cleared.sized a.upto (omega (arith, a.from))
          (boundary a.stopped a.upto) (omega arith)
      where
        boundary :
            {i : ℕ}
            → more_to_word counter i ≡ false
            → i ≤ counter
            → (i % word_size ≡ 0) ⊎ (i ≡ counter)
        boundary h k = ground arith

    third-StopsAt :
        StopsAt
          (after_words counter v).1
          counter
          (more_rest counter)
          (after_words counter v).0
          (after_rest counter v)
    third-StopsAt =
        let a = first-StopsAt in
        let b = second-StopsAt in
        clear_rest-StopsAt (counter - (after_words counter v).1) (after_words counter v).0
          (after_words counter v).1 b.cleared.sized b.upto (omega (arith, a.from, b.from))
          (omega arith)

    -- The three loops, with the fuel that they are given, end where their conditions fail, and
    -- together they clear the skipped counters and nothing else of the window, for a bitmap of the
    -- right size and a counter that is ahead of the next one by at most `n_bits` and not among the
    -- last `n_bits` of a u64.
    pub clear_skipped-IsCleared :
        (more_to_word counter (after_to_word counter v).1 ≡ false)
        × (more_words counter (after_words counter v).1 ≡ false)
        × (more_rest counter (after_rest counter v).1 ≡ false)
        × IsCleared v.next counter v (clear_skipped v counter)
    unfolding clear_skipped
    clear_skipped-IsCleared =
        let a = first-StopsAt in
        let b = second-StopsAt in
        let d = third-StopsAt in
        let at_end : (after_rest counter v).1 ≡ counter = ends d.stopped d.upto in
        (
          a.stopped,
          b.stopped,
          d.stopped,
          IsCleared-trans a.from a.upto (omega arith) a.cleared (
              IsCleared-trans b.from b.upto (omega (arith, a.from)) b.cleared (
                subst
                  (λ (hi : ℕ).
                    IsCleared (after_words counter v).1 hi (after_words counter v).0
                      (after_rest counter v).0)
                  at_end d.cleared)),
        )
      where
        ends : {i : ℕ} → more_rest counter i ≡ false → i ≤ counter → i ≡ counter
        ends h k = ground arith
