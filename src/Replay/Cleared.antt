-- ===== src/Replay/Cleared.antt =====
-- What a loop of `mark_did_receive` in boringtun/src/noise/session.rs clears in the window.
use boringtun.Prelude.{ℕ, ◌+◌, ◌%◌, ◌≤◌, ◌<◌, ◌≡◌, refl, ◌∙◌, arith}
use native.Mathlib.Decide.{dec_lt}
use boringtun.Replay.{ReceivingKeyCounterValidator, n_bits, word_size, clear_bit, clear_word}
use boringtun.Replay.Digits.{
  IsSized, mark_of, mark_of-clear_bit, mark_of-clear_word, clear_bit-IsSized, clear_word-IsSized,
}

-- `v'` is `v` with the bits of the counters from `lo` up to `hi` cleared: those of the older
-- counters that share no bit with them stay.
pub record IsCleared (lo hi : ℕ) (v v' : ReceivingKeyCounterValidator) : Type 0 where
  pub sized : IsSized v'
  pub same_next : v'.next ≡ v.next
  pub same_count : v'.receive_cnt ≡ v.receive_cnt
  pub inside : (j : ℕ) → lo ≤ j → j < hi → mark_of v' j ≡ 0
  pub outside : (j : ℕ) → j < lo → hi ≤ j + n_bits → mark_of v' j ≡ mark_of v j

pub IsCleared-none : (i : ℕ) (v : ReceivingKeyCounterValidator) → IsSized v → IsCleared i i v v
IsCleared-none i v sized = record {
  sized = sized;
  same_next = refl;
  same_count = refl;
  inside = λ j p q. absurd (omega arith);
  outside = λ j p q. refl;
}

pub IsCleared-trans :
    {lo mid hi : ℕ} {v v' v'' : ReceivingKeyCounterValidator}
    → lo ≤ mid
    → mid ≤ hi
    → hi ≤ lo + n_bits
    → IsCleared lo mid v v'
    → IsCleared mid hi v' v''
    → IsCleared lo hi v v''
IsCleared-trans {mid} p q w a b = record {
  sized = b.sized;
  same_next = b.same_next ∙ a.same_next;
  same_count = b.same_count ∙ a.same_count;
  inside = λ j l h. elim (dec_lt j mid) [
    | yes below ↦ b.outside j below (omega arith) ∙ a.inside j l below
    | no above ↦ b.inside j (omega arith) h
  ];
  outside = λ j l h. b.outside j (omega arith) h ∙ a.outside j l (omega arith);
}

pub clear_bit-IsCleared :
    (i : ℕ) (v : ReceivingKeyCounterValidator) → IsSized v → IsCleared i (i + 1) v (clear_bit v i)
clear_bit-IsCleared i v sized = record {
  sized = clear_bit-IsSized v i sized;
  same_next = unfold clear_bit in refl;
  same_count = unfold clear_bit in refl;
  inside = λ j p q. ground (arith, mark_of-clear_bit v i j sized);
  outside = λ j p q. ground (arith, mark_of-clear_bit v i j sized);
}

pub clear_word-IsCleared :
    (i : ℕ) (v : ReceivingKeyCounterValidator)
    → i % word_size ≡ 0
    → IsSized v
    → IsCleared i (i + word_size) v (clear_word v i)
clear_word-IsCleared i v aligned sized = record {
  sized = clear_word-IsSized v i sized;
  same_next = unfold clear_word in refl;
  same_count = unfold clear_word in refl;
  inside = λ j p q. ground (arith, mark_of-clear_word v i j sized);
  outside = λ j p q. ground (arith, mark_of-clear_word v i j sized);
}
