-- ===== src/Replay.antt =====
-- `ReceivingKeyCounterValidator` of boringtun/src/noise/session.rs: the window of packet counters
-- that a session has received. A u64 wraps as in a release build.
pub mod Digits
pub mod Cleared
pub mod Clear
pub mod Window
pub mod Mark
pub mod History
mod Tests
use Prim.Native.Nat.{bit_and, bit_or}
use boringtun.Prelude.{
  ℕ, zero, suc, ◌+◌, ◌-◌, ◌*◌, ◌/◌, ◌%◌, ◌^◌, Bool, true, false, not, ◌&&◌, List, [], ◌∷◌, Result,
  ok, err, WireGuardError, invalid_counter, duplicate_counter, ltb, leb, ◌==◌, if◌then◌else◌,
  get_or, set, replicate,
}

abbrev pub word_size : ℕ
word_size = 64

abbrev pub n_words : ℕ
n_words = 16

abbrev pub n_bits : ℕ
n_bits = word_size * n_words

-- u64 addition
abbrev pub add64 : ℕ → ℕ → ℕ
add64 a b = (a + b) % 2 ^ 64

pub record ReceivingKeyCounterValidator : Type 0 where
  pub next : ℕ
  pub receive_cnt : ℕ
  pub bitmap : List ℕ

-- `ReceivingKeyCounterValidator::default()`
unfoldable pub new : ReceivingKeyCounterValidator
new = record { next = 0; receive_cnt = 0; bitmap = replicate n_words 0 }

abbrev pub word_of : ℕ → ℕ
word_of idx = idx % n_bits / word_size

abbrev pub bit_of : ℕ → ℕ
bit_of idx = idx % n_bits % word_size

-- The word number is below `n_words`, so no access is out of range.
abbrev pub word_at : ReceivingKeyCounterValidator → ℕ → ℕ
word_at v idx = get_or v.bitmap (word_of idx) 0

pub set_bit : ReceivingKeyCounterValidator → ℕ → ReceivingKeyCounterValidator
set_bit v idx = record v {
  bitmap = set v.bitmap (word_of idx) (bit_or (word_at v idx) (2 ^ bit_of idx));
}

pub clear_bit : ReceivingKeyCounterValidator → ℕ → ReceivingKeyCounterValidator
clear_bit v idx = record v {
  bitmap = set v.bitmap (word_of idx) (bit_and (word_at v idx) (2 ^ 64 - 1 - 2 ^ bit_of idx));
}

pub clear_word : ReceivingKeyCounterValidator → ℕ → ReceivingKeyCounterValidator
clear_word v idx = record v { bitmap = set v.bitmap (word_of idx) 0 }

pub check_bit : ReceivingKeyCounterValidator → ℕ → Bool
check_bit v idx = bit_and (word_at v idx / 2 ^ bit_of idx) 1 == 1

unfoldable pub will_accept : ReceivingKeyCounterValidator → ℕ → Result (Unit {0})
will_accept v counter =
    if leb v.next counter
    then ok tt
    else if ltb (add64 counter n_bits) v.next
    then err invalid_counter
    else if check_bit v counter
    then err duplicate_counter
    else ok tt

-- The three loops of `mark_did_receive` over `i`. The fuel is `counter - i`, and every round moves
-- `i` up, so it runs out only where `i < counter` fails.
-- `while !i.is_multiple_of(WORD_SIZE) && i < counter`
pub clear_to_word : ℕ → ℕ → ReceivingKeyCounterValidator → ℕ → ReceivingKeyCounterValidator × ℕ
clear_to_word zero counter v i = (v, i)
clear_to_word (suc fuel) counter v i =
    let rest = clear_to_word fuel counter (clear_bit v i) (add64 i 1) in
    if not (i % word_size == 0) && ltb i counter then rest else (v, i)

-- `while i + WORD_SIZE < counter`
pub clear_words : ℕ → ℕ → ReceivingKeyCounterValidator → ℕ → ReceivingKeyCounterValidator × ℕ
clear_words zero counter v i = (v, i)
clear_words (suc fuel) counter v i =
    let rest =
      clear_words fuel counter (clear_word v i)
        (bit_and (add64 i word_size) ((2 ^ 64 - word_size) % 2 ^ 64)) in
    if ltb (add64 i word_size) counter then rest else (v, i)

-- `while i < counter`
pub clear_rest : ℕ → ℕ → ReceivingKeyCounterValidator → ℕ → ReceivingKeyCounterValidator × ℕ
clear_rest zero counter v i = (v, i)
clear_rest (suc fuel) counter v i =
    let rest = clear_rest fuel counter (clear_bit v i) (add64 i 1) in
    if ltb i counter then rest else (v, i)

-- The loops with their fuel
abbrev pub run_to_word : ℕ → ReceivingKeyCounterValidator → ℕ → ReceivingKeyCounterValidator × ℕ
run_to_word counter v i = clear_to_word (counter - i) counter v i

abbrev pub run_words : ℕ → ReceivingKeyCounterValidator → ℕ → ReceivingKeyCounterValidator × ℕ
run_words counter v i = clear_words (counter - i) counter v i

abbrev pub run_rest : ℕ → ReceivingKeyCounterValidator → ℕ → ReceivingKeyCounterValidator × ℕ
run_rest counter v i = clear_rest (counter - i) counter v i

-- The else branch at the skipped counters: those from `next` up to `counter` are marked unused.
pub clear_skipped : ReceivingKeyCounterValidator → ℕ → ReceivingKeyCounterValidator
clear_skipped v counter =
    let (v₁, i₁) = run_to_word counter v v.next in
    let (v₂, i₂) = run_words counter v₁ i₁ in (run_rest counter v₂ i₂).0

-- The last part of `mark_did_receive`, for `next < counter`.
pub skip_ahead : ReceivingKeyCounterValidator → ℕ → ReceivingKeyCounterValidator
skip_ahead v counter =
    let cleared =
      if leb n_bits (counter - v.next)
      then record v { bitmap = replicate n_words 0 }
      else clear_skipped v counter in
    let marked = set_bit cleared counter in record marked { next = add64 counter 1 }

unfoldable pub mark_did_receive :
    ReceivingKeyCounterValidator → ℕ → ReceivingKeyCounterValidator × Result (Unit {0})
mark_did_receive v counter =
    if ltb (add64 counter n_bits) v.next
    then (v, err invalid_counter)
    else if counter == v.next
    then (let marked = set_bit v counter in (record marked { next = add64 v.next 1 }, ok tt))
    else if ltb counter v.next
    then (if check_bit v counter then (v, err invalid_counter) else (set_bit v counter, ok tt))
    else (skip_ahead v counter, ok tt)
