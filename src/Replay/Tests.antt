-- ===== src/Replay/Tests.antt =====
-- Runs of the window of boringtun/src/noise/session.rs.
use boringtun.Prelude.{
  ℕ, ◌+◌, ◌≡◌, arith, false, List, [], ◌∷◌, ok, err, invalid_counter, duplicate_counter,
  if◌then◌else◌, ltb,
}
use boringtun.Replay.{n_bits, new, will_accept, mark_did_receive, clear_skipped}
use boringtun.Replay.Cleared.{IsCleared}
use boringtun.Replay.Clear.{
  clear_skipped-IsCleared, more_to_word, more_words, more_rest, after_to_word, after_words,
  after_rest,
}
use boringtun.Replay.Window.{accepts, empty}
use boringtun.Replay.Window
use boringtun.Replay.Mark.{
  Refines, new-Refines, quick_verdict, verdict, will_accept_refines, mark_did_receive_refines,
}
use boringtun.Replay.History.{marks, no_replay, fresh_accepted}

abbrev before : List ℕ
before = 5 ∷ 3 ∷ 2000 ∷ []

abbrev between : List ℕ
between = 2001 ∷ 4000 ∷ []

accepted : (mark_did_receive (marks new before) 1998).1 ≡ ok tt
accepted =
    (fresh_accepted before 1998 (omega arith, (omega arith, (omega arith, tt))) (omega arith)
      (
        (omega arith, omega arith),
        ((omega arith, omega arith), ((omega arith, omega arith), tt)),
      )).0

no_replay_example :
    let later = marks (mark_did_receive (marks new before) 1998).0 between in
    ((mark_did_receive later 1998).1 ≡ err invalid_counter)
    × (will_accept later 1998
        ≡ (if ltb (1998 + n_bits) later.next then err invalid_counter else err duplicate_counter))
no_replay_example =
    no_replay before 1998 between (omega arith, (omega arith, (omega arith, tt))) (omega arith)
      (omega arith, (omega arith, tt)) accepted

fresh_accepted_example :
    ((mark_did_receive (marks new before) 1998).1 ≡ ok tt)
    × (will_accept (marks new before) 1998 ≡ ok tt)
fresh_accepted_example =
    fresh_accepted before 1998 (omega arith, (omega arith, (omega arith, tt))) (omega arith)
      ((omega arith, omega arith), ((omega arith, omega arith), ((omega arith, omega arith), tt)))

will_accept_refines_example : will_accept new 17 ≡ quick_verdict new 17 (accepts empty 17)
will_accept_refines_example = will_accept_refines new-Refines 17 (omega arith)

mark_did_receive_refines_example :
    ((mark_did_receive new 17).1 ≡ verdict (accepts empty 17))
    × Refines (mark_did_receive new 17).0 (Window.mark empty 17)
mark_did_receive_refines_example = mark_did_receive_refines new-Refines 17 (omega arith)

clear_skipped-IsCleared_example :
    (more_to_word 900 (after_to_word 900 new).1 ≡ false)
    × (more_words 900 (after_words 900 new).1 ≡ false)
    × (more_rest 900 (after_rest 900 new).1 ≡ false)
    × IsCleared 0 900 new (clear_skipped new 900)
unfolding new
clear_skipped-IsCleared_example =
    clear_skipped-IsCleared 900 (omega arith) new new-Refines.sized (omega arith) (omega arith)
