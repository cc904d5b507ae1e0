-- ===== src/Replay/History.antt =====
-- A session's window of session.rs over all the packets that it sees: replays and reordering.
use boringtun.Prelude.{
  ℕ, ◌+◌, ◌-◌, ◌^◌, ◌≤◌, ◌<◌, ◌≡◌, ◌≢◌, inl, inr, refl, sym, ap, ◌∙◌, arith, Bool, true, false,
  List, [], ◌∷◌, ok, err, invalid_counter, duplicate_counter, All, ltb, if◌then◌else◌, Bool-cases,
}
use boringtun.Replay.{ReceivingKeyCounterValidator, new, n_bits, mark_did_receive, will_accept}
use boringtun.Replay.Window.{Window, accepts, receive, empty}
use boringtun.Replay.Window
use boringtun.Replay.Mark.{
  Refines, verdict, quick_verdict, new-Refines, will_accept_refines, mark_did_receive_refines,
}

-- The window after the packets with these counters were decrypted, in this order.
pub marks : ReceivingKeyCounterValidator → List ℕ → ReceivingKeyCounterValidator
marks v [] = v
marks v (c ∷ cs) = marks (mark_did_receive v c).0 cs

pub window_marks : Window → List ℕ → Window
window_marks w [] = w
window_marks w (c ∷ cs) = window_marks (Window.mark w c) cs

-- Below this bound no sum of a counter and the window's width wraps.
abbrev pub IsSmall : ℕ → Type 0
IsSmall c = c < 2 ^ 64 - n_bits

pub marks-Refines :
    (cs : List ℕ) {v : ReceivingKeyCounterValidator} {w : Window}
    → Refines v w
    → All IsSmall cs
    → Refines (marks v cs) (window_marks w cs)
unfolding marks window_marks
marks-Refines [] r h = r
marks-Refines (c ∷ cs) r h = marks-Refines cs (mark_did_receive_refines r c h.0).1 h.1

-- What has been received stays received and below `next`.
abbrev Holds : Window → ℕ → Type 0
Holds w c = (w.received c ≡ true) × (c < w.next)

mark-Holds_self : (w : Window) (c : ℕ) → accepts w c ≡ true → Holds (Window.mark w c) c
unfolding Window.mark
mark-Holds_self w c h = rw h (ground arith, omega arith)

mark-Holds : (w : Window) (b c : ℕ) → Holds w c → Holds (Window.mark w b) c
unfolding Window.mark
mark-Holds w b c h = elim (Bool-cases (accepts w b)) [
  | inl taken ↦ rw taken (ground arith, omega arith)
  | inr refused ↦ rw refused h
]

marks-Holds : (w : Window) (cs : List ℕ) (c : ℕ) → Holds w c → Holds (window_marks w cs) c
unfolding window_marks
marks-Holds w [] c h = h
marks-Holds w (b ∷ cs) c h = marks-Holds (Window.mark w b) cs c (mark-Holds w b c h)

-- A counter that no packet carried, and that no packet's counter left too far behind.
abbrev Fresh : Window → ℕ → Type 0
Fresh w c = (w.received c ≡ false) × (w.next ≤ c + n_bits)

mark-Fresh : (w : Window) (b c : ℕ) → b ≢ c → b < c + n_bits → Fresh w c → Fresh (Window.mark w b) c
unfolding Window.mark
mark-Fresh w b c ne near h = elim (Bool-cases (accepts w b)) [
  | inl taken ↦ rw taken (ground arith, omega arith)
  | inr refused ↦ rw refused h
]

marks-Fresh :
    (w : Window) (cs : List ℕ) (c : ℕ)
    → All (λ b. (b ≢ c) × (b < c + n_bits)) cs
    → Fresh w c
    → Fresh (window_marks w cs) c
unfolding window_marks
marks-Fresh w [] c all h = h
marks-Fresh w (b ∷ cs) c all h =
    marks-Fresh (Window.mark w b) cs c all.1 (mark-Fresh w b c all.0.0 all.0.1 h)

ok-ne-err : (b : Bool) → verdict b ≡ ok tt → b ≡ true
ok-ne-err true h = refl
ok-ne-err false h = cc

-- A counter that was accepted once is never accepted again, whatever came before and whatever
-- comes in between: neither by the final check, which calls it an invalid counter, nor by the
-- quick one before decryption, which tells an old one from a duplicate. No counter of the history
-- is among the last `n_bits` that a u64 holds.
pub no_replay :
    (before : List ℕ) (c : ℕ) (between : List ℕ)
    → All IsSmall before
    → IsSmall c
    → All IsSmall between
    → (mark_did_receive (marks new before) c).1 ≡ ok tt
    → let later = marks (mark_did_receive (marks new before) c).0 between in
      ((mark_did_receive later c).1 ≡ err invalid_counter)
      × (will_accept later c
          ≡ (if ltb (c + n_bits) later.next then err invalid_counter else err duplicate_counter))
no_replay before c between hb hc ht accepted =
    (step.0 ∙ ap verdict refused, will_accept_refines r₂ c hc ∙ ap (quick_verdict later c) refused)
  where
    r : Refines (marks new before) (window_marks empty before)
    r = marks-Refines before new-Refines hb

    first : accepts (window_marks empty before) c ≡ true
    first = ok-ne-err _ (sym (mark_did_receive_refines r c hc).0 ∙ accepted)

    later : ReceivingKeyCounterValidator
    later = marks (mark_did_receive (marks new before) c).0 between

    w : Window
    w = window_marks (Window.mark (window_marks empty before) c) between

    r₂ : Refines later w
    r₂ = marks-Refines between (mark_did_receive_refines r c hc).1 ht

    step :
        ((mark_did_receive later c).1 ≡ verdict (accepts w c))
        × Refines (mark_did_receive later c).0 (Window.mark w c)
    step = mark_did_receive_refines r₂ c hc

    held : Holds w c
    held = marks-Holds _ between c (mark-Holds_self _ c first)

    refused : accepts w c ≡ false
    refused = ground (arith, held)

-- Reordering is tolerated: a counter that no packet carried is accepted, by both checks, as long
-- as no packet's counter is `n_bits` or more ahead of it. None of the counters is among the last
-- `n_bits` of a u64.
pub fresh_accepted :
    (before : List ℕ) (c : ℕ)
    → All IsSmall before
    → IsSmall c
    → All (λ b. (b ≢ c) × (b < c + n_bits)) before
    → ((mark_did_receive (marks new before) c).1 ≡ ok tt)
      × (will_accept (marks new before) c ≡ ok tt)
fresh_accepted before c hb hc all = (
  (mark_did_receive_refines r c hc).0 ∙ ap verdict taken,
  will_accept_refines r c hc ∙ ap (quick_verdict (marks new before) c) taken,
)
  where
    r : Refines (marks new before) (window_marks empty before)
    r = marks-Refines before new-Refines hb

    fresh : Fresh (window_marks empty before) c
    fresh = marks-Fresh empty before c all (refl, omega arith)

    taken : accepts (window_marks empty before) c ≡ true
    taken = ground (arith, fresh)
