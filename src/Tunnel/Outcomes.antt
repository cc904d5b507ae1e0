-- ===== src/Tunnel/Outcomes.antt =====
-- The steps of `update_timers` of boringtun/src/noise/timers.rs either have a result or panic.
use boringtun.Prelude.{
  OnOk, on_ok, on_panic, OnOk-bind, OnOk-if, ℕ, Bool, true, false, ok, leb, ◌>>=◌, ◌||◌,
}
use boringtun.Tunnel.Timers.{Timers}
use boringtun.Tunnel.Update.{
  checked_sub, and_since, rekey_due, silence_due, keepalive_due, persistent_due, due,
}

pub checked_sub-OnOk : (now earlier : ℕ) → OnOk (λ _. Unit {0}) (checked_sub now earlier)
unfolding checked_sub
checked_sub-OnOk now earlier = OnOk-if (leb earlier now) _ _ (on_ok tt) on_panic

pub and_since-OnOk :
    (test : Bool) (now earlier limit : ℕ) → OnOk (λ _. Unit {0}) (and_since test now earlier limit)
unfolding and_since
and_since-OnOk false now earlier limit = on_ok tt
and_since-OnOk true now earlier limit =
    OnOk-bind (checked_sub now earlier) _ (checked_sub-OnOk now earlier) (λ age _. on_ok tt)

pub rekey_due-OnOk : (t : Timers) (now : ℕ) → OnOk (λ _. Unit {0}) (rekey_due t now)
unfolding rekey_due
rekey_due-OnOk t now =
    OnOk-if t.is_initiator _ _
      (OnOk-bind (and_since _ now _ _) _ (and_since-OnOk _ _ _ _)
        (λ a _. OnOk-bind (and_since _ now _ _) _ (and_since-OnOk _ _ _ _) (λ b _. on_ok tt)))
      (on_ok tt)

-- A step that makes its result of such a test.
pub tested-OnOk :
    {A : Type 0} (test : Bool) (now earlier limit : ℕ) (f : Bool → A)
    → OnOk (λ _. Unit {0}) (and_since test now earlier limit >>= λ late. ok (f late))
tested-OnOk test now earlier limit f =
    OnOk-bind (and_since test now earlier limit) _ (and_since-OnOk test now earlier limit)
      (λ late _. on_ok tt)

silence_due-OnOk : (t : Timers) (now : ℕ) → OnOk (λ _. Unit {0}) (silence_due t now)
unfolding silence_due
silence_due-OnOk t now = tested-OnOk _ now _ _ _

keepalive_due-OnOk : (t : Timers) (now : ℕ) → OnOk (λ _. Unit {0}) (keepalive_due t now)
unfolding keepalive_due
keepalive_due-OnOk t now = tested-OnOk _ now _ _ _

persistent_due-OnOk : (t : Timers) (now : ℕ) → OnOk (λ _. Unit {0}) (persistent_due t now)
unfolding persistent_due
persistent_due-OnOk t now = tested-OnOk _ now _ _ _

pub due-OnOk : (t : Timers) (now : ℕ) → OnOk (λ _. Unit {0}) (due t now)
unfolding due
due-OnOk t now = OnOk-bind (rekey_due t now) _ (rekey_due-OnOk t now) (λ rekey _.
    OnOk-bind (silence_due t now) _ (silence_due-OnOk t now) (λ silence _.
      OnOk-if (rekey || silence.1) _ _ (on_ok tt) (
        OnOk-bind (keepalive_due silence.0 now) _ (keepalive_due-OnOk silence.0 now) (λ passive _.
          OnOk-bind (persistent_due passive.0 now) _ (persistent_due-OnOk passive.0 now)
            (λ r _. on_ok tt)))))
