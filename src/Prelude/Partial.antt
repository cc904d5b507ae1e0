-- ===== src/Prelude/Partial.antt =====
-- What holds of the outcome of a call, by whether it may panic.
use mathlib.Core.Path.{◌≡◌, subst, refl}
use mathlib.Core.Bool.{Bool, true, false}
use boringtun.Prelude.Outcome.{Result, ok, err, panic, ◌>>=◌}
use boringtun.Prelude.Tests.{if◌then◌else◌}

-- There is no error, and the result, if there is one, is as `P` says.
pub data OnOk {A : Type 0} (P : A → Type 0) : Result A → Type 0 where
  on_ok : {a : A} → P a → OnOk P (ok a)
  on_panic : OnOk P panic

pub OnOk-bind :
    {A B : Type 0} {P : A → Type 0} {Q : B → Type 0} (r : Result A) (f : A → Result B)
    → OnOk P r
    → ((a : A) → P a → OnOk Q (f a))
    → OnOk Q (r >>= f)
OnOk-bind (ok a) f (on_ok h) k = k a h
OnOk-bind (err e) f h k = elim h [ ]
OnOk-bind panic f h k = on_panic

pub OnOk-if :
    {A : Type 0} {P : A → Type 0} (b : Bool) (r r' : Result A)
    → OnOk P r
    → OnOk P r'
    → OnOk P (if b then r else r')
OnOk-if true r r' h h' = h
OnOk-if false r r' h h' = h'

-- There is a result, and it is as `P` says.
pub data IsOk {A : Type 0} (P : A → Type 0) : Result A → Type 0 where
  is_ok : {a : A} → P a → IsOk P (ok a)

pub IsOk-bind :
    {A B : Type 0} {P : A → Type 0} {Q : B → Type 0} (r : Result A) (f : A → Result B)
    → IsOk P r
    → ((a : A) → P a → IsOk Q (f a))
    → IsOk Q (r >>= f)
IsOk-bind (ok a) f (is_ok h) k = k a h
IsOk-bind (err e) f h k = elim h [ ]
IsOk-bind panic f h k = elim h [ ]

pub IsOk-if :
    {A : Type 0} {P : A → Type 0} (b : Bool) (r r' : Result A)
    → IsOk P r
    → IsOk P r'
    → IsOk P (if b then r else r')
IsOk-if true r r' h h' = h
IsOk-if false r r' h h' = h'

pub of_ok : {A : Type 0} (P : A → Type 0) {r : Result A} {a : A} → OnOk P r → r ≡ ok a → P a
of_ok P (on_ok h) e = subst P (cc e) h
of_ok P on_panic e = absurd (cc e)

pub IsOk-map :
    {A : Type 0} {P Q : A → Type 0} (r : Result A) → IsOk P r → ((a : A) → P a → Q a) → IsOk Q r
IsOk-map (ok a) (is_ok h) k = is_ok (k a h)
IsOk-map (err e) h k = elim h [ ]
IsOk-map panic h k = elim h [ ]

pub is_ok_of : {A : Type 0} (P : A → Type 0) {r : Result A} {a : A} → IsOk P r → r ≡ ok a → P a
is_ok_of P (is_ok h) e = subst P (cc e) h

pub ok_injective : {A : Type 0} {a b : A} → ok a ≡ ok b → a ≡ b
ok_injective e = cc

pub OnOk-of_IsOk : {A : Type 0} {P : A → Type 0} {r : Result A} → IsOk P r → OnOk P r
OnOk-of_IsOk (is_ok h) = on_ok h

-- A result that there is comes with its equation.
pub OnOk-known : {A : Type 0} {P : A → Type 0} (r : Result A) → OnOk P r → OnOk (λ a. r ≡ ok a) r
OnOk-known (ok a) (on_ok h) = on_ok refl
OnOk-known (err e) h = elim h [ ]
OnOk-known panic on_panic = on_panic

-- A result of a chain comes from results of its parts.
pub bind_ok :
    {A B : Type 0} (r : Result A) (f : A → Result B) {b : B}
    → (r >>= f) ≡ ok b
    → (a : A) × (r ≡ ok a) × (f a ≡ ok b)
bind_ok (ok a) f h = (a, refl, h)
bind_ok (err e) f h = absurd (cc h)
bind_ok panic f h = absurd (cc h)

pub OnOk-map :
    {A : Type 0} {P Q : A → Type 0} (r : Result A) → OnOk P r → ((a : A) → P a → Q a) → OnOk Q r
OnOk-map (ok a) (on_ok h) k = on_ok (k a h)
OnOk-map (err e) h k = elim h [ ]
OnOk-map panic on_panic k = on_panic
