-- ===== src/Prelude/Members.antt =====
-- Membership in a list, with a place.
use mathlib.Core.Path.{◌≡◌, refl}
use mathlib.Core.Logic.{◌⊎◌, inl, inr}
use mathlib.Core.List.{List, [], ◌∷◌}
use boringtun.Prelude.Lists.{All}

pub data Member {ℓ} {A : Type ℓ} (a : A) : List A → Type ℓ where
  at_head : {x : A} {xs : List A} → a ≡ x → Member a (x ∷ xs)
  in_tail : {x : A} {xs : List A} → Member a xs → Member a (x ∷ xs)

pub Member-cases {ℓ} :
    {A : Type ℓ} {a x : A} {xs : List A} → Member a (x ∷ xs) → (a ≡ x) ⊎ Member a xs
Member-cases (at_head e) = inl e
Member-cases (in_tail m) = inr m

pub Member-weaken {ℓ} : {A : Type ℓ} {a x : A} {xs : List A} → Member a (x ∷ []) → Member a (x ∷ xs)
Member-weaken (at_head e) = at_head e
Member-weaken (in_tail m) = elim m [ ]

pub All-of_Member {ℓ κ} :
    {A : Type ℓ} (P : A → Type κ) (xs : List A) → ((x : A) → Member x xs → P x) → All P xs
All-of_Member P [] h = tt
All-of_Member P (x ∷ xs) h = (h x (at_head refl), All-of_Member P xs (λ y m. h y (in_tail m)))
