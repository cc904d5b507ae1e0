-- ===== src/Device/Lfsr/Distinct.antt =====
-- The indices that one register of boringtun/src/device/mod.rs gives away.
use mathlib.Core.Path.{subst, ap₂}
use boringtun.Prelude.{
  ℕ, zero, suc, ◌^◌, ◌<◌, ◌≡◌, ◌≢◌, refl, sym, ap, ◌∙◌, arith, List, [], ◌∷◌, ◌++◌, map, ok, All,
  ◌==◌, Bool-cases, inl, inr, OnOk, on_ok, on_panic, OnOk-bind, of_ok, Option, none, some, ltb,
  ltb→lt,
}
use Prim.Native.Nat.{bit_and}
use boringtun.Bits.{bit_and-lt}
use boringtun.Device.Lfsr.{
  random_index, default, with_seed, with_mask, lfsr_max, IndexLfsr, shifted, value_of, next, next_n,
  default_of,
}
use boringtun.Device.Lfsr.Register.{
  shifted-lt, shifted-pos, shifted_injective, value_of-lt, value_of_injective,
}

abbrev pub IsDistinct : List ℕ → Type 0
IsDistinct [] = Unit
IsDistinct (x ∷ xs) = All (λ y. x ≢ y) xs × IsDistinct xs

abbrev pub IsIndex : ℕ → Type 0
IsIndex x = x < 2 ^ 24

-- A state of the register.
abbrev IsState : ℕ → Type 0
IsState s = (0 < s) × (s < 2 ^ 24)

-- The states behind the values, the last one first: each follows from the one before, the oldest is
-- the initial one, and the register stands one step on.
data History (initial : ℕ) : ℕ → List ℕ → Type 0 where
  start : History initial initial []
  step :
      {s : ℕ} {past : List ℕ}
      → History initial s past
      → shifted s ≢ initial
      → History initial (shifted s) (s ∷ past)

history-IsState :
    {i s : ℕ} {past : List ℕ} → IsState i → History i s past → IsState s × All IsState past
history-IsState h start = (h, tt)
history-IsState h (step {s} before ne) =
    let k = history-IsState h before in
    ((shifted-pos s k.0.1 k.0.0, shifted-lt s k.0.1), (k.0, k.1))

-- A state that is new stays new when the register moves on.
moved_ne :
    (s : ℕ) (xs : List ℕ)
    → IsState s
    → All IsState xs
    → All (λ y. s ≢ y) xs
    → All (λ y. shifted s ≢ y) (map shifted xs)
moved_ne s [] k ks h = tt
moved_ne s (x ∷ xs) k ks h =
    (λ e. h.0 (shifted_injective s x k.1 ks.0.1 e), moved_ne s xs k ks.1 h.1)

-- All but the oldest of the states are successors of the others.
shift_back : {i s : ℕ} {past : List ℕ} → History i s past → s ∷ past ≡ map shifted past ++ (i ∷ [])
shift_back start = refl
shift_back (step {s} before ne) = ap (◌∷◌ (shifted s)) (shift_back before)

All-append : (P : ℕ → Type 0) (xs : List ℕ) (y : ℕ) → All P xs → P y → All P (xs ++ (y ∷ []))
All-append P [] y h k = (k, tt)
All-append P (x ∷ xs) y h k = (h.0, All-append P xs y h.1 k)

history-IsDistinct :
    {i s : ℕ} {past : List ℕ} → IsState i → History i s past → IsDistinct (s ∷ past)
history-IsDistinct k start = (tt, tt)
history-IsDistinct {i} k (step {s} {past} before ne) =
    let old = history-IsDistinct k before in
    let states = history-IsState k before in
    (
      subst (All (λ y. shifted s ≢ y)) (sym (shift_back before)) (
          All-append (λ y. shifted s ≢ y) (map shifted past) i
            (moved_ne s past states.0 states.1 old.0) ne),
      old,
    )

-- The values of the states.
values-IsDistinct :
    (m : ℕ) (xs : List ℕ)
    → m < 2 ^ 24
    → All IsState xs
    → IsDistinct xs
    → IsDistinct (map (λ s. value_of s m) xs)
values-IsDistinct m [] fits ks h = tt
values-IsDistinct m (x ∷ xs) fits ks h = (apart xs ks.1 h.0, values-IsDistinct m xs fits ks.1 h.1)
  where
    apart :
        (ys : List ℕ)
        → All IsState ys
        → All (λ y. x ≢ y) ys
        → All (λ v. value_of x m ≢ v) (map (λ s. value_of s m) ys)
    apart [] ls k = tt
    apart (y ∷ ys) ls k =
        (λ e. k.0 (value_of_injective x y m ks.0.0 ks.0.1 ls.0.0 ls.0.1 fits e), apart ys ls.1 k.1)

values-IsIndex :
    (m : ℕ) (xs : List ℕ) → m < 2 ^ 24 → All IsState xs → All IsIndex (map (λ s. value_of s m) xs)
values-IsIndex m [] fits ks = tt
values-IsIndex m (x ∷ xs) fits ks =
    (value_of-lt x m ks.0.0 ks.0.1 fits, values-IsIndex m xs fits ks.1)

-- What a run of the register has done.
record Ran (seed mask : ℕ) (r : IndexLfsr × List ℕ) : Type 0 where
  past : List ℕ
  history : History seed r.0.lfsr past
  same_initial : r.0.initial ≡ seed
  same_mask : r.0.mask ≡ mask
  are_values : r.1 ≡ map (λ s. value_of s mask) past

next-OnOk :
    (g : IndexLfsr)
    → OnOk
        (λ r.
          (shifted g.lfsr ≢ g.initial)
          × (r ≡ (record g { lfsr = shifted g.lfsr }, value_of g.lfsr g.mask)))
        (next g)
unfolding next
next-OnOk g = elim (Bool-cases (shifted g.lfsr == g.initial)) [
  | inl e ↦ rw e on_panic
  | inr e ↦ rw e (on_ok (ground arith, refl))
]

next_n-Ran : (n seed mask : ℕ) → OnOk (Ran seed mask) (next_n n (default_of seed mask))
unfolding next_n default_of
next_n-Ran zero seed mask = on_ok (record {
  past = [];
  history = start;
  same_initial = refl;
  same_mask = refl;
  are_values = refl;
})
next_n-Ran (suc n) seed mask =
    OnOk-bind (next_n n (default_of seed mask)) _ (next_n-Ran n seed mask) (λ r h.
      OnOk-bind (next r.0) _ (next-OnOk r.0) (λ q k. on_ok (record {
        past = r.0.lfsr ∷ h.past;
        history =
            subst (λ (t : ℕ). History seed t (r.0.lfsr ∷ h.past)) (sym (ap (λ x. x.0.lfsr) k.1))
              (step h.history (λ e. k.0 (e ∙ sym h.same_initial)));
        same_initial = ap (λ x. x.0.initial) k.1 ∙ h.same_initial;
        same_mask = ap (λ x. x.0.mask) k.1 ∙ h.same_mask;
        are_values = ap₂ ◌∷◌ (ap (λ x. x.1) k.1 ∙ ap (value_of r.0.lfsr) h.same_mask) h.are_values;
      })))

-- What `random_index` draws, and what `default` makes of it.
random_index-lt :
    (draws rest : List ℕ) (i : ℕ) → random_index draws ≡ some (i, rest) → (0 < i) × (i < 2 ^ 24)
unfolding random_index
random_index-lt [] rest i h = absurd (cc h)
random_index-lt (d ∷ ds) rest i h = elim (Bool-cases (ltb 0 (bit_and d lfsr_max))) [
  | inl e ↦
      (let taken : bit_and d lfsr_max ≡ i = ap first (rw e at h) in
        (
          subst (λ (t : ℕ). 0 < t) taken (ltb→lt 0 _ e),
          subst (λ (t : ℕ). t < 2 ^ 24) taken (bit_and-lt 24 d lfsr_max (omega arith)),
        ))
  | inr e ↦ random_index-lt ds rest i (rw e at h)
]
  where
    first : Option (ℕ × List ℕ) → ℕ
    first none = 0
    first (some (x, xs)) = x

default-seeds :
    (draws : List ℕ) (g : IndexLfsr)
    → default draws ≡ some g
    → (seed : ℕ) × (mask : ℕ) × (0 < seed)
      × (seed < 2 ^ 24)
      × (mask < 2 ^ 24)
      × (g ≡ default_of seed mask)
unfolding default
default-seeds draws g h = by_seed (random_index draws) refl h
  where
    by_mask :
        (seed : ℕ)
        → (0 < seed) × (seed < 2 ^ 24)
        → (ds : List ℕ) (o : Option (ℕ × List ℕ)) → random_index ds ≡ o
        → with_mask seed o ≡ some g
        → (seed : ℕ) × (mask : ℕ) × (0 < seed)
          × (seed < 2 ^ 24)
          × (mask < 2 ^ 24)
          × (g ≡ default_of seed mask)
    by_mask seed k ds none e h = absurd (cc h)
    by_mask seed k ds (some (mask, rest)) e h =
        (seed, mask, k.0, k.1, (random_index-lt ds rest mask e).1, cc h)

    by_seed :
        (o : Option (ℕ × List ℕ))
        → random_index draws ≡ o
        → with_seed o ≡ some g
        → (seed : ℕ) × (mask : ℕ) × (0 < seed)
          × (seed < 2 ^ 24)
          × (mask < 2 ^ 24)
          × (g ≡ default_of seed mask)
    by_seed none e h = absurd (cc h)
    by_seed (some (seed, rest)) e h =
        by_mask seed (random_index-lt draws rest seed e) rest (random_index rest) refl h

-- The indices that a register gives away before it panics are all different and have 24 bits, so
-- that shifted up by 8 bits they fit a u32. The register is made by `default` from any numbers that
-- the generator draws.
pub indices-IsDistinct :
    (draws : List ℕ) (n : ℕ) {first g : IndexLfsr} {values : List ℕ}
    → default draws ≡ some first
    → next_n n first ≡ ok (g, values)
    → IsDistinct values × All IsIndex values
indices-IsDistinct draws n {first} {g} {values} made e =
    let (seed, mask, pos, small, fits, same) = default-seeds draws first made in
    let ran = of_ok (Ran seed mask) (next_n-Ran n seed mask) (ap (next_n n) (sym same) ∙ e) in
    let states = (history-IsState (pos, small) ran.history).1 in
    let distinct = (history-IsDistinct (pos, small) ran.history).1 in
    (
      subst IsDistinct (sym ran.are_values) (values-IsDistinct mask ran.past fits states distinct),
      subst (All IsIndex) (sym ran.are_values) (values-IsIndex mask ran.past fits states),
    )
