-- ===== src/Device/Maps.antt =====
-- The `HashMap`s of boringtun/src/device/mod.rs, as association lists in which a key stands once.
use boringtun.Prelude.{
  ℕ, ◌≡◌, ◌≢◌, refl, sym, ◌∙◌, Bool, true, false, List, [], ◌∷◌, Option, none, some, ◌↔◌, ◌⊎◌, ◌==◌,
  ==_iff, if◌then◌else◌, Bool-cases, inl, inr,
}
use boringtun.Bytes.{Bytes, bytes_eq, bytes_eq_refl, bytes_eq_sound}
use mathlib.Core.Path.{subst}

-- The `Eq` of a key.
pub record Key {ℓ} (K : Type ℓ) : Type ℓ where
  pub eq : K → K → Bool
  pub eq_iff : (a b : K) → (eq a b ≡ true) ↔ (a ≡ b)

instance abbrev pub nat_key : Key ℕ
nat_key = record { eq = ◌==◌; eq_iff = ==_iff }

instance abbrev pub bytes_key : Key Bytes
bytes_key = record {
  eq = bytes_eq;
  eq_iff = λ a b. (bytes_eq_sound a b, λ e. subst (λ x. bytes_eq a x ≡ true) e (bytes_eq_refl a));
}

module _ {ℓ κ} {K : Type ℓ} {V : Type κ} ⦃k : Key K⦄ where
  abbrev pub lookup : List (K × V) → K → Option V
  lookup [] key = none
  lookup ((key', v) ∷ m) key = if k.eq key' key then some v else lookup m key

  abbrev pub remove : List (K × V) → K → List (K × V)
  remove [] key = []
  remove ((key', v) ∷ m) key =
      let rest = remove m key in if k.eq key' key then rest else (key', v) ∷ rest

  abbrev pub insert : List (K × V) → K → V → List (K × V)
  insert m key v = (key, v) ∷ remove m key

module _ {ℓ} {K : Type ℓ} ⦃k : Key K⦄ where
  pub eq_refl : (key : K) → k.eq key key ≡ true
  eq_refl key = (k.eq_iff key key).1 refl

  pub eq_ne : {a b : K} → a ≢ b → k.eq a b ≡ false
  eq_ne {a} {b} ne = elim (Bool-cases (k.eq a b)) [
    | inl e ↦ absurd (ne ((k.eq_iff a b).0 e))
    | inr e ↦ e
  ]

module _ {ℓ κ} {K : Type ℓ} {V : Type κ} ⦃k : Key K⦄ where
  pub lookup-remove_self : (m : List (K × V)) (key : K) → lookup (remove m key) key ≡ none
  lookup-remove_self [] key = refl
  lookup-remove_self ((key', v) ∷ m) key = elim (Bool-cases (k.eq key' key)) [
    | inl e ↦ rw e (lookup-remove_self m key)
    | inr e ↦ rw (e, e) (lookup-remove_self m key)
  ]

  pub lookup-remove_ne :
      (m : List (K × V)) {key other : K}
      → key ≢ other
      → lookup (remove m key) other ≡ lookup m other
  lookup-remove_ne [] ne = refl
  lookup-remove_ne ((key', v) ∷ m) {key} {other} ne = elim (Bool-cases (k.eq key' key)) [
    | inl e ↦
        (let e' : k.eq key' other ≡ false = eq_ne (λ h. ne (sym ((k.eq_iff key' key).0 e) ∙ h)) in
          rw (e, e') (lookup-remove_ne m ne))
    | inr e ↦ rw (e, lookup-remove_ne m ne) refl
  ]

  -- What is left of a map was in it, under another key.
  pub lookup-remove :
      (m : List (K × V)) {key other : K} {v : V}
      → lookup (remove m key) other ≡ some v
      → (key ≢ other) × (lookup m other ≡ some v)
  lookup-remove m {key} {other} {v} h = elim (Bool-cases (k.eq key other)) [
    | inl e ↦
        (let same : key ≡ other = (k.eq_iff key other).0 e in
          absurd (
            none_ne_some (
              sym (lookup-remove_self m key)
              ∙ subst (λ o. lookup (remove m key) o ≡ some v) (sym same) h)))
    | inr e ↦
        (let ne : key ≢ other = λ same. false_ne_true (sym e ∙ (k.eq_iff key other).1 same) in
          (ne, sym (lookup-remove_ne m ne) ∙ h))
  ]
    where
      none_ne_some : {v : V} → none ≢ some v
      none_ne_some e = cc

      false_ne_true : false ≢ true
      false_ne_true e = cc

  pub lookup-insert_self :
      (m : List (K × V)) (key : K) (v : V) → lookup (insert m key v) key ≡ some v
  lookup-insert_self m key v = rw (eq_refl key) refl

  pub lookup-insert :
      (m : List (K × V)) {key other : K} {v v' : V}
      → lookup (insert m key v) other ≡ some v'
      → ((key ≡ other) × (v ≡ v')) ⊎ ((key ≢ other) × (lookup m other ≡ some v'))
  lookup-insert m {key} {other} {v} {v'} h = elim (Bool-cases (k.eq key other)) [
    | inl e ↦ inl ((k.eq_iff key other).0 e, some_injective (sym (taken e) ∙ h))
    | inr e ↦ inr (lookup-remove m (sym (skipped e) ∙ h))
  ]
    where
      taken : k.eq key other ≡ true → lookup (insert m key v) other ≡ some v
      taken e = rw e refl

      skipped : k.eq key other ≡ false → lookup (insert m key v) other ≡ lookup (remove m key) other
      skipped e = rw e refl

      some_injective : some v ≡ some v' → v ≡ v'
      some_injective e = cc

  pub lookup-insert_ne :
      (m : List (K × V)) {key other : K} (v : V)
      → key ≢ other
      → lookup (insert m key v) other ≡ lookup m other
  lookup-insert_ne m v ne = rw (eq_ne ne) (lookup-remove_ne m ne)
