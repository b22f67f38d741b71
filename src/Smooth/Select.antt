-- ===== src/Smooth/Select.antt =====
-- `select` finds an eligible peer of the list with the largest value, if there is one.
use cslb.Prelude.{
  ℕ, ◌≡◌, refl, inl, inr, Bool, true, false, ℤ, ◌≤ℤ◌, List, [], ◌∷◌, none, some, arith, Has,
  Bool-cases, Option-cases, int_laws, pos, ◌<ℤ◌, ltb_ℤ,
}
use cslb.Smooth.Spec.{select, sum}

module _ (e : ℕ → Bool) (v : ℕ → ℤ) where
  pub select-Has : (is : List ℕ) {b : ℕ} → select e v is ≡ some b → Has b is × (e b ≡ true)
  unfolding select
  select-Has [] q = cc
  select-Has (i ∷ is) {b} q = elim (Option-cases (select e v is)) [
    | inl n ↦ ground arith
    | inr (c, s) ↦ ground (arith, select-Has is s)
  ]

  pub select-none : (is : List ℕ) (j : ℕ) → select e v is ≡ none → Has j is → e j ≡ false
  unfolding select
  select-none [] j q m = absurd m
  select-none (i ∷ is) j q (inl p) = ground (arith, Option-cases (select e v is))
  select-none (i ∷ is) j q (inr m) = elim (Option-cases (select e v is)) [
    | inl n ↦ select-none is j n m
    | inr (c, s) ↦ ground arith
  ]

  pub select-max :
      (is : List ℕ) {b : ℕ} (j : ℕ) → select e v is ≡ some b → Has j is → e j ≡ true → v j ≤ℤ v b
  unfolding select
  select-max [] j q m t = absurd m
  select-max (i ∷ is) j q (inl p) t = ground (arith, Option-cases (select e v is))
  select-max (i ∷ is) j q (inr m) t = elim (Option-cases (select e v is)) [
    | inl n ↦ ground (arith, select-none is j n m)
    | inr (c, s) ↦ ground (arith, select-max is j s m t)
  ]

  pub select-some :
      (is : List ℕ) (j : ℕ) → Has j is → e j ≡ true → (b : ℕ) × (select e v is ≡ some b)
  select-some is j m t = elim (Option-cases (select e v is)) [
    | inl n ↦ ground (arith, select-none is j n m)
    | inr s ↦ s
  ]

-- Where all compete and the values sum to something positive, the winner's value is positive.
sum-nonpos : (v : ℕ → ℤ) (is : List ℕ) → ((j : ℕ) → Has j is → v j ≤ℤ pos 0) → sum v is ≤ℤ pos 0
unfolding sum
sum-nonpos v [] f = omega int_laws
sum-nonpos v (i ∷ is) f = omega (int_laws, f i (inl refl), sum-nonpos v is (λ j m. f j (inr m)))

pub select-pos :
    (v : ℕ → ℤ) (is : List ℕ) {b : ℕ}
    → pos 0 <ℤ sum v is
    → select (λ _. true) v is ≡ some b
    → pos 0 <ℤ v b
select-pos v is {b} p s = elim (Bool-cases (ltb_ℤ (pos 0) (v b))) [
  | inl q ↦ ground arith
  | inr q ↦ absurd (
      omega
        (int_laws, sum-nonpos v is (λ j m. ground (arith, select-max (λ _. true) v is j s m refl))))
]
