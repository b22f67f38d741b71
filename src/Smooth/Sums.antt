-- ===== src/Smooth/Sums.antt =====
-- How a sum over distinct pointers changes when each term does, and one pays.
use cslb.Prelude.{
  ℕ, ◌+◌, ◌==◌, ◌≡◌, refl, inl, inr, if◌then◌else◌, ℤ, pos, ◌+ℤ◌, List, [], ◌∷◌, arith, Absent,
  Distinct, Has, Absent-ne, int_laws, parts, sym, ◌≢◌, ◌≤◌,
}
use cslb.Smooth.Spec.{sum, sum_ℕ}

abbrev pub due : ℕ → ℕ → ℕ → ℕ
due b t j = if j == b then t else 0

due-ne : (b t j : ℕ) → j ≢ b → due b t j ≡ 0
due-ne b t j n = ground arith

module _ (v w : ℕ → ℤ) (g : ℕ → ℕ) (b t : ℕ) where
  abbrev Changes : List ℕ → Type 0
  Changes is = (j : ℕ) → Has j is → w j +ℤ pos (due b t j) ≡ v j +ℤ pos (g j)

  sum-Absent : (is : List ℕ) → Absent b is → Changes is → sum w is ≡ sum v is +ℤ pos (sum_ℕ g is)
  unfolding sum sum_ℕ
  sum-Absent [] a c = omega int_laws
  sum-Absent (i ∷ is) a c = omega (
    int_laws,
    parts (sum-Absent is a.1 (λ j m. c j (inr m))),
    parts (c i (inl refl)),
    due-ne b t i (λ p. a.0 (sym p)),
  )

  pub sum-Has :
      (is : List ℕ)
      → Distinct is
      → Has b is
      → Changes is
      → sum w is +ℤ pos t ≡ sum v is +ℤ pos (sum_ℕ g is)
  unfolding sum sum_ℕ
  sum-Has [] d m c = absurd m
  sum-Has (i ∷ is) d (inl p) c = omega (
    int_laws,
    parts (sum-Absent is (rw p d.0) (λ j m. c j (inr m))),
    parts (c i (inl refl)),
    (let q : due b t i ≡ t = ground arith in q),
  )
  sum-Has (i ∷ is) d (inr m) c = omega (
    int_laws,
    parts (sum-Has is d.1 m (λ j m. c j (inr m))),
    parts (c i (inl refl)),
    due-ne b t i (λ p. Absent-ne i b is d.0 m (sym p)),
  )

pub sum-agree : (v w : ℕ → ℤ) (is : List ℕ) → ((j : ℕ) → Has j is → w j ≡ v j) → sum w is ≡ sum v is
unfolding sum
sum-agree v w [] c = refl
sum-agree v w (i ∷ is) c = rw (c i (inl refl), sum-agree v w is (λ j m. c j (inr m)))

pub sum_ℕ-agree :
    (v w : ℕ → ℕ) (is : List ℕ) → ((j : ℕ) → Has j is → w j ≡ v j) → sum_ℕ w is ≡ sum_ℕ v is
unfolding sum_ℕ
sum_ℕ-agree v w [] c = refl
sum_ℕ-agree v w (i ∷ is) c = rw (c i (inl refl), sum_ℕ-agree v w is (λ j m. c j (inr m)))

sum_ℕ-Absent : (b t : ℕ) (is : List ℕ) → Absent b is → sum_ℕ (due b t) is ≡ 0
unfolding sum_ℕ
sum_ℕ-Absent b t [] a = refl
sum_ℕ-Absent b t (i ∷ is) a =
    omega (arith, sum_ℕ-Absent b t is a.1, due-ne b t i (λ p. a.0 (sym p)))

-- One pointer of the list pays once.
pub sum_ℕ-due : (b t : ℕ) (is : List ℕ) → Distinct is → Has b is → sum_ℕ (due b t) is ≡ t
unfolding sum_ℕ
sum_ℕ-due b t [] d m = absurd m
sum_ℕ-due b t (i ∷ is) d (inl p) =
    omega (arith, sum_ℕ-Absent b t is (rw p d.0), (let q : due b t i ≡ t = ground arith in q))
sum_ℕ-due b t (i ∷ is) d (inr m) =
    omega (arith, sum_ℕ-due b t is d.1 m, due-ne b t i (λ p. Absent-ne i b is d.0 m (sym p)))

pub sum_ℕ-add : (v w : ℕ → ℕ) (is : List ℕ) → sum_ℕ (λ i. v i + w i) is ≡ sum_ℕ v is + sum_ℕ w is
unfolding sum_ℕ
sum_ℕ-add v w [] = omega arith
sum_ℕ-add v w (i ∷ is) = omega (arith, sum_ℕ-add v w is)

-- Adding a number to each term of a sum.
pub sum-add :
    (v : ℕ → ℤ) (g : ℕ → ℕ) (is : List ℕ)
    → sum (λ i. v i +ℤ pos (g i)) is ≡ sum v is +ℤ pos (sum_ℕ g is)
unfolding sum sum_ℕ
sum-add v g [] = omega int_laws
sum-add v g (i ∷ is) = omega (int_laws, parts (sum-add v g is))

sum_ℕ-le : (v w : ℕ → ℕ) (is : List ℕ) → ((j : ℕ) → Has j is → v j ≤ w j) → sum_ℕ v is ≤ sum_ℕ w is
unfolding sum_ℕ
sum_ℕ-le v w [] c = omega arith
sum_ℕ-le v w (i ∷ is) c = omega (arith, c i (inl refl), sum_ℕ-le v w is (λ j m. c j (inr m)))

-- Terms that are at most others of the same sum are equal to them.
pub sum_ℕ-eq_of_le :
    (v w : ℕ → ℕ) (is : List ℕ)
    → ((j : ℕ) → Has j is → v j ≤ w j)
    → sum_ℕ v is ≡ sum_ℕ w is
    → (j : ℕ) → Has j is
    → v j ≡ w j
unfolding sum_ℕ
sum_ℕ-eq_of_le v w [] c e j m = absurd m
sum_ℕ-eq_of_le v w (i ∷ is) c e j (inl p) =
    rw p (omega (arith, c i (inl refl), sum_ℕ-le v w is (λ j m. c j (inr m))))
sum_ℕ-eq_of_le v w (i ∷ is) c e j (inr m) =
    sum_ℕ-eq_of_le v w is (λ j m. c j (inr m))
      (omega (arith, c i (inl refl), sum_ℕ-le v w is (λ j m. c j (inr m)))) j m
