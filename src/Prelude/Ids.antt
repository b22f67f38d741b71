-- ===== src/Prelude/Ids.antt =====
-- Lists of distinct pointers, by recursion, so that the tactics read them.
use Prim.Native.Nat.{ℕ}
use mathlib.Core.Path.{◌≡◌, sym, ◌∙◌}
use mathlib.Core.Logic.{◌≢◌, ◌⊎◌, inl, inr}
use mathlib.Core.List.{List, [], ◌∷◌}

abbrev pub Absent : ℕ → List ℕ → Type 0
Absent j [] = Unit {0}
Absent j (i ∷ is) = (j ≢ i) × Absent j is

abbrev pub Distinct : List ℕ → Type 0
Distinct [] = Unit {0}
Distinct (i ∷ is) = Absent i is × Distinct is

abbrev pub Has : ℕ → List ℕ → Type 0
Has j [] = ⊥
Has j (i ∷ is) = (j ≡ i) ⊎ Has j is

pub Absent-ne : (i j : ℕ) (is : List ℕ) → Absent i is → Has j is → j ≢ i
Absent-ne i j [] a h = absurd h
Absent-ne i j (k ∷ is) a (inl e) = λ p. a.0 (sym p ∙ e)
Absent-ne i j (k ∷ is) a (inr h) = Absent-ne i j is a.1 h
