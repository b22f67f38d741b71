-- ===== src/Smooth/Best.antt =====
-- The loop's comparison of current weights finds what `select` finds.
use cslb.Prelude.{
  ℕ, ◌≡◌, refl, sym, ◌∙◌, inl, inr, Bool, if◌then◌else◌, ℤ, List, [], ◌∷◌, Option, none, some,
  arith, Absent, Distinct, Has, Absent-ne, Bool-cases,
}
use cslb.Peer.{Peer, Heap}
use cslb.Smooth.{Scan, smooth_step, smooth_loop}
use cslb.Smooth.Loop.{smooth_step-ne}
use cslb.Smooth.Spec.{boost, merge, select}

merge-none : (v : ℕ → ℤ) (b : Option ℕ) → merge v b none ≡ b
merge-none v none = refl
merge-none v (some b) = refl

merge_assoc : (v : ℕ → ℤ) (a b c : Option ℕ) → merge v (merge v a b) c ≡ merge v a (merge v b c)
merge_assoc v none b c = refl
merge_assoc v (some a) none c = refl
merge_assoc v (some a) (some b) none = ground arith
merge_assoc v (some a) (some b) (some c) = ground arith

-- The weight of the best peer so far does not change any more.
abbrev Settled : (ℕ → ℤ) → List ℕ → Scan → Type 0
Settled v is s = elim s.best [
  | none ↦ Unit {0}
  | some b ↦ ((s.heap b).current_weight ≡ v b) × Absent b is
]

module _ (e : ℕ → Peer → Bool) (h : Heap) where
  step-best :
      (i : ℕ) (is : List ℕ) (b : Option ℕ) (n : ℕ) (g : Heap)
      → g i ≡ h i
      → Absent i is
      → Settled (boost h) (i ∷ is) (record { best = b; total = n; heap = g })
      → let s : Scan = smooth_step e i (record { best = b; total = n; heap = g }) in
        (s.best ≡ (if e i (h i) then merge (boost h) b (some i) else b)) × Settled (boost h) is s
  unfolding smooth_step
  step-best i is none n g same a t = ground arith
  step-best i is (some b) n g same a t = ground arith

  -- From any scan whose best peer is settled, the loop adds the best of the rest.
  pub smooth_loop-best :
      (is : List ℕ) (s : Scan)
      → Distinct is
      → ((j : ℕ) → Has j is → s.heap j ≡ h j)
      → Settled (boost h) is s
      → (smooth_loop e is s).best ≡ merge (boost h) s.best (select (λ i. e i (h i)) (boost h) is)
  unfolding smooth_loop select
  smooth_loop-best [] s d same t = sym (merge-none (boost h) s.best)
  smooth_loop-best (i ∷ is) s d same t =
      let one = step-best i is s.best s.total s.heap (same i (inl refl)) d.0 t in
      let rest =
        smooth_loop-best is (smooth_step e i s) d.1
          (λ j m. smooth_step-ne e i j s (Absent-ne i j is d.0 m) ∙ same j (inr m)) one.1 in
      rest
      ∙ rw one.0 (elim (Bool-cases (e i (h i))) [
        | inl p ↦ rw p (merge_assoc (boost h) s.best (some i) _)
        | inr p ↦ rw p
      ])
