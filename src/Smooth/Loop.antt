-- ===== src/Smooth/Loop.antt =====
-- The loop of smoothWeightedPeer over distinct pointers.
use cslb.Prelude.{
  ℕ, ◌+◌, ◌≡◌, refl, ◌∙◌, ap, ◌≢◌, inl, inr, Bool, if◌then◌else◌, List, [], ◌∷◌, arith, Absent,
  Distinct, Has, Absent-ne,
}
use cslb.Peer.{Peer, Heap}
use cslb.Smooth.{Scan, advance, smooth_step, smooth_loop}
use cslb.Smooth.Spec.{eligible_total, sum_ℕ}

module _ (e : ℕ → Peer → Bool) where
  -- A peer that is not in the list is left alone.
  pub smooth_step-ne : (i j : ℕ) (s : Scan) → j ≢ i → (smooth_step e i s).heap j ≡ s.heap j
  unfolding smooth_step
  smooth_step-ne i j s n = ground arith

  pub smooth_loop-Absent :
      (is : List ℕ) (s : Scan) (j : ℕ) → Absent j is → (smooth_loop e is s).heap j ≡ s.heap j
  unfolding smooth_loop
  smooth_loop-Absent [] s j a = refl
  smooth_loop-Absent (i ∷ is) s j a =
      smooth_loop-Absent is (smooth_step e i s) j a.1 ∙ smooth_step-ne i j s a.0

  smooth_step_self :
      (i : ℕ) (s : Scan)
      → (smooth_step e i s).heap i ≡ (if e i (s.heap i) then advance (s.heap i) else s.heap i)
  unfolding smooth_step
  smooth_step_self i s = ground arith

  -- A peer of the list is advanced once, if it is eligible.
  pub smooth_loop-Has :
      (is : List ℕ) (s : Scan) (j : ℕ)
      → Distinct is
      → Has j is
      → (smooth_loop e is s).heap j ≡ (if e j (s.heap j) then advance (s.heap j) else s.heap j)
  unfolding smooth_loop
  smooth_loop-Has [] s j d h = absurd h
  smooth_loop-Has (i ∷ is) s j d (inl p) =
      rw p (smooth_loop-Absent is (smooth_step e i s) i d.0 ∙ smooth_step_self i s)
  smooth_loop-Has (i ∷ is) s j d (inr h) =
      let same = smooth_step-ne i j s (Absent-ne i j is d.0 h) in
      smooth_loop-Has is (smooth_step e i s) j d.1 h ∙ rw same refl

  eligible_total-agree :
      (g h : Heap) (is : List ℕ)
      → ((j : ℕ) → Has j is → g j ≡ h j)
      → eligible_total e g is ≡ eligible_total e h is
  unfolding sum_ℕ
  eligible_total-agree g h [] a = refl
  eligible_total-agree g h (i ∷ is) a =
      rw (a i (inl refl)) (ap (◌+◌ _) (eligible_total-agree g h is (λ j m. a j (inr m))))

  smooth_step-total :
      (i : ℕ) (s : Scan)
      → (smooth_step e i s).total
        ≡ s.total + (if e i (s.heap i) then (s.heap i).effective_weight else 0)
  unfolding smooth_step
  smooth_step-total i s = ground arith

  pub smooth_loop-total :
      (is : List ℕ) (s : Scan)
      → Distinct is
      → (smooth_loop e is s).total ≡ s.total + eligible_total e s.heap is
  unfolding smooth_loop sum_ℕ
  smooth_loop-total [] s d = omega arith
  smooth_loop-total (i ∷ is) s d = omega (
    arith,
    smooth_loop-total is (smooth_step e i s) d.1,
    smooth_step-total i s,
    eligible_total-agree (smooth_step e i s).heap s.heap is
        (λ j m. smooth_step-ne i j s (Absent-ne i j is d.0 m)),
  )
