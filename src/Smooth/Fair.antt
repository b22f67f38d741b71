-- ===== src/Smooth/Fair.antt =====
-- Over as many rounds as the weights sum to, each peer wins as often as its weight says.

use cslb.Prelude.{
  ℕ, zero, suc, ◌*◌, ◌<◌, ◌≤◌, ◌≡◌, refl, ◌∙◌, ap, inl, inr, true, ℤ, pos, ◌+ℤ◌, ◌<ℤ◌, List, [],
  ◌∷◌, some, arith, Distinct, Has, int_laws, parts,
}
use native.Mathlib.Decide.{dec_le}
use cslb.Peer.{Heap}
use cslb.Smooth.{smooth_weighted_peer}
use cslb.Smooth.Select.{select-some}
use cslb.Smooth.Sums.{due, sum_ℕ-due, sum_ℕ-add, sum_ℕ-eq_of_le}
use cslb.Smooth.Spec.{boost, sum, sum_ℕ}
use cslb.Smooth.Refines.{smooth_weighted_peer-choice}
use cslb.Smooth.Conserve.{weight_of}
use cslb.Smooth.Cycle.{everyone, rounds, wins, whole, IsBalanced, next_Round}

-- Some peer is there if the weights sum to something.
some_peer : (peers : List ℕ) (w : ℕ → ℕ) → 0 < sum_ℕ w peers → (j : ℕ) × Has j peers
unfolding sum_ℕ
some_peer [] w p = absurd (omega arith)
some_peer (i ∷ is) w p = (i, inl refl)

sum_ℕ-zero : (is : List ℕ) → sum_ℕ (λ _. 0) is ≡ 0
unfolding sum_ℕ
sum_ℕ-zero [] = refl
sum_ℕ-zero (i ∷ is) = omega (arith, sum_ℕ-zero is)

due_times : (t b j : ℕ) → t * due b 1 j ≡ due b t j
due_times t b j = ground arith

module _ (peers : List ℕ) (w : ℕ → ℕ) (d : Distinct peers) (positive : 0 < whole peers w) where
  -- After `k` rounds.
  record Played (k : ℕ) (h g : Heap) (won : ℕ → ℕ) : Type 0 where
    balanced : IsBalanced peers w g
    weights :
        (j : ℕ)
        → Has j peers
        → weight_of g j +ℤ pos (whole peers w * won j) ≡ weight_of h j +ℤ pos (k * w j)
    all_won : sum_ℕ won peers ≡ k

  next_wins :
      (h : Heap)
      → IsBalanced peers w h
      → (b : ℕ) × ((smooth_weighted_peer everyone peers h).0 ≡ some b)
  next_wins h v =
      let j = some_peer peers w positive in
      let s = select-some (λ _. true) (boost h) peers j.0 j.1 refl in
      (s.0, smooth_weighted_peer-choice everyone peers h d ∙ s.1)

  rounds-Played :
      (k : ℕ) (h : Heap)
      → IsBalanced peers w h
      → Played k h (rounds k peers h).1 (wins (rounds k peers h).0)
  unfolding rounds wins
  rounds-Played zero h v = record {
    balanced = v;
    weights = λ j m. omega int_laws;
    all_won = sum_ℕ-zero peers;
  }
  rounds-Played (suc k) h v =
      let (b, q) = next_wins h v in
      let r = next_Round peers w d positive h v b q in
      let rest = rounds-Played k (smooth_weighted_peer everyone peers h).1 r.balanced in
      record {
        balanced = rest.balanced;
        weights = λ j m. rw q (
            omega (
              int_laws,
              parts (rest.weights j m),
              parts (r.moved j m),
              due_times (whole peers w) b j,
            ));
        all_won = rw q (
            sum_ℕ-add (due b 1) (wins (rounds k peers (smooth_weighted_peer everyone peers h).1).0)
              peers
            ∙ omega (arith, sum_ℕ-due b 1 peers d r.inside, rest.all_won));
      }

  won-le :
      (c a z : ℕ) (x : ℤ) → 0 < c → pos 0 <ℤ (x +ℤ pos c) → x +ℤ pos (c * a) ≡ pos (c * z) → a ≤ z
  won-le c a z x p q e = elim (dec_le a z) [
    | yes y ↦ y
    | no n ↦ let big : c * suc z ≤ c * a = grind arith in absurd (omega (int_laws, parts e, big))
  ]

  rounds_fair :
      (h : Heap)
      → IsBalanced peers w h
      → ((j : ℕ) → Has j peers → weight_of h j ≡ pos 0)
      → (j : ℕ) → Has j peers
      → (wins (rounds (whole peers w) peers h).0 j ≡ w j)
        × (weight_of (rounds (whole peers w) peers h).1 j ≡ pos 0)
  rounds_fair h v zeros j m =
      let c = whole peers w in
      let p = rounds-Played c h v in
      let ended : (i : ℕ)
          → Has i peers
          → weight_of (rounds c peers h).1 i +ℤ pos (c * wins (rounds c peers h).0 i)
            ≡ pos (c * w i) =
        λ i n. omega (int_laws, parts (p.weights i n), parts (zeros i n)) in
      let fair =
        sum_ℕ-eq_of_le (wins (rounds c peers h).0) w peers
          (λ i n. won-le c _ (w i) _ positive (p.balanced.above i n) (ended i n)) p.all_won j m in
      (fair, omega (int_laws, parts (ended j m), ap (λ (n : ℕ). c * n) fair))

-- Peers as BuildGroups leaves them.
pub record IsFresh (peers : List ℕ) (h : Heap) : Type 0 where
  pub idle : (j : ℕ) → Has j peers → weight_of h j ≡ pos 0
  pub full : (j : ℕ) → Has j peers → (h j).effective_weight ≡ (h j).weight

sum-zeros : (v : ℕ → ℤ) (is : List ℕ) → ((j : ℕ) → Has j is → v j ≡ pos 0) → sum v is ≡ pos 0
unfolding sum
sum-zeros v [] z = refl
sum-zeros v (i ∷ is) z =
    omega (int_laws, parts (z i (inl refl)), parts (sum-zeros v is (λ j m. z j (inr m))))

abbrev pub total_weight : List ℕ → Heap → ℕ
total_weight peers h = sum_ℕ (λ j. (h j).weight) peers

-- The schedule is fair: when fresh peers compete in as many rounds as their weights sum to, each
-- peer wins exactly as many rounds as its weight says, and its current weight is zero again.
pub rounds-IsFresh :
    (peers : List ℕ) (h : Heap) (j : ℕ)
    → Distinct peers
    → 0 < total_weight peers h
    → IsFresh peers h
    → Has j peers
    → (wins (rounds (total_weight peers h) peers h).0 j ≡ (h j).weight)
      × (weight_of (rounds (total_weight peers h) peers h).1 j ≡ pos 0)
rounds-IsFresh peers h j d positive f m =
    rounds_fair peers (λ i. (h i).weight) d positive h
      (record {
        full = λ i n. (f.full i n, refl);
        zero_sum = sum-zeros (weight_of h) peers f.idle;
        above = λ i n. omega (int_laws, parts (f.idle i n));
      })
      f.idle j m
