-- ===== src/Smooth/Cycle.antt =====
-- Rounds of smoothWeightedPeer in which every peer competes: the schedule is fair.
use cslb.Prelude.{
  ℕ, zero, suc, ◌+◌, ◌<◌, ◌≡◌, sym, ◌∙◌, Bool, true, pos, ◌+ℤ◌, ◌<ℤ◌, List, [], ◌∷◌, Option, none,
  some, arith, Distinct, Has, int_laws, parts,
}
use cslb.Peer.{Peer, Heap}
use cslb.Smooth.{smooth_weighted_peer}
use cslb.Smooth.Select.{select-Has, select-pos}
use cslb.Smooth.Sums.{due, sum-add, sum_ℕ-agree}
use cslb.Smooth.Spec.{competed, boost, select, share, sum, sum_ℕ, eligible_total}
use mathlib.Core.Path.{subst₂}
use native.Mathlib.Decide.{ℕ_discrete}
use cslb.Smooth.Refines.{paid, smooth_weighted_peer-heap, smooth_weighted_peer-choice}
use cslb.Smooth.Conserve.{weight_of, round_weight, sum_weights}

abbrev pub everyone : ℕ → Peer → Bool
everyone i p = true

-- The winners of a number of rounds, in order, and the memory after them.
unfoldable pub rounds : ℕ → List ℕ → Heap → List (Option ℕ) × Heap
rounds zero peers h = ([], h)
rounds (suc k) peers h =
    let r = smooth_weighted_peer everyone peers h in
    let rest = rounds k peers r.1 in (r.0 ∷ rest.0, rest.1)

abbrev pub won_by : Option ℕ → ℕ → ℕ
won_by none j = 0
won_by (some b) j = due b 1 j

-- How often `j` wins.
unfoldable pub wins : List (Option ℕ) → ℕ → ℕ
wins [] j = 0
wins (r ∷ rs) j = won_by r j + wins rs j

module _ (peers : List ℕ) (w : ℕ → ℕ) where
  abbrev pub whole : ℕ
  whole = sum_ℕ w peers

  pub record IsBalanced (h : Heap) : Type 0 where
    pub full : (j : ℕ) → Has j peers → ((h j).effective_weight ≡ w j) × ((h j).weight ≡ w j)
    pub zero_sum : sum (weight_of h) peers ≡ pos 0
    pub above : (j : ℕ) → Has j peers → pos 0 <ℤ (weight_of h j +ℤ pos whole)

  -- What a round does that `b` wins.
  pub record Round (h g : Heap) (b : ℕ) : Type 0 where
    pub inside : Has b peers
    pub moved :
        (j : ℕ) → Has j peers → weight_of g j +ℤ pos (due b whole j) ≡ weight_of h j +ℤ pos (w j)
    pub balanced : IsBalanced g

  module _ (d : Distinct peers) (positive : 0 < whole) (h : Heap) (v : IsBalanced h) where
    total-whole : eligible_total everyone h peers ≡ whole
    total-whole = sum_ℕ-agree w (share everyone h) peers (λ j m. (v.full j m).0)

    sum-boost : sum (boost h) peers ≡ pos whole
    sum-boost = omega (
      int_laws,
      parts (sum-add (weight_of h) (share everyone h) peers),
      parts v.zero_sum,
      total-whole,
    )

    round_full :
        (winner : Option ℕ) (t j : ℕ) (p : Peer)
        → (p.effective_weight ≡ w j) × (p.weight ≡ w j)
        → ((paid winner t j (competed p)).effective_weight ≡ w j)
          × ((paid winner t j (competed p)).weight ≡ w j)
    round_full none t j p f = ground arith
    round_full (some b) t j p f = ground arith

    next_full :
        (j : ℕ)
        → Has j peers
        → (((smooth_weighted_peer everyone peers h).1 j).effective_weight ≡ w j)
          × (((smooth_weighted_peer everyone peers h).1 j).weight ≡ w j)
    next_full j m = rw (smooth_weighted_peer-heap everyone peers h j d m) (
        round_full (smooth_weighted_peer everyone peers h).0 (eligible_total everyone h peers) j
          (h j) (v.full j m))

    next_moved :
        (b j : ℕ)
        → (smooth_weighted_peer everyone peers h).0 ≡ some b
        → Has j peers
        → weight_of (smooth_weighted_peer everyone peers h).1 j +ℤ pos (due b whole j)
          ≡ weight_of h j +ℤ pos (w j)
    next_moved b j q m =
        subst₂
          (λ t x.
            weight_of (smooth_weighted_peer everyone peers h).1 j +ℤ pos (due b t j)
            ≡ weight_of h j +ℤ pos x)
          total-whole (v.full j m).0 (round_weight everyone peers h b j d q m)

    winner_pos : (b : ℕ) → select (λ _. true) (boost h) peers ≡ some b → pos 0 <ℤ boost h b
    winner_pos b q = select-pos (boost h) peers (omega (arith, parts sum-boost)) q

    next_above :
        (b j : ℕ)
        → (smooth_weighted_peer everyone peers h).0 ≡ some b
        → Has j peers
        → pos 0 <ℤ (weight_of (smooth_weighted_peer everyone peers h).1 j +ℤ pos whole)
    next_above b j q m =
        let moved = parts (next_moved b j q m) in
        let win = winner_pos b (sym (smooth_weighted_peer-choice everyone peers h d) ∙ q) in
        elim (ℕ_discrete j b) [
          | yes p ↦ omega (
            int_laws,
            moved,
            (let z : due b whole j ≡ whole = ground arith in z),
            (let z : pos 0 <ℤ boost h j = rw p win in z),
            (v.full j m).0,
          )
          | no n ↦
              omega (int_laws, moved, (let z : due b whole j ≡ 0 = ground arith in z), v.above j m)
        ]

    pub next_Round :
        (b : ℕ)
        → (smooth_weighted_peer everyone peers h).0 ≡ some b
        → Round h (smooth_weighted_peer everyone peers h).1 b
    next_Round b q = record {
      inside =
          (select-Has (λ _. true) (boost h) peers
            (sym (smooth_weighted_peer-choice everyone peers h d) ∙ q)).0;
      moved = λ j m. next_moved b j q m;
      balanced = record {
        full = next_full;
        zero_sum = sum_weights everyone peers h d ∙ v.zero_sum;
        above = λ j m. next_above b j q m;
      };
    }
