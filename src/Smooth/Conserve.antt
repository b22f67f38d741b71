-- ===== src/Smooth/Conserve.antt =====
-- What smoothWeightedPeer keeps: the sum of the current weights.
use cslb.Prelude.{
  ℕ, ◌==◌, ◌≡◌, refl, sym, ◌∙◌, ap, inl, inr, Bool, false, ℤ, pos, ◌+ℤ◌, List, none, some, Distinct,
  Has, Bool-cases, Option-cases, int_laws, parts,
}
use cslb.Peer.{Peer, Heap}
use cslb.Smooth.{smooth_weighted_peer}
use cslb.Smooth.Select.{select-Has, select-none}
use cslb.Smooth.Sums.{due, sum-Has, sum-agree}
use cslb.Smooth.Spec.{boost, share, sum, eligible_total}
use cslb.Smooth.Refines.{round_peer, smooth_weighted_peer-heap, smooth_weighted_peer-choice}

abbrev pub weight_of : Heap → ℕ → ℤ
weight_of h j = (h j).current_weight

module _ (e : ℕ → Peer → Bool) (peers : List ℕ) (h : Heap) where
  round_peer-none : (t j : ℕ) → e j (h j) ≡ false → round_peer e h t none j ≡ h j
  round_peer-none t j n = rw n

  -- The current weight of a peer after a round that `b` wins.
  pub round_peer-weight :
      (t b j : ℕ)
      → (round_peer e h t (some b) j).current_weight +ℤ pos (due b t j)
        ≡ weight_of h j +ℤ pos (share e h j)
  round_peer-weight t b j = elim (Bool-cases (e j (h j))) [
    | inl y ↦ rw y (elim (Bool-cases (j == b)) [
      | inl z ↦ rw z (omega int_laws)
      | inr z ↦ rw z (omega int_laws)
    ])
    | inr y ↦ rw y (elim (Bool-cases (j == b)) [
      | inl z ↦ rw z (omega int_laws)
      | inr z ↦ rw z (omega int_laws)
    ])
  ]

  -- A round that `b` wins, seen by a peer of the list.
  pub round_weight :
      (b j : ℕ)
      → Distinct peers
      → (smooth_weighted_peer e peers h).0 ≡ some b
      → Has j peers
      → weight_of (smooth_weighted_peer e peers h).1 j +ℤ pos (due b (eligible_total e h peers) j)
        ≡ weight_of h j +ℤ pos (share e h j)
  round_weight b j d q m =
      let p : (smooth_weighted_peer e peers h).1 j
          ≡ round_peer e h (eligible_total e h peers) (some b) j =
        smooth_weighted_peer-heap e peers h j d m ∙ rw q refl in
      rw (p, weight_of) (round_peer-weight (eligible_total e h peers) b j)

  -- A round over a list without repetitions leaves the sum of the current weights as it was,
  -- whichever peers are eligible.
  pub sum_weights :
      Distinct peers
      → sum (weight_of (smooth_weighted_peer e peers h).1) peers ≡ sum (weight_of h) peers
  sum_weights d = elim (Option-cases (smooth_weighted_peer e peers h).0) [
    | inl n ↦ sum-agree _ _ peers (λ j m.
        let idle =
          select-none (λ i. e i (h i)) (boost h) peers j
            (sym (smooth_weighted_peer-choice e peers h d) ∙ n) m in
        let same : (smooth_weighted_peer e peers h).1 j ≡ h j =
          smooth_weighted_peer-heap e peers h j d m
          ∙ rw n (round_peer-none (eligible_total e h peers) j idle) in
        ap (λ p. p.current_weight) same)
    | inr (b, q) ↦
        let t = eligible_total e h peers in
        let won =
          select-Has (λ i. e i (h i)) (boost h) peers
            (sym (smooth_weighted_peer-choice e peers h d) ∙ q) in
        let moved =
          sum-Has (weight_of h) (weight_of (smooth_weighted_peer e peers h).1) (share e h) b t peers
            d won.0 (λ j m. round_weight b j d q m) in
        omega (int_laws, parts moved)
  ]
