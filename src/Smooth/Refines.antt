-- ===== src/Smooth/Refines.antt =====
-- smoothWeightedPeer against its specification: the choice, and the memory that it leaves.
use cslb.Prelude.{
  ℕ, ◌==◌, ◌≡◌, refl, sym, ◌∙◌, ap, inl, inr, Bool, if◌then◌else◌, List, Option, none, some, arith,
  Absent, Distinct, Has, Absent-ne, Option-cases,
}
use cslb.Peer.{Peer, Heap}
use cslb.Smooth.{Scan, advance, smooth_loop, settle, smooth_weighted_peer}
use cslb.Smooth.Loop.{smooth_loop-Absent, smooth_loop-Has, smooth_loop-total}
use cslb.Smooth.Best.{smooth_loop-best}
use native.Mathlib.Nat.{zero-add}
use cslb.Smooth.Select.{select-Has}
use cslb.Smooth.Spec.{competed, billed, boost, select, eligible_total}

advance-competed : (p : Peer) → advance p ≡ competed p
unfolding advance
advance-competed p = ground arith

-- The winner pays the total.
abbrev pub paid : Option ℕ → ℕ → ℕ → Peer → Peer
paid none total j p = p
paid (some b) total j p = if j == b then billed total p else p

-- What the round makes of peer `j`: an eligible peer has competed, and the winner pays.
abbrev pub round_peer : (ℕ → Peer → Bool) → Heap → ℕ → Option ℕ → ℕ → Peer
round_peer e h total winner j = paid winner total j (if e j (h j) then competed (h j) else h j)

module _ (e : ℕ → Peer → Bool) (peers : List ℕ) (h : Heap) where
  abbrev start : Scan
  start = record { best = none; total = 0; heap = h }

  settle-choice : (s : Scan) → (settle s).0 ≡ s.best
  unfolding settle
  settle-choice s = ground arith

  settle-heap : (s : Scan) (j : ℕ) → (settle s).1 j ≡ paid s.best s.total j (s.heap j)
  unfolding settle
  settle-heap s j = ground arith

  -- On a list without repetitions, smoothWeightedPeer returns what a search with no memory returns:
  -- the first of the eligible peers with the largest sum of current and effective weight, and nobody
  -- if no peer is eligible.
  pub smooth_weighted_peer-choice :
      Distinct peers → (smooth_weighted_peer e peers h).0 ≡ select (λ i. e i (h i)) (boost h) peers
  unfolding smooth_weighted_peer
  smooth_weighted_peer-choice d =
      settle-choice (smooth_loop e peers start)
      ∙ smooth_loop-best e h peers start d (λ j m. refl) tt

  -- What the round leaves of a peer of a list without repetitions: an eligible peer gains its
  -- effective weight and recovers one point of it if it is below the weight, the winner pays the sum
  -- of the eligible effective weights, and an ineligible peer stays as it was.
  pub smooth_weighted_peer-heap :
      (j : ℕ)
      → Distinct peers
      → Has j peers
      → (smooth_weighted_peer e peers h).1 j
        ≡ round_peer e h (eligible_total e h peers) (smooth_weighted_peer e peers h).0 j
  unfolding smooth_weighted_peer
  smooth_weighted_peer-heap j d m =
      let s = smooth_loop e peers start in
      let total : s.total ≡ eligible_total e h peers =
        smooth_loop-total e peers start d ∙ zero-add _ in
      settle-heap s j
      ∙ (λ k. paid (sym (settle-choice s) k) (total k) j (smooth_loop-Has e peers start j d m k))
      ∙ ap
          (λ q.
            paid (smooth_weighted_peer e peers h).0 (eligible_total e h peers) j
              (if e j (h j) then q else h j))
          (advance-competed (h j))

  -- A peer that is not in the list stays as it was.
  pub smooth_weighted_peer-Absent :
      (j : ℕ) → Distinct peers → Absent j peers → (smooth_weighted_peer e peers h).1 j ≡ h j
  unfolding smooth_weighted_peer
  smooth_weighted_peer-Absent j d a =
      let s = smooth_loop e peers start in
      elim (Option-cases s.best) [
        | inl n ↦ settle-heap s j ∙ rw n (smooth_loop-Absent e peers start j a)
        | inr (b, q) ↦
            let won =
              select-Has (λ i. e i (h i)) (boost h) peers
                (sym (smooth_loop-best e h peers start d (λ j m. refl) tt) ∙ q) in
            settle-heap s j
            ∙ rw q
                (ground (arith, smooth_loop-Absent e peers start j a, Absent-ne j b peers a won.0))
      ]
