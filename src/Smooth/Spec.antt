-- ===== src/Smooth/Spec.antt =====
-- What smoothWeightedPeer promises, with no memory and no loop.
use cslb.Prelude.{
  ℕ, ◌+◌, Bool, ltb, ltb_ℤ, ◌-ℤ◌, if◌then◌else◌, ℤ, pos, ◌+ℤ◌, List, [], ◌∷◌, Option, none, some,
}
use cslb.Peer.{Peer, Heap}

-- The weight that a peer competes with.
abbrev pub boost : Heap → ℕ → ℤ
boost h i = (h i).current_weight +ℤ pos (h i).effective_weight

-- A peer that has competed: its current weight has grown by its effective weight, and its effective
-- weight by one if it is below the configured weight.
abbrev pub competed : Peer → Peer
competed p = record p {
  current_weight = p.current_weight +ℤ pos p.effective_weight;
  effective_weight = p.effective_weight + (if ltb p.effective_weight p.weight then 1 else 0);
}

-- A peer that has paid for its win.
abbrev pub billed : ℕ → Peer → Peer
billed total p = record p { current_weight = p.current_weight -ℤ pos total }

-- The first of two candidates, unless the second has strictly more.
abbrev pub merge : (ℕ → ℤ) → Option ℕ → Option ℕ → Option ℕ
merge v none r = r
merge v (some b) none = some b
merge v (some b) (some c) = if ltb_ℤ (v b) (v c) then some c else some b

-- The first candidate of the list with the largest value.
unfoldable pub select : (ℕ → Bool) → (ℕ → ℤ) → List ℕ → Option ℕ
select e v [] = none
select e v (i ∷ is) = let rest = select e v is in if e i then merge v (some i) rest else rest

unfoldable pub sum_ℕ : (ℕ → ℕ) → List ℕ → ℕ
sum_ℕ v [] = 0
sum_ℕ v (i ∷ is) = v i + sum_ℕ v is

-- What a peer adds to the round's total.
abbrev pub share : (ℕ → Peer → Bool) → Heap → ℕ → ℕ
share e h i = if e i (h i) then (h i).effective_weight else 0

abbrev pub eligible_total : (ℕ → Peer → Bool) → Heap → List ℕ → ℕ
eligible_total e h = sum_ℕ (share e h)

unfoldable pub sum : (ℕ → ℤ) → List ℕ → ℤ
sum v [] = pos 0
sum v (i ∷ is) = v i +ℤ sum v is
