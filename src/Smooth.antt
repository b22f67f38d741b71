-- ===== src/Smooth.antt =====
-- roundrobin.go: smoothWeightedPeer, the core of smooth weighted round-robin.
-- The callback reads the pointer and the struct behind it at the time of the call.
pub mod Spec
pub mod Loop
pub mod Select
pub mod Best
pub mod Refines
pub mod Sums
pub mod Conserve
pub mod Cycle
pub mod Fair
use cslb.Prelude.{
  ℕ, suc, ◌+◌, Bool, ltb, ltb_ℤ, if◌then◌else◌, pos, ◌+ℤ◌, ◌-ℤ◌, List, [], ◌∷◌, Option, none, some,
}
use cslb.Peer.{Peer, Heap, update}

pub record Scan : Type 0 where
  pub best : Option ℕ
  pub total : ℕ
  pub heap : Heap

-- The statements that change an eligible peer.
unfoldable pub advance : Peer → Peer
advance p = record p {
  current_weight = p.current_weight +ℤ pos p.effective_weight;
  effective_weight =
      if ltb p.effective_weight p.weight then suc p.effective_weight else p.effective_weight;
}

-- best == nil || peer.currentWeight > best.currentWeight
unfoldable pub better : Heap → Option ℕ → ℕ → Option ℕ
better h none i = some i
better h (some b) i = if ltb_ℤ (h b).current_weight (h i).current_weight then some i else some b

unfoldable pub smooth_step : (ℕ → Peer → Bool) → ℕ → Scan → Scan
unfolding advance better
smooth_step eligible i s =
    if eligible i (s.heap i)
    then (let h = update s.heap i (advance (s.heap i)) in
        record {
          best = better h s.best i;
          total = s.total + (s.heap i).effective_weight;
          heap = h;
        })
    else s

unfoldable pub smooth_loop : (ℕ → Peer → Bool) → List ℕ → Scan → Scan
smooth_loop eligible [] s = s
smooth_loop eligible (i ∷ is) s = smooth_loop eligible is (smooth_step eligible i s)

-- best.currentWeight -= total
unfoldable pub charge : ℕ → Peer → Peer
charge total p = record p { current_weight = p.current_weight -ℤ pos total }

unfoldable pub settle : Scan → Option ℕ × Heap
unfolding charge
settle s = elim s.best [
  | none ↦ (none, s.heap)
  | some b ↦ (some b, update s.heap b (charge s.total (s.heap b)))
]

unfoldable pub smooth_weighted_peer : (ℕ → Peer → Bool) → List ℕ → Heap → Option ℕ × Heap
unfolding smooth_loop smooth_step settle
smooth_weighted_peer eligible peers h =
    settle (smooth_loop eligible peers (record { best = none; total = 0; heap = h }))
