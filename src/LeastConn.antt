-- ===== src/LeastConn.antt =====
-- leastconn.go: leastConnPicker, the peer with the fewest connections for its weight.
pub mod Order
pub mod Scan
pub mod Choice
use cslb.Prelude.{
  ℕ, ltb_ℤ, eqb_ℤ, ◌*ℤ◌, Bool, true, false, if◌then◌else◌, List, [], ◌∷◌, Option, none, some,
}
use cslb.Peer.{Peer, Heap}
use cslb.Group.{PeerGroup}
use cslb.Smooth.{smooth_weighted_peer}
use cslb.RoundRobin.{Ctx, is_eligible, is_quarantined, is_full, commit_best, pick_with_backup}

-- peer.conns*best.Weight < best.conns*peer.Weight, and the same with `==`.
abbrev pub less_loaded : Peer → Peer → Bool
less_loaded p q = ltb_ℤ (p.conns *ℤ q.weight) (q.conns *ℤ p.weight)

abbrev pub equally_loaded : Peer → Peer → Bool
equally_loaded p q = eqb_ℤ (p.conns *ℤ q.weight) (q.conns *ℤ p.weight)

pub record Least : Type 0 where
  pub best : Option ℕ
  pub many : Bool

-- The body of the first pass, for a peer that no `continue` skips.
unfoldable pub consider : Heap → ℕ → Least → Least
consider h i s = elim s.best [
  | none ↦ record { best = some i; many = false }
  | some b ↦
      if less_loaded (h i) (h b)
      then record { best = some i; many = false }
      else if equally_loaded (h i) (h b)
      then record { best = some b; many = true }
      else s
]

unfoldable pub least_loop : (ℕ → Peer → Bool) → Heap → List ℕ → Least → Least
least_loop e h [] s = s
least_loop e h (i ∷ is) s = least_loop e h is (if e i (h i) then consider h i s else s)

-- The callback of the second pass; `least` is the best peer of the first.
unfoldable pub is_tied : ℕ → (ℕ → Bool) → Peer → ℕ → Peer → Bool
is_tied now tried least i p =
    if tried i
    then false
    else if p.down
    then false
    else if equally_loaded p least
    then (if is_quarantined now p then false else if is_full p then false else true)
    else false

-- With several peers at the minimum, smooth weighted round-robin chooses among them.
unfoldable pub break_tie : ℕ → List ℕ → Ctx → Least → Option ℕ × Heap
break_tie now peers c s = elim s.best [
  | none ↦ (none, c.heap)
  | some b ↦
      if s.many
      then smooth_weighted_peer (is_tied now c.picker.tried (c.heap b)) peers c.heap
      else (some b, c.heap)
]

unfoldable pub pick_from_group : ℕ → PeerGroup → Ctx → Option ℕ × Ctx
pick_from_group now g c = commit_best now c (
    break_tie now g.peers c (
      least_loop (is_eligible now c.picker.tried) c.heap g.peers
        (record { best = none; many = false })))

unfoldable pub pick : ℕ → ℕ → Ctx → Option ℕ × Ctx
pick = pick_with_backup pick_from_group
