-- ===== src/Slot.antt =====
-- hash.go and iphash.go: the peer that a number below TotalWeight falls to. (A TotalWeight that is a
-- multiple of 2 ^ 32 makes the code panic, where `%` by zero here gives the number itself.)
pub mod Laws
use cslb.Prelude.{ℕ, ◌-◌, ltb, Bool, not, ◌&&◌, if◌then◌else◌, List, [], ◌∷◌, Option, none, some}
use cslb.Peer.{Heap}
use cslb.RoundRobin.{Ctx, peer_available}

-- `w -= peer.Weight; if w < 0`. The subtraction is made where it does not go below zero.
unfoldable pub slot : Heap → List ℕ → ℕ → Option ℕ
slot h [] w = none
slot h (i ∷ is) w =
    let rest = slot h is (w - (h i).weight) in if ltb w (h i).weight then some i else rest

-- !selected.Down && !p.Tried(selected) && peerAvailable(selected)
unfoldable pub is_usable : ℕ → ℕ → Ctx → Bool
unfolding peer_available
is_usable now i c = not (c.heap i).down && not (c.picker.tried i) && peer_available now (c.heap i)
