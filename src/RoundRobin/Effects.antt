-- ===== src/RoundRobin/Effects.antt =====
-- What each step of a pick leaves unchanged.
use cslb.Prelude.{
  ℕ, ◌==◌, ◌≡◌, refl, ◌∙◌, Bool, true, pos, ◌+ℤ◌, if◌then◌else◌, List, [], ◌∷◌, none, arith,
  +ℤ-zero,
}
use cslb.Peer.{Peer, Heap}
use cslb.Smooth.{Scan, smooth_step, smooth_loop, settle, smooth_weighted_peer}
use cslb.RoundRobin.{Ctx, commit_peer}
use cslb.RoundRobin.Contract.{static}

-- A peer without the two weights that smoothWeightedPeer moves.
abbrev pub vitals : Peer → Peer
vitals p = record p { current_weight = pos 0; effective_weight = 0 }

module _ (e : ℕ → Peer → Bool) where
  smooth_step-vitals :
      (i j : ℕ) (s : Scan) → vitals ((smooth_step e i s).heap j) ≡ vitals (s.heap j)
  unfolding smooth_step
  smooth_step-vitals i j s = ground arith

  smooth_loop-vitals :
      (is : List ℕ) (j : ℕ) (s : Scan) → vitals ((smooth_loop e is s).heap j) ≡ vitals (s.heap j)
  unfolding smooth_loop
  smooth_loop-vitals [] j s = refl
  smooth_loop-vitals (i ∷ is) j s =
      smooth_loop-vitals is j (smooth_step e i s) ∙ smooth_step-vitals i j s

  settle-vitals : (s : Scan) (j : ℕ) → vitals ((settle s).1 j) ≡ vitals (s.heap j)
  unfolding settle
  settle-vitals s j = ground arith

  -- smoothWeightedPeer changes nothing but the two weights, whatever the list.
  pub smooth_weighted_peer-vitals :
      (is : List ℕ) (h : Heap) (j : ℕ) → vitals ((smooth_weighted_peer e is h).1 j) ≡ vitals (h j)
  unfolding smooth_weighted_peer
  smooth_weighted_peer-vitals is h j =
      let s : Scan = record { best = none; total = 0; heap = h } in
      settle-vitals (smooth_loop e is s) j ∙ smooth_loop-vitals is j s

pub commit_peer-static :
    (now i j : ℕ) (c : Ctx) → static ((commit_peer now i c).heap j) ≡ static (c.heap j)
unfolding commit_peer
commit_peer-static now i j c = ground arith

pub commit_peer-opened :
    (now i j : ℕ) (c : Ctx)
    → ((commit_peer now i c).heap j).conns ≡ (c.heap j).conns +ℤ pos (if j == i then 1 else 0)
unfolding commit_peer
commit_peer-opened now i j c = ground (arith, +ℤ-zero (c.heap j).conns)

pub commit_peer-tried :
    (now i j : ℕ) (c : Ctx)
    → (commit_peer now i c).picker.tried j ≡ (if j == i then true else c.picker.tried j)
unfolding commit_peer
commit_peer-tried now i j c = ground arith

pub commit_peer-picker :
    (now i : ℕ) (c : Ctx)
    → ((commit_peer now i c).picker.primary ≡ c.picker.primary)
      × ((commit_peer now i c).picker.backup ≡ c.picker.backup)
      × ((commit_peer now i c).picker.backup_phase ≡ c.picker.backup_phase)
unfolding commit_peer
commit_peer-picker now i c = ground arith
