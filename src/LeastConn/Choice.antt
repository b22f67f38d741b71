-- ===== src/LeastConn/Choice.antt =====
-- What the least-connections picker chooses.
use cslb.Prelude.{
  ℕ, ◌<◌, ◌≡◌, refl, sym, ◌∙◌, ap, inl, inr, Bool, true, false, List, Option, none, some, arith,
  Has, Distinct, Option-cases, if_intro,
}
use cslb.Peer.{Peer, Heap}
use cslb.Group.{PeerGroup}
use cslb.Smooth.{smooth_weighted_peer}
use cslb.Smooth.Select.{select-Has, select-some}
use cslb.Smooth.Spec.{boost}
use cslb.Smooth.Refines.{smooth_weighted_peer-choice}
use cslb.RoundRobin.{Ctx, is_eligible}
use cslb.RoundRobin.Contract.{Outcome}
use cslb.RoundRobin.Effects.{smooth_weighted_peer-vitals, vitals}
use cslb.RoundRobin.Sections.{commit_best-choice, commit_best-Outcome, is_eligible-usable}
use cslb.RoundRobin.Backup.{Lawful, IsSound, Picked}
use cslb.RoundRobin.Whole.{pick_with_backup-Picked}
use cslb.LeastConn.{Least, least_loop, is_tied, break_tie, pick_from_group, pick}
use cslb.LeastConn.Order.{NoMore, NoMore-trans, NoMore-refl}
use cslb.LeastConn.Scan.{least_loop-min, least_loop-source, least_loop-none}

abbrev first_pass : ℕ → List ℕ → Ctx → Least
first_pass now peers c =
    least_loop (is_eligible now c.picker.tried) c.heap peers (record { best = none; many = false })

-- A tied peer is an eligible one with the load of the best.
is_tied-eligible :
    (now : ℕ) (tried : ℕ → Bool) (least : Peer) (i : ℕ) (p : Peer)
    → is_tied now tried least i p ≡ true
    → (is_eligible now tried i p ≡ true) × NoMore p least
unfolding is_tied is_eligible
is_tied-eligible now tried least i p e = ground arith

eligible-is_tied :
    (now : ℕ) (tried : ℕ → Bool) (i : ℕ) (p : Peer)
    → is_eligible now tried i p ≡ true
    → is_tied now tried p i p ≡ true
unfolding is_tied is_eligible
eligible-is_tied now tried i p e = ground arith

module _ (now : ℕ) (peers : List ℕ) (c : Ctx) (d : Distinct peers) where
  -- The tie break finds an eligible peer that carries no more than the best of the first pass.
  record TieBroken (b : ℕ) (r : Option ℕ × Heap) : Type 0 where
    winner : (i : ℕ) × (r.0 ≡ some i)
    eligible :
        (i : ℕ) → r.0 ≡ some i → Has i peers × (is_eligible now c.picker.tried i (c.heap i) ≡ true)
    no_more : (i : ℕ) → r.0 ≡ some i → NoMore (c.heap i) (c.heap b)
    kept : (j : ℕ) → vitals (r.1 j) ≡ vitals (c.heap j)

  tie-TieBroken :
      (b : ℕ)
      → Has b peers
      → is_eligible now c.picker.tried b (c.heap b) ≡ true
      → TieBroken b (smooth_weighted_peer (is_tied now c.picker.tried (c.heap b)) peers c.heap)
  tie-TieBroken b m y =
      let e = is_tied now c.picker.tried (c.heap b) in
      let choice = smooth_weighted_peer-choice e peers c.heap d in
      let s =
        select-some (λ j. e j (c.heap j)) (boost c.heap) peers b m
          (eligible-is_tied now c.picker.tried b (c.heap b) y) in
      record {
        winner = (s.0, choice ∙ s.1);
        eligible = λ i q.
            let won = select-Has (λ j. e j (c.heap j)) (boost c.heap) peers (sym choice ∙ q) in
            (won.0, (is_tied-eligible now c.picker.tried (c.heap b) i (c.heap i) won.1).0);
        no_more = λ i q.
            let won = select-Has (λ j. e j (c.heap j)) (boost c.heap) peers (sym choice ∙ q) in
            (is_tied-eligible now c.picker.tried (c.heap b) i (c.heap i) won.1).1;
        kept = smooth_weighted_peer-vitals e peers c.heap;
      }

  lone-TieBroken :
      (b : ℕ)
      → Has b peers
      → is_eligible now c.picker.tried b (c.heap b) ≡ true
      → TieBroken b (some b, c.heap)
  lone-TieBroken b m y = record {
    winner = (b, refl);
    eligible = λ i q. let p : b ≡ i = cc in rw (← p) (m, y);
    no_more = λ i q. let p : b ≡ i = cc in rw (← p) (NoMore-refl (c.heap b));
    kept = λ j. refl;
  }

  break_tie-TieBroken :
      (s : Least) (b : ℕ)
      → s.best ≡ some b
      → Has b peers
      → is_eligible now c.picker.tried b (c.heap b) ≡ true
      → TieBroken b (break_tie now peers c s)
  unfolding break_tie
  break_tie-TieBroken s b q m y =
      rw (q, break_tie) (if_intro (TieBroken b) s.many (tie-TieBroken b m y) (lone-TieBroken b m y))

  break_tie-none : (s : Least) → s.best ≡ none → break_tie now peers c s ≡ (none, c.heap)
  unfolding break_tie
  break_tie-none s n = rw (n, break_tie)

  first_eligible :
      (b : ℕ)
      → (first_pass now peers c).best ≡ some b
      → Has b peers × (is_eligible now c.picker.tried b (c.heap b) ≡ true)
  first_eligible b q =
      elim (least_loop-source (is_eligible now c.picker.tried) c.heap peers
        (record { best = none; many = false }) b q) [ inl m ↦ m | inr p ↦ cc ]

-- What the least-connections picker takes from a group: an eligible peer with the fewest
-- connections for its weight among the eligible ones, or nobody if none is eligible.
pub record LeastLoaded (now : ℕ) (peers : List ℕ) (c : Ctx) (r : Option ℕ) : Type 0 where
  pub eligible :
      (i : ℕ) → r ≡ some i → Has i peers × (is_eligible now c.picker.tried i (c.heap i) ≡ true)
  pub least :
      (i j : ℕ)
      → r ≡ some i
      → Has j peers
      → is_eligible now c.picker.tried j (c.heap j) ≡ true
      → NoMore (c.heap i) (c.heap j)
  pub exhausted :
      r ≡ none → (j : ℕ) → Has j peers → is_eligible now c.picker.tried j (c.heap j) ≡ false

-- The least-connections pick of a group without repetitions, with positive weights: the peer it
-- returns is an eligible peer of the group, no eligible peer of the group has fewer connections for
-- its weight, and it returns nobody only if no peer of the group is eligible.
pub pick_from_group-LeastLoaded :
    (now : ℕ) (g : PeerGroup) (c : Ctx)
    → Distinct g.peers
    → ((j : ℕ) → 0 < (c.heap j).weight)
    → LeastLoaded now g.peers c (pick_from_group now g c).0
unfolding pick_from_group
pick_from_group-LeastLoaded now g c d w =
    let s = first_pass now g.peers c in
    let start : Least = record { best = none; many = false } in
    let e = is_eligible now c.picker.tried in
    let r = break_tie now g.peers c s in
    rw (commit_best-choice now c r) (elim (Option-cases s.best) [
      | inl n ↦
          let nobody : (break_tie now g.peers c s).0 ≡ none =
            ap (λ x. x.0) (break_tie-none now g.peers c d s n) in
          record {
            eligible = λ i q. ground (arith, nobody);
            least = λ i j q. ground (arith, nobody);
            exhausted = λ q. (least_loop-none e c.heap g.peers start n).1;
          }
      | inr (b, q) ↦
          let f = first_eligible now g.peers c d b q in
          let t = break_tie-TieBroken now g.peers c d s b q f.0 f.1 in
          record {
            eligible = t.eligible;
            least = λ i j p m y.
                NoMore-trans (c.heap i) (c.heap b) (c.heap j) (w b) (t.no_more i p)
                  (least_loop-min e c.heap w g.peers start b j q (inl (m, y)));
            exhausted = λ p. ground (arith, t.winner.1);
          }
    ])

pick_from_group-Outcome :
    (now : ℕ) (g : PeerGroup) (c : Ctx)
    → Distinct g.peers
    → Outcome g.peers c (pick_from_group now g c)
unfolding pick_from_group
pick_from_group-Outcome now g c d =
    let s = first_pass now g.peers c in
    let r = break_tie now g.peers c s in
    elim (Option-cases s.best) [
      | inl n ↦
          let idle = break_tie-none now g.peers c d s n in
          commit_best-Outcome now g.peers c r (λ j. ap (λ x. vitals (x.1 j)) idle)
            (λ i q. absurd (none_some (sym (ap (λ x. x.0) idle) ∙ q)))
      | inr (b, q) ↦
          let f = first_eligible now g.peers c d b q in
          let t = break_tie-TieBroken now g.peers c d s b q f.0 f.1 in
          commit_best-Outcome now g.peers c r t.kept (λ i p.
            let (m, y) = t.eligible i p in
            let ok = is_eligible-usable now c.picker.tried i (c.heap i) y in (m, ok.0, ok.1, ok.2))
    ]
  where
    none_some : {i : ℕ} → none ≡ some i → ⊥
    none_some e = cc

-- The least-connections strategy keeps the contract of a pick.
pub pick_from_group-Lawful : Lawful pick_from_group
pick_from_group-Lawful = record { outcome = pick_from_group-Outcome }

pub pick-Picked : (now later : ℕ) (c : Ctx) → IsSound c.picker → Picked c (pick now later c)
unfolding pick
pick-Picked = pick_with_backup-Picked pick_from_group pick_from_group-Lawful
