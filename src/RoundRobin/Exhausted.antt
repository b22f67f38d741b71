-- ===== src/RoundRobin/Exhausted.antt =====
-- When the round-robin picker finds nobody, nobody is there to be found.
use cslb.Prelude.{
  ℕ, ◌≡◌, refl, sym, ◌∙◌, ap, Bool, false, if◌then◌else◌, Option, none, some, Has, Distinct,
}
use cslb.Group.{PeerGroup}
use cslb.Smooth.{smooth_weighted_peer}
use cslb.Smooth.Select.{select-none}
use cslb.Smooth.Spec.{boost}
use cslb.Smooth.Refines.{smooth_weighted_peer-choice}
use cslb.RoundRobin.{
  Ctx, Strategy, is_eligible, pick_smooth, pick_single, pick_from_group, pick_from_current_group,
  pick_backup, or_backup, pick_with_backup, pick,
}
use cslb.RoundRobin.Sections.{commit_best-choice}

or_backup-none :
    (s : Strategy) (later : ℕ) (r : Option ℕ × Ctx) → (or_backup s later r).0 ≡ none → r.0 ≡ none
unfolding or_backup
or_backup-none s later (some i, c) e = e
or_backup-none s later (none, c) e = refl

-- The two tests of `single` on the way to the smooth choice.
several_peers :
    (now : ℕ) (g : PeerGroup) (c : Ctx)
    → g.single ≡ false
    → pick_from_current_group pick_from_group now g c ≡ pick_smooth now g.peers c
unfolding pick_from_current_group pick_from_group
several_peers now g c n =
    let inner = λ (b : Bool). if b then pick_single g.peers c else pick_smooth now g.peers c in
    λ k. if n k then inner (n k) else inner (n k)

-- Before the backup phase, and outside the single-peer path, a round-robin pick that returns nobody
-- has found every primary peer ineligible: tried, down, quarantined or at max_conns.
pub pick-exhausted :
    (now later : ℕ) (c : Ctx) (j : ℕ)
    → Distinct c.picker.primary.peers
    → c.picker.backup_phase ≡ false
    → c.picker.primary.single ≡ false
    → (pick now later c).0 ≡ none
    → Has j c.picker.primary.peers
    → is_eligible now c.picker.tried j (c.heap j) ≡ false
unfolding pick pick_with_backup pick_smooth
pick-exhausted now later c j d p n none_left m =
    let g = c.picker.primary in
    let e = is_eligible now c.picker.tried in
    let s = pick_from_current_group pick_from_group now g c in
    let first : pick now later c ≡ or_backup pick_from_group later s =
      ap (λ b. if b then pick_backup pick_from_group later c else or_backup pick_from_group later s)
        p in
    let nobody = or_backup-none pick_from_group later s (sym (ap (λ r. r.0) first) ∙ none_left) in
    let chosen =
      sym (commit_best-choice now c (smooth_weighted_peer e g.peers c.heap))
      ∙ (sym (ap (λ r. r.0) (several_peers now g c n)) ∙ nobody) in
    select-none (λ i. e i (c.heap i)) (boost c.heap) g.peers j
      (sym (smooth_weighted_peer-choice e g.peers c.heap d) ∙ chosen) m
