-- ===== src/RoundRobin/Whole.antt =====
-- A whole pick, primary group and backup group together.
use mathlib.Core.Path.{fun_ext}
use cslb.Prelude.{
  ℕ, ◌≡◌, refl, sym, ◌∙◌, ap, Bool, false, pos, ◌+ℤ◌, ltb_ℤ, leb_ℤ, ◌&&◌, if◌then◌else◌, List,
  Option, none, some, arith, ◌⊎◌, inl, inr, Has, Distinct, Bool-cases, +ℤ-zero, subst,
}
use cslb.RoundRobin.{
  Ctx, Strategy, is_full, pick_from_group, pick_from_current_group, pick_backup, or_backup,
  pick_with_backup, pick,
}
use cslb.RoundRobin.Contract.{hits, Outcome}
use cslb.RoundRobin.Untried.{budget, budget_of, remaining, left_of, backup_peers, backup_of}
use cslb.RoundRobin.Backup.{
  Lawful, IsSound, Picked, primary-less, Outcome-Picked, pick_backup-Picked, remaining_after,
  budget_after, pick_from_current_group-Outcome, pick_from_group-Lawful,
}

-- A pick from a group that found nobody changes nothing that the contract speaks of.
module _ (ids : List ℕ) (c d : Ctx) (o : Outcome ids c (none, d)) where
  same_remaining : remaining d.picker ≡ remaining c.picker
  unfolding remaining
  same_remaining =
      remaining_after ids c (none, d) o
      ∙ ap (λ t. left_of c.picker.backup_phase t c.picker.primary.peers (backup_peers c.picker))
          (fun_ext o.marked)

  same_budget : budget d.picker ≡ budget c.picker
  unfolding budget
  same_budget =
      budget_after ids c (none, d) o
      ∙ ap (λ t. budget_of c.picker.backup_phase t c.picker.primary.peers (backup_peers c.picker))
          (fun_ext o.marked)

  same_conns : (j : ℕ) → (d.heap j).conns ≡ (c.heap j).conns
  same_conns j = o.opened j ∙ +ℤ-zero (c.heap j).conns

  same_room : (j : ℕ) → is_full (d.heap j) ≡ is_full (c.heap j)
  same_room j =
      λ k. ltb_ℤ (pos 0) (o.frame j k).max_conns && leb_ℤ (o.frame j k).max_conns (same_conns j k)

  after_none : (r : Option ℕ × Ctx) → Picked d r → Picked c r
  after_none r p = record {
    frame = λ j. p.frame j ∙ o.frame j;
    same_primary = p.same_primary ∙ o.same_primary;
    same_backup = p.same_backup ∙ o.same_backup;
    opened = λ j. p.opened j ∙ ap (λ n. n +ℤ pos (if hits r.0 j then 1 else 0)) (same_conns j);
    member = λ i e.
        subst (λ g. Has i g.peers ⊎ Has i (backup_peers c.picker)) o.same_primary
          (subst (λ b. Has i d.picker.primary.peers ⊎ Has i (backup_of b)) o.same_backup
            (p.member i e));
    up = λ i e. sym (ap (λ q. q.down) (o.frame i)) ∙ p.up i e;
    room = λ i e. sym (same_room i) ∙ p.room i e;
    less = λ i e. omega (arith, p.less i e, same_remaining);
    spends = λ i e. omega (arith, p.spends i e, same_budget);
  }

  still-IsSound : IsSound c.picker → IsSound d.picker
  still-IsSound v = record {
    primary = subst (λ g. Distinct g.peers) (sym o.same_primary) v.primary;
    backup = subst (λ b. Distinct (backup_of b)) (sym o.same_backup) v.backup;
  }

module _ (s : Strategy) (l : Lawful s) where
  or_backup-Picked :
      (later : ℕ) (c : Ctx) (r : Option ℕ × Ctx)
      → IsSound c.picker
      → c.picker.backup_phase ≡ false
      → Outcome c.picker.primary.peers c r
      → Picked c (or_backup s later r)
  unfolding or_backup
  or_backup-Picked later c (some i, d) v p o =
      Outcome-Picked c.picker.primary.peers c c (some i, d) refl refl refl (λ j m. inl m)
        (λ j e. primary-less c (some i, d) j p o e) (omega arith) o
  or_backup-Picked later c (none, d) v p o =
      after_none c.picker.primary.peers c d o (pick_backup s later d)
        (pick_backup-Picked s l later d (still-IsSound c.picker.primary.peers c d o v))

  -- A pick with any strategy that keeps the contract, in both phases, over groups that name each
  -- peer once: a peer that it returns belongs to one of the two groups, is up and below max_conns;
  -- one connection is opened there and none elsewhere; no configuration and no group changes; and
  -- the picker has fewer tries left than before.
  pub pick_with_backup-Picked :
      (now later : ℕ) (c : Ctx) → IsSound c.picker → Picked c (pick_with_backup s now later c)
  unfolding pick_with_backup
  pick_with_backup-Picked now later c v = elim (Bool-cases c.picker.backup_phase) [
    | inl y ↦ subst (Picked c) (sym (choose y)) (pick_backup-Picked s l later c v)
    | inr n ↦ subst (Picked c) (sym (choose n)) (
        or_backup-Picked later c (pick_from_current_group s now c.picker.primary c) v n
          (pick_from_current_group-Outcome s l now c.picker.primary c v.primary))
  ]
    where
      choose :
          {b : Bool}
          → c.picker.backup_phase ≡ b
          → pick_with_backup s now later c ≡ (
              if b
              then pick_backup s later c
              else or_backup s later (pick_from_current_group s now c.picker.primary c))
      choose e = λ k.
          if e k
          then pick_backup s later c
          else or_backup s later (pick_from_current_group s now c.picker.primary c)

-- The round-robin picker.
pub pick-Picked : (now later : ℕ) (c : Ctx) → IsSound c.picker → Picked c (pick now later c)
unfolding pick
pick-Picked = pick_with_backup-Picked pick_from_group pick_from_group-Lawful
