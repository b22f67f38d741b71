-- ===== src/Random/Ranged.antt =====
-- randomPicker keeps the ranges that newRandom has built, and they stay those of its groups.
use cslb.Prelude.{
  ℕ, zero, suc, ◌+◌, ◌<◌, ◌≡◌, refl, sym, ◌∙◌, ap, subst, not, ltb, ◌||◌, ◌-◌, if_intro, Option,
  none, some, List, [], ◌∷◌, length, Distinct,
}
use cslb.Peer.{Heap}
use cslb.Smooth.Spec.{sum_ℕ}
use cslb.Smooth.Fair.{total_weight}
use cslb.RoundRobin.{Ctx}
use cslb.RoundRobin.Contract.{static}
use cslb.RoundRobin.Untried.{backup_of}
use cslb.RoundRobin.Backup.{IsSound}
use cslb.Slot.{is_usable}
use cslb.Hash.{Times}
use cslb.Random.{
  RandomPicker, WeightRange, build_ranges, fall_back, commit, rejected, draw, try_one, one_loop,
  is_same, second_choice, try_two, two_loop, pick, max_random_tries,
}
use cslb.Random.Safety.{IsRanged}

-- The groups and the configuration of the peers are as they were.
pub record Keeps (c d : Ctx) : Type 0 where
  pub same_primary : d.picker.primary ≡ c.picker.primary
  pub same_backup : d.picker.backup ≡ c.picker.backup
  pub frame : (j : ℕ) → static (d.heap j) ≡ static (c.heap j)

pub Keeps-IsSound : (c d : Ctx) → Keeps c d → IsSound c.picker → IsSound d.picker
Keeps-IsSound c d k v = record {
  primary = subst (λ g. Distinct g.peers) (sym k.same_primary) v.primary;
  backup = subst (λ b. Distinct (backup_of b)) (sym k.same_backup) v.backup;
}

module _ (h g : Heap) (frame : (j : ℕ) → static (g j) ≡ static (h j)) where
  same_weight : (j : ℕ) → (g j).weight ≡ (h j).weight
  same_weight j = ap (λ p. p.weight) (frame j)

  build_ranges-agree : (ids : List ℕ) (n : ℕ) → build_ranges g ids n ≡ build_ranges h ids n
  unfolding build_ranges
  build_ranges-agree [] n = refl
  build_ranges-agree (i ∷ is) n = rw (same_weight i, build_ranges-agree is (n + (h i).weight)) refl

  total_weight-agree : (ids : List ℕ) → total_weight ids g ≡ total_weight ids h
  unfolding sum_ℕ
  total_weight-agree [] = refl
  total_weight-agree (i ∷ is) = rw (same_weight i, total_weight-agree is) refl

pub Keeps-IsRanged :
    (p q : RandomPicker) → Keeps p.ctx q.ctx → q.ranges ≡ p.ranges → IsRanged p → IsRanged q
Keeps-IsRanged p q k r v =
    let ids = p.ctx.picker.primary.peers in
    record {
      sound = Keeps-IsSound p.ctx q.ctx k v.sound;
      ranges =
          r
          ∙ (v.ranges
              ∙ (sym (build_ranges-agree p.ctx.heap q.ctx.heap k.frame ids 0)
                  ∙ ap (λ g. build_ranges q.ctx.heap g.peers 0) (sym k.same_primary)));
      total =
          ap (λ g. g.total_weight) k.same_primary
          ∙ (v.total
              ∙ (sym (total_weight-agree p.ctx.heap q.ctx.heap k.frame ids)
                  ∙ ap (λ g. total_weight g.peers q.ctx.heap) (sym k.same_primary)));
      positive = subst (λ g. 0 < g.total_weight) (sym k.same_primary) v.positive;
    }

-- Whatever the random numbers.
module _ (intn : ℕ → ℕ → ℕ) (ranges : List WeightRange) where
  abbrev Ranged : Option ℕ × RandomPicker → Type 0
  Ranged r = r.1.ranges ≡ ranges

  fall_back-Ranged : (t : Times) (p : RandomPicker) → p.ranges ≡ ranges → Ranged (fall_back t p)
  unfolding fall_back
  fall_back-Ranged t p v = v

  try_one-Ranged :
      (t : Times) (again : RandomPicker → Option ℕ × RandomPicker) (p : RandomPicker) (o : Option ℕ)
      → p.ranges ≡ ranges
      → Ranged (again (rejected p))
      → Ranged (try_one intn t again p o)
  unfolding try_one commit
  try_one-Ranged t again p none v r = fall_back-Ranged t p v
  try_one-Ranged t again p (some i) v r = if_intro Ranged (is_usable (t.check p.tries) i p.ctx) v r

  one_loop-Ranged :
      (n : ℕ) (t : Times) (p : RandomPicker) → p.ranges ≡ ranges → Ranged (one_loop intn n t p)
  unfolding one_loop
  one_loop-Ranged zero t p v = fall_back-Ranged t p v
  one_loop-Ranged (suc n) t p v =
      try_one-Ranged t (one_loop intn n t) p (draw intn p) v (one_loop-Ranged n t (rejected p) v)

  second_choice-Ranged :
      (t : Times) (again : Option ℕ → RandomPicker → Option ℕ × RandomPicker) (p : RandomPicker)
      (previous : Option ℕ) (i : ℕ)
      → p.ranges ≡ ranges
      → Ranged (again (some i) (rejected p))
      → Ranged (second_choice intn t again p previous i)
  unfolding second_choice commit
  second_choice-Ranged t again p none i v r = r
  second_choice-Ranged t again p (some k) i v r = v

  try_two-Ranged :
      (t : Times) (again : Option ℕ → RandomPicker → Option ℕ × RandomPicker) (p : RandomPicker)
      (previous o : Option ℕ)
      → p.ranges ≡ ranges
      → ((next : Option ℕ) → Ranged (again next (rejected p)))
      → Ranged (try_two intn t again p previous o)
  unfolding try_two
  try_two-Ranged t again p previous none v r = fall_back-Ranged t p v
  try_two-Ranged t again p previous (some i) v r =
      if_intro Ranged (is_same intn previous i || not (is_usable (t.check p.tries) i p.ctx))
        (r previous) (second_choice-Ranged t again p previous i v (r (some i)))

  two_loop-Ranged :
      (n : ℕ) (t : Times) (previous : Option ℕ) (p : RandomPicker)
      → p.ranges ≡ ranges
      → Ranged (two_loop intn n t previous p)
  unfolding two_loop
  two_loop-Ranged zero t previous p v = fall_back-Ranged t p v
  two_loop-Ranged (suc n) t previous p v =
      try_two-Ranged t (two_loop intn n t) p previous (draw intn p) v
        (λ next. two_loop-Ranged n t next (rejected p) v)

  pub random_pick-ranges :
      (t : Times) (p : RandomPicker) → p.ranges ≡ ranges → (pick intn t p).1.ranges ≡ ranges
  unfolding pick
  random_pick-ranges t p v =
      let rounds = max_random_tries + 1 - p.tries in
      if_intro Ranged (ltb (length p.ctx.picker.primary.peers) 2) (fall_back-Ranged t p v)
        (if_intro Ranged p.two (two_loop-Ranged rounds t none p v) (one_loop-Ranged rounds t p v))
