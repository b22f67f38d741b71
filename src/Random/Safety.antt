-- ===== src/Random/Safety.antt =====
-- randomPicker: the safety of a pick, in both modes.
use cslb.Prelude.{
  ℕ, zero, suc, ◌+◌, ◌-◌, ◌<◌, ◌≡◌, refl, sym, ◌∙◌, inl, inr, Bool, true, false, not, ltb, ltb_ℤ,
  ◌*ℤ◌, ◌||◌, if_intro, if_cases, Option, none, some, arith, Has, Bool-cases, length,
}
use cslb.RoundRobin.{Ctx}
use cslb.RoundRobin.Sections.{Usable}
use cslb.RoundRobin.Backup.{IsSound}
use cslb.RoundRobin.Whole.{pick-Picked}
use cslb.RoundRobin.Safe.{IsSafe, Picked-IsSafe, commit-IsSafe}
use cslb.Slot.{is_usable}
use cslb.Slot.Laws.{slot-Has, is_usable-Usable}
use cslb.Smooth.Fair.{total_weight}
use cslb.Hash.{Times}
use cslb.Random.{
  random_select, RandomPicker, build_ranges, fall_back, commit, rejected, draw, try_one, one_loop,
  is_same, second_choice, try_two, two_loop, pick, max_random_tries,
}
use cslb.Random.Ranges.{random_select-slot}

abbrev pub core : Option ℕ × RandomPicker → Option ℕ × Ctx
core r = (r.0, r.1.ctx)

-- The ranges are those of the primary group, whose weights TotalWeight sums.
pub record IsRanged (p : RandomPicker) : Type 0 where
  pub sound : IsSound p.ctx.picker
  pub ranges : p.ranges ≡ build_ranges p.ctx.heap p.ctx.picker.primary.peers 0
  pub total : p.ctx.picker.primary.total_weight ≡ total_weight p.ctx.picker.primary.peers p.ctx.heap
  pub positive : 0 < p.ctx.picker.primary.total_weight

fall_back-IsSafe :
    (t : Times) (p : RandomPicker) → IsSound p.ctx.picker → IsSafe p.ctx (core (fall_back t p))
unfolding fall_back
fall_back-IsSafe t p v = Picked-IsSafe (pick-Picked t.fallback t.later p.ctx v)

commit-Usable :
    (t : Times) (i : ℕ) (p : RandomPicker)
    → Usable p.ctx.picker.primary.peers p.ctx i
    → IsSafe p.ctx (core (commit t i p))
unfolding commit
commit-Usable t i p u = commit-IsSafe t.now i p.ctx.picker.primary.peers p.ctx (λ j m. inl m) u

skipped : (a b : Bool) → b ≡ false → (a || not b) ≡ true
skipped a b e = ground arith

-- intn gives a number below its bound.
module _ (intn : ℕ → ℕ → ℕ) (below : (k n : ℕ) → 0 < n → intn k n < n) where
  draw-Has :
      (p : RandomPicker) (i : ℕ)
      → IsRanged p
      → draw intn p ≡ some i
      → Has i p.ctx.picker.primary.peers
  unfolding draw
  draw-Has p i v e =
      let g = p.ctx.picker.primary in
      let x = intn p.tries g.total_weight in
      let l : x < total_weight g.peers p.ctx.heap =
        omega (arith, v.total, below p.tries g.total_weight v.positive) in
      slot-Has p.ctx.heap g.peers x (
        sym (random_select-slot p.ctx.heap g.peers x l)
        ∙ (sym (λ k. random_select (v.ranges k) (v.total k) x) ∙ e))

  rejected-IsRanged : (p : RandomPicker) → IsRanged p → IsRanged (rejected p)
  rejected-IsRanged p v = record {
    sound = v.sound;
    ranges = v.ranges;
    total = v.total;
    positive = v.positive;
  }

  try_one-IsSafe :
      (t : Times) (again : RandomPicker → Option ℕ × RandomPicker) (p : RandomPicker) (o : Option ℕ)
      → IsSound p.ctx.picker
      → ((i : ℕ) → o ≡ some i → Has i p.ctx.picker.primary.peers)
      → IsSafe p.ctx (core (again (rejected p)))
      → IsSafe p.ctx (core (try_one intn t again p o))
  unfolding try_one
  try_one-IsSafe t again p none v m rec = fall_back-IsSafe t p v
  try_one-IsSafe t again p (some i) v m rec =
      elim (Bool-cases (is_usable (t.check p.tries) i p.ctx)) [
        | inl y ↦
            rw (y, try_one)
              (commit-Usable t i p (
                is_usable-Usable (t.check p.tries) i p.ctx.picker.primary.peers p.ctx (m i refl) y))
        | inr n ↦ rw (n, try_one) rec
      ]

  one_loop-IsSafe :
      (n : ℕ) (t : Times) (p : RandomPicker)
      → IsRanged p
      → IsSafe p.ctx (core (one_loop intn n t p))
  unfolding one_loop
  one_loop-IsSafe zero t p v = fall_back-IsSafe t p v.sound
  one_loop-IsSafe (suc n) t p v =
      try_one-IsSafe t (one_loop intn n t) p (draw intn p) v.sound (λ i e. draw-Has p i v e)
        (one_loop-IsSafe n t (rejected p) (rejected-IsRanged p v))

  -- A remembered peer passed the checks when it was drawn, and the lock has been held since.
  abbrev Kept : Option ℕ → RandomPicker → Type 0
  Kept previous p = (k : ℕ) → previous ≡ some k → Usable p.ctx.picker.primary.peers p.ctx k

  second_choice-IsSafe :
      (t : Times) (again : Option ℕ → RandomPicker → Option ℕ × RandomPicker) (p : RandomPicker)
      (previous : Option ℕ) (i : ℕ)
      → Kept previous p
      → Usable p.ctx.picker.primary.peers p.ctx i
      → IsSafe p.ctx (core (again (some i) (rejected p)))
      → IsSafe p.ctx (core (second_choice intn t again p previous i))
  unfolding second_choice
  second_choice-IsSafe t again p none i q u rec = rec
  second_choice-IsSafe t again p (some k) i q u rec =
      let h = p.ctx.heap in
      if_intro (λ j. IsSafe p.ctx (core (commit t j p)))
        (ltb_ℤ ((h k).conns *ℤ (h i).weight) ((h i).conns *ℤ (h k).weight))
        (commit-Usable t k p (q k refl)) (commit-Usable t i p u)

  try_two-IsSafe :
      (t : Times) (again : Option ℕ → RandomPicker → Option ℕ × RandomPicker) (p : RandomPicker)
      (previous o : Option ℕ)
      → IsSound p.ctx.picker
      → Kept previous p
      → ((i : ℕ) → o ≡ some i → Has i p.ctx.picker.primary.peers)
      → ((next : Option ℕ) → Kept next p → IsSafe p.ctx (core (again next (rejected p))))
      → IsSafe p.ctx (core (try_two intn t again p previous o))
  unfolding try_two
  try_two-IsSafe t again p previous none v q m rec = fall_back-IsSafe t p v
  try_two-IsSafe t again p previous (some i) v q m rec =
      let ids = p.ctx.picker.primary.peers in
      elim (Bool-cases (is_usable (t.check p.tries) i p.ctx)) [
        | inl y ↦
            let u = is_usable-Usable (t.check p.tries) i ids p.ctx (m i refl) y in
            if_intro (λ r. IsSafe p.ctx (core r))
              (is_same intn previous i || not (is_usable (t.check p.tries) i p.ctx))
              (rec previous q)
              (second_choice-IsSafe t again p previous i q u
                (rec (some i) (λ k e. let same : i ≡ k = cc in rw (← same) u)))
        | inr n ↦ rw (skipped (is_same intn previous i) _ n, try_two) (rec previous q)
      ]

  two_loop-IsSafe :
      (n : ℕ) (t : Times) (previous : Option ℕ) (p : RandomPicker)
      → IsRanged p
      → Kept previous p
      → IsSafe p.ctx (core (two_loop intn n t previous p))
  unfolding two_loop
  two_loop-IsSafe zero t previous p v q = fall_back-IsSafe t p v.sound
  two_loop-IsSafe (suc n) t previous p v q =
      try_two-IsSafe t (two_loop intn n t) p previous (draw intn p) v.sound q
        (λ i e. draw-Has p i v e)
        (λ next k. two_loop-IsSafe n t next (rejected p) (rejected-IsRanged p v) k)

  -- A pick of a small group falls back, and needs no ranges.
  pub small_or_ranged-IsSafe :
      (t : Times) (p : RandomPicker)
      → IsSound p.ctx.picker
      → (ltb (length p.ctx.picker.primary.peers) 2 ≡ false → IsRanged p)
      → IsSafe p.ctx (core (pick intn t p))
  unfolding pick
  small_or_ranged-IsSafe t p v r =
      let safe = λ (r : Option ℕ × RandomPicker). IsSafe p.ctx (core r) in
      let rounds = max_random_tries + 1 - p.tries in
      if_cases safe (ltb (length p.ctx.picker.primary.peers) 2) (λ y. fall_back-IsSafe t p v)
        (λ n.
          if_intro safe p.two (two_loop-IsSafe rounds t none p (r n) (λ k e. cc))
            (one_loop-IsSafe rounds t p (r n)))

  -- With the ranges that newRandom builds, and whatever numbers below its bound intn returns, a pick
  -- of randomPicker, plain or with two choices, is safe: a peer that it returns belongs to one of the
  -- two groups, is up and below max_conns; one connection is opened there and none elsewhere; no
  -- configuration and no group changes;
  -- and if it returns a peer, the picker has fewer picks left.
  pub random_pick-IsSafe :
      (t : Times) (p : RandomPicker) → IsRanged p → IsSafe p.ctx (core (pick intn t p))
  random_pick-IsSafe t p v = small_or_ranged-IsSafe t p v.sound (λ n. v)
