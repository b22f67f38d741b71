-- ===== src/Hash/Safety.antt =====
-- hashPicker: the bounds of the hash, and the safety of a pick.
use cslb.Prelude.{
  ℕ, zero, suc, ◌+◌, ◌-◌, ◌%◌, ◌^◌, ◌<◌, ◌==◌, ◌≡◌, refl, inl, inr, ltb, ◌||◌, if_intro, Option,
  none, some, arith, Has, Bool-cases, length,
}
use cslb.RoundRobin.{Ctx}
use cslb.RoundRobin.Backup.{IsSound}
use cslb.RoundRobin.Whole.{pick-Picked}
use cslb.RoundRobin.Safe.{IsSafe, Picked-IsSafe, commit-IsSafe}
use cslb.Slot.{slot, is_usable}
use cslb.Slot.Laws.{slot-Has, is_usable-Usable}
use cslb.Hash.{
  HashLib, Times, HashPicker, fall_back, advance_hash, try_candidate, hash_loop, pick,
  max_hash_tries,
}

-- A result of this picker, without the fields that only it has.
abbrev pub core : Option ℕ × HashPicker → Option ℕ × Ctx
core r = (r.0, r.1.ctx)

fall_back-IsSafe :
    (t : Times) (p : HashPicker) → IsSound p.ctx.picker → IsSafe p.ctx (core (fall_back t p))
unfolding fall_back
fall_back-IsSafe t p v = Picked-IsSafe (pick-Picked t.fallback t.later p.ctx v)

module _ (lib : HashLib) where
  -- The hash stays a uint32.
  pub advance_hash-lt : (p : HashPicker) → (advance_hash lib p).hash < 2 ^ 32
  unfolding advance_hash
  advance_hash-lt p = omega arith

  try_candidate-IsSafe :
      (t : Times) (again : HashPicker → Option ℕ × HashPicker) (p : HashPicker) (o : Option ℕ)
      → IsSound p.ctx.picker
      → ((i : ℕ) → o ≡ some i → Has i p.ctx.picker.primary.peers)
      → IsSafe p.ctx (core (again (record p { hash_tries = suc p.hash_tries })))
      → IsSafe p.ctx (core (try_candidate lib t again p o))
  unfolding try_candidate
  try_candidate-IsSafe t again p none v m rec = fall_back-IsSafe t p v
  try_candidate-IsSafe t again p (some i) v m rec =
      elim (Bool-cases (is_usable (t.check p.hash_tries) i p.ctx)) [
        | inl y ↦
            rw (y, try_candidate)
              (commit-IsSafe t.now i p.ctx.picker.primary.peers p.ctx (λ j h. inl h)
                (is_usable-Usable (t.check p.hash_tries) i p.ctx.picker.primary.peers p.ctx
                  (m i refl) y))
        | inr n ↦ rw (n, try_candidate) rec
      ]

  hash_loop-IsSafe :
      (n : ℕ) (t : Times) (p : HashPicker)
      → IsSound p.ctx.picker
      → IsSafe p.ctx (core (hash_loop lib n t p))
  unfolding hash_loop advance_hash
  hash_loop-IsSafe zero t p v = fall_back-IsSafe t p v
  hash_loop-IsSafe (suc n) t p v =
      let q = advance_hash lib p in
      let g = p.ctx.picker.primary in
      let w = q.hash % (g.total_weight % 2 ^ 32) in
      try_candidate-IsSafe t (hash_loop lib n t) q (slot p.ctx.heap g.peers w) v
        (λ i e. slot-Has p.ctx.heap g.peers w e)
        (hash_loop-IsSafe n t (record q { hash_tries = suc q.hash_tries }) v)

  -- Whatever crc32 and Itoa return, a pick of hashPicker is safe: a peer that it returns belongs to
  -- one of the two groups, is up and below max_conns; one connection is opened there and none
  -- elsewhere; no configuration and no group changes;
  -- and if it returns a peer, the picker has fewer picks left.
  pub hash_pick-IsSafe :
      (t : Times) (p : HashPicker) → IsSound p.ctx.picker → IsSafe p.ctx (core (pick lib t p))
  unfolding pick
  hash_pick-IsSafe t p v =
      let g = p.ctx.picker.primary in
      if_intro (λ r. IsSafe p.ctx (core r)) (length p.key == 0 || ltb (length g.peers) 2)
        (fall_back-IsSafe t p v) (hash_loop-IsSafe (max_hash_tries + 1 - p.hash_tries) t p v)
