-- ===== src/Chash/Safety.antt =====
-- chashPicker: the safety of a pick.
use cslb.Prelude.{
  ℕ, zero, suc, ◌+◌, ◌-◌, ◌==◌, ◌≡◌, refl, sym, ◌∙◌, inl, true, false, ◌||◌, if_intro, List, Option,
  none, some, arith, length, subst,
}
use cslb.Peer.{Peer, Heap}
use cslb.Smooth.{smooth_weighted_peer}
use cslb.Smooth.Select.{select-Has}
use cslb.Smooth.Spec.{boost}
use cslb.Smooth.Refines.{smooth_weighted_peer-choice}
use cslb.RoundRobin.{Ctx, is_full, commit_peer, commit_best}
use cslb.RoundRobin.Effects.{vitals, smooth_weighted_peer-vitals}
use cslb.RoundRobin.Sections.{Usable, commit_best-Outcome}
use cslb.RoundRobin.Backup.{IsSound}
use cslb.RoundRobin.Whole.{pick-Picked}
use cslb.RoundRobin.Safe.{IsSafe, Picked-IsSafe, Outcome-IsSafe, vitals-IsSafe}
use cslb.Hash.{max_hash_tries}
use cslb.Chash.{
  ChashTimes, ChashPicker, fall_back, start, server_at, is_on_server, end_round, try_server,
  ring_loop, pick,
}

abbrev pub core : Option ℕ × ChashPicker → Option ℕ × Ctx
core r = (r.0, r.1.ctx)

fall_back-IsSafe :
    (t : ChashTimes) (p : ChashPicker) → IsSound p.ctx.picker → IsSafe p.ctx (core (fall_back t p))
unfolding fall_back
fall_back-IsSafe t p v = Picked-IsSafe (pick-Picked t.fallback t.later p.ctx v)

-- What the callback of a round lets through.
on_server-ok :
    (t : ChashTimes) (p : ChashPicker) (server : List ℕ) (i : ℕ) (q : Peer)
    → is_on_server t p server i q ≡ true
    → (p.ctx.picker.tried i ≡ false) × (q.down ≡ false) × (is_full q ≡ false)
unfolding is_on_server
on_server-ok t p server i q e = (ground arith, ground arith, ground arith)

end_round-IsSafe :
    (t : ChashTimes) (again : ChashPicker → Option ℕ × ChashPicker) (p : ChashPicker)
    (r : Option ℕ × Heap)
    → ((j : ℕ) → vitals (r.1 j) ≡ vitals (p.ctx.heap j))
    → ((i : ℕ) → r.0 ≡ some i → Usable p.ctx.picker.primary.peers p.ctx i)
    → ((h : Heap)
        → IsSafe
            (record (p.ctx) { heap = h })
            (core (again (record p { ctx = record (p.ctx) { heap = h }; tries = suc p.tries }))))
    → IsSafe p.ctx (core (end_round t again p r))
unfolding end_round commit_best
end_round-IsSafe t again p (none, h) kept fit rec =
    vitals-IsSafe p.ctx h
      (core (again (record p { ctx = record (p.ctx) { heap = h }; tries = suc p.tries }))) kept
      (rec h)
end_round-IsSafe t again p (some i, h) kept fit rec =
    Outcome-IsSafe p.ctx.picker.primary.peers p.ctx
      (some i, commit_peer t.now i (record (p.ctx) { heap = h })) (λ j m. inl m)
      (commit_best-Outcome t.now p.ctx.picker.primary.peers p.ctx (some i, h) kept fit)

try_server-IsSafe :
    (t : ChashTimes) (again : ChashPicker → Option ℕ × ChashPicker) (p : ChashPicker)
    (server : Option (List ℕ))
    → IsSound p.ctx.picker
    → ((h : Heap)
        → IsSafe
            (record (p.ctx) { heap = h })
            (core (again (record p { ctx = record (p.ctx) { heap = h }; tries = suc p.tries }))))
    → IsSafe p.ctx (core (try_server t again p server))
unfolding try_server
try_server-IsSafe t again p none v rec = fall_back-IsSafe t p v
try_server-IsSafe t again p (some server) v rec =
    let e = is_on_server t p server in
    let ids = p.ctx.picker.primary.peers in
    end_round-IsSafe t again p (smooth_weighted_peer e ids p.ctx.heap)
      (smooth_weighted_peer-vitals e ids p.ctx.heap)
      (λ i q.
        let won =
          select-Has (λ j. e j (p.ctx.heap j)) (boost p.ctx.heap) ids
            (sym (smooth_weighted_peer-choice e ids p.ctx.heap v.primary) ∙ q) in
        let ok = on_server-ok t p server i (p.ctx.heap i) won.1 in (won.0, ok.0, ok.1, ok.2))
      rec

ring_loop-IsSafe :
    (n : ℕ) (t : ChashTimes) (p : ChashPicker)
    → IsSound p.ctx.picker
    → IsSafe p.ctx (core (ring_loop n t p))
unfolding ring_loop
ring_loop-IsSafe zero t p v = fall_back-IsSafe t p v
ring_loop-IsSafe (suc n) t p v = try_server-IsSafe t (ring_loop n t) p (server_at p) v (λ h.
    ring_loop-IsSafe n t (record p { ctx = record (p.ctx) { heap = h }; tries = suc p.tries }) v)

start-ctx : (crc32 : List ℕ → ℕ) (p : ChashPicker) → (start crc32 p).ctx ≡ p.ctx
unfolding start
start-ctx crc32 p = if_intro (λ (q : ChashPicker). q.ctx ≡ p.ctx) p.started refl refl

-- Whatever crc32 returns and whatever points the ring has, a pick of chashPicker is safe: a peer that
-- it returns belongs to one of the two groups, is up and below max_conns; one connection is opened
-- there and none elsewhere; no configuration and no group changes;
-- and if it returns a peer, the picker has fewer picks left.
pub chash_pick-IsSafe :
    (crc32 : List ℕ → ℕ) (t : ChashTimes) (p : ChashPicker)
    → IsSound p.ctx.picker
    → IsSafe p.ctx (core (pick crc32 t p))
unfolding pick
chash_pick-IsSafe crc32 t p v =
    let n = max_hash_tries + 1 - p.tries in
    if_intro (λ r. IsSafe p.ctx (core r))
      (p.ctx.picker.primary.single || length p.key == 0 || length p.points == 0)
      (fall_back-IsSafe t p v)
      (subst (λ c. IsSafe c (core (ring_loop n t (start crc32 p)))) (start-ctx crc32 p)
        (ring_loop-IsSafe n t (start crc32 p)
          (subst (λ c. IsSound c.picker) (sym (start-ctx crc32 p)) v)))
