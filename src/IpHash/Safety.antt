-- ===== src/IpHash/Safety.antt =====
-- ipHashPicker: the range of the hash, and the safety of a pick.
use cslb.Prelude.{
  ℕ, zero, suc, ◌*◌, sym, ap, ◌∙◌, subst, ◌+◌, ◌-◌, ◌%◌, ◌^◌, ◌<◌, ◌==◌, ◌≡◌, refl, ◌⊎◌, inl, inr,
  Bool, true, false, ltb, if◌then◌else◌, if_intro, List, [], ◌∷◌, Option, none, some, arith, Has,
  Bool-cases, length,
}
use cslb.Group.{PeerGroup}
use cslb.RoundRobin.{Ctx, RrPicker}
use cslb.RoundRobin.Untried.{backup_peers, backup_of}
use cslb.RoundRobin.Backup.{IsSound}
use cslb.RoundRobin.Whole.{pick-Picked}
use cslb.RoundRobin.Safe.{IsSafe, Picked-IsSafe, commit-IsSafe}
use cslb.Slot.{slot, is_usable}
use cslb.Slot.Laws.{slot-Has, is_usable-Usable}
use cslb.Hash.{Times}
use cslb.IpHash.{
  NetLib, IpHashPicker, fall_back, current_group, hashed_bytes, fold_addr, try_candidate, hash_loop,
  address, pick_address, pick, max_ip_hash_tries,
}

abbrev pub core : Option ℕ × IpHashPicker → Option ℕ × Ctx
core r = (r.0, r.1.ctx)

-- The hash of nginx, over numbers that do not wrap.
unfoldable pub nginx_hash : List ℕ → ℕ → ℕ
nginx_hash [] hash = hash
nginx_hash (b ∷ bs) hash = nginx_hash bs ((hash * 113 + b) % 6271)

abbrev pub AreBytes : List ℕ → Type 0
AreBytes [] = Unit {0}
AreBytes (b ∷ bs) = (b < 256) × AreBytes bs

-- Folding the bytes of an address into a hash below 6271 never wraps the uint32, so it is nginx's
-- hash, and it stays below 6271.
pub fold_addr-nginx_hash :
    (bs : List ℕ) (hash : ℕ)
    → AreBytes bs
    → hash < 6271
    → (fold_addr bs hash ≡ nginx_hash bs hash) × (fold_addr bs hash < 6271)
unfolding fold_addr nginx_hash
fold_addr-nginx_hash [] hash a h = (refl, h)
fold_addr-nginx_hash (b ∷ bs) hash a h =
    let one : (hash * 113 + b) % 2 ^ 32 % 6271 ≡ (hash * 113 + b) % 6271 = omega arith in
    let rest = fold_addr-nginx_hash bs ((hash * 113 + b) % 6271) a.1 (omega arith) in
    (ap (fold_addr bs) one ∙ rest.0, subst (λ n. n < 6271) (sym (ap (fold_addr bs) one)) rest.1)

fall_back-IsSafe :
    (t : Times) (p : IpHashPicker) → IsSound p.ctx.picker → IsSafe p.ctx (core (fall_back t p))
unfolding fall_back
fall_back-IsSafe t p v = Picked-IsSafe (pick-Picked t.fallback t.later p.ctx v)

current_group-Has :
    (rr : RrPicker) (i : ℕ)
    → Has i (current_group rr).peers
    → Has i rr.primary.peers ⊎ Has i (backup_peers rr)
unfolding current_group
current_group-Has rr i = either rr.backup rr.backup_phase
  where
    either :
        (b : Option PeerGroup) (phase : Bool)
        → Has i (if phase then (elim b [ none ↦ rr.primary | some g ↦ g ]) else rr.primary).peers
        → Has i rr.primary.peers ⊎ Has i (backup_of b)
    either none true m = inl m
    either (some g) true m = inr m
    either b false m = inl m

try_candidate-IsSafe :
    (t : Times) (again : IpHashPicker → Option ℕ × IpHashPicker) (p : IpHashPicker) (hash : ℕ)
    (o : Option ℕ)
    → IsSound p.ctx.picker
    → ((i : ℕ) → o ≡ some i → Has i (current_group p.ctx.picker).peers)
    → IsSafe p.ctx (core (again (record p { tries = suc p.tries })))
    → IsSafe p.ctx (core (try_candidate t again p hash o))
unfolding try_candidate
try_candidate-IsSafe t again p hash none v m rec = fall_back-IsSafe t p v
try_candidate-IsSafe t again p hash (some i) v m rec =
    let ids = (current_group p.ctx.picker).peers in
    elim (Bool-cases (is_usable (t.check p.tries) i p.ctx)) [
      | inl y ↦
          rw (y, try_candidate)
            (commit-IsSafe t.now i ids p.ctx (current_group-Has p.ctx.picker)
              (is_usable-Usable (t.check p.tries) i ids p.ctx (m i refl) y))
      | inr n ↦ rw (n, try_candidate) rec
    ]

hash_loop-IsSafe :
    (n : ℕ) (t : Times) (addr : List ℕ) (hash : ℕ) (p : IpHashPicker)
    → IsSound p.ctx.picker
    → IsSafe p.ctx (core (hash_loop n t addr hash p))
unfolding hash_loop
hash_loop-IsSafe zero t addr hash p v = fall_back-IsSafe t p v
hash_loop-IsSafe (suc n) t addr hash p v =
    let folded = fold_addr addr hash in
    let g = current_group p.ctx.picker in
    let w = folded % (g.total_weight % 2 ^ 32) in
    try_candidate-IsSafe t (hash_loop n t addr folded) p folded (slot p.ctx.heap g.peers w) v
      (λ i e. slot-Has p.ctx.heap g.peers w e)
      (hash_loop-IsSafe n t addr folded (record p { tries = suc p.tries }) v)

pick_address-IsSafe :
    (t : Times) (p : IpHashPicker) (o : Option (List ℕ))
    → IsSound p.ctx.picker
    → IsSafe p.ctx (core (pick_address t p o))
unfolding pick_address
pick_address-IsSafe t p none v = fall_back-IsSafe t p v
pick_address-IsSafe t p (some a) v =
    hash_loop-IsSafe (max_ip_hash_tries + 1 - p.tries) t (hashed_bytes a) p.hash p v

-- Whatever the client address, in the primary phase and in the backup phase, a pick of
-- ipHashPicker is safe: a peer that it returns belongs to one of the two groups, is up and below
-- max_conns; one connection is opened there and none elsewhere; no configuration and no group
-- changes;
-- and if it returns a peer, the picker has fewer picks left.
pub ip_hash_pick-IsSafe :
    (lib : NetLib) (t : Times) (p : IpHashPicker)
    → IsSound p.ctx.picker
    → IsSafe p.ctx (core (pick lib t p))
unfolding pick
ip_hash_pick-IsSafe lib t p v =
    let safe = λ (r : Option ℕ × IpHashPicker). IsSafe p.ctx (core r) in
    if_intro safe (ltb (length (current_group p.ctx.picker).peers) 2) (fall_back-IsSafe t p v) (
      if_intro safe (length p.client_ip == 0) (fall_back-IsSafe t p v)
        (pick_address-IsSafe t p (address lib p.client_ip) v))
