-- ===== src/Chash/Affinity.antt =====
-- chashPicker: a key goes to the server that owns it on the ring.
use native.Mathlib.Nat.{mod-eq_of_lt}
use cslb.Prelude.{
  ℕ, suc, ◌+◌, ◌%◌, ◌<◌, ◌==◌, ◌≡◌, refl, ◌∙◌, ap, Bool, true, false, List, [], ◌∷◌, Option, none,
  some, arith, Has, Distinct, length, get_elem?, ◌-◌, ◌||◌, if◌then◌else◌, ==_refl,
}
use cslb.Peer.{Peer, Heap}
use cslb.Group.{Groups}
use cslb.Smooth.{smooth_weighted_peer}
use cslb.Smooth.Select.{select-Has, select-some}
use cslb.Smooth.Spec.{boost}
use cslb.Smooth.Refines.{smooth_weighted_peer-choice}
use cslb.RoundRobin.{new_rr_picker, peer_available}
use cslb.Ring.{ChashPoint, build_chash_ring, find_chash_start}
use cslb.Ring.Order.{build_chash_ring-Ascending}
use cslb.Ring.Search.{owner, find_chash_start-owner, find_chash_start-lt}
use cslb.Hash.{max_hash_tries}
use cslb.Chash.{
  fall_back, ChashTimes, ChashPicker, new_picker_for_key, same_addr, start, server_at, is_on_server,
  end_round, try_server, ring_loop, pick,
}

same_addr_refl : (a : List ℕ) → same_addr a a ≡ true
unfolding same_addr
same_addr_refl [] = refl
same_addr_refl (c ∷ cs) = rw (==_refl c) (same_addr_refl cs)

same_addr-eq : (a b : List ℕ) → same_addr a b ≡ true → a ≡ b
unfolding same_addr
same_addr-eq [] [] e = refl
same_addr-eq [] (b ∷ bs) e = cc
same_addr-eq (a ∷ more) [] e = cc
same_addr-eq (a ∷ more) (b ∷ bs) e =
    let head : a ≡ b = ground arith in
    let tail : same_addr more bs ≡ true = ground arith in λ k. head k ∷ same_addr-eq more bs tail k

owner-length :
    (key : ℕ) (ps : List ChashPoint) (o : ChashPoint) → owner key ps ≡ some o → 0 < length ps
unfolding owner
owner-length key [] o e = cc
owner-length key (p ∷ ps) o e = omega arith

end_round-some :
    (t : ChashTimes) (again : ChashPicker → Option ℕ × ChashPicker) (p : ChashPicker)
    (r : Option ℕ × Heap) (i : ℕ)
    → r.0 ≡ some i
    → (end_round t again p r).0 ≡ some i
unfolding end_round
end_round-some t again p (none, h) i e = cc
end_round-some t again p (some k, h) i e = e

-- A round whose server has a usable peer returns a peer of that server.
try_server-some :
    (t : ChashTimes) (again : ChashPicker → Option ℕ × ChashPicker) (p : ChashPicker)
    (server : List ℕ) (j : ℕ)
    → Distinct p.ctx.picker.primary.peers
    → Has j p.ctx.picker.primary.peers
    → is_on_server t p server j (p.ctx.heap j) ≡ true
    → (i : ℕ) × ((try_server t again p (some server)).0 ≡ some i)
      × Has i p.ctx.picker.primary.peers
      × ((p.ctx.heap i).addr ≡ server)
unfolding try_server is_on_server
try_server-some t again p server j d m u =
    let e = is_on_server t p server in
    let h = p.ctx.heap in
    let ids = p.ctx.picker.primary.peers in
    let choice = smooth_weighted_peer-choice e ids h d in
    let (i, q) = select-some (λ k. e k (h k)) (boost h) ids j m u in
    let won = select-Has (λ k. e k (h k)) (boost h) ids q in
    (
      i,
      end_round-some t again p (smooth_weighted_peer e ids h) i (choice ∙ q),
      won.0,
      same_addr-eq (h i).addr server (on_server-addr t p server i (h i) won.1),
    )
  where
    on_server-addr :
        (t : ChashTimes) (p : ChashPicker) (server : List ℕ) (i : ℕ) (q : Peer)
        → is_on_server t p server i q ≡ true
        → same_addr q.addr server ≡ true
    on_server-addr t p server i q e = ground arith

server_at-some :
    (p : ChashPicker) (o : ChashPoint)
    → p.cursor < length p.points
    → p.tries ≡ 0
    → get_elem? p.points p.cursor ≡ some o
    → server_at p ≡ some (p.ctx.heap o.peer).addr
unfolding server_at
server_at-some p o l z e =
    let same : (p.cursor + p.tries) % length p.points ≡ p.cursor =
      ap (λ n. n % length p.points) (omega (arith, z)) ∙ mod-eq_of_lt l in
    ap (λ x. elim x [ none ↦ none | some point ↦ some (p.ctx.heap point.peer).addr ])
      (ap (get_elem? p.points) same ∙ e)

-- Without a reason to fall back, a pick runs the loop.
pick-loop :
    (crc32 : List ℕ → ℕ) (t : ChashTimes) (p : ChashPicker)
    → (p.ctx.picker.primary.single || length p.key == 0 || length p.points == 0) ≡ false
    → pick crc32 t p ≡ ring_loop (max_hash_tries + 1 - p.tries) t (start crc32 p)
unfolding pick
pick-loop crc32 t p e =
    ap
      (λ b. if b then fall_back t p else ring_loop (max_hash_tries + 1 - p.tries) t (start crc32 p))
      e

no_reason : (a b c : Bool) → a ≡ false → b ≡ false → c ≡ false → (a || b || c) ≡ false
no_reason a b c e f g = ground arith

ring_loop-server :
    (n : ℕ) (t : ChashTimes) (p : ChashPicker) (server : List ℕ)
    → server_at p ≡ some server
    → ring_loop (suc n) t p ≡ try_server t (ring_loop n t) p (some server)
unfolding ring_loop
ring_loop-server n t p server e = ap (try_server t (ring_loop n t) p) e

-- The first pick for a key: if the group has several peers, each named once, and the peer of the ring
-- point that owns the key is a primary peer that is up and available at the first check, the pick
-- returns a primary peer with the address of that peer.
pub chash_pick-owner :
    (crc32 : List ℕ → ℕ) (t : ChashTimes) (h : Heap) (g : Groups) (key : List ℕ) (o : ChashPoint)
    → Distinct g.primary.peers
    → g.primary.single ≡ false
    → 0 < length key
    → owner (crc32 key) (build_chash_ring crc32 h g.primary.peers) ≡ some o
    → Has o.peer g.primary.peers
    → (h o.peer).down ≡ false
    → peer_available (t.check 0 o.peer) (h o.peer) ≡ true
    → (i : ℕ) × ((pick crc32 t (new_picker_for_key crc32 h g key)).0 ≡ some i)
      × Has i g.primary.peers
      × ((h i).addr ≡ (h o.peer).addr)
unfolding new_picker_for_key start new_rr_picker is_on_server
chash_pick-owner crc32 t h g key o d s k e m up ok =
    let ps = build_chash_ring crc32 h g.primary.peers in
    let asc = build_chash_ring-Ascending crc32 h g.primary.peers in
    let some_points = owner-length (crc32 key) ps o e in
    let first : ChashPicker = record {
      ctx = record { picker = new_rr_picker g.primary g.backup; heap = h };
      points = ps;
      key = key;
      started = true;
      cursor = find_chash_start ps (crc32 key);
      tries = 0;
    } in
    let server =
      server_at-some first o (find_chash_start-lt ps (crc32 key) asc some_points) refl
        (find_chash_start-owner ps (crc32 key) asc ∙ e) in
    let keyed : (length key == 0) ≡ false = ground arith in
    let pointed : (length ps == 0) ≡ false = ground (arith, some_points) in
    let usable : is_on_server t first (h o.peer).addr o.peer (h o.peer) ≡ true =
      rw (same_addr_refl (h o.peer).addr, up, ok) refl in
    let runs : pick crc32 t (new_picker_for_key crc32 h g key)
        ≡ try_server t (ring_loop 20 t) first (some (h o.peer).addr) =
      pick-loop crc32 t (new_picker_for_key crc32 h g key)
        (no_reason g.primary.single (length key == 0) (length ps == 0) s keyed pointed)
      ∙ ring_loop-server 20 t first (h o.peer).addr server in
    let (i, q, inside, same) =
      try_server-some t (ring_loop 20 t) first (h o.peer).addr o.peer d m usable in
    (i, ap (λ r. r.0) runs ∙ q, inside, same)
