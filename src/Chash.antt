-- ===== src/Chash.antt =====
-- chash.go: chashPicker, which walks the ring from the key's point.
-- crc32.ChecksumIEEE is a parameter.
pub mod Safety
pub mod Affinity
use cslb.Prelude.{
  ℕ, zero, suc, ◌+◌, ◌-◌, ◌%◌, ◌==◌, Bool, true, false, not, ◌&&◌, ◌||◌, if◌then◌else◌, List, [],
  ◌∷◌, Option, none, some, length, get_elem?,
}
use cslb.Peer.{Peer, Heap}
use cslb.Group.{PeerGroup, Groups}
use cslb.Smooth.{smooth_weighted_peer}
use cslb.RoundRobin.{Ctx, new_rr_picker, commit_best, commit_peer, peer_available}
use cslb.RoundRobin
use cslb.Hash.{max_hash_tries}
use cslb.Ring.{ChashPoint, build_chash_ring, find_chash_start}

-- The readings of the clock: peerAvailable reads it for each peer that a round looks at.
pub record ChashTimes : Type 0 where
  pub now : ℕ
  pub check : ℕ → ℕ → ℕ
  pub fallback : ℕ
  pub later : ℕ

-- The picker, with the memory and the ring of its balancer.
pub record ChashPicker : Type 0 where
  pub ctx : Ctx
  pub points : List ChashPoint
  pub key : List ℕ
  pub started : Bool
  pub cursor : ℕ
  pub tries : ℕ

-- NewHashConsistent and NewPickerForKey.
unfoldable pub new_picker_for_key : (List ℕ → ℕ) → Heap → Groups → List ℕ → ChashPicker
new_picker_for_key crc32 h g key = record {
  ctx = record { picker = new_rr_picker g.primary g.backup; heap = h };
  points = build_chash_ring crc32 h g.primary.peers;
  key = key;
  started = false;
  cursor = 0;
  tries = 0;
}

-- Equality of strings.
unfoldable pub same_addr : List ℕ → List ℕ → Bool
same_addr [] [] = true
same_addr [] (b ∷ bs) = false
same_addr (a ∷ more) [] = false
same_addr (a ∷ more) (b ∷ bs) = a == b && same_addr more bs

unfoldable pub fall_back : ChashTimes → ChashPicker → Option ℕ × ChashPicker
fall_back t p = let r = RoundRobin.pick t.fallback t.later p.ctx in (r.0, record p { ctx = r.1 })

unfoldable pub start : (List ℕ → ℕ) → ChashPicker → ChashPicker
start crc32 p =
    if p.started
    then p
    else record p { cursor = find_chash_start p.points (crc32 p.key); started = true }

-- The server of this round's point.
unfoldable pub server_at : ChashPicker → Option (List ℕ)
server_at p = elim (get_elem? p.points ((p.cursor + p.tries) % length p.points)) [
  | none ↦ none
  | some point ↦ some (p.ctx.heap point.peer).addr
]

-- The callback of the round.
unfoldable pub is_on_server : ChashTimes → ChashPicker → List ℕ → ℕ → Peer → Bool
unfolding same_addr peer_available
is_on_server t p server i q =
    same_addr q.addr server
    && not q.down
    && not (p.ctx.picker.tried i)
    && peer_available (t.check p.tries i) q

unfoldable pub end_round :
    ChashTimes
    → (ChashPicker → Option ℕ × ChashPicker)
    → ChashPicker
    → Option ℕ × Heap
    → Option ℕ × ChashPicker
end_round t again p (none, h) =
    again (record p { ctx = record (p.ctx) { heap = h }; tries = suc p.tries })
end_round t again p (some i, h) =
    (some i, record p { ctx = commit_peer t.now i (record (p.ctx) { heap = h }) })

-- There is a server for every point; without one the code would panic.
unfoldable pub try_server :
    ChashTimes
    → (ChashPicker → Option ℕ × ChashPicker)
    → ChashPicker
    → Option (List ℕ)
    → Option ℕ × ChashPicker
unfolding end_round
try_server t again p none = fall_back t p
try_server t again p (some server) =
    end_round t again p
      (smooth_weighted_peer (is_on_server t p server) p.ctx.picker.primary.peers p.ctx.heap)

-- The loop, by the rounds left.
unfoldable pub ring_loop : ℕ → ChashTimes → ChashPicker → Option ℕ × ChashPicker
unfolding try_server
ring_loop zero t p = fall_back t p
ring_loop (suc n) t p = try_server t (ring_loop n t) p (server_at p)

unfoldable pub pick : (List ℕ → ℕ) → ChashTimes → ChashPicker → Option ℕ × ChashPicker
unfolding start
pick crc32 t p =
    if p.ctx.picker.primary.single || length p.key == 0 || length p.points == 0
    then fall_back t p
    else ring_loop (max_hash_tries + 1 - p.tries) t (start crc32 p)

unfoldable pub done : ℕ → Option ℕ → Bool → ChashPicker → ChashPicker
done now peer failed p = record p { ctx = RoundRobin.done now peer failed p.ctx }
