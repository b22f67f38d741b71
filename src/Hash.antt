-- ===== src/Hash.antt =====
-- hash.go: hashPicker, which follows nginx's `hash` directive.
-- crc32.ChecksumIEEE and strconv.Itoa are parameters.
pub mod Safety
use cslb.Prelude.{
  ℕ, zero, suc, ◌+◌, ◌-◌, ◌/◌, ◌%◌, ◌^◌, ◌==◌, ltb, leb, Bool, true, false, ◌||◌, if◌then◌else◌,
  List, [], ◌∷◌, ◌++◌, Option, none, some, length,
}
use cslb.Peer.{Heap}
use cslb.Group.{PeerGroup}
use cslb.RoundRobin.{Ctx, RrPicker, new_rr_picker, commit_peer}
use cslb.RoundRobin
use cslb.Slot.{slot, is_usable}

abbrev pub max_hash_tries : ℕ
max_hash_tries = 20

-- What the code calls outside the repository.
pub record HashLib : Type 0 where
  pub crc32 : List ℕ → ℕ
  pub itoa : ℕ → List ℕ

-- The readings of the clock: `now`, one for each candidate that peerAvailable looks at, and the two
-- of the round-robin fallback.
pub record Times : Type 0 where
  pub now : ℕ
  pub check : ℕ → ℕ
  pub fallback : ℕ
  pub later : ℕ

-- The picker, with the memory.
pub record HashPicker : Type 0 where
  pub ctx : Ctx
  pub key : List ℕ
  pub hash_tries : ℕ
  pub rehash : ℕ
  pub hash : ℕ

unfoldable pub new_picker_for_key : PeerGroup → Option PeerGroup → Heap → List ℕ → HashPicker
new_picker_for_key primary backup h key = record {
  ctx = record { picker = new_rr_picker primary backup; heap = h };
  key = key;
  hash_tries = 0;
  rehash = 0;
  hash = 0;
}

-- The embedded round-robin picker makes the choice.
unfoldable pub fall_back : Times → HashPicker → Option ℕ × HashPicker
fall_back t p = let r = RoundRobin.pick t.fallback t.later p.ctx in (r.0, record p { ctx = r.1 })

module _ (lib : HashLib) where
  -- The next value of the cumulative hash, a uint32.
  unfoldable pub advance_hash : HashPicker → HashPicker
  advance_hash p =
      let input = if ltb 0 p.rehash then lib.itoa p.rehash ++ p.key else p.key in
      record p {
        hash = (p.hash + (lib.crc32 input / 2 ^ 16) % 2 ^ 15) % 2 ^ 32;
        rehash = suc p.rehash;
      }

  unfoldable pub try_candidate :
      Times → (HashPicker → Option ℕ × HashPicker) → HashPicker → Option ℕ → Option ℕ × HashPicker
  try_candidate t again p none = fall_back t p
  try_candidate t again p (some i) =
      if is_usable (t.check p.hash_tries) i p.ctx
      then (some i, record p { ctx = commit_peer t.now i p.ctx })
      else again (record p { hash_tries = suc p.hash_tries })

  -- The loop, by the number of rounds that `p.hashTries <= maxHashTries` leaves.
  unfoldable pub hash_loop : ℕ → Times → HashPicker → Option ℕ × HashPicker
  hash_loop zero t p = fall_back t p
  hash_loop (suc n) t p =
      let q = advance_hash p in
      let g = q.ctx.picker.primary in
      try_candidate t (hash_loop n t) q
        (slot q.ctx.heap g.peers (q.hash % (g.total_weight % 2 ^ 32)))

  unfoldable pub pick : Times → HashPicker → Option ℕ × HashPicker
  pick t p =
      let g = p.ctx.picker.primary in
      if length p.key == 0 || ltb (length g.peers) 2
      then fall_back t p
      else hash_loop (max_hash_tries + 1 - p.hash_tries) t p

-- Done is the round-robin picker's.
unfoldable pub done : ℕ → Option ℕ → Bool → HashPicker → HashPicker
done now peer failed p = record p { ctx = RoundRobin.done now peer failed p.ctx }
