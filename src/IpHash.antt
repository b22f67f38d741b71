-- ===== src/IpHash.antt =====
-- iphash.go: ipHashPicker, which follows nginx's `ip_hash` directive.
-- net.IP's To4 and To16 are parameters.
pub mod Safety
use cslb.Prelude.{
  ℕ, zero, suc, ◌+◌, ◌-◌, ◌*◌, ◌%◌, ◌^◌, ◌==◌, ltb, leb, Bool, true, false, ◌||◌, if◌then◌else◌,
  List, [], ◌∷◌, Option, none, some, length,
}
use cslb.Peer.{Heap}
use cslb.Group.{PeerGroup}
use cslb.RoundRobin.{Ctx, RrPicker, new_rr_picker, commit_peer}
use cslb.RoundRobin
use cslb.Slot.{slot, is_usable}
use cslb.Hash.{Times}

abbrev pub max_ip_hash_tries : ℕ
max_ip_hash_tries = 20

-- The bytes of an address in its IPv4 and its 16-byte form, or none for nil.
pub record NetLib : Type 0 where
  pub to_4 : List ℕ → Option (List ℕ)
  pub to_16 : List ℕ → Option (List ℕ)

-- The picker, with the memory.
pub record IpHashPicker : Type 0 where
  pub ctx : Ctx
  pub client_ip : List ℕ
  pub hash : ℕ
  pub tries : ℕ

unfoldable pub new_picker_for_ip : PeerGroup → Option PeerGroup → Heap → List ℕ → IpHashPicker
new_picker_for_ip primary backup h ip = record {
  ctx = record { picker = new_rr_picker primary backup; heap = h };
  client_ip = ip;
  hash = 89;
  tries = 0;
}

-- NewPicker, with no client IP.
unfoldable pub new_picker : PeerGroup → Option PeerGroup → Heap → IpHashPicker
unfolding new_picker_for_ip
new_picker primary backup h = new_picker_for_ip primary backup h []

unfoldable pub fall_back : Times → IpHashPicker → Option ℕ × IpHashPicker
fall_back t p = let r = RoundRobin.pick t.fallback t.later p.ctx in (r.0, record p { ctx = r.1 })

-- The backup group once the picker has entered it.
unfoldable pub current_group : RrPicker → PeerGroup
current_group rr =
    if rr.backup_phase then elim rr.backup [ none ↦ rr.primary | some g ↦ g ] else rr.primary

-- The first bytes. Where there are fewer the code panics; an address has four or sixteen.
unfoldable pub first_bytes : ℕ → List ℕ → List ℕ
first_bytes zero addr = []
first_bytes (suc n) [] = []
first_bytes (suc n) (b ∷ bs) = b ∷ first_bytes n bs

-- The bytes up to addrLen.
unfoldable pub hashed_bytes : List ℕ → List ℕ
unfolding first_bytes
hashed_bytes addr = if ltb 4 (length addr) then addr else first_bytes 3 addr

-- hash = (hash*113 + uint32(addr[i])) % 6271, in uint32.
unfoldable pub fold_addr : List ℕ → ℕ → ℕ
fold_addr [] hash = hash
fold_addr (b ∷ bs) hash = fold_addr bs ((hash * 113 + b) % 2 ^ 32 % 6271)

-- A hit stores the local hash in the picker.
unfoldable pub try_candidate :
    Times
    → (IpHashPicker → Option ℕ × IpHashPicker)
    → IpHashPicker
    → ℕ
    → Option ℕ
    → Option ℕ × IpHashPicker
try_candidate t again p hash none = fall_back t p
try_candidate t again p hash (some i) =
    if is_usable (t.check p.tries) i p.ctx
    then (some i, record p { ctx = commit_peer t.now i p.ctx; hash = hash })
    else again (record p { tries = suc p.tries })

-- The loop, by the rounds left, over the address bytes and the local hash.
unfoldable pub hash_loop : ℕ → Times → List ℕ → ℕ → IpHashPicker → Option ℕ × IpHashPicker
hash_loop zero t addr hash p = fall_back t p
hash_loop (suc n) t addr hash p =
    let folded = fold_addr addr hash in
    let g = current_group p.ctx.picker in
    try_candidate t (hash_loop n t addr folded) p folded
      (slot p.ctx.heap g.peers (folded % (g.total_weight % 2 ^ 32)))

unfoldable pub address : NetLib → List ℕ → Option (List ℕ)
address lib ip = elim (lib.to_4 ip) [ some a ↦ some a | none ↦ lib.to_16 ip ]

unfoldable pub pick_address : Times → IpHashPicker → Option (List ℕ) → Option ℕ × IpHashPicker
pick_address t p none = fall_back t p
pick_address t p (some a) = hash_loop (max_ip_hash_tries + 1 - p.tries) t (hashed_bytes a) p.hash p

unfoldable pub pick : NetLib → Times → IpHashPicker → Option ℕ × IpHashPicker
unfolding address pick_address
pick lib t p =
    if ltb (length (current_group p.ctx.picker).peers) 2
    then fall_back t p
    else if length p.client_ip == 0
    then fall_back t p
    else pick_address t p (address lib p.client_ip)

unfoldable pub done : ℕ → Option ℕ → Bool → IpHashPicker → IpHashPicker
done now peer failed p = record p { ctx = RoundRobin.done now peer failed p.ctx }
