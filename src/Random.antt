-- ===== src/Random.antt =====
-- random.go: randomPicker, weighted random selection and the power of two choices.
-- The source of random numbers, intn, is a parameter of each pick: a function from the number of
-- rejected draws and the bound.
pub mod Ranges
pub mod Safety
pub mod Ranged
use cslb.Prelude.{
  ℕ, zero, suc, ◌+◌, ◌-◌, ◌*◌, ◌/◌, ◌==◌, ltb, ltb_ℤ, leb, ◌*ℤ◌, Bool, true, false, not, ◌||◌, ◌&&◌,
  if◌then◌else◌, List, [], ◌∷◌, Option, none, some, length, get_elem?,
}
use cslb.Peer.{Heap}
use cslb.Group.{PeerGroup, Groups}
use cslb.RoundRobin.{Ctx, RrPicker, new_rr_picker, commit_peer, peer_available}
use cslb.RoundRobin
use cslb.Slot.{is_usable}
use cslb.Hash.{Times}

abbrev pub max_random_tries : ℕ
max_random_tries = 20

pub record WeightRange : Type 0 where
  pub peer : ℕ
  pub upper : ℕ

-- The loop of newRandom, from a cumulative weight.
unfoldable pub build_ranges : Heap → List ℕ → ℕ → List WeightRange
build_ranges h [] cumulative = []
build_ranges h (i ∷ is) cumulative =
    let upper = cumulative + (h i).weight in
    record { peer = i; upper = upper } ∷ build_ranges h is upper

-- An index out of range, where the code panics, reads as zero.
unfoldable pub upper_at : List WeightRange → ℕ → ℕ
upper_at ranges k = elim (get_elem? ranges k) [ none ↦ 0 | some r ↦ r.upper ]

-- The binary search of randomSelect on `lo` and `hi`; fuel above `hi - lo` is enough.
unfoldable pub search_ranges : ℕ → List WeightRange → ℕ → ℕ → ℕ → ℕ
search_ranges zero ranges x lo hi = lo
search_ranges (suc fuel) ranges x lo hi =
    let mid = (lo + hi) / 2 in
    let right = search_ranges fuel ranges x (mid + 1) hi in
    let left = search_ranges fuel ranges x lo mid in
    if ltb lo hi then (if leb (upper_at ranges mid) x then right else left) else lo

unfoldable pub peer_at : List WeightRange → ℕ → Option ℕ
peer_at ranges k = elim (get_elem? ranges k) [ none ↦ none | some r ↦ some r.peer ]

-- randomSelect, on the number that intn returned.
unfoldable pub random_select : List WeightRange → ℕ → ℕ → Option ℕ
random_select ranges total_weight x =
    if total_weight == 0
    then none
    else peer_at ranges (search_ranges (length ranges) ranges x 0 (length ranges - 1))

-- The balancer and the picker, with the memory.
pub record RandomPicker : Type 0 where
  pub ctx : Ctx
  pub two : Bool
  pub ranges : List WeightRange
  pub tries : ℕ

unfoldable pub new_picker : Heap → Groups → Bool → RandomPicker
unfolding build_ranges
new_picker h g two = record {
  ctx = record { picker = new_rr_picker g.primary g.backup; heap = h };
  two = two;
  ranges = build_ranges h g.primary.peers 0;
  tries = 0;
}

unfoldable pub fall_back : Times → RandomPicker → Option ℕ × RandomPicker
fall_back t p = let r = RoundRobin.pick t.fallback t.later p.ctx in (r.0, record p { ctx = r.1 })

unfoldable pub commit : Times → ℕ → RandomPicker → Option ℕ × RandomPicker
commit t i p = (some i, record p { ctx = commit_peer t.now i p.ctx })

-- `p.tries++; continue`
abbrev pub rejected : RandomPicker → RandomPicker
rejected p = record p { tries = suc p.tries }

module _ (intn : ℕ → ℕ → ℕ) where
  unfoldable pub draw : RandomPicker → Option ℕ
  draw p =
      let total = p.ctx.picker.primary.total_weight in
      random_select p.ranges total (intn p.tries total)

  unfoldable pub try_one :
      Times
      → (RandomPicker → Option ℕ × RandomPicker)
      → RandomPicker
      → Option ℕ
      → Option ℕ × RandomPicker
  unfolding fall_back commit
  try_one t again p none = fall_back t p
  try_one t again p (some i) =
      if is_usable (t.check p.tries) i p.ctx then commit t i p else again (rejected p)

  -- The loop of pickOne, by the rounds left.
  unfoldable pub one_loop : ℕ → Times → RandomPicker → Option ℕ × RandomPicker
  one_loop zero t p = fall_back t p
  one_loop (suc n) t p = try_one t (one_loop n t) p (draw p)

  -- peer.conns*previous.Weight > previous.conns*peer.Weight
  unfoldable pub less_loaded_of : Heap → ℕ → ℕ → ℕ
  less_loaded_of h i previous =
      if ltb_ℤ ((h previous).conns *ℤ (h i).weight) ((h i).conns *ℤ (h previous).weight)
      then previous
      else i

  abbrev pub is_same : Option ℕ → ℕ → Bool
  is_same none i = false
  is_same (some k) i = i == k

  unfoldable pub second_choice :
      Times
      → (Option ℕ → RandomPicker → Option ℕ × RandomPicker)
      → RandomPicker
      → Option ℕ
      → ℕ
      → Option ℕ × RandomPicker
  unfolding commit less_loaded_of
  second_choice t again p none i = again (some i) (rejected p)
  second_choice t again p (some k) i = commit t (less_loaded_of p.ctx.heap i k) p

  unfoldable pub try_two :
      Times
      → (Option ℕ → RandomPicker → Option ℕ × RandomPicker)
      → RandomPicker
      → Option ℕ
      → Option ℕ
      → Option ℕ × RandomPicker
  unfolding fall_back second_choice
  try_two t again p previous none = fall_back t p
  try_two t again p previous (some i) =
      if is_same previous i || not (is_usable (t.check p.tries) i p.ctx)
      then again previous (rejected p)
      else second_choice t again p previous i

  -- The loop of pickTwo, by the rounds left; `previous` is its local variable.
  unfoldable pub two_loop : ℕ → Times → Option ℕ → RandomPicker → Option ℕ × RandomPicker
  two_loop zero t previous p = fall_back t p
  two_loop (suc n) t previous p = try_two t (two_loop n t) p previous (draw p)

  unfoldable pub pick : Times → RandomPicker → Option ℕ × RandomPicker
  pick t p =
      if ltb (length p.ctx.picker.primary.peers) 2
      then fall_back t p
      else (let rounds = max_random_tries + 1 - p.tries in
          if p.two then two_loop rounds t none p else one_loop rounds t p)

unfoldable pub done : ℕ → Option ℕ → Bool → RandomPicker → RandomPicker
done now peer failed p = record p { ctx = RoundRobin.done now peer failed p.ctx }
