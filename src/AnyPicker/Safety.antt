-- ===== src/AnyPicker/Safety.antt =====
-- A pick of any of the transport's pickers.
use cslb.Prelude.{ℕ, ◌<◌, ◌≡◌, refl, subst, false, ltb, length, Option}
use cslb.RoundRobin.{Ctx}
use cslb.RoundRobin.Backup.{IsSound}
use cslb.RoundRobin.Safe.{IsSafe, Picked-IsSafe}
use cslb.RoundRobin.Whole.{pick-Picked}
use cslb.LeastConn.Choice.{pick-Picked as least_pick-Picked}
use cslb.Hash.Safety.{hash_pick-IsSafe}
use cslb.IpHash.Safety.{ip_hash_pick-IsSafe}
use cslb.Random.Safety.{IsRanged, small_or_ranged-IsSafe}
use cslb.Random.{RandomPicker}
use cslb.Random.Ranged.{Keeps, Keeps-IsSound, Keeps-IsRanged, random_pick-ranges}
use cslb.Chash.Safety.{chash_pick-IsSafe}
use cslb.AnyPicker.{
  AnyPicker, plain, least, by_ip, by_key, on_ring, at_random, PickLib, times, ring_times, pick,
  ctx_of, with_ctx,
}

-- The groups name each peer once, and the random picker has the ranges of a group that is not small.
abbrev pub IsReady : AnyPicker → Type 0
IsReady (plain c) = IsSound c.picker
IsReady (least c) = IsSound c.picker
IsReady (by_ip p) = IsSound p.ctx.picker
IsReady (by_key p) = IsSound p.ctx.picker
IsReady (on_ring p) = IsSound p.ctx.picker
IsReady (at_random p n) =
    IsSound p.ctx.picker × (ltb (length p.ctx.picker.primary.peers) 2 ≡ false → IsRanged p)

abbrev pub core : Option ℕ × AnyPicker → Option ℕ × Ctx
core r = (r.0, ctx_of r.1)

pub IsSafe-Keeps : {c : Ctx} {r : Option ℕ × Ctx} → IsSafe c r → Keeps c r.1
IsSafe-Keeps s = record {
  same_primary = s.same_primary;
  same_backup = s.same_backup;
  frame = s.frame;
}

small_or_IsRanged :
    (p q : RandomPicker)
    → Keeps p.ctx q.ctx
    → q.ranges ≡ p.ranges
    → IsSound p.ctx.picker × (ltb (length p.ctx.picker.primary.peers) 2 ≡ false → IsRanged p)
    → IsSound q.ctx.picker × (ltb (length q.ctx.picker.primary.peers) 2 ≡ false → IsRanged q)
small_or_IsRanged p q k r v = (
  Keeps-IsSound p.ctx q.ctx k v.0,
  λ n. Keeps-IsRanged p q k r (v.1 (subst (λ g. ltb (length g.peers) 2 ≡ false) k.same_primary n)),
)

-- A change of the picker and the memory that all have.
pub with_ctx-IsReady :
    (f : Ctx → Ctx) (p : AnyPicker)
    → Keeps (ctx_of p) (f (ctx_of p))
    → IsReady p
    → IsReady (with_ctx f p)
with_ctx-IsReady f (plain c) k v = Keeps-IsSound c (f c) k v
with_ctx-IsReady f (least c) k v = Keeps-IsSound c (f c) k v
with_ctx-IsReady f (by_ip p) k v = Keeps-IsSound p.ctx (f p.ctx) k v
with_ctx-IsReady f (by_key p) k v = Keeps-IsSound p.ctx (f p.ctx) k v
with_ctx-IsReady f (on_ring p) k v = Keeps-IsSound p.ctx (f p.ctx) k v
with_ctx-IsReady f (at_random p n) k v = small_or_IsRanged p (record p { ctx = f p.ctx }) k refl v

pub ctx_of-with_ctx : (f : Ctx → Ctx) (p : AnyPicker) → ctx_of (with_ctx f p) ≡ f (ctx_of p)
ctx_of-with_ctx f (plain c) = refl
ctx_of-with_ctx f (least c) = refl
ctx_of-with_ctx f (by_ip p) = refl
ctx_of-with_ctx f (by_key p) = refl
ctx_of-with_ctx f (on_ring p) = refl
ctx_of-with_ctx f (at_random p n) = refl

-- rand.Intn gives a number below its bound.
module _ (lib : PickLib) (below : (n k m : ℕ) → 0 < m → lib.intn n k m < m) where
  -- A pick of any picker of the transport is safe, whatever crc32, Itoa, net.IP and rand.Intn return.
  pub any_pick-IsSafe :
      (clock : ℕ → ℕ) (p : AnyPicker) → IsReady p → IsSafe (ctx_of p) (core (pick lib clock p))
  unfolding pick
  any_pick-IsSafe clock (plain c) v = Picked-IsSafe (pick-Picked (clock 0) (clock 1) c v)
  any_pick-IsSafe clock (least c) v = Picked-IsSafe (least_pick-Picked (clock 0) (clock 1) c v)
  any_pick-IsSafe clock (by_ip p) v = ip_hash_pick-IsSafe lib.net (times clock) p v
  any_pick-IsSafe clock (by_key p) v = hash_pick-IsSafe lib.hashing (times clock) p v
  any_pick-IsSafe clock (on_ring p) v = chash_pick-IsSafe lib.hashing.crc32 (ring_times clock) p v
  any_pick-IsSafe clock (at_random p n) v =
      small_or_ranged-IsSafe (lib.intn n) (below n) (times clock) p v.0 v.1

  pub any_pick-IsReady : (clock : ℕ → ℕ) (p : AnyPicker) → IsReady p → IsReady (pick lib clock p).1
  unfolding pick
  any_pick-IsReady clock p v = by_kind p v (IsSafe-Keeps (any_pick-IsSafe clock p v))
    where
      by_kind :
          (q : AnyPicker)
          → IsReady q
          → Keeps (ctx_of q) (ctx_of (pick lib clock q).1)
          → IsReady (pick lib clock q).1
      by_kind (plain c) u k = Keeps-IsSound c _ k u
      by_kind (least c) u k = Keeps-IsSound c _ k u
      by_kind (by_ip q) u k = Keeps-IsSound q.ctx _ k u
      by_kind (by_key q) u k = Keeps-IsSound q.ctx _ k u
      by_kind (on_ring q) u k = Keeps-IsSound q.ctx _ k u
      by_kind (at_random q n) u k =
          small_or_IsRanged q _ k (random_pick-ranges (lib.intn n) q.ranges (times clock) q refl) u
