-- ===== src/AnyPicker.antt =====
-- The pickers behind the interface Picker of balancer.go, as the transport uses them: newPicker makes
-- one of six, and RoundTrip calls its Pick, its Done or the doneNeutral that RRPicker gives to each.
pub mod Safety
pub mod Shared
use cslb.Prelude.{
  ℕ, suc, ◌+◌, ◌*◌, Bool, true, false, List, [], Option, none, some, ◌&&◌, if◌then◌else◌, eqb_ℤ,
}
use cslb.RoundRobin.{Ctx, new_rr_picker, done_neutral}
use cslb.RoundRobin
use cslb.LeastConn
use cslb.Hash.{HashLib, HashPicker, Times}
use cslb.Hash
use cslb.IpHash.{NetLib, IpHashPicker}
use cslb.IpHash
use cslb.Random.{RandomPicker}
use cslb.Random
use cslb.Chash.{ChashPicker, ChashTimes}
use cslb.Chash
use cslb.Http.{Request, is_some}
use cslb.Trip.{NeutralPicker}
use cslb.ClientIp.{AddressLib, Origin, client_ip}
use cslb.Upstream.{AlgorithmType, algo_ip_hash, algo_hash, algo_hash_consistent, HashFunc}
use cslb.Upstream.Balancers.{
  Kind, round_robin_kind, least_conn_kind, ip_hash_kind, hash_kind, hash_consistent_kind,
  random_kind, Balancer,
}

-- A picker with the memory; the random one with the number of its picks, which tells apart the
-- random numbers that they draw.
pub data AnyPicker : Type 0 where
  plain : Ctx → AnyPicker
  least : Ctx → AnyPicker
  by_ip : IpHashPicker → AnyPicker
  by_key : HashPicker → AnyPicker
  on_ring : ChashPicker → AnyPicker
  at_random : RandomPicker → ℕ → AnyPicker

-- What is outside: crc32 and Itoa, net.IP, and rand.Intn by the pick and the try that it is called in.
pub record PickLib : Type 0 where
  pub hashing : HashLib
  pub net : NetLib
  pub intn : ℕ → ℕ → ℕ → ℕ

-- The readings of the clock in one pick, no two of them the same reading.
abbrev pub times : (ℕ → ℕ) → Times
times clock = record {
  now = clock 0;
  fallback = clock 1;
  later = clock 2;
  check = λ k. clock (3 + k);
}

abbrev pub ring_times : (ℕ → ℕ) → ChashTimes
ring_times clock = record {
  now = clock 0;
  fallback = clock 1;
  later = clock 2;
  check = λ k i. clock (3 + ((k + i) * (k + i) + i));
}

module _ (lib : PickLib) where
  -- Pick.
  unfoldable pub pick : (ℕ → ℕ) → AnyPicker → Option ℕ × AnyPicker
  pick clock (plain c) = let r = RoundRobin.pick (clock 0) (clock 1) c in (r.0, plain r.1)
  pick clock (least c) = let r = LeastConn.pick (clock 0) (clock 1) c in (r.0, least r.1)
  pick clock (by_ip p) = let r = IpHash.pick lib.net (times clock) p in (r.0, by_ip r.1)
  pick clock (by_key p) = let r = Hash.pick lib.hashing (times clock) p in (r.0, by_key r.1)
  pick clock (on_ring p) =
      let r = Chash.pick lib.hashing.crc32 (ring_times clock) p in (r.0, on_ring r.1)
  pick clock (at_random p n) =
      let r = Random.pick (lib.intn n) (times clock) p in (r.0, at_random r.1 (suc n))

-- Done.
unfoldable pub done : (ℕ → ℕ) → Option ℕ → Bool → AnyPicker → AnyPicker
done clock peer failed (plain c) = plain (RoundRobin.done (clock 0) peer failed c)
done clock peer failed (least c) = least (RoundRobin.done (clock 0) peer failed c)
done clock peer failed (by_ip p) = by_ip (IpHash.done (clock 0) peer failed p)
done clock peer failed (by_key p) = by_key (Hash.done (clock 0) peer failed p)
done clock peer failed (on_ring p) = on_ring (Chash.done (clock 0) peer failed p)
done clock peer failed (at_random p n) = at_random (Random.done (clock 0) peer failed p) n

-- The picker and the memory that all of them have.
abbrev pub ctx_of : AnyPicker → Ctx
ctx_of (plain c) = c
ctx_of (least c) = c
ctx_of (by_ip p) = p.ctx
ctx_of (by_key p) = p.ctx
ctx_of (on_ring p) = p.ctx
ctx_of (at_random p n) = p.ctx

abbrev pub with_ctx : (Ctx → Ctx) → AnyPicker → AnyPicker
with_ctx f (plain c) = plain (f c)
with_ctx f (least c) = least (f c)
with_ctx f (by_ip p) = by_ip (record p { ctx = f p.ctx })
with_ctx f (by_key p) = by_key (record p { ctx = f p.ctx })
with_ctx f (on_ring p) = on_ring (record p { ctx = f p.ctx })
with_ctx f (at_random p n) = at_random (record p { ctx = f p.ctx }) n

-- The doneNeutral of RRPicker, which the others embed.
unfoldable pub neutrally_done : (ℕ → ℕ) → Option ℕ → AnyPicker → AnyPicker
neutrally_done clock peer = with_ctx (done_neutral (clock 0) peer)

abbrev pub any_picker : PickLib → NeutralPicker AnyPicker
any_picker lib = record {
  base = record { pick = pick lib; done = done; addr = λ p i. ((ctx_of p).heap i).addr };
  neutral = some neutrally_done;
}

-- The type assertions of newPicker.
abbrev pub is_ip_hash : Kind → Bool
is_ip_hash ip_hash_kind = true
is_ip_hash k = false

abbrev pub is_hash : Kind → Bool
is_hash hash_kind = true
is_hash k = false

abbrev pub is_ring : Kind → Bool
is_ring hash_consistent_kind = true
is_ring k = false

module _ (crc32 : List ℕ → ℕ) (b : Balancer) where
  -- NewPicker of a balancer, by its type.
  unfoldable pub new_plain_picker : AnyPicker
  new_plain_picker =
      let c : Ctx = record {
        picker = new_rr_picker b.groups.primary b.groups.backup;
        heap = b.heap;
      } in
      elim b.kind [
        | round_robin_kind ↦ plain c
        | least_conn_kind ↦ least c
        | ip_hash_kind ↦ by_ip (IpHash.new_picker b.groups.primary b.groups.backup b.heap)
        | hash_kind ↦ by_key (Hash.new_picker_for_key b.groups.primary b.groups.backup b.heap [])
        | hash_consistent_kind ↦ on_ring (Chash.new_picker_for_key crc32 b.heap b.groups [])
        | random_kind two ↦ at_random (Random.new_picker b.heap b.groups two) 0
      ]

  -- The two cases of newPicker with a key function, and what they fall through to.
  unfoldable pub keyed_picker : AlgorithmType → Request → Option HashFunc → AnyPicker
  unfolding new_plain_picker
  keyed_picker algo req none = new_plain_picker
  keyed_picker algo req (some f) =
      if eqb_ℤ algo algo_hash && is_hash b.kind
      then by_key (Hash.new_picker_for_key b.groups.primary b.groups.backup b.heap (f req))
      else if eqb_ℤ algo algo_hash_consistent && is_ring b.kind
      then on_ring (Chash.new_picker_for_key crc32 b.heap b.groups (f req))
      else new_plain_picker

  -- newPicker, with the address that clientIP has found.
  unfoldable pub picker_for : AlgorithmType → Option HashFunc → Request → List ℕ → AnyPicker
  unfolding keyed_picker
  picker_for algo key req ip =
      if eqb_ℤ algo algo_ip_hash && is_ip_hash b.kind
      then by_ip (IpHash.new_picker_for_ip b.groups.primary b.groups.backup b.heap ip)
      else keyed_picker algo req key

-- newPicker, which gives no picker for an upstream without a balancer; a nil address is empty.
unfoldable pub new_picker :
    (List ℕ → ℕ)
    → AddressLib
    → Option Balancer
    → AlgorithmType
    → Option HashFunc
    → Request
    → Origin
    → Option AnyPicker
unfolding picker_for client_ip
new_picker crc32 lib balancer algo key req from = elim balancer [
  | none ↦ none
  | some b ↦
      let ip : List ℕ = elim (client_ip lib from) [ none ↦ [] | some a ↦ a ] in
      some (picker_for crc32 b algo key req ip)
]
