-- ===== src/Transport/Whole.antt =====
-- RoundTrip over a registered upstream, from newPicker to the end of the loop.
use cslb.Prelude.{
  ℕ, suc, ◌<◌, ltb, ◌≡◌, refl, sym, ap, ◌∙◌, subst, Bool, true, false, if_intro, ◌&&◌, eqb_ℤ, ℤ,
  List, [], ◌∷◌, Option, none, some, length, get_elem?, arith, ◌⊎◌, Has,
}
use cslb.Peer.{Heap}
use cslb.Group.{Groups}
use cslb.Smooth.Spec.{sum_ℕ}
use cslb.Smooth.Fair.{total_weight}
use cslb.RoundRobin.{Ctx, new_rr_picker}
use cslb.RoundRobin.Untried.{backup_of, budget}
use cslb.RoundRobin.Backup.{IsSound}
use cslb.Hash
use cslb.IpHash
use cslb.Random
use cslb.Chash
use cslb.Http.{Request, RoundTripper, is_some}
use cslb.Upstream.{AlgorithmType, algo_ip_hash, algo_hash, algo_hash_consistent, HashFunc}
use cslb.Upstream.Balancers.{
  Kind, round_robin_kind, least_conn_kind, ip_hash_kind, hash_kind, hash_consistent_kind,
  random_kind, Balancer, new_balancer,
}
use cslb.AnyPicker.{
  AnyPicker, plain, least, PickLib, pick, ctx_of, new_plain_picker, picker_for, keyed_picker,
  new_picker, is_ip_hash, is_hash, is_ring,
}
use cslb.AnyPicker.Safety.{IsReady, any_pick-IsSafe}
use cslb.AnyPicker.Shared.{Shared, shared_picker, own_conns, IsApart, shared_picker-IsAccountable}
use cslb.ClientIp.{AddressLib, Origin, client_ip}
use cslb.Trip.{Outside, start_trip, trip_loop}
use cslb.Trip.Rule.{Finishes}
use cslb.Trip.Total.{trip_loop-connections}
use cslb.Transport.{Transport, Upstream}
use cslb.Transport.Way.{route}
use cslb.Transport.Listed.{IsRegistered}
use cslb.Transport.Usable.{get_elem?-is_some, IsBuilt, new_balancer-IsBuilt}

-- A group of at least two peers has a positive total weight.
positive_total :
    (h : Heap) (ids : List ℕ)
    → ((j : ℕ) → 0 < (h j).weight)
    → ltb (length ids) 2 ≡ false
    → 0 < total_weight ids h
unfolding sum_ℕ
positive_total h [] v e = ground arith
positive_total h (i ∷ is) v e = omega (arith, v i)

module _ (crc32 : List ℕ → ℕ) (b : Balancer) (n : ℕ) (v : IsBuilt n b) where
  sound : IsSound (new_rr_picker b.groups.primary b.groups.backup)
  unfolding new_rr_picker
  sound = record { primary = v.primary; backup = v.backup }

  random-IsReady :
      (two : Bool) → IsReady (AnyPicker.at_random (Random.new_picker b.heap b.groups two) 0)
  unfolding Random.new_picker new_rr_picker
  random-IsReady two = (
    sound,
    λ e. record {
      sound = sound;
      ranges = refl;
      total = v.total;
      positive =
          subst (λ t. 0 < t) (sym v.total)
            (positive_total b.heap b.groups.primary.peers v.positive e);
    },
  )

  new_plain_picker-IsReady : IsReady (new_plain_picker crc32 b)
  unfolding new_plain_picker IpHash.new_picker Hash.new_picker_for_key Chash.new_picker_for_key
  new_plain_picker-IsReady = by_kind b.kind
    where
      c : Ctx
      c = record { picker = new_rr_picker b.groups.primary b.groups.backup; heap = b.heap }

      by_kind :
          (k : Kind)
          → IsReady (elim k [
            | round_robin_kind ↦ plain c
            | least_conn_kind ↦ least c
            | ip_hash_kind ↦
                AnyPicker.by_ip (IpHash.new_picker b.groups.primary b.groups.backup b.heap)
            | hash_kind ↦
                AnyPicker.by_key
                  (Hash.new_picker_for_key b.groups.primary b.groups.backup b.heap [])
            | hash_consistent_kind ↦
                AnyPicker.on_ring (Chash.new_picker_for_key crc32 b.heap b.groups [])
            | random_kind two ↦ AnyPicker.at_random (Random.new_picker b.heap b.groups two) 0
          ])
      by_kind round_robin_kind = sound
      by_kind least_conn_kind = sound
      by_kind ip_hash_kind = sound
      by_kind hash_kind = sound
      by_kind hash_consistent_kind = sound
      by_kind (random_kind two) = random-IsReady two

  keyed_picker-IsReady :
      (a : AlgorithmType) (req : Request) (key : Option HashFunc)
      → IsReady (keyed_picker crc32 b a req key)
  unfolding keyed_picker Hash.new_picker_for_key Chash.new_picker_for_key
  keyed_picker-IsReady a req none = new_plain_picker-IsReady
  keyed_picker-IsReady a req (some f) =
      if_intro IsReady (eqb_ℤ a algo_hash && is_hash b.kind) sound (
        if_intro IsReady (eqb_ℤ a algo_hash_consistent && is_ring b.kind) sound
          new_plain_picker-IsReady)

  pub picker_for-IsReady :
      (a : AlgorithmType) (key : Option HashFunc) (req : Request) (ip : List ℕ)
      → IsReady (picker_for crc32 b a key req ip)
  unfolding picker_for IpHash.new_picker_for_ip
  picker_for-IsReady a key req ip =
      if_intro IsReady (eqb_ℤ a algo_ip_hash && is_ip_hash b.kind) sound
        (keyed_picker-IsReady a req key)

-- newPicker, for an upstream.
abbrev pub picker_of : (List ℕ → ℕ) → AddressLib → Upstream → Request → Origin → Option AnyPicker
picker_of crc32 lib u = new_picker crc32 lib u.balancer u.algo u.hash_func

-- For a registered upstream, newPicker gives a picker that is ready.
pub picker_of-IsReady :
    (crc32 : List ℕ → ℕ) (lib : AddressLib) (u : Upstream) (req : Request) (from : Origin)
    → IsRegistered u
    → (p : AnyPicker) × (picker_of crc32 lib u req from ≡ some p) × IsReady p
unfolding new_picker
picker_of-IsReady crc32 lib u req from v =
    let b = new_balancer u.algo v.peers in
    let built = new_balancer-IsBuilt u.algo v.peers in
    let ip : List ℕ = elim (client_ip lib from) [ none ↦ [] | some a ↦ a ] in
    let p = picker_for crc32 b u.algo u.hash_func req ip in
    (
      p,
      ap (λ x. new_picker crc32 lib x u.algo u.hash_func req from) v.built,
      picker_for-IsReady crc32 b (length v.peers) built u.algo u.hash_func req ip,
    )

-- A request to a registered upstream, whatever its algorithm: newPicker gives a picker, and the loop
-- of RoundTrip over it ends, within one round more than the budget of that picker, and leaves every peer
-- with as many connections as before, those of other requests apart. Intn returns numbers below its
-- bound; the other requests change only the memory, no configuration in it, and no connections but
-- their own.
pub registered-connections :
    (lib : PickLib) (addresses : AddressLib) (t : Transport) (rt : RoundTripper) (u : Upstream)
    (req : Request) (from : Origin) (has_get_body : Bool) (o : Outside Shared) (others : ℕ → ℤ)
    → ((n k m : ℕ) → 0 < m → lib.intn n k m < m)
    → IsApart o
    → IsRegistered u
    → (p : AnyPicker) × (picker_of lib.hashing.crc32 addresses u req from ≡ some p)
      × (let start : Shared = record { picker = p; others = others } in
          Finishes
            (shared_picker lib)
            (route t rt u req has_get_body)
            o
            (λ e. (j : ℕ) → own_conns e.picker j ≡ own_conns start j)
            (trip_loop
              (shared_picker lib)
              (route t rt u req has_get_body)
              o
              (suc (budget (ctx_of p).picker))
              0
              (start_trip start)))
unfolding shared_picker-IsAccountable
registered-connections lib addresses t rt u req from has_get_body o others below apart v =
    let (p, q, ready) = picker_of-IsReady lib.hashing.crc32 addresses u req from v in
    (
      p,
      q,
      trip_loop-connections (shared_picker lib) (route t rt u req has_get_body) o
          (shared_picker-IsAccountable lib below o apart) (record { picker = p; others = others })
          ready,
    )

-- A peer that a picker returns over the groups of a registered upstream, in this or a later round, has
-- an address there; Intn returns numbers below its bound.
pub picked_peer-is_some :
    (lib : PickLib) (clock : ℕ → ℕ) (u : Upstream) (b : Balancer) (p : AnyPicker) (i : ℕ)
    → ((n k m : ℕ) → 0 < m → lib.intn n k m < m)
    → IsRegistered u
    → u.balancer ≡ some b
    → IsReady p
    → (ctx_of p).picker.primary ≡ b.groups.primary
    → (ctx_of p).picker.backup ≡ b.groups.backup
    → (pick lib clock p).0 ≡ some i
    → is_some (get_elem? u.backends i) ≡ true
picked_peer-is_some lib clock u b p i below v e ready primary backup q =
    let member = (any_pick-IsSafe lib below clock p ready).member i q in
    let d = new_balancer u.algo v.peers in
    let same : d ≡ b = ap (λ x. elim x [ none ↦ d | some y ↦ y ]) (sym v.built ∙ e) in
    let built = new_balancer-IsBuilt u.algo v.peers in
    let there : Has i d.groups.primary.peers ⊎ Has i (backup_of d.groups.backup) =
      subst (λ (g : Groups). Has i g.primary.peers ⊎ Has i (backup_of g.backup))
        (sym (ap (λ (x : Balancer). x.groups) same))
        (subst (λ g. Has i g.peers ⊎ Has i (backup_of b.groups.backup)) primary
          (subst (λ g. Has i (ctx_of p).picker.primary.peers ⊎ Has i (backup_of g)) backup
            member)) in
    get_elem?-is_some u.backends i (subst (λ n. i < n) (sym v.addressed) (built.within i there))
