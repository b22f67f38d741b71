-- ===== src/Upstream/Balancers.antt =====
-- transport.go: newBalancer.
use cslb.Prelude.{
  ℕ, zero, suc, ◌+◌, Bool, true, false, if◌then◌else◌, eqb_ℤ, List, [], ◌∷◌, Option, none, some,
  length, get_elem?,
}
use cslb.Peer.{PeerSpec, Heap}
use cslb.Group.{Groups, init_all, build_groups}
use cslb.Server.{fresh_server}
use cslb.Upstream.{
  AlgorithmType, algo_hash, algo_hash_consistent, algo_ip_hash, algo_least_conn, algo_random,
  algo_random_two,
}

unfoldable pub usable_peers : List PeerSpec → ℕ
usable_peers [] = 0
usable_peers (p ∷ ps) = (if p.down then 0 else 1) + usable_peers ps

-- The type of a Balancer.
pub data Kind : Type 0 where
  round_robin_kind least_conn_kind ip_hash_kind hash_kind hash_consistent_kind : Kind
  -- whether it chooses the better of two.
  random_kind : Bool → Kind

-- A Balancer: its type, the groups that BuildGroups has made, and the memory behind them.
pub record Balancer : Type 0 where
  pub kind : Kind
  pub groups : Groups
  pub heap : Heap

unfoldable pub kind_of : AlgorithmType → Kind
kind_of a =
    if eqb_ℤ a algo_least_conn
    then least_conn_kind
    else if eqb_ℤ a algo_ip_hash
    then ip_hash_kind
    else if eqb_ℤ a algo_hash
    then hash_kind
    else if eqb_ℤ a algo_hash_consistent
    then hash_consistent_kind
    else if eqb_ℤ a algo_random
    then random_kind false
    else if eqb_ℤ a algo_random_two
    then random_kind true
    else round_robin_kind

-- The servers behind the pointers; no pointer is out of range.
abbrev pub spec_at : List PeerSpec → ℕ → PeerSpec
spec_at peers i = elim (get_elem? peers i) [ none ↦ fresh_server [] | some p ↦ p ]

-- The pointers to `n` peers, from `i` on.
unfoldable pub pointers : ℕ → ℕ → List (Option ℕ)
pointers zero i = []
pointers (suc n) i = some i ∷ pointers n (suc i)

-- Every constructor of a Balancer calls BuildGroups.
unfoldable pub new_balancer : AlgorithmType → List PeerSpec → Balancer
unfolding kind_of pointers
new_balancer a peers =
    let h = init_all (spec_at peers) in
    record { kind = kind_of a; groups = build_groups h (pointers (length peers) 0); heap = h }
