-- ===== src/Tests/Ketama.antt =====
-- Tests and examples for the consistent hash, with the length as a checksum.
use cslb.Prelude.{
  ℕ, ◌+◌, ◌≡◌, refl, false, List, [], ◌∷◌, none, some, length, arith, inl, Has, get_elem?,
}
use cslb.Peer.{init}
use cslb.Group.{Groups, init_all}
use cslb.RoundRobin.{peer_available}
use cslb.RoundRobin.Safe.{IsSafe}
use cslb.Ring.{
  ChashPoint, build_chash_ring, generate_points, find_chash_start, dedupe, sort_points, cut_scheme,
  split_ketama_host_port,
}
use cslb.Ring.Order.{Ascending, build_chash_ring-Ascending}
use cslb.Ring.First.{first_with, first_with-build_chash_ring}
use cslb.Ring.Search.{owner, find_chash_start-owner}
use cslb.Ring.Address.{split_ketama_host_port-append}
use cslb.Chash.{ChashTimes, ChashPicker, new_picker_for_key}
use cslb.Chash
use cslb.Chash.Safety.{core, chash_pick-IsSafe}
use cslb.Chash.Affinity.{chash_pick-owner}
use cslb.Tests.{memory, request, request-IsSound}

abbrev checksum : List ℕ → ℕ
checksum bs = length bs

build_chash_ring-Ascending_example : Ascending (build_chash_ring checksum memory (1 ∷ 2 ∷ []))
build_chash_ring-Ascending_example = build_chash_ring-Ascending checksum memory (1 ∷ 2 ∷ [])

first_with-build_chash_ring_example :
    first_with 6 (build_chash_ring checksum memory (1 ∷ 2 ∷ []))
    ≡ first_with 6 (generate_points checksum memory (1 ∷ 2 ∷ []))
first_with-build_chash_ring_example = first_with-build_chash_ring checksum memory (1 ∷ 2 ∷ []) 6

abbrev points : List ChashPoint
points = record { hash = 3; peer = 1 } ∷ record { hash = 8; peer = 2 } ∷ []

find_chash_start-owner_example : get_elem? points (find_chash_start points 5) ≡ owner 5 points
find_chash_start-owner_example = find_chash_start-owner points 5 (omega arith, tt)

-- h:80
split_ketama_host_port-append_example :
    split_ketama_host_port (104 ∷ 58 ∷ 56 ∷ 48 ∷ []) ≡ (104 ∷ [], 56 ∷ 48 ∷ [])
unfolding cut_scheme
split_ketama_host_port-append_example =
    split_ketama_host_port-append (104 ∷ []) (56 ∷ 48 ∷ []) (refl, (refl, tt)) refl

-- http://h:80/x
url :
    split_ketama_host_port
      (104 ∷ 116 ∷ 116 ∷ 112 ∷ 58 ∷ 47 ∷ 47 ∷ 104 ∷ 58 ∷ 56 ∷ 48 ∷ 47 ∷ 120 ∷ [])
    ≡ (104 ∷ [], 56 ∷ 48 ∷ [])
unfolding split_ketama_host_port
url = refl

abbrev times : ChashTimes
times = record { now = 5; check = λ k i. 6 + k; fallback = 40; later = 41 }

abbrev by_key : ChashPicker
by_key = record {
  ctx = request;
  points = points;
  key = 7 ∷ [];
  started = false;
  cursor = 0;
  tries = 0;
}

chash_pick-IsSafe_example : IsSafe request (core (Chash.pick checksum times by_key))
chash_pick-IsSafe_example = chash_pick-IsSafe checksum times by_key request-IsSound

abbrev pair : Groups
pair = record {
  primary = record { peers = 1 ∷ 2 ∷ []; total_weight = 2; single = false };
  backup = none;
}

abbrev owning : ChashPoint
owning = record { hash = 6; peer = 1 }

chash_pick-owner_example :
    (i : ℕ) × ((Chash.pick checksum times (new_picker_for_key checksum memory pair (7 ∷ []))).0
      ≡ some i)
    × Has i (1 ∷ 2 ∷ [])
    × ((memory i).addr ≡ 1 ∷ [])
unfolding init_all init build_chash_ring owner peer_available dedupe sort_points generate_points
chash_pick-owner_example =
    chash_pick-owner checksum times memory pair (7 ∷ []) owning
      ((λ e. omega (arith, e), tt), (tt, tt)) refl (omega arith) refl (inl refl) refl refl
