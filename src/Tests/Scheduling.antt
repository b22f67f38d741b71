-- ===== src/Tests/Scheduling.antt =====
-- Tests and examples for BuildGroups, smoothWeightedPeer and the least-connections choice.
use cslb.Prelude.{◌≡◌, refl, pos, ◌+ℤ◌, ◌-ℤ◌, [], ◌∷◌, some, inl, inr}
use cslb.Peer.{init}
use cslb.Group.{Groups, init_all, build_groups}
use cslb.Group.Parts.{build_groups-fair, build_groups-groups_of, chosen, groups_of}
use cslb.Smooth.{smooth_weighted_peer}
use cslb.Smooth.Spec.{select, sum, eligible_total}
use cslb.Smooth.Refines.{round_peer, smooth_weighted_peer-choice, smooth_weighted_peer-heap}
use cslb.Smooth.Conserve.{weight_of, sum_weights}
use cslb.Smooth.Cycle.{everyone, rounds, wins}
use cslb.LeastConn
use cslb.LeastConn.Choice.{LeastLoaded, pick_from_group-LeastLoaded}
use cslb.Tests.{
  servers, memory, listed, primaries, primary, request, primaries-Distinct, memory-weight,
}

abbrev built : Groups
built = build_groups memory listed

-- nginx's sequence for the weights 5, 1 and 1.
schedule :
    (rounds 7 primaries memory).0
    ≡ some 0 ∷ some 0 ∷ some 1 ∷ some 0 ∷ some 2 ∷ some 0 ∷ some 0 ∷ []
unfolding rounds smooth_weighted_peer init_all init ◌+ℤ◌ ◌-ℤ◌
schedule = refl

build_groups-fair_example :
    (wins (rounds built.primary.total_weight built.primary.peers memory).0 0 ≡ 5)
    × (weight_of (rounds built.primary.total_weight built.primary.peers memory).1 0 ≡ pos 0)
unfolding build_groups init_all init
build_groups-fair_example = build_groups-fair servers listed 0 primaries-Distinct (inl refl)

build_groups-groups_of_example :
    build_groups memory listed ≡ groups_of memory (0 ∷ 1 ∷ 2 ∷ []) (3 ∷ 4 ∷ [])
unfolding init_all init chosen
build_groups-groups_of_example = build_groups-groups_of memory listed

smooth_weighted_peer-choice_example : (smooth_weighted_peer everyone primaries memory).0 ≡ some 0
unfolding select init_all init ◌+ℤ◌
smooth_weighted_peer-choice_example =
    smooth_weighted_peer-choice everyone primaries memory primaries-Distinct

smooth_weighted_peer-heap_example :
    (smooth_weighted_peer everyone primaries memory).1 1
    ≡ round_peer everyone memory
        (eligible_total everyone memory primaries)
        (smooth_weighted_peer everyone primaries memory).0
        1
smooth_weighted_peer-heap_example =
    smooth_weighted_peer-heap everyone primaries memory 1 primaries-Distinct (inr (inl refl))

sum_weights_example :
    sum (weight_of (smooth_weighted_peer everyone primaries memory).1) primaries
    ≡ sum (weight_of memory) primaries
sum_weights_example = sum_weights everyone primaries memory primaries-Distinct

pick_from_group-LeastLoaded_example :
    LeastLoaded 0 primaries request (LeastConn.pick_from_group 0 primary request).0
pick_from_group-LeastLoaded_example =
    pick_from_group-LeastLoaded 0 primary request primaries-Distinct memory-weight
