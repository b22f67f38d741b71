-- ===== src/Tests/Registration.antt =====
-- Tests and examples for the configuration, and for RoundTrip over what it registers.
use cslb.Prelude.{
  ℕ, ◌≡◌, refl, true, false, pos, ◌+ℤ◌, List, [], ◌∷◌, Option, none, some, length, get_elem?, suc,
  arith,
}
use cslb.Peer.{PeerSpec}
use cslb.Http.{nil_transport_option, described, bad_weight, custom, is_some}
use cslb.Server.{validate, server, fresh_server, weight, backup}
use cslb.Upstream.{new_upstream, least_conn, Parser, supported_algorithm}
use cslb.Upstream.Balancers.{Balancer, new_balancer, usable_peers, pointers}
use cslb.AnyPicker.{AnyPicker, plain, pick, ctx_of}
use cslb.AnyPicker.Shared.{Shared, shared_picker, own_conns}
use cslb.RoundRobin.Untried.{budget}
use cslb.AnyPicker.Safety.{IsReady}
use cslb.Upstream.Checked.{IsValid}
use cslb.RoundRobin
use cslb.Smooth.{smooth_weighted_peer}
use cslb.RoundRobin.{new_rr_picker}
use cslb.Peer.{init}
use cslb.Group.{init_all, build_groups}
use cslb.Trip.{trip_loop, start_trip}
use cslb.Trip.Rule.{Finishes}
use cslb.Transport.{
  Upstream, TransportOption, with_timeout, with_upstreams, new_transport, empty_transport,
}
use cslb.Transport.Way.{whole, way, route}
use cslb.Transport.Listed.{IsRegistered}
use cslb.Transport.Whole.{picker_of, registered-connections, picked_peer-is_some}
use cslb.Body.{streaming}
use cslb.RoundTrip.{Call, round_trip}
use cslb.RoundTrip.Answers.{Answers, round_trip-Answers}
use cslb.Tests.Transport.{lib, zero_below, outside, alone, caller, addresses, origin}

-- Every URL is taken as a host with the scheme `h`.
abbrev parse : Parser
parse s = some (record { scheme = 104 ∷ []; host = s })

abbrev good_option : Option TransportOption
good_option = some (
    with_upstreams (
      least_conn (
        new_upstream (97 ∷ [])
          (server (1 ∷ []) (some (weight (pos 5)) ∷ []) ∷ server (2 ∷ []) (some backup ∷ []) ∷ []))
      ∷ []))

abbrev options : List (Option TransportOption)
options = some (with_timeout (pos 5)) ∷ good_option ∷ none ∷ []

abbrev two_peers : List PeerSpec
two_peers = fresh_server (1 ∷ []) ∷ fresh_server (2 ∷ []) ∷ []

abbrev balancer : Balancer
balancer = new_balancer (pos 0) two_peers

abbrev upstream : Upstream
upstream = record {
  balancer = some balancer;
  backends =
      record { scheme = 104 ∷ []; host = 1 ∷ [] }
      ∷ record { scheme = 104 ∷ []; host = 2 ∷ [] }
      ∷ [];
  hash_func = none;
  algo = pos 0;
  multiple_usable_peers = true;
  ssl_name = [];
  transport = none;
}

parameters-IsValid : IsValid (fresh_server [])
parameters-IsValid = (omega arith, omega arith, omega arith, omega arith)

upstream-IsRegistered : IsRegistered upstream
unfolding supported_algorithm usable_peers
upstream-IsRegistered = record {
  peers = two_peers;
  built = refl;
  addressed = refl;
  valid = (parameters-IsValid, (parameters-IsValid, tt));
  supported = refl;
  keyed = refl;
  usable = omega arith;
  several = refl;
}

registered-connections_example :
    (p : AnyPicker) × (picker_of length addresses upstream caller origin ≡ some p)
    × (let start : Shared = record { picker = p; others = λ j. pos 0 } in
        Finishes
          (shared_picker lib)
          (route empty_transport (custom 1) upstream caller false)
          outside
          (λ e. (j : ℕ) → own_conns e.picker j ≡ own_conns start j)
          (trip_loop
            (shared_picker lib)
            (route empty_transport (custom 1) upstream caller false)
            outside
            (suc (budget (ctx_of p).picker))
            0
            (start_trip start)))
registered-connections_example =
    registered-connections lib addresses empty_transport (custom 1) upstream caller origin false
      outside (λ j. pos 0) zero_below alone upstream-IsRegistered

abbrev fresh : AnyPicker
fresh = plain (record {
  picker = new_rr_picker balancer.groups.primary balancer.groups.backup;
  heap = balancer.heap;
})

fresh-IsReady : IsReady fresh
unfolding new_balancer new_rr_picker pointers init_all init build_groups
fresh-IsReady = record { primary = ((λ e. omega (arith, e), tt), (tt, tt)); backup = tt }

first_pick : (pick lib (λ n. 5) fresh).0 ≡ some 0
unfolding new_rr_picker pick new_balancer pointers init_all init build_groups RoundRobin.pick
    RoundRobin.pick_with_backup RoundRobin.or_backup RoundRobin.pick_from_current_group
    RoundRobin.pick_from_group RoundRobin.pick_smooth smooth_weighted_peer RoundRobin.is_eligible
    ◌+ℤ◌
first_pick = refl

picked_peer-is_some_example : is_some (get_elem? upstream.backends 0) ≡ true
unfolding new_rr_picker
picked_peer-is_some_example =
    picked_peer-is_some lib (λ n. 5) upstream balancer fresh 0 zero_below upstream-IsRegistered refl
      fresh-IsReady refl refl first_pick

-- A weight of zero that the caller has given is refused, and one that is left out is not.
explicit_zero :
    validate (server (1 ∷ []) (some (weight (pos 0)) ∷ [])) ≡ some (described bad_weight [])
unfolding server validate weight
explicit_zero = refl

omitted : validate (server (1 ∷ []) []) ≡ none
unfolding server validate
omitted = refl

abbrev call : Call
call = record {
  lib = lib;
  addresses = addresses;
  files = record { create = none; write = none; copy = none; seek = none; stat = none };
  body = record {
    own_get_body = false;
    body = some (streaming (record { content = 1 ∷ 2 ∷ []; broken = none }));
    content_length = pos 2;
  };
  from = origin;
  canceled = none;
  send = outside.reply 1;
  outside = outside;
  others = λ j. pos 0;
}

round_trip-Answers_example :
    Answers (round_trip call (some (new_transport parse (λ dial. 1) options)) (whole caller))
round_trip-Answers_example =
    round_trip-Answers call zero_below alone parse (λ dial. 1) options (whole caller)

-- A transport that has been given a nil option refuses every request.
refused :
    round_trip call (some (new_transport parse (λ dial. 1) (none ∷ []))) (whole caller)
    ≡ some (none, some (described nil_transport_option []))
unfolding round_trip way new_transport
refused = refl
