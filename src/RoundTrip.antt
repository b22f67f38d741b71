-- ===== src/RoundTrip.antt =====
-- transport.go: RoundTrip as a whole, over a transport that may be nil.
pub mod Answers
use cslb.Prelude.{ℕ, suc, ℤ, pos_part, Bool, List, Option, none, some}
use cslb.RoundRobin.Untried.{budget}
use cslb.Http.{Failure, invalid_upstream_config, Request, Response, Reply, RoundTripper, is_some}
use cslb.Decision.{request_body_may_need_replay, round_trip_once}
use cslb.ClientIp.{AddressLib, Origin}
use cslb.Body.{FileLib, BodyRequest, prepare_body}
use cslb.AnyPicker.{AnyPicker, PickLib, ctx_of, new_picker}
use cslb.AnyPicker.Shared.{Shared, shared_picker}
use cslb.Trip.{Outside, TripEnd, trip_loop, start_trip}
use cslb.Transport.{Transport, Upstream}
use cslb.Transport.Way.{Incoming, way, refuse, direct, balance, route}

-- What is outside of one call: the libraries, the files for bodies, the rest of the request, the other
-- requests, and the round tripper, which Outside gives for the rounds of the loop.
pub record Call : Type 0 where
  pub lib : PickLib
  pub addresses : AddressLib
  pub files : FileLib
  pub body : BodyRequest
  pub from : Origin
  pub canceled : Option Failure
  pub send : RoundTripper → Request → Reply
  pub outside : Outside Shared
  pub others : ℕ → ℤ

-- The two results of RoundTrip.
abbrev pub Answered : Type 0
Answered = Option Response × Option Failure

abbrev pub result_of : Option (TripEnd Shared) → Option Answered
result_of none = none
result_of (some e) = some (e.resp, e.err)

module _ (c : Call) where
  -- The loop, with a fuel that is enough; `none` is the fuel running out.
  unfoldable pub loop_over :
      Transport → RoundTripper → Upstream → Request → Bool → AnyPicker → Option Answered
  unfolding trip_loop start_trip route budget
  loop_over t rt u req has_get_body p = result_of (
      trip_loop (shared_picker c.lib) (route t rt u req has_get_body) c.outside
        (suc (budget (ctx_of p).picker)) 0 (start_trip (record { picker = p; others = c.others })))

  -- The body is prepared before the loop; it is for replay if more than one peer is usable.
  unfoldable pub with_picker :
      Transport → RoundTripper → Upstream → Request → Option AnyPicker → Option Answered
  unfolding loop_over prepare_body request_body_may_need_replay
  with_picker t rt u req none = some (none, some invalid_upstream_config)
  with_picker t rt u req (some p) =
      let replay = request_body_may_need_replay t.policy u.multiple_usable_peers req.method in
      let b = prepare_body c.files (pos_part t.max_body_buffer) replay c.body in
      elim b.err [
        | some e ↦ some (none, some e)
        | none ↦ loop_over t rt u req (is_some b.get_body) p
      ]

  unfoldable pub round_trip : Option Transport → Incoming → Option Answered
  unfolding way with_picker new_picker round_trip_once
  round_trip given req = elim (way given req c.canceled) [
    | refuse e ↦ some (none, some e)
    | direct rt r ↦ some (round_trip_once c.send (some rt) r)
    | balance t rt u r ↦
        with_picker t rt u r
          (new_picker c.lib.hashing.crc32 c.addresses u.balancer u.algo u.hash_func r c.from)
  ]
