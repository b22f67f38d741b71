-- ===== src/Decision.antt =====
-- transport.go: what follows from one attempt.
pub mod Verdict
use Prim.Native.String.{String}
use text.Mathlib.Text.{◌==◌ as str_eq}
use cslb.Prelude.{ℕ, ◌==◌, Bool, true, false, not, ◌&&◌, ◌||◌, if◌then◌else◌, Option, none, some}
use cslb.Http.{
  Failure, nil_round_tripper, invalid_round_trip, nil_response_body, Request, Answer, Response,
  Reply, RoundTripper, is_standard, is_some, is_round_tripper_contract_error,
}

-- NextUpstreamCondition
abbrev pub Condition : Type 0
Condition = Option Response → Option Failure → Bool

pub record AttemptDecision : Type 0 where
  pub retry : Bool
  pub failed : Bool
  pub neutral : Bool

-- The fields of Transport that decide about a retry.
pub record RetryPolicy : Type 0 where
  pub next_upstream : Option Condition
  pub retry_non_idempotent : Bool

unfoldable pub should_retry : RetryPolicy → Option Response → Option Failure → Bool
should_retry t resp err = elim t.next_upstream [
  | none ↦ is_some err
  | some condition ↦ condition resp err
]

unfoldable pub is_non_idempotent_method : String → Bool
is_non_idempotent_method method =
    str_eq method "POST" || str_eq method "LOCK" || str_eq method "PATCH"

-- 403 and 404 never count as failures, nor does a status whose retry is blocked.
unfoldable pub spare_status :
    Bool → Option Response → Option Failure → AttemptDecision → AttemptDecision
spare_status blocked (some r) none d =
    let spared = r.status == 403 || r.status == 404 || blocked in
    record d { failed = if spared then false else d.failed }
spare_status blocked none err d = d
spare_status blocked (some r) (some e) d = d

unfoldable pub decide_attempt :
    RetryPolicy → String → Option Response → Option Failure → Bool → AttemptDecision
unfolding spare_status should_retry
decide_attempt t method resp err sent =
    let neutral = is_round_tripper_contract_error err in
    let blocked = sent && is_non_idempotent_method method && not t.retry_non_idempotent in
    if should_retry t resp err
    then spare_status blocked resp err
        (record { retry = not blocked; failed = not neutral; neutral = neutral })
    else record { retry = false; failed = false; neutral = neutral }

-- requestBodyMayNeedReplay; `many` is multipleUsablePeers.
unfoldable pub request_body_may_need_replay : RetryPolicy → Bool → String → Bool
request_body_may_need_replay t many method =
    if not many then false else not (is_non_idempotent_method method) || t.retry_non_idempotent

-- requestWasSent; `wrote` is what the trace recorded.
unfoldable pub request_was_sent : RoundTripper → Bool → Option Response → Option Failure → Bool
request_was_sent rt wrote resp err =
    if is_some resp || wrote
    then true
    else if not (is_some err)
    then false
    else not (is_standard rt)

-- The checks of roundTrip on what the round tripper returned.
unfoldable pub checked_reply : Option Answer → Option Failure → Option Response × Option Failure
checked_reply none none = (none, some invalid_round_trip)
checked_reply none (some e) = (none, some e)
checked_reply (some r) err = elim r.body [
  | none ↦ (none, some nil_response_body)
  | some b ↦ (some (record { status = r.status; body = b; cancel = none }), err)
]

-- roundTrip, of a transport that may be nil.
unfoldable pub round_trip_once :
    (RoundTripper → Request → Reply)
    → Option RoundTripper
    → Request
    → Option Response × Option Failure
unfolding checked_reply
round_trip_once send none req = (none, some nil_round_tripper)
round_trip_once send (some rt) req = let r = send rt req in checked_reply r.resp r.err
