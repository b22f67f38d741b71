-- ===== src/Trip.antt =====
-- transport.go: RoundTrip, from a picker's first Pick to the result of the last attempt.
-- The loop keeps a list of events, the latest first: what Pick returns, and what code outside the
-- repository sees.
pub mod Rule
pub mod Connections
pub mod Total
pub mod Resources
pub mod Sending
pub mod Forwarding
pub mod Outcome
pub mod Results
use Prim.Native.String.{String}
use cslb.Prelude.{
  ℕ, zero, suc, ◌==◌, Bool, true, false, not, ◌&&◌, ◌||◌, if◌then◌else◌, List, [], ◌∷◌, Option,
  none, some, length,
}
use cslb.Balancer.{Picker}
use cslb.Http.{
  Failure, no_backend_address, no_peer_available, nil_round_tripper, Request, Response, Reply,
  RoundTripper, is_some,
}
use cslb.Decision.{RetryPolicy, AttemptDecision, decide_attempt, checked_reply, request_was_sent}

pub record Backend : Type 0 where
  pub scheme : List ℕ
  pub host : List ℕ

-- What a caller has to give back: a response body, and the context of an attempt's timeout.
pub data Resource : Type 0 where
  body : ℕ → Resource
  deadline : ℕ → Resource

pub data Event : Type 0 where
  acquired : Resource → Event
  freed : Resource → Event
  -- What Pick has returned.
  picked : Option ℕ → Event
  -- RoundTrip of the round tripper, for a peer, with what it returned.
  attempted : ℕ → Request → RoundTripper → Reply → Event
  -- failRoundTrip closes the body of a request.
  closed_request : Event

-- A Picker and its doneNeutral, if it has that method.
pub record NeutralPicker (S : Type 0) : Type 0 where
  pub base : Picker S
  pub neutral : Option ((ℕ → ℕ) → Option ℕ → S → S)

-- What RoundTrip takes from the request and its upstream.
pub record Route : Type 0 where
  pub policy : RetryPolicy
  pub request : Request
  pub backends : ℕ → Option Backend
  pub transport : RoundTripper
  pub has_timeout : Bool
  -- getBody is not nil.
  pub has_get_body : Bool

-- What is outside, by the round: the clock, the other requests before each call of the picker, the
-- request's context before and after the attempt, getBody's error, and the round tripper.
pub record Outside (S : Type 0) : Type 0 where
  pub clock : ℕ → ℕ → ℕ
  pub before_pick : ℕ → S → S
  pub before_done : ℕ → S → S
  pub canceled : ℕ → Option Failure
  pub canceled_after : ℕ → Option Failure
  pub get_body : ℕ → Option Failure
  pub reply : ℕ → RoundTripper → Request → Reply

-- The picker with the memory, and the variables of the loop.
pub record Trip (S : Type 0) : Type 0 where
  pub picker : S
  pub last_resp : Option Response
  pub last_err : Option Failure
  pub events : List Event

pub record TripEnd (S : Type 0) : Type 0 where
  pub resp : Option Response
  pub err : Option Failure
  pub picker : S
  pub events : List Event

pub data Next (S : Type 0) : Type 0 where
  stop : TripEnd S → Next S
  go : Trip S → Next S

-- Close of a response body, which a cancelCloser precedes by the cancel function.
unfoldable pub close_response : Option Response → List Event → List Event
close_response none es = es
close_response (some r) es =
    let canceled : List Event = elim r.cancel [ none ↦ es | some k ↦ freed (deadline k) ∷ es ] in
    freed (body r.body) ∷ canceled

-- Clone, the Host header, and the rewritten URL.
unfoldable pub attempt_request : Request → Backend → Request
attempt_request req b = record req {
  host = if length req.host == 0 then req.url_host else req.host;
  scheme = b.scheme;
  url_host = b.host;
}

module _ {S : Type 0} where
  unfoldable pub close_last : Trip S → Trip S
  unfolding close_response
  close_last s = record s { last_resp = none; events = close_response s.last_resp s.events }

  -- A return without a response.
  unfoldable pub fail : Trip S → Failure → Next S
  fail s e = stop (record { resp = none; err = some e; picker = s.picker; events = s.events })

module _ {S : Type 0} (p : NeutralPicker S) (w : Route) (o : Outside S) (k : ℕ) where
  -- doneNeutral(pk, peer)
  unfoldable pub release_neutral : ℕ → Trip S → Trip S
  release_neutral i s =
      let m = o.before_done k s.picker in
      record s {
        picker = elim p.neutral [
          | none ↦ p.base.done (o.clock k) (some i) false m
          | some f ↦ f (o.clock k) (some i) m
        ];
      }

  unfoldable pub release_peer : AttemptDecision → ℕ → Trip S → Trip S
  unfolding release_neutral
  release_peer d i s = if d.neutral then release_neutral i s else record s {
    picker = p.base.done (o.clock k) (some i) d.failed (o.before_done k s.picker);
  }

  -- With a timeout, an error cancels the attempt's context, and a response is wrapped.
  unfoldable pub settle_deadline :
      Option Response → Option Failure → Trip S → Option Response × Trip S
  settle_deadline resp err s = if not w.has_timeout then (resp, s) else elim err [
    | some e ↦ (resp, record s { events = freed (deadline k) ∷ s.events })
    | none ↦ (elim resp [ none ↦ none | some r ↦ some (record r { cancel = some k }) ], s)
  ]

  unfoldable pub conclude : ℕ → Bool → Option Failure → Option Response × Trip S → Next S
  unfolding release_peer
  conclude i sent err (resp, s) =
      let d = decide_attempt w.policy w.request.method resp err sent in
      let t = release_peer d i s in
      if d.retry
      then go (record t { last_resp = resp; last_err = err })
      else stop (record { resp = resp; err = err; picker = t.picker; events = t.events })

  -- `err != nil && reqCtx.Err() != nil`
  unfoldable pub canceled_by_caller : Option Failure → Option Failure
  canceled_by_caller none = none
  canceled_by_caller (some e) = o.canceled_after k

  unfoldable pub after_attempt : ℕ → Bool → Option Failure → Option Response × Trip S → Next S
  unfolding release_neutral conclude close_response
  after_attempt i sent err (resp, s) = elim (canceled_by_caller err) [
    | none ↦ conclude i sent err (resp, s)
    | some c ↦
        let t = release_neutral i s in fail (record t { events = close_response resp t.events }) c
  ]

  -- The events of the attempt: its context, the call, and the body of the response.
  unfoldable pub log_attempt :
      ℕ → Request → Reply → Bool → Option Response → List Event → List Event
  log_attempt i req raw rejected resp es =
      let called =
        attempted i req w.transport raw
        ∷ (if w.has_timeout then acquired (deadline k) ∷ es else es) in
      elim resp [
        | none ↦ (if rejected then closed_request ∷ called else called)
        | some r ↦ acquired (body r.body) ∷ called
      ]

  -- roundTrip has replaced what the round tripper returned by an error of its own.
  unfoldable pub is_rejected : Reply → Option Response → Bool
  is_rejected raw checked =
      if is_some checked then false else is_some raw.resp || not (is_some raw.err)

  unfoldable pub attempt : ℕ → Request → Trip S → Next S
  unfolding log_attempt is_rejected settle_deadline after_attempt
  attempt i req s =
      let raw = o.reply k w.transport req in
      let checked = checked_reply raw.resp raw.err in
      let sent = request_was_sent w.transport raw.wrote checked.0 checked.1 in
      let es = log_attempt i req raw (is_rejected raw checked.0) checked.0 s.events in
      after_attempt i sent checked.1
        (settle_deadline checked.0 checked.1 (record s { events = es }))

  unfoldable pub restore_body : ℕ → Request → Trip S → Next S
  unfolding attempt
  restore_body i req s = elim (if w.has_get_body then o.get_body k else none) [
    | some e ↦ fail (release_neutral i s) e
    | none ↦ attempt i req s
  ]

  unfoldable pub on_backend : ℕ → Trip S → Option Backend → Next S
  unfolding restore_body close_last
  on_backend i s none = fail (close_last (release_neutral i s)) (no_backend_address i)
  on_backend i s (some b) =
      restore_body i (attempt_request w.request b) (record (close_last s) { last_err = none })

  -- No peer is left: the last attempt is the result, if there was one.
  unfoldable pub give_up : Trip S → Next S
  give_up s =
      if is_some s.last_resp || is_some s.last_err
      then stop
          (record { resp = s.last_resp; err = s.last_err; picker = s.picker; events = s.events })
      else fail s no_peer_available

  unfoldable pub on_pick : Trip S → Option ℕ × S → Next S
  unfolding on_backend give_up
  on_pick s (none, m) = give_up (record s { picker = m })
  on_pick s (some i, m) = on_backend i (record s { picker = m }) (w.backends i)

  -- The body of the `for`, in round `k`.
  unfoldable pub round : Trip S → Next S
  unfolding close_last on_pick
  round s = elim (o.canceled k) [
    | some c ↦ fail (close_last s) c
    | none ↦
        let r = p.base.pick (o.clock k) (o.before_pick k s.picker) in
        on_pick (record s { events = picked r.0 ∷ s.events }) r
  ]

module _ {S : Type 0} (p : NeutralPicker S) (w : Route) (o : Outside S) where
  -- `none` is the fuel running out.
  unfoldable pub trip_loop : ℕ → ℕ → Trip S → Option (TripEnd S)
  trip_loop zero k s = none
  trip_loop (suc fuel) k s = elim (round p w o k s) [
    | stop e ↦ some e
    | go t ↦ trip_loop fuel (suc k) t
  ]

-- Before the first round.
unfoldable pub start_trip : {S : Type 0} → S → Trip S
start_trip m = record { picker = m; last_resp = none; last_err = none; events = [] }
