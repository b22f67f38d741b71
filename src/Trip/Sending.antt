-- ===== src/Trip/Sending.antt =====
-- What RoundTrip sends: where, and how often.
use cslb.Prelude.{
  Option, none, some, subst, sym, ℕ, suc, ◌+◌, ◌≤◌, ◌≡◌, refl, ap, Bool, true, false, if◌then◌else◌,
  List, [], ◌∷◌, arith, if_intro, ◌∙◌, ◌||◌,
}
use cslb.Http.{is_some, Failure, Request, Response, Answer, Reply, RoundTripper, standard, custom}
use cslb.Decision.{
  decide_attempt, spare_status, checked_reply, request_was_sent, is_non_idempotent_method,
}
use cslb.Trip.{
  NeutralPicker, Route, Outside, Event, acquired, freed, picked, attempted, closed_request, Trip,
  Next, round, give_up, fail, close_last, close_response, release_neutral, release_peer, attempt,
  attempt_request, settle_deadline, log_attempt, is_rejected, trip_loop, start_trip,
}
use cslb.Trip.Rule.{Leads, Finishes, found, opened, round_rule, after_attempt_rule}
use cslb.Trip.Connections.{IsAccountable}
use cslb.Trip.Resources.{release_neutral-events, release_peer-events}
use cslb.Trip.Total.{trip_loop-keeps}

-- Whether an attempt may have sent the request, by the round tripper and what it returned: one that is
-- not an *http.Transport may always; an *http.Transport has if a hook for the headers or the request
-- was called, or if there is a response with a body.
abbrev pub has_body : Option Answer → Bool
has_body none = false
has_body (some a) = is_some a.body

unfoldable pub may_be_sent : RoundTripper → Reply → Bool
may_be_sent (custom n) q = true
may_be_sent (standard n name) q = q.wrote || has_body q.resp

-- How many attempts may have sent the request.
unfoldable pub times_sent : List Event → ℕ
times_sent [] = 0
times_sent (acquired x ∷ es) = times_sent es
times_sent (freed x ∷ es) = times_sent es
times_sent (picked i ∷ es) = times_sent es
times_sent (attempted i r rt q ∷ es) = (if may_be_sent rt q then 1 else 0) + times_sent es
times_sent (closed_request ∷ es) = times_sent es

close_response-times_sent :
    (r : Option Response) (es : List Event) → times_sent (close_response r es) ≡ times_sent es
unfolding close_response times_sent
close_response-times_sent r es = ground arith

-- requestWasSent, on what roundTrip makes of a reply, is right.
request_was_sent-may_be_sent :
    (rt : RoundTripper) (q : Reply)
    → let c = checked_reply q.resp q.err in request_was_sent rt q.wrote c.0 c.1 ≡ may_be_sent rt q
unfolding request_was_sent checked_reply may_be_sent
request_was_sent-may_be_sent rt q = ground arith

unblocked :
    (w : Route) (resp : Option Response) (err : Option Failure) (sent : Bool)
    → is_non_idempotent_method w.request.method ≡ true
    → w.policy.retry_non_idempotent ≡ false
    → (decide_attempt w.policy w.request.method resp err sent).retry ≡ true
    → sent ≡ false
unfolding decide_attempt spare_status
unblocked w resp err sent m n r = ground arith

module _ {S : Type 0} (p : NeutralPicker S) (w : Route) (o : Outside S)
    (m : is_non_idempotent_method w.request.method ≡ true)
    (n : w.policy.retry_non_idempotent ≡ false) where
  -- Nothing has been sent when the loop goes on, and at most one attempt when it ends.
  abbrev Sparing : Next S → Type 0
  Sparing = Leads (λ e. times_sent e.events ≤ 1) (λ t. times_sent t.events ≡ 0)

  module _ (k : ℕ) where
    close_last-times_sent : (s : Trip S) → times_sent (close_last s).events ≡ times_sent s.events
    unfolding close_last
    close_last-times_sent s = close_response-times_sent s.last_resp s.events

    attempt-times_sent :
        (i : ℕ) (req : Request) (raw : Reply) (rejected : Bool) (resp : Option Response)
        (err : Option Failure) (s : Trip S)
        → times_sent
            (settle_deadline p w o k resp err
              (record s { events = log_attempt p w o k i req raw rejected resp s.events })).1.events
          ≡ (if may_be_sent w.transport raw then 1 else 0) + times_sent s.events
    unfolding settle_deadline log_attempt times_sent
    attempt-times_sent i req raw rejected resp err s = ground arith

    attempt-Sparing :
        (i : ℕ) (req : Request) (s : Trip S)
        → times_sent s.events ≡ 0
        → Sparing (attempt p w o k i req s)
    unfolding attempt fail
    attempt-Sparing i req s v =
        let raw = o.reply k w.transport req in
        let checked = checked_reply raw.resp raw.err in
        let sent = request_was_sent w.transport raw.wrote checked.0 checked.1 in
        let rejected = is_rejected p w o k raw checked.0 in
        let es = log_attempt p w o k i req raw rejected checked.0 s.events in
        let (resp, t) = settle_deadline p w o k checked.0 checked.1 (record s { events = es }) in
        let counted : times_sent t.events ≡ (if sent then 1 else 0) + times_sent s.events =
          subst (λ b. times_sent t.events ≡ (if b then 1 else 0) + times_sent s.events)
            (sym (request_was_sent-may_be_sent w.transport raw))
            (attempt-times_sent i req raw rejected checked.0 checked.1 s) in
        let d = decide_attempt w.policy w.request.method resp checked.1 sent in
        let at_most : times_sent t.events ≤ 1 = ground (arith, counted, v) in
        let released : times_sent (release_peer p w o k d i t).events ≡ times_sent t.events =
          ap times_sent (release_peer-events p w o k d i t) in
        after_attempt_rule p w o k Sparing i sent checked.1 resp t
          (λ e c q r. omega (
            arith,
            close_response-times_sent resp (release_neutral p w o k i t).events,
            ap times_sent (release_neutral-events p w o k i t),
            at_most,
          ))
          (
            λ r. ground (arith, unblocked w resp checked.1 sent m n r, released, counted, v),
            λ r. omega (arith, released, at_most),
          )

    round-Sparing : (s : Trip S) → times_sent s.events ≡ 0 → Sparing (round p w o k s)
    unfolding fail close_last release_neutral give_up times_sent
    round-Sparing s v =
        let closed = close_last-times_sent s in
        let cleared : (i : ℕ) (m : S) → times_sent (opened p w o k i s m).events ≡ 0 =
          λ i m. close_last-times_sent (found p w o k i s m) ∙ v in
        round_rule p w o k Sparing s (λ c q. omega (arith, closed, v))
          (λ m e.
            if_intro Sparing (is_some s.last_resp || is_some s.last_err) (omega (arith, v))
              (omega (arith, v)))
          (λ i m e q. omega (arith, cleared i m)) (λ i m f e q. omega (arith, cleared i m))
          (λ i m b e q.
            attempt-Sparing i (attempt_request w.request b) (opened p w o k i s m) (cleared i m))

-- A request by POST, LOCK or PATCH, on a transport without WithNonIdempotentRetries, is sent at most
-- once: of the attempts of a RoundTrip, which ends, at most one may have sent the request, whatever the
-- condition of WithNextUpstream says. That is judged by what the round tripper was and returned: each
-- attempt through one that is not an *http.Transport, and each through an *http.Transport that called
-- a hook for the headers or the request or returned a response with a body.
pub trip_loop-times_sent :
    {S : Type 0} (p : NeutralPicker S) (w : Route) (o : Outside S) (a : IsAccountable p o) (m : S)
    → is_non_idempotent_method w.request.method ≡ true
    → w.policy.retry_non_idempotent ≡ false
    → a.Inv m
    → Finishes p w o
        (λ e. times_sent e.events ≤ 1)
        (trip_loop p w o (suc (a.left m)) 0 (start_trip m))
unfolding start_trip times_sent
trip_loop-times_sent p w o a m unsafe strict v =
    let (e, q, b) =
      trip_loop-keeps p w o a (λ s. times_sent s.events ≡ 0) (λ e. times_sent e.events ≤ 1)
        (λ k s i. round-Sparing p w o unsafe strict k s i) m v refl in
    (e, q, b.1)
