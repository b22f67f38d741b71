-- ===== src/Trip/Resources.antt =====
-- RoundTrip closes every response body that it does not return, once, and cancels every context of an
-- attempt's timeout, or leaves that to the body it returns.
use cslb.Prelude.{
  subst, ℕ, suc, ◌+◌, ◌==◌, ◌≡◌, refl, sym, Bool, false, if◌then◌else◌, List, [], ◌∷◌, Option, none,
  some, arith,
}
use cslb.Http.{Failure, Answer, Request, Response, Reply}
use cslb.Decision.{AttemptDecision, decide_attempt, checked_reply, request_was_sent}
use cslb.Trip.{
  NeutralPicker, Route, Outside, Resource, body, deadline, Event, acquired, freed, picked,
  attempted, closed_request, Trip, Next, round, give_up, fail, close_last, close_response,
  release_neutral, release_peer, attempt, attempt_request, settle_deadline, log_attempt,
  is_rejected, trip_loop, start_trip,
}
use cslb.Trip.Connections.{IsAccountable}
use cslb.Trip.Total.{trip_loop-keeps}
use cslb.Trip.Rule.{Leads, Finishes, found, opened, round_rule, after_attempt_rule}

abbrev pub same_resource : Resource → Resource → Bool
same_resource (body a) (body b) = a == b
same_resource (body a) (deadline b) = false
same_resource (deadline a) (body b) = false
same_resource (deadline a) (deadline b) = a == b

abbrev once : Resource → Resource → ℕ
once x y = if same_resource x y then 1 else 0

-- How often a resource was acquired, and how often it was freed.
unfoldable pub times_acquired : Resource → List Event → ℕ
times_acquired x [] = 0
times_acquired x (acquired y ∷ es) = once x y + times_acquired x es
times_acquired x (freed y ∷ es) = times_acquired x es
times_acquired x (picked i ∷ es) = times_acquired x es
times_acquired x (attempted i r rt q ∷ es) = times_acquired x es
times_acquired x (closed_request ∷ es) = times_acquired x es

unfoldable pub times_freed : Resource → List Event → ℕ
times_freed x [] = 0
times_freed x (acquired y ∷ es) = times_freed x es
times_freed x (freed y ∷ es) = once x y + times_freed x es
times_freed x (picked i ∷ es) = times_freed x es
times_freed x (attempted i r rt q ∷ es) = times_freed x es
times_freed x (closed_request ∷ es) = times_freed x es

-- What a response holds: its body, and the context that its cancelCloser cancels.
abbrev pub held_by : Resource → Option Response → ℕ
held_by x none = 0
held_by x (some r) =
    once x (body r.body) + (elim r.cancel [ none ↦ 0 | some k ↦ once x (deadline k) ])

close_response-counts :
    (x : Resource) (r : Option Response) (es : List Event)
    → (times_freed x (close_response r es) ≡ times_freed x es + held_by x r)
      × (times_acquired x (close_response r es) ≡ times_acquired x es)
unfolding close_response times_freed times_acquired
close_response-counts x none es = (omega arith, refl)
close_response-counts x (some r) es = ground arith

module _ {S : Type 0} (p : NeutralPicker S) (w : Route) (o : Outside S) (k : ℕ) where
  -- No release touches the events.
  pub release_neutral-events :
      (i : ℕ) (s : Trip S) → (release_neutral p w o k i s).events ≡ s.events
  unfolding release_neutral
  release_neutral-events i s = refl

  pub release_peer-events :
      (d : AttemptDecision) (i : ℕ) (s : Trip S) → (release_peer p w o k d i s).events ≡ s.events
  unfolding release_peer
  release_peer-events d i s = ground arith

module _ {S : Type 0} (p : NeutralPicker S) (w : Route) (o : Outside S) (x : Resource) where
  -- All that was acquired has been freed, or the response holds it.
  abbrev pub IsBooked : Option Response → List Event → Type 0
  IsBooked r es = times_acquired x es ≡ times_freed x es + held_by x r

  abbrev pub Booked : Next S → Type 0
  Booked = Leads (λ e. IsBooked e.resp e.events) (λ t. IsBooked t.last_resp t.events)

  close_last-IsBooked :
      (s : Trip S) → IsBooked s.last_resp s.events → IsBooked none (close_last s).events
  unfolding close_last
  close_last-IsBooked s v =
      let c = close_response-counts x s.last_resp s.events in omega (arith, c.0, c.1, v)

  close-IsBooked :
      (r : Option Response) (es : List Event) → IsBooked r es → IsBooked none (close_response r es)
  close-IsBooked r es v = let c = close_response-counts x r es in omega (arith, c.0, c.1, v)

  module _ (k : ℕ) where
    -- The attempt's events, and what settles its context, account for the response.
    logged_attempt-IsBooked :
        (i : ℕ) (req : Request) (raw : Reply) (rejected : Bool) (resp : Option Answer)
        (err : Option Failure) (s : Trip S)
        → IsBooked none s.events
        → let c = checked_reply resp err in
          let r =
            settle_deadline p w o k c.0 c.1
              (record s { events = log_attempt p w o k i req raw rejected c.0 s.events }) in
          IsBooked r.0 r.1.events
    unfolding settle_deadline log_attempt checked_reply times_acquired times_freed
    logged_attempt-IsBooked i req raw rejected resp err s v = ground arith

    attempt-Booked :
        (i : ℕ) (req : Request) (s : Trip S)
        → IsBooked none s.events
        → Booked (attempt p w o k i req s)
    unfolding attempt fail
    attempt-Booked i req s v =
        let raw = o.reply k w.transport req in
        let checked = checked_reply raw.resp raw.err in
        let sent = request_was_sent w.transport raw.wrote checked.0 checked.1 in
        let rejected = is_rejected p w o k raw checked.0 in
        let es = log_attempt p w o k i req raw rejected checked.0 s.events in
        let (resp, t) = settle_deadline p w o k checked.0 checked.1 (record s { events = es }) in
        let booked : IsBooked resp t.events =
          logged_attempt-IsBooked i req raw rejected raw.resp raw.err s v in
        let d = decide_attempt w.policy w.request.method resp checked.1 sent in
        let kept : IsBooked resp (release_peer p w o k d i t).events =
          subst (IsBooked resp) (sym (release_peer-events p w o k d i t)) booked in
        after_attempt_rule p w o k Booked i sent checked.1 resp t
          (λ e c q r.
            close-IsBooked resp (release_neutral p w o k i t).events
              (subst (IsBooked resp) (sym (release_neutral-events p w o k i t)) booked))
          (λ r. kept, λ r. kept)

    give_up-Booked : (s : Trip S) → IsBooked s.last_resp s.events → Booked (give_up p w o k s)
    unfolding give_up fail
    give_up-Booked s v = ground arith

    round-Booked : (s : Trip S) → IsBooked s.last_resp s.events → Booked (round p w o k s)
    unfolding fail close_last release_neutral times_acquired times_freed
    round-Booked s v =
        let closed = close_last-IsBooked s v in
        round_rule p w o k Booked s (λ c q. closed)
          (λ m e. give_up-Booked (record s { picker = m; events = picked none ∷ s.events }) v)
          (λ i m e q. close_last-IsBooked (release_neutral p w o k i (found p w o k i s m)) v)
          (λ i m f e q.
            subst (IsBooked none) (sym (release_neutral-events p w o k i (opened p w o k i s m)))
              (close_last-IsBooked (found p w o k i s m) v))
          (λ i m b e q.
            attempt-Booked i (attempt_request w.request b) (opened p w o k i s m)
              (close_last-IsBooked (found p w o k i s m) v))

-- When the loop of RoundTrip has ended, every response body and every context of an attempt's timeout
-- has been closed or cancelled exactly as often as it was acquired, except for those that the returned
-- response holds: its body, and the context that closing that body cancels.
pub trip_loop-resources :
    {S : Type 0} (p : NeutralPicker S) (w : Route) (o : Outside S) (a : IsAccountable p o) (m : S)
    (x : Resource)
    → a.Inv m
    → Finishes p w o
        (λ e. times_acquired x e.events ≡ times_freed x e.events + held_by x e.resp)
        (trip_loop p w o (suc (a.left m)) 0 (start_trip m))
unfolding start_trip times_acquired times_freed
trip_loop-resources p w o a m x v =
    let (e, q, b) =
      trip_loop-keeps p w o a (λ s. IsBooked p w o x s.last_resp s.events)
        (λ e. IsBooked p w o x e.resp e.events) (λ k s i. round-Booked p w o x k s i) m v refl in
    (e, q, b.1)
