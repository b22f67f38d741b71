-- ===== src/Trip/Forwarding.antt =====
-- The requests that RoundTrip sends to the peers.
use cslb.Prelude.{
  ℕ, suc, ◌≡◌, refl, sym, subst, ◌==◌, Bool, List, [], ◌∷◌, Option, none, some, if◌then◌else◌,
  if_intro, ◌||◌, arith, length,
}
use cslb.Http.{is_some, Failure, Request, Response, Reply}
use cslb.Decision.{decide_attempt, checked_reply, request_was_sent}
use cslb.Trip.{
  NeutralPicker, Route, Outside, Backend, Resource, Event, acquired, freed, picked, attempted,
  closed_request, Trip, Next, round, give_up, fail, close_last, close_response, release_neutral,
  release_peer, attempt, attempt_request, settle_deadline, log_attempt, is_rejected, trip_loop,
  start_trip,
}
use cslb.Trip.Rule.{Leads, Finishes, opened, round_rule, after_attempt_rule}
use cslb.Trip.Connections.{IsAccountable}
use cslb.Trip.Resources.{release_neutral-events, release_peer-events}
use cslb.Trip.Total.{trip_loop-keeps}

-- The caller's request, with the address of the peer and the Host header of the caller, which is the
-- URL's host if the caller has not set it.
pub record IsForwarded (w : Route) (i : ℕ) (r : Request) : Type 0 where
  pub backend : Backend
  pub registered : w.backends i ≡ some backend
  pub same_method : r.method ≡ w.request.method
  pub to_scheme : r.scheme ≡ backend.scheme
  pub to_host : r.url_host ≡ backend.host
  pub same_host :
      r.host ≡ (if length w.request.host == 0 then w.request.url_host else w.request.host)

-- What the last Pick has returned, if no attempt has been made since.
unfoldable pub last_pick : List Event → Option ℕ
last_pick [] = none
last_pick (acquired x ∷ es) = last_pick es
last_pick (freed x ∷ es) = last_pick es
last_pick (picked r ∷ es) = r
last_pick (attempted i r rt q ∷ es) = none
last_pick (closed_request ∷ es) = last_pick es

abbrev pub AllForwarded : Route → List Event → Type 0
AllForwarded w [] = Unit {0}
AllForwarded w (acquired x ∷ es) = AllForwarded w es
AllForwarded w (freed x ∷ es) = AllForwarded w es
AllForwarded w (picked r ∷ es) = AllForwarded w es
AllForwarded w (attempted i r rt q ∷ es) =
    IsForwarded w i r × ((last_pick es ≡ some i) × AllForwarded w es)
AllForwarded w (closed_request ∷ es) = AllForwarded w es

attempt_request-IsForwarded :
    (w : Route) (i : ℕ) (b : Backend)
    → w.backends i ≡ some b
    → IsForwarded w i (attempt_request w.request b)
unfolding attempt_request
attempt_request-IsForwarded w i b q = record {
  backend = b;
  registered = q;
  same_method = refl;
  to_scheme = refl;
  to_host = refl;
  same_host = refl;
}

close_response-AllForwarded :
    (w : Route) (r : Option Response) (es : List Event)
    → AllForwarded w es
    → AllForwarded w (close_response r es)
unfolding close_response
close_response-AllForwarded w none es v = v
close_response-AllForwarded w (some r) es v = by_cancel r.cancel
  where
    by_cancel :
        (c : Option ℕ)
        → AllForwarded w (elim c [ none ↦ es | some k ↦ freed (Resource.deadline k) ∷ es ])
    by_cancel none = v
    by_cancel (some k) = v

close_response-last_pick :
    (r : Option Response) (es : List Event) → last_pick (close_response r es) ≡ last_pick es
unfolding close_response last_pick
close_response-last_pick r es = ground arith

module _ {S : Type 0} (p : NeutralPicker S) (w : Route) (o : Outside S) where
  abbrev Forwarding : Next S → Type 0
  Forwarding = Leads (λ e. AllForwarded w e.events) (λ t. AllForwarded w t.events)

  module _ (k : ℕ) where
    logged_attempt-AllForwarded :
        (i : ℕ) (req : Request) (raw : Reply) (rejected : Bool) (resp : Option Response)
        (err : Option Failure) (s : Trip S)
        → IsForwarded w i req
        → last_pick s.events ≡ some i
        → AllForwarded w s.events
        → AllForwarded w
            (settle_deadline p w o k resp err
              (record s { events = log_attempt p w o k i req raw rejected resp s.events })).1.events
    unfolding settle_deadline log_attempt last_pick
    logged_attempt-AllForwarded i req raw rejected resp err s f l v = ground arith

    attempt-Forwarding :
        (i : ℕ) (req : Request) (s : Trip S)
        → IsForwarded w i req
        → last_pick s.events ≡ some i
        → AllForwarded w s.events
        → Forwarding (attempt p w o k i req s)
    unfolding attempt fail
    attempt-Forwarding i req s f l v =
        let raw = o.reply k w.transport req in
        let checked = checked_reply raw.resp raw.err in
        let sent = request_was_sent w.transport raw.wrote checked.0 checked.1 in
        let rejected = is_rejected p w o k raw checked.0 in
        let es = log_attempt p w o k i req raw rejected checked.0 s.events in
        let (resp, t) = settle_deadline p w o k checked.0 checked.1 (record s { events = es }) in
        let d = decide_attempt w.policy w.request.method resp checked.1 sent in
        let sound : AllForwarded w t.events =
          logged_attempt-AllForwarded i req raw rejected checked.0 checked.1 s f l v in
        let kept : AllForwarded w (release_peer p w o k d i t).events =
          subst (AllForwarded w) (sym (release_peer-events p w o k d i t)) sound in
        after_attempt_rule p w o k Forwarding i sent checked.1 resp t
          (λ e c q r.
            close_response-AllForwarded w resp (release_neutral p w o k i t).events
              (subst (AllForwarded w) (sym (release_neutral-events p w o k i t)) sound))
          (λ r. kept, λ r. kept)

    round-Forwarding : (s : Trip S) → AllForwarded w s.events → Forwarding (round p w o k s)
    unfolding fail close_last release_neutral give_up last_pick
    round-Forwarding s v =
        let closed = close_response-AllForwarded w s.last_resp s.events v in
        round_rule p w o k Forwarding s (λ c q. closed)
          (λ m e. if_intro Forwarding (is_some s.last_resp || is_some s.last_err) v v)
          (λ i m e q. close_response-AllForwarded w s.last_resp (picked (some i) ∷ s.events) v)
          (λ i m f e q. close_response-AllForwarded w s.last_resp (picked (some i) ∷ s.events) v)
          (λ i m b e q.
            attempt-Forwarding i (attempt_request w.request b) (opened p w o k i s m)
              (attempt_request-IsForwarded w i b q)
              (close_response-last_pick s.last_resp (picked (some i) ∷ s.events))
              (close_response-AllForwarded w s.last_resp (picked (some i) ∷ s.events) v))

-- Every request that RoundTrip hands to the round tripper, before it ends, is for the peer that Pick
-- has just returned, with no attempt in between, and goes to the address that is registered for that
-- peer, with the caller's method, and with the caller's Host header or, if that is not set, the host
-- of the caller's URL.
pub trip_loop-AllForwarded :
    {S : Type 0} (p : NeutralPicker S) (w : Route) (o : Outside S) (a : IsAccountable p o) (m : S)
    → a.Inv m
    → Finishes p w o
        (λ e. AllForwarded w e.events)
        (trip_loop p w o (suc (a.left m)) 0 (start_trip m))
unfolding start_trip
trip_loop-AllForwarded p w o a m v =
    let (e, q, b) =
      trip_loop-keeps p w o a (λ s. AllForwarded w s.events) (λ e. AllForwarded w e.events)
        (λ k s i. round-Forwarding p w o k s i) m v tt in
    (e, q, b.1)
