-- ===== src/Trip/Results.antt =====
-- What RoundTrip returns.
use cslb.Prelude.{
  ℕ, suc, ◌≡◌, refl, sym, ap, subst, Bool, true, false, List, ◌∷◌, Option, none, some, arith, ◌||◌,
  inl, inr, ◌∙◌,
}
use cslb.Http.{
  is_some, Failure, no_backend_address, no_peer_available, Answer, Request, Response, Reply,
}
use cslb.Decision.{decide_attempt, checked_reply, request_was_sent}
use cslb.Trip.{
  NeutralPicker, Route, Outside, Event, picked, Trip, Next, round, give_up, fail, close_last,
  close_response, release_neutral, release_peer, attempt, attempt_request, settle_deadline,
  log_attempt, is_rejected, trip_loop, start_trip,
}
use cslb.Trip.Rule.{Leads, Finishes, opened, round_rule, after_attempt_rule}
use cslb.Trip.Connections.{IsAccountable}
use cslb.Trip.Resources.{release_neutral-events, release_peer-events}
use cslb.Trip.Total.{trip_loop-keeps}
use cslb.Trip.Outcome.{
  last_reply, is_exhausted, IsResult, IsLastOr, IsLast, Interruption, canceled, canceled_after,
  no_body, no_backend, IsAnswer, IsResult-given, close_response-is_exhausted,
}

module _ {S : Type 0} (p : NeutralPicker S) (w : Route) (o : Outside S) where
  -- At the head of the loop.
  record IsHead (s : Trip S) : Type 0 where
    not_exhausted : is_exhausted s.events ≡ false
    kept : IsLastOr none (last_reply s.events) s.last_resp s.last_err

  abbrev Answered : Next S → Type 0
  Answered = Leads (λ e. IsAnswer w o e.resp e.err e.events) IsHead

  -- A way out between two attempts.
  interrupted-IsAnswer :
      (c : Failure) (es : List Event)
      → is_exhausted es ≡ false
      → Interruption w o c
      → IsAnswer w o none (some c) es
  interrupted-IsAnswer c es n i = record {
    given = λ q. refl;
    exhausted = λ q. cc;
    otherwise = λ q. inr (refl, (c, refl, i));
  }

  last-IsAnswer :
      (q : Reply) (r : Option Response) (e : Option Failure) (es : List Event)
      → is_exhausted es ≡ false
      → last_reply es ≡ some q
      → IsResult q.resp q.err r e
      → IsAnswer w o r e es
  last-IsAnswer q r e es n l v = record {
    given = IsResult-given q.resp q.err r e v;
    exhausted = λ x. cc;
    otherwise = λ x. inl (subst (λ y. IsLast y r e) (sym l) v);
  }

  -- No peer is left: the error is that, unless there was an attempt.
  left-IsAnswer :
      (l : Option Reply) (r : Option Response) (e : Option Failure) (es : List Event)
      → is_exhausted es ≡ true
      → last_reply es ≡ l
      → IsLastOr (some no_peer_available) l r e
      → IsAnswer w o r e es
  left-IsAnswer none r e es n l v = record {
    given = λ q. ap is_some v.1;
    exhausted = λ x. subst (λ y. IsLastOr (some no_peer_available) y r e) (sym l) v;
    otherwise = λ x. cc;
  }
  left-IsAnswer (some q) r e es n l v = record {
    given = IsResult-given q.resp q.err r e v;
    exhausted = λ x. subst (λ y. IsLastOr (some no_peer_available) y r e) (sym l) v;
    otherwise = λ x. cc;
  }

  -- The result of the last attempt is not nil.
  IsResult-some :
      (a : Option Answer) (f : Option Failure) (r : Option Response) (e : Option Failure)
      → IsResult a f r e
      → (is_some r || is_some e) ≡ true
  IsResult-some a f none e v = IsResult-given a f none e v refl
  IsResult-some a f (some x) e v = refl

  module _ (k : ℕ) where
    give_up-Answered :
        (s : Trip S)
        → is_exhausted s.events ≡ true
        → IsLastOr none (last_reply s.events) s.last_resp s.last_err
        → Answered (give_up p w o k s)
    unfolding give_up fail
    give_up-Answered s n v = by_last (last_reply s.events) refl v
      where
        by_last :
            (l : Option Reply)
            → last_reply s.events ≡ l
            → IsLastOr none l s.last_resp s.last_err
            → Answered (give_up p w o k s)
        by_last none l h =
            rw (h.0, h.1)
              (left-IsAnswer none none (some no_peer_available) s.events n l (refl, refl))
        by_last (some q) l h =
            rw (IsResult-some q.resp q.err s.last_resp s.last_err h)
              (left-IsAnswer (some q) s.last_resp s.last_err s.events n l h)

    -- After the attempt and the release of the peer.
    logged_attempt-last :
        (i : ℕ) (req : Request) (raw : Reply) (rejected : Bool) (a : Option Answer)
        (f : Option Failure) (s : Trip S)
        → let c = checked_reply a f in
          let r =
            settle_deadline p w o k c.0 c.1
              (record s { events = log_attempt p w o k i req raw rejected c.0 s.events }) in
          IsResult a f r.0 c.1
          × ((last_reply r.1.events ≡ some raw) × (is_exhausted r.1.events ≡ false))
    unfolding settle_deadline log_attempt checked_reply last_reply is_exhausted
    logged_attempt-last i req raw rejected a f s = ground arith

    attempt-Answered : (i : ℕ) (req : Request) (s : Trip S) → Answered (attempt p w o k i req s)
    unfolding attempt fail
    attempt-Answered i req s =
        let raw = o.reply k w.transport req in
        let checked = checked_reply raw.resp raw.err in
        let sent = request_was_sent w.transport raw.wrote checked.0 checked.1 in
        let rejected = is_rejected p w o k raw checked.0 in
        let es = log_attempt p w o k i req raw rejected checked.0 s.events in
        let (resp, t) = settle_deadline p w o k checked.0 checked.1 (record s { events = es }) in
        let logged = logged_attempt-last i req raw rejected raw.resp raw.err s in
        let d = decide_attempt w.policy w.request.method resp checked.1 sent in
        let u = release_peer p w o k d i t in
        let same = release_peer-events p w o k d i t in
        let last : last_reply u.events ≡ some raw = ap last_reply same ∙ logged.1.0 in
        let open_ended : is_exhausted u.events ≡ false = ap is_exhausted same ∙ logged.1.1 in
        after_attempt_rule p w o k Answered i sent checked.1 resp t
          (λ e c q r.
            interrupted-IsAnswer c (close_response resp (release_neutral p w o k i t).events)
              (close_response-is_exhausted resp (release_neutral p w o k i t).events
                (ap is_exhausted (release_neutral-events p w o k i t) ∙ logged.1.1))
              (canceled_after k r))
          (
            λ r. record {
              not_exhausted = open_ended;
              kept = subst (λ x. IsLastOr none x resp checked.1) (sym last) logged.0;
            },
            λ r. last-IsAnswer raw resp checked.1 u.events open_ended last logged.0,
          )

    round-Answered : (s : Trip S) → IsHead s → Answered (round p w o k s)
    unfolding fail close_last release_neutral is_exhausted last_reply
    round-Answered s v =
        round_rule p w o k Answered s
          (λ c q.
            interrupted-IsAnswer c (close_last s).events
              (close_response-is_exhausted s.last_resp s.events v.not_exhausted) (canceled k q))
          (λ m e.
            give_up-Answered (record s { picker = m; events = picked none ∷ s.events }) refl v.kept)
          (λ i m e q.
            interrupted-IsAnswer (no_backend_address i) (opened p w o k i s m).events
              (close_response-is_exhausted s.last_resp (picked (some i) ∷ s.events) refl)
              (no_backend i q refl))
          (λ i m f e q.
            interrupted-IsAnswer f (opened p w o k i s m).events
              (close_response-is_exhausted s.last_resp (picked (some i) ∷ s.events) refl)
              (no_body k q))
          (λ i m b e q. attempt-Answered i (attempt_request w.request b) (opened p w o k i s m))

-- What RoundTrip returns, whatever the round tripper does. If Pick has just returned no peer, that is
-- the result of the last attempt, its response and its error, or ErrNoPeerAvailable if there was
-- no attempt. Otherwise it is the result of the last attempt too, or there is no response and the
-- error is the one that broke off the loop: of the caller's context, of getBody, or that a peer has
-- no backend. The result of an attempt is the round tripper's status, body and error, with an error in
-- place of a response without a body and of a nil response with a nil error. So a nil response comes
-- with an error.
pub trip_loop-IsAnswer :
    {S : Type 0} (p : NeutralPicker S) (w : Route) (o : Outside S) (a : IsAccountable p o) (m : S)
    → a.Inv m
    → Finishes p w o
        (λ e. IsAnswer w o e.resp e.err e.events)
        (trip_loop p w o (suc (a.left m)) 0 (start_trip m))
unfolding start_trip last_reply is_exhausted
trip_loop-IsAnswer p w o a m v =
    let (e, q, b) =
      trip_loop-keeps p w o a (IsHead p w o) (λ e. IsAnswer w o e.resp e.err e.events)
        (λ k s i. round-Answered p w o k s i) m v
        (record { not_exhausted = refl; kept = (refl, refl) }) in
    (e, q, b.1)
