-- ===== src/Trip/Outcome.antt =====
-- What RoundTrip may return, by the events of its loop.
use cslb.Prelude.{ℕ, ◌≡◌, ap, Bool, true, false, List, [], ◌∷◌, Option, none, some, arith, ◌⊎◌}
use cslb.Http.{
  is_some, Failure, no_backend_address, no_peer_available, invalid_round_trip, nil_response_body,
  Answer, Response, Reply,
}
use cslb.Trip.{
  Route, Outside, Event, acquired, freed, picked, attempted, closed_request, close_response,
}

-- What the round tripper returned in the last attempt, if there was one.
unfoldable pub last_reply : List Event → Option Reply
last_reply [] = none
last_reply (acquired x ∷ es) = last_reply es
last_reply (freed x ∷ es) = last_reply es
last_reply (picked i ∷ es) = last_reply es
last_reply (attempted i r rt q ∷ es) = some q
last_reply (closed_request ∷ es) = last_reply es

-- The last event is that Pick returned no peer.
unfoldable pub is_exhausted : List Event → Bool
is_exhausted [] = false
is_exhausted (acquired x ∷ es) = false
is_exhausted (freed x ∷ es) = false
is_exhausted (picked none ∷ es) = true
is_exhausted (picked (some i) ∷ es) = false
is_exhausted (attempted i r rt q ∷ es) = false
is_exhausted (closed_request ∷ es) = false

abbrev IsResponse : ℕ → ℕ → Option Response → Type 0
IsResponse status b none = ⊥
IsResponse status b (some r) = (r.status ≡ status) × (r.body ≡ b)

abbrev IsChecked : ℕ → Option ℕ → Option Failure → Option Response → Option Failure → Type 0
IsChecked status none err r e = (r ≡ none) × (e ≡ some nil_response_body)
IsChecked status (some b) err r e = IsResponse status b r × (e ≡ err)

-- What the round tripper's response and error come to: the same, but an error in place of a response
-- without a body, and of nothing at all.
abbrev pub IsResult : Option Answer → Option Failure → Option Response → Option Failure → Type 0
IsResult none none r e = (r ≡ none) × (e ≡ some invalid_round_trip)
IsResult none (some x) r e = (r ≡ none) × (e ≡ some x)
IsResult (some a) err r e = IsChecked a.status a.body err r e

-- The result of the last attempt, or `err` in place of one.
abbrev pub IsLastOr : Option Failure → Option Reply → Option Response → Option Failure → Type 0
IsLastOr err none r e = (r ≡ none) × (e ≡ err)
IsLastOr err (some q) r e = IsResult q.resp q.err r e

abbrev pub IsLast : Option Reply → Option Response → Option Failure → Type 0
IsLast none r e = ⊥
IsLast (some q) r e = IsResult q.resp q.err r e

-- What breaks off the loop: the end of the caller's context, getBody's error, and a peer that no
-- backend is registered for.
pub data Interruption {S : Type 0} (w : Route) (o : Outside S) (c : Failure) : Type 0 where
  canceled : (k : ℕ) → o.canceled k ≡ some c → Interruption w o c
  canceled_after : (k : ℕ) → o.canceled_after k ≡ some c → Interruption w o c
  no_body : (k : ℕ) → o.get_body k ≡ some c → Interruption w o c
  no_backend : (i : ℕ) → w.backends i ≡ none → c ≡ no_backend_address i → Interruption w o c

pub record IsAnswer {S : Type 0} (w : Route) (o : Outside S) (r : Option Response)
    (e : Option Failure) (es : List Event) : Type 0 where
  pub given : r ≡ none → is_some e ≡ true
  pub exhausted : is_exhausted es ≡ true → IsLastOr (some no_peer_available) (last_reply es) r e
  pub otherwise :
      is_exhausted es ≡ false
      → IsLast (last_reply es) r e
        ⊎ ((r ≡ none) × ((c : Failure) × (e ≡ some c) × Interruption w o c))

pub IsResult-given :
    (a : Option Answer) (f : Option Failure) (r : Option Response) (e : Option Failure)
    → IsResult a f r e
    → r ≡ none
    → is_some e ≡ true
IsResult-given none none r e v q = ap is_some v.1
IsResult-given none (some x) r e v q = ap is_some v.1
IsResult-given (some a) f r e v q = by_body a.body v
  where
    by_response :
        (b : ℕ) (x : Option Response) → x ≡ none → IsResponse a.status b x → is_some e ≡ true
    by_response b none n h = absurd h
    by_response b (some x) n h = cc

    by_body : (b : Option ℕ) → IsChecked a.status b f r e → is_some e ≡ true
    by_body none h = ap is_some h.1
    by_body (some b) h = by_response b r q h.0

pub close_response-last_reply :
    (r : Option Response) (es : List Event) → last_reply (close_response r es) ≡ last_reply es
unfolding close_response last_reply
close_response-last_reply r es = ground arith

pub close_response-is_exhausted :
    (r : Option Response) (es : List Event)
    → is_exhausted es ≡ false
    → is_exhausted (close_response r es) ≡ false
unfolding close_response is_exhausted
close_response-is_exhausted r es v = ground arith
