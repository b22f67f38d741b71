-- ===== src/RoundTrip/Answers.antt =====
-- RoundTrip returns an answer.
use cslb.Prelude.{
  ℕ, ◌<◌, ◌≡◌, refl, sym, ap, subst, ℤ, pos_part, Bool, true, false, if◌then◌else◌, List, [], ◌∷◌,
  Option, none, some, arith,
}
use cslb.Http.{Failure, Request, Answer, RoundTripper, is_some}
use cslb.Decision.{checked_reply, request_body_may_need_replay, round_trip_once}
use cslb.Body.{Prepared, prepare_body}
use cslb.AnyPicker.{AnyPicker, new_picker}
use cslb.AnyPicker.Safety.{IsReady}
use cslb.AnyPicker.Shared.{shared_picker, IsApart, shared_picker-IsAccountable}
use cslb.Trip.Results.{trip_loop-IsAnswer}
use cslb.Upstream.{Parser}
use cslb.Transport.{
  Transport, Upstream, UpstreamKey, lookup, same_key, TransportOption, new_transport,
}
use cslb.Transport.Way.{
  Incoming, nil_incoming, no_url, whole, Way, way, refuse, direct, balance, route,
}
use cslb.Transport.Listed.{IsRegistered, AllRegistered}
use cslb.Transport.Registered.{new_transport-AllRegistered}
use cslb.Transport.Whole.{picker_of-IsReady}
use cslb.RoundTrip.{Call, Answered, result_of, loop_over, with_picker, round_trip}

-- A response or an error.
abbrev pub IsGiven : Answered → Type 0
IsGiven a = a.0 ≡ none → is_some a.1 ≡ true

abbrev pub Answers : Option Answered → Type 0
Answers r = (a : Answered) × (r ≡ some a) × IsGiven a

-- A test between two upstreams that may be there.
found-IsRegistered :
    (b : Bool) (x u : Upstream) (rest : Option Upstream)
    → IsRegistered x
    → (rest ≡ some u → IsRegistered u)
    → (if b then some x else rest) ≡ some u
    → IsRegistered u
found-IsRegistered true x u rest v r e =
    subst IsRegistered (ap (λ o. elim o [ none ↦ x | some y ↦ y ]) e) v
found-IsRegistered false x u rest v r e = r e

lookup-IsRegistered :
    (parse : Parser) (k : UpstreamKey) (us : List (UpstreamKey × Upstream)) (u : Upstream)
    → AllRegistered parse us
    → lookup k us ≡ some u
    → IsRegistered u
unfolding lookup
lookup-IsRegistered parse k [] u v e = cc
lookup-IsRegistered parse k ((j, x) ∷ us) u v e =
    found-IsRegistered (same_key k j) x u (lookup k us) v.0.registered
      (lookup-IsRegistered parse k us u v.1) e

checked_reply-IsGiven : (r : Option Answer) (e : Option Failure) → IsGiven (checked_reply r e)
unfolding checked_reply
checked_reply-IsGiven r e = ground arith

-- What the first checks lead to.
abbrev IsUsable : Way → Type 0
IsUsable (refuse e) = Unit {0}
IsUsable (direct rt r) = Unit {0}
IsUsable (balance t rt u r) = IsRegistered u

way-IsUsable :
    (parse : Parser) (t : Transport) (req : Incoming) (canceled : Option Failure)
    → AllRegistered parse t.upstreams
    → IsUsable (way (some t) req canceled)
unfolding way
way-IsUsable parse t req canceled v = by_checks t.init_err req t.transport canceled
  where
    by_upstream :
        (rt : RoundTripper) (r : Request) (o : Option Upstream)
        → ((u : Upstream) → o ≡ some u → IsRegistered u)
        → IsUsable (elim o [ none ↦ direct rt r | some u ↦ balance t rt u r ])
    by_upstream rt r none w = tt
    by_upstream rt r (some u) w = w u refl

    by_checks :
        (err : Option Failure) (q : Incoming) (rt : Option RoundTripper) (ended : Option Failure)
        → IsUsable (elim err [
          | some e ↦ refuse e
          | none ↦ elim q [
            | nil_incoming ↦ refuse Failure.nil_request
            | no_url ↦ refuse Failure.nil_request_url
            | whole r ↦ elim rt [
              | none ↦ refuse Failure.nil_round_tripper
              | some x ↦ elim ended [
                | some e ↦ refuse e
                | none ↦
                    elim (lookup (record { scheme = r.scheme; host = r.url_host }) t.upstreams) [
                      | none ↦ direct x r
                      | some u ↦ balance t x u r
                    ]
              ]
            ]
          ]
        ])
    by_checks (some e) q rt ended = tt
    by_checks none nil_incoming rt ended = tt
    by_checks none no_url rt ended = tt
    by_checks none (whole r) none ended = tt
    by_checks none (whole r) (some x) (some e) = tt
    by_checks none (whole r) (some x) none =
        let key : UpstreamKey = record { scheme = r.scheme; host = r.url_host } in
        by_upstream x r (lookup key t.upstreams)
          (λ u. lookup-IsRegistered parse key t.upstreams u v)

module _ (c : Call) (below : (n k m : ℕ) → 0 < m → c.lib.intn n k m < m)
    (apart : IsApart c.outside) where
  loop_over-Answers :
      (t : Transport) (rt : RoundTripper) (u : Upstream) (req : Request) (b : Bool) (p : AnyPicker)
      → IsReady p
      → Answers (loop_over c t rt u req b p)
  unfolding loop_over shared_picker-IsAccountable
  loop_over-Answers t rt u req b p v =
      let (e, q, a) =
        trip_loop-IsAnswer (shared_picker c.lib) (route t rt u req b) c.outside
          (shared_picker-IsAccountable c.lib below c.outside apart)
          (record { picker = p; others = c.others }) v in
      ((e.resp, e.err), ap result_of q, a.given)

  with_picker-Answers :
      (t : Transport) (rt : RoundTripper) (u : Upstream) (req : Request) (p : AnyPicker)
      → IsReady p
      → Answers (with_picker c t rt u req (some p))
  unfolding with_picker
  with_picker-Answers t rt u req p v = by_error b.err
    where
      b : Prepared
      b =
          prepare_body c.files (pos_part t.max_body_buffer)
            (request_body_may_need_replay t.policy u.multiple_usable_peers req.method) c.body

      by_error :
          (o : Option Failure)
          → Answers (elim o [
            | some e ↦ some (none, some e)
            | none ↦ loop_over c t rt u req (is_some b.get_body) p
          ])
      by_error none = loop_over-Answers t rt u req (is_some b.get_body) p v
      by_error (some e) = ((none, some e), refl, λ q. refl)

  way-Answers :
      (x : Way)
      → IsUsable x
      → Answers (elim x [
        | refuse e ↦ some (none, some e)
        | direct rt r ↦ some (round_trip_once c.send (some rt) r)
        | balance t rt u r ↦
            with_picker c t rt u r
              (new_picker c.lib.hashing.crc32 c.addresses u.balancer u.algo u.hash_func r c.from)
      ])
  unfolding round_trip_once
  way-Answers (refuse e) v = ((none, some e), refl, λ q. refl)
  way-Answers (direct rt r) v =
      let reply = c.send rt r in
      (checked_reply reply.resp reply.err, refl, checked_reply-IsGiven reply.resp reply.err)
  way-Answers (balance t rt u r) v =
      let (p, q, ready) = picker_of-IsReady c.lib.hashing.crc32 c.addresses u r c.from v in
      subst (λ x. Answers (with_picker c t rt u r x)) (sym q) (with_picker-Answers t rt u r p ready)

  -- RoundTrip of a transport that NewTransportE has built, whatever its options and their errors, on any
  -- request: it returns, the loop within its fuel, and what it returns is a response or an error. Intn
  -- returns numbers below its bound, and the other requests change only the memory, no configuration
  -- in it, and no connections but their own.
  pub round_trip-Answers :
      (parse : Parser) (make : ℤ → ℕ) (options : List (Option TransportOption)) (req : Incoming)
      → Answers (round_trip c (some (new_transport parse make options)) req)
  unfolding round_trip
  round_trip-Answers parse make options req =
      let t = new_transport parse make options in
      way-Answers (way (some t) req c.canceled)
        (way-IsUsable parse t req c.canceled (new_transport-AllRegistered parse make options))
