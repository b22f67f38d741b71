-- ===== src/Trip/Rule.antt =====
-- The loop of RoundTrip: the ways through a round, and total correctness from an invariant that each
-- round keeps, a result that each end has, and a measure that each round which goes on brings down.
use cslb.Prelude.{
  ℕ, zero, suc, ◌<◌, ◌≡◌, refl, Bool, true, false, Option, none, some, arith, if_cases,
  if◌then◌else◌, ◌∷◌,
}
use cslb.Http.{Failure, no_backend_address, Request, Response}
use cslb.Decision.{decide_attempt}
use cslb.Trip.{
  NeutralPicker, Route, Outside, Backend, Trip, TripEnd, Next, picked, stop, go, round, on_pick,
  on_backend, restore_body, give_up, fail, close_last, close_response, release_neutral,
  release_peer, attempt, attempt_request, after_attempt, conclude, canceled_by_caller, trip_loop,
}

module _ {S : Type 0} where
  -- What a round leads to.
  abbrev pub Leads : (TripEnd S → Type 0) → (Trip S → Type 0) → Next S → Type 0
  Leads Q I (stop e) = Q e
  Leads Q I (go t) = I t

  pub Leads-pair :
      (Q R : TripEnd S → Type 0) (I J : Trip S → Type 0) (n : Next S)
      → Leads Q I n
      → Leads R J n
      → Leads (λ e. Q e × R e) (λ t. I t × J t) n
  Leads-pair Q R I J (stop e) a b = (a, b)
  Leads-pair Q R I J (go t) a b = (a, b)

module _ {S : Type 0} (p : NeutralPicker S) (w : Route) (o : Outside S) where
  -- The loop ends with a result that `Q` holds of.
  abbrev pub Finishes : (TripEnd S → Type 0) → Option (TripEnd S) → Type 0
  Finishes Q r = (e : TripEnd S) × (r ≡ some e) × Q e

  module _ (I : Trip S → Type 0) (Q : TripEnd S → Type 0) (left : Trip S → ℕ)
      (keep : (k : ℕ) (s : Trip S)
        → I s
        → Leads Q (λ t. I t × (left t < left s)) (round p w o k s)) where
    next_round :
        (fuel k : ℕ) (s : Trip S) (n : Next S)
        → left s < suc fuel
        → Leads Q (λ t. I t × (left t < left s)) n
        → ((t : Trip S) → left t < fuel → I t → Finishes Q (trip_loop p w o fuel (suc k) t))
        → Finishes Q (elim n [ stop e ↦ some e | go t ↦ trip_loop p w o fuel (suc k) t ])
    next_round fuel k s (stop e) l q rec = (e, refl, q)
    next_round fuel k s (go t) l q rec = rec t (omega (arith, q.1)) q.0

    pub trip_loop-Finishes :
        (fuel k : ℕ) (s : Trip S) → left s < fuel → I s → Finishes Q (trip_loop p w o fuel k s)
    unfolding trip_loop
    trip_loop-Finishes zero k s l v = absurd (omega arith)
    trip_loop-Finishes (suc fuel) k s l v =
        next_round fuel k s (round p w o k s) l (keep k s v)
          (λ t m i. trip_loop-Finishes fuel (suc k) t m i)

module _ {S : Type 0} (p : NeutralPicker S) (w : Route) (o : Outside S) (k : ℕ) where
  -- The state after a pick of `i`, which left `m`.
  abbrev pub found : ℕ → Trip S → S → Trip S
  found i s m = record s { picker = m; events = picked (some i) ∷ s.events }

  -- The state in which an attempt begins, after a pick that left `m`.
  abbrev pub opened : ℕ → Trip S → S → Trip S
  opened i s m = record (close_last (found i s m)) { last_err = none }

  module _ (P : Next S → Type 0) where
    restored :
        (i : ℕ) (req : Request) (s : Trip S)
        → ((e : Failure) → o.get_body k ≡ some e → P (fail (release_neutral p w o k i s) e))
        → P (attempt p w o k i req s)
        → P (restore_body p w o k i req s)
    unfolding restore_body
    restored i req s bad good = with_body w.has_get_body
      where
        either :
            (f : Option Failure)
            → o.get_body k ≡ f
            → P (elim f [
              | some e ↦ fail (release_neutral p w o k i s) e
              | none ↦ attempt p w o k i req s
            ])
        either none q = good
        either (some e) q = bad e q

        with_body :
            (b : Bool)
            → P (elim (if b then o.get_body k else none) [
              | some e ↦ fail (release_neutral p w o k i s) e
              | none ↦ attempt p w o k i req s
            ])
        with_body true = either (o.get_body k) refl
        with_body false = good

    on_backend_rule :
        (i : ℕ) (s : Trip S) (b : Option Backend)
        → (b ≡ none → P (fail (close_last (release_neutral p w o k i s)) (no_backend_address i)))
        → ((e : Failure)
            → o.get_body k ≡ some e
            → P (fail (release_neutral p w o k i (record (close_last s) { last_err = none })) e))
        → ((c : Backend)
            → b ≡ some c
            → P (
                attempt p w o k i
                  (attempt_request w.request c)
                  (record (close_last s) { last_err = none })))
        → P (on_backend p w o k i s b)
    unfolding on_backend
    on_backend_rule i s none unknown bad good = unknown refl
    on_backend_rule i s (some c) unknown bad good =
        restored i (attempt_request w.request c) (record (close_last s) { last_err = none }) bad
          (good c refl)

    -- The ways through a round: the caller has canceled, there is no peer, the peer has no backend,
    -- getBody fails, or there is an attempt.
    pub round_rule :
        (s : Trip S)
        → ((c : Failure) → o.canceled k ≡ some c → P (fail (close_last s) c))
        → ((m : S)
            → p.base.pick (o.clock k) (o.before_pick k s.picker) ≡ (none, m)
            → P (give_up p w o k (record s { picker = m; events = picked none ∷ s.events })))
        → ((i : ℕ) (m : S)
            → p.base.pick (o.clock k) (o.before_pick k s.picker) ≡ (some i, m)
            → w.backends i ≡ none
            → P (
                fail (close_last (release_neutral p w o k i (found i s m))) (no_backend_address i)))
        → ((i : ℕ) (m : S) (e : Failure)
            → p.base.pick (o.clock k) (o.before_pick k s.picker) ≡ (some i, m)
            → o.get_body k ≡ some e
            → P (fail (release_neutral p w o k i (opened i s m)) e))
        → ((i : ℕ) (m : S) (b : Backend)
            → p.base.pick (o.clock k) (o.before_pick k s.picker) ≡ (some i, m)
            → w.backends i ≡ some b
            → P (attempt p w o k i (attempt_request w.request b) (opened i s m)))
        → P (round p w o k s)
    unfolding round
    round_rule s canceled nobody unknown bad good = first (o.canceled k) refl
      where
        by_pick :
            (r : Option ℕ × S)
            → p.base.pick (o.clock k) (o.before_pick k s.picker) ≡ r
            → P (on_pick p w o k (record s { events = picked r.0 ∷ s.events }) r)
        by_pick (none, m) e = nobody m e
        by_pick (some i, m) e =
            on_backend_rule i (found i s m) (w.backends i) (λ q. unknown i m e q)
              (λ f q. bad i m f e q) (λ b q. good i m b e q)

        first :
            (c : Option Failure)
            → o.canceled k ≡ c
            → P (elim c [
              | some f ↦ fail (close_last s) f
              | none ↦
                  let r = p.base.pick (o.clock k) (o.before_pick k s.picker) in
                  on_pick p w o k (record s { events = picked r.0 ∷ s.events }) r
            ])
        first none q = by_pick (p.base.pick (o.clock k) (o.before_pick k s.picker)) refl
        first (some f) q = canceled f q

    -- The ways on from an attempt: the caller has canceled in the meantime, the next peer is tried, or
    -- the result is returned.
    pub after_attempt_rule :
        (i : ℕ) (sent : Bool) (err : Option Failure) (resp : Option Response) (s : Trip S)
        → ((e c : Failure)
            → err ≡ some e
            → o.canceled_after k ≡ some c
            → P (
                fail
                  (record (release_neutral p w o k i s) {
                    events = close_response resp (release_neutral p w o k i s).events;
                  })
                  c))
        → (let d = decide_attempt w.policy w.request.method resp err sent in
            (d.retry ≡ true
              → P (go (record (release_peer p w o k d i s) { last_resp = resp; last_err = err })))
            × (d.retry ≡ false
                → P (
                    stop (record {
                      resp = resp;
                      err = err;
                      picker = (release_peer p w o k d i s).picker;
                      events = (release_peer p w o k d i s).events;
                    }))))
        → P (after_attempt p w o k i sent err (resp, s))
    unfolding after_attempt conclude canceled_by_caller
    after_attempt_rule i sent err resp s canceled concluded = by_error err refl
      where
        last : P (conclude p w o k i sent err (resp, s))
        last =
            let d = decide_attempt w.policy w.request.method resp err sent in
            if_cases P d.retry concluded.0 concluded.1

        by_context :
            (e : Failure) (c : Option Failure)
            → err ≡ some e
            → o.canceled_after k ≡ c
            → P (elim c [
              | none ↦ conclude p w o k i sent err (resp, s)
              | some f ↦
                  let t = release_neutral p w o k i s in
                  fail (record t { events = close_response resp t.events }) f
            ])
        by_context e none q r = last
        by_context e (some f) q r = canceled e f q r

        by_error :
            (x : Option Failure)
            → err ≡ x
            → P (elim (canceled_by_caller p w o k x) [
              | none ↦ conclude p w o k i sent err (resp, s)
              | some f ↦
                  let t = release_neutral p w o k i s in
                  fail (record t { events = close_response resp t.events }) f
            ])
        by_error none q = last
        by_error (some e) q = by_context e (o.canceled_after k) q refl
