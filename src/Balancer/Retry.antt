-- ===== src/Balancer/Retry.antt =====
-- PickWithRetry ends, whatever tryFunc returns and other requests do.
use cslb.Prelude.{
  ℕ, zero, suc, ◌+◌, ◌≤◌, ◌<◌, ◌≡◌, refl, sym, ap, subst, inl, inr, Bool, true, false, Option, none,
  some, arith, Bool-cases,
}
use cslb.Balancer.{
  Picker, ok, err, no_peer_available, End, Surroundings, after_attempt, after_pick, retry_loop,
}

-- What PickWithRetry relies on: a measure that every successful pick brings down, and that nothing
-- else brings up.
pub record IsFinite {S : Type 0} (p : Picker S) (w : Surroundings S) : Type 1 where
  pub Inv : S → Type 0
  pub left : S → ℕ
  pub pick_keeps : (clock : ℕ → ℕ) (s : S) → Inv s → Inv (p.pick clock s).1
  pub pick_less :
      (clock : ℕ → ℕ) (s : S) (i : ℕ)
      → Inv s
      → (p.pick clock s).0 ≡ some i
      → left (p.pick clock s).1 < left s
  pub done_keeps :
      (clock : ℕ → ℕ) (i : ℕ) (failed : Bool) (s : S)
      → Inv s
      → Inv (p.done clock (some i) failed s) × (left (p.done clock (some i) failed s) ≤ left s)
  pub before_pick_keeps :
      (k : ℕ) (s : S) → Inv s → Inv (w.before_pick k s) × (left (w.before_pick k s) ≤ left s)
  pub before_done_keeps :
      (k : ℕ) (s : S) → Inv s → Inv (w.before_done k s) × (left (w.before_done k s) ≤ left s)

module _ {S : Type 0} (p : Picker S) (w : Surroundings S) where
  -- What round `k` of the loop picks, and leaves.
  abbrev pub picked_in : ℕ → S → Option ℕ × S
  picked_in k s = p.pick (w.clock k) (w.before_pick k s)

  -- The state after round `k` has reported that the try of `i` failed or not.
  abbrev pub reported : Bool → ℕ → S → ℕ → S
  reported failed k s i = p.done (w.clock k) (some i) failed (w.before_done k (picked_in k s).1)

  -- From round `k` in one state to round `j` in another, every peer that was picked was tried at its
  -- address in vain, and reported as failed.
  pub data InVain : ℕ → S → ℕ → S → Type 0 where
    here : {k : ℕ} {s : S} → InVain k s k s
    tried :
        {k j : ℕ} {s t : S} {i : ℕ}
        → (picked_in k s).0 ≡ some i
        → w.attempt k (p.addr (picked_in k s).1 i) ≡ false
        → InVain (suc k) (reported true k s i) j t
        → InVain k s j t

  -- How round `j` ends the loop.
  pub data Closed (j : ℕ) (t : S) (e : End S) : Type 0 where
    success :
        (i : ℕ)
        → (picked_in j t).0 ≡ some i
        → w.attempt j (p.addr (picked_in j t).1 i) ≡ true
        → e.result ≡ ok i
        → e.calls ≡ suc j
        → e.state ≡ reported false j t i
        → Closed j t e
    exhausted :
        (picked_in j t).0 ≡ none
        → e.result ≡ err no_peer_available
        → e.calls ≡ j
        → e.state ≡ (picked_in j t).1
        → Closed j t e

  -- From round `k`, all tries but the last one are in vain, and then the loop ends with a peer that was
  -- picked and tried with success, or because there is none; `most` bounds the calls of tryFunc.
  pub record Ends (k : ℕ) (s : S) (most : ℕ) (e : End S) : Type 0 where
    pub bounded : e.calls ≤ most
    pub last_round : ℕ
    pub last_state : S
    pub in_vain : InVain k s last_round last_state
    pub closed : Closed last_round last_state e

  pick_cases :
      (again : S → End S) (k most : ℕ) (s : S) (r : Option ℕ × S)
      → picked_in k s ≡ r
      → k ≤ most
      → ((i : ℕ) → r.0 ≡ some i → k < most)
      → ((i : ℕ)
          → r.0 ≡ some i
          → Ends (suc k) (reported true k s i) most (again (reported true k s i)))
      → Ends k s most (after_pick p w again k r)
  unfolding after_pick after_attempt
  pick_cases again k most s (none, m) q h less rec = record {
    bounded = h;
    last_round = k;
    last_state = s;
    in_vain = here;
    closed = exhausted (ap (λ x. x.0) q) refl refl (sym (ap (λ x. x.1) q));
  }
  pick_cases again k most s (some i, m) q h less rec =
      elim (Bool-cases (w.attempt k (p.addr m i))) [
        | inl y ↦
            rw (y, after_attempt)
              (record {
                bounded = less i refl;
                last_round = k;
                last_state = s;
                in_vain = here;
                closed =
                    success i (ap (λ x. x.0) q)
                      (subst (λ n. w.attempt k (p.addr n i) ≡ true) (sym (ap (λ x. x.1) q)) y) refl
                      refl
                      (ap (λ n. p.done (w.clock k) (some i) false (w.before_done k n))
                        (sym (ap (λ x. x.1) q)));
              })
        | inr n ↦
            rw (n, after_attempt)
              (subst
                (λ n. Ends k s most (again (p.done (w.clock k) (some i) true (w.before_done k n))))
                (ap (λ x. x.1) q)
                (later (rec i refl)
                  (subst (λ n. w.attempt k (p.addr n i) ≡ false) (sym (ap (λ x. x.1) q)) n)))
      ]
    where
      later :
          {e : End S}
          → Ends (suc k) (reported true k s i) most e
          → w.attempt k (p.addr (picked_in k s).1 i) ≡ false
          → Ends k s most e
      later v n = record {
        bounded = v.bounded;
        last_round = v.last_round;
        last_state = v.last_state;
        in_vain = tried (ap (λ x. x.0) q) n v.in_vain;
        closed = v.closed;
      }

  module _ (f : IsFinite p w) where
    pub retry_loop-Ends :
        (fuel k most : ℕ) (s : S)
        → f.Inv s
        → f.left s < fuel
        → k + f.left s ≤ most
        → Ends k s most (retry_loop p w fuel k s)
    unfolding retry_loop
    retry_loop-Ends zero k most s v h b = absurd (omega arith)
    retry_loop-Ends (suc fuel) k most s v h b =
        let t = w.before_pick k s in
        let before = f.before_pick_keeps k s v in
        let r = p.pick (w.clock k) t in
        let during = f.before_done_keeps k r.1 (f.pick_keeps (w.clock k) t before.0) in
        pick_cases (retry_loop p w fuel (suc k)) k most s r refl (omega arith)
          (λ i e. omega (arith, before.1, f.pick_less (w.clock k) t i before.0 e))
          (λ i e.
            let after = f.done_keeps (w.clock k) i true (w.before_done k r.1) during.0 in
            let fewer = f.pick_less (w.clock k) t i before.0 e in
            retry_loop-Ends fuel (suc k) most
              (p.done (w.clock k) (some i) true (w.before_done k r.1)) after.0
              (omega (arith, before.1, fewer, during.1, after.1))
              (omega (arith, before.1, fewer, during.1, after.1)))
