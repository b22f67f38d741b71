-- ===== src/Balancer.antt =====
-- balancer.go: the interface Picker, and the helpers PickOne and PickWithRetry over it.
pub mod Retry
pub mod Finite
pub mod One
use cslb.Prelude.{ℕ, zero, suc, Bool, true, false, if◌then◌else◌, List, Option, none, some}
use cslb.Peer.{Heap}
use cslb.RoundRobin.{Ctx, pick, done}

-- A picker with the memory that it shares is a state. A call reads the clock as often as it has
-- sections; reading number n is `clock n`.
pub record Picker (S : Type 0) : Type 0 where
  pub pick : (ℕ → ℕ) → S → Option ℕ × S
  pub done : (ℕ → ℕ) → Option ℕ → Bool → S → S
  pub addr : S → ℕ → List ℕ

-- RRPicker as a Picker.
abbrev pub rr_picker : Picker Ctx
rr_picker = record {
  pick = λ clock c. pick (clock 0) (clock 1) c;
  done = λ clock peer failed c. done (clock 0) peer failed c;
  addr = λ c i. (c.heap i).addr;
}

-- ErrNilBalancer, ErrNilTryFunc, ErrNoPeerAvailable.
pub data Error : Type 0 where
  nil_balancer nil_try_func no_peer_available : Error

-- A returned peer, a returned error, or the model's fuel running out.
pub data Run : Type 0 where
  ok : ℕ → Run
  err : Error → Run
  out_of_fuel : Run

-- The end of a loop: its result, the number of calls of tryFunc, and the state.
pub record End (S : Type 0) : Type 0 where
  pub result : Run
  pub calls : ℕ
  pub state : S

-- What is outside the loop: the clock in each round, what other requests do to the shared memory
-- before each call of the picker, and whether tryFunc returns a nil error in that round for that
-- address.
pub record Surroundings (S : Type 0) : Type 0 where
  pub clock : ℕ → ℕ → ℕ
  pub before_pick : ℕ → S → S
  pub before_done : ℕ → S → S
  pub attempt : ℕ → List ℕ → Bool

module _ {S : Type 0} (p : Picker S) (w : Surroundings S) where
  unfoldable pub after_attempt : (S → End S) → ℕ → ℕ → S → End S
  after_attempt again k i s =
      if w.attempt k (p.addr s i)
      then record {
        result = ok i;
        calls = suc k;
        state = p.done (w.clock k) (some i) false (w.before_done k s);
      }
      else again (p.done (w.clock k) (some i) true (w.before_done k s))

  unfoldable pub after_pick : (S → End S) → ℕ → Option ℕ × S → End S
  after_pick again k (none, s) = record { result = err no_peer_available; calls = k; state = s }
  after_pick again k (some i, s) = after_attempt again k i s

  -- The `for` of PickWithRetry, in round `k`.
  unfoldable pub retry_loop : ℕ → ℕ → S → End S
  retry_loop zero k s = record { result = out_of_fuel; calls = k; state = s }
  retry_loop (suc fuel) k s =
      after_pick (retry_loop fuel (suc k)) k (p.pick (w.clock k) (w.before_pick k s))

  -- The balancer is nil, or its NewPicker returns a picker that may be nil; `has_func` says whether
  -- tryFunc is not nil.
  unfoldable pub pick_with_retry : ℕ → Option (Option S) → Bool → Run
  pick_with_retry fuel none has_func = err nil_balancer
  pick_with_retry fuel (some pk) has_func =
      if has_func
      then elim pk [ none ↦ err no_peer_available | some s ↦ (retry_loop fuel 0 s).result ]
      else err nil_try_func

-- PickResult: its Peer and its picker may be nil.
pub record PickResult (S : Type 0) : Type 0 where
  pub peer : Option ℕ
  pub picker : Option S

module _ {S : Type 0} (p : Picker S) where
  -- (*PickResult).Done, on a result that may be nil.
  unfoldable pub result_done : (ℕ → ℕ) → Bool → Option (PickResult S) → Option (PickResult S)
  result_done clock failed none = none
  result_done clock failed (some r) = some (record r {
    picker = elim r.picker [ none ↦ none | some s ↦ some (p.done clock r.peer failed s) ];
  })

  unfoldable pub picked_result : Option ℕ × S → Option (PickResult S) × Option S
  picked_result (none, s) = (none, some s)
  picked_result (some i, s) = (some (record { peer = some i; picker = some s }), some s)

  -- PickOne, for the balancers of `pick_with_retry`: the result, and the picker with the memory as
  -- the call leaves them, if there is a picker.
  unfoldable pub pick_one : (ℕ → ℕ) → Option (Option S) → Option (PickResult S) × Option S
  unfolding picked_result
  pick_one clock none = (none, none)
  pick_one clock (some none) = (none, none)
  pick_one clock (some (some s)) = picked_result (p.pick clock s)
