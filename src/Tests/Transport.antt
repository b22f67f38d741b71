-- ===== src/Tests/Transport.antt =====
-- Tests and examples for the transport.
use cslb.Prelude.{
  ℕ, ◌+◌, ◌≤◌, ◌<◌, ◌≡◌, ◌==◌, refl, true, false, pos, [], ◌∷◌, none, some, if◌then◌else◌, length,
  suc, arith,
}
use cslb.Http.{invalid_round_trip, is_round_tripper_contract_error, foreign, Request, custom}
use cslb.Decision.{RetryPolicy, decide_attempt, should_retry, is_non_idempotent_method}
use cslb.Decision.Verdict.{decide_attempt-rules}
use cslb.ClientIp.{
  AddressLib, Origin, client_ip, first_address, client_ip-first_address, cut, split,
}
use cslb.AnyPicker.{AnyPicker, plain, PickLib, ctx_of, with_ctx}
use cslb.AnyPicker.Shared.{Shared, shared_picker, IsApart, Touches, shared_picker-IsAccountable}
use cslb.Trip.{Route, Outside, body, trip_loop, start_trip}
use cslb.Trip.Rule.{Finishes}
use cslb.Trip.Connections.{IsAccountable}
use cslb.Trip.Resources.{times_acquired, times_freed, held_by, trip_loop-resources}
use cslb.Trip.Sending.{times_sent, trip_loop-times_sent}
use cslb.Trip.Forwarding.{AllForwarded, trip_loop-AllForwarded}
use cslb.Trip.Outcome.{IsAnswer}
use cslb.Trip.Results.{trip_loop-IsAnswer}
use cslb.Tests.{request, request-IsSound}

abbrev pub lib : PickLib
lib = record {
  hashing = record { crc32 = length; itoa = λ n. n ∷ [] };
  net = record { to_4 = λ a. some a; to_16 = λ a. some a };
  intn = λ n k m. 0;
}

pub zero_below : (n k m : ℕ) → 0 < m → lib.intn n k m < m
zero_below n k m l = l

-- The first attempt is sent and fails, and the second one is answered.
abbrev pub outside : Outside Shared
outside = record {
  clock = λ k n. 5 + k;
  before_pick = λ k s. s;
  before_done = λ k s. s;
  canceled = λ k. none;
  canceled_after = λ k. none;
  get_body = λ k. none;
  reply = λ k rt req.
      if k == 0 then record { resp = none; err = some (foreign 7); wrote = true } else record {
        resp = some (record { status = 200; body = some 3 });
        err = none;
        wrote = true;
      };
}

same_heap : (p : AnyPicker) → p ≡ with_ctx (λ c. record c { heap = (ctx_of p).heap }) p
same_heap (plain c) = refl
same_heap (AnyPicker.least c) = refl
same_heap (AnyPicker.by_ip p) = refl
same_heap (AnyPicker.by_key p) = refl
same_heap (AnyPicker.on_ring p) = refl
same_heap (AnyPicker.at_random p n) = refl

idle : (s : Shared) → Touches s s
idle s = record {
  heap = (ctx_of s.picker).heap;
  same = same_heap s.picker;
  frame = λ j. refl;
  own = λ j. refl;
}

pub alone : IsApart outside
alone = record { before_pick = λ k s. idle s; before_done = λ k s. idle s }

abbrev accounts : IsAccountable (shared_picker lib) outside
accounts = shared_picker-IsAccountable lib zero_below outside alone

abbrev pub caller : Request
caller = record { method = "POST"; scheme = 104 ∷ []; url_host = 97 ∷ []; host = [] }

abbrev policy : RetryPolicy
policy = record { next_upstream = none; retry_non_idempotent = false }

abbrev posted : Route
posted = record {
  policy = policy;
  request = caller;
  backends = λ i. some (record { scheme = 104 ∷ []; host = i ∷ [] });
  transport = custom 1;
  has_timeout = true;
  has_get_body = false;
}

abbrev begin : Shared
begin = record { picker = plain request; others = λ j. pos 0 }

trip_loop-resources_example :
    Finishes
      (shared_picker lib)
      posted
      outside
      (λ e.
        times_acquired (body 3) e.events ≡ times_freed (body 3) e.events + held_by (body 3) e.resp)
      (trip_loop
        (shared_picker lib)
        posted
        outside
        (suc (accounts.left begin))
        0
        (start_trip begin))
unfolding shared_picker-IsAccountable
trip_loop-resources_example =
    trip_loop-resources (shared_picker lib) posted outside accounts begin (body 3) request-IsSound

trip_loop-times_sent_example :
    Finishes
      (shared_picker lib)
      posted
      outside
      (λ e. times_sent e.events ≤ 1)
      (trip_loop
        (shared_picker lib)
        posted
        outside
        (suc (accounts.left begin))
        0
        (start_trip begin))
unfolding shared_picker-IsAccountable is_non_idempotent_method
trip_loop-times_sent_example =
    trip_loop-times_sent (shared_picker lib) posted outside accounts begin refl refl request-IsSound

trip_loop-IsAnswer_example :
    Finishes
      (shared_picker lib)
      posted
      outside
      (λ e. IsAnswer posted outside e.resp e.err e.events)
      (trip_loop
        (shared_picker lib)
        posted
        outside
        (suc (accounts.left begin))
        0
        (start_trip begin))
unfolding shared_picker-IsAccountable
trip_loop-IsAnswer_example =
    trip_loop-IsAnswer (shared_picker lib) posted outside accounts begin request-IsSound

trip_loop-AllForwarded_example :
    Finishes
      (shared_picker lib)
      posted
      outside
      (λ e. AllForwarded posted e.events)
      (trip_loop
        (shared_picker lib)
        posted
        outside
        (suc (accounts.left begin))
        0
        (start_trip begin))
unfolding shared_picker-IsAccountable
trip_loop-AllForwarded_example =
    trip_loop-AllForwarded (shared_picker lib) posted outside accounts begin request-IsSound

decide_attempt-rules_example :
    let d = decide_attempt policy "POST" none (some (foreign 7)) true in
    (d.retry ≡ false) × (d.neutral ≡ false) × (d.failed ≡ true)
unfolding should_retry is_non_idempotent_method is_round_tripper_contract_error
decide_attempt-rules_example = decide_attempt-rules policy "POST" none (some (foreign 7)) true

abbrev pub addresses : AddressLib
addresses = record {
  parse_ip = λ s. if length s == 4 then some s else none;
  split_host_port = λ s. if length s == 6 then some (1 ∷ 2 ∷ 3 ∷ 4 ∷ []) else none;
  trim_space = λ s. s;
}

-- X-Real-IP does not parse, X-Forwarded-For names two addresses, and RemoteAddr has a port.
abbrev pub origin : Origin
origin = record {
  real_ip = 1 ∷ [];
  forwarded_for = 1 ∷ 2 ∷ 3 ∷ 4 ∷ 44 ∷ 5 ∷ [];
  remote_addr = 1 ∷ 2 ∷ 3 ∷ 4 ∷ 58 ∷ 9 ∷ [];
}

client_ip-first_address_example :
    client_ip addresses origin
    ≡ first_address addresses ((1 ∷ []) ∷ (1 ∷ 2 ∷ 3 ∷ 4 ∷ []) ∷ (1 ∷ 2 ∷ 3 ∷ 4 ∷ []) ∷ [])
client_ip-first_address_example =
    client_ip-first_address addresses origin (1 ∷ 2 ∷ 3 ∷ 4 ∷ []) (1 ∷ 2 ∷ 3 ∷ 4 ∷ [])
      (cut (5 ∷ []) (omega arith, (omega arith, (omega arith, (omega arith, tt)))) refl)
      (split refl) refl refl

-- A round tripper that returns nil and nil: the next peer is tried, and this one is not blamed.
broken_contract :
    decide_attempt policy "GET" none (some invalid_round_trip) true
    ≡ record { retry = true; failed = false; neutral = true }
unfolding decide_attempt should_retry is_non_idempotent_method is_round_tripper_contract_error
broken_contract = refl
