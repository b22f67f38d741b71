-- ===== src/Http.antt =====
-- transport.go: errors, requests, responses and round trippers.
-- A Go error is a Failure: a value of errors.New, what fmt.Errorf wraps with %w, what errors.Join
-- joins, or an error of code outside the repository. A host or an address is a list of bytes.
use Prim.Native.String.{String}
use cslb.Prelude.{ℕ, Bool, true, false, ◌||◌, List, Option, none, some}

-- The errors that the configuration adds by errors.New or fmt.Errorf.
pub data Message : Type 0 where
  nil_transport_option ssl_name_transport negative_timeout negative_connect_timeout : Message
  negative_body_buffer nil_next_upstream nil_server_option : Message
  bad_weight bad_max_conns bad_max_fails bad_fail_timeout : Message
  empty_address nil_hash_func misplaced_hash_func unsupported_algorithm : Message
  invalid_address invalid_pattern no_backends no_usable_backends duplicate_upstream : Message
  server_message upstream_message : Message

pub data Failure : Type 0 where
  nil_request nil_request_url nil_round_tripper invalid_round_trip nil_response_body : Failure
  invalid_upstream_config no_peer_available : Failure
  no_backend_address : ℕ → Failure
  described : Message → List ℕ → Failure
  wrapped : Message → List ℕ → Failure → Failure
  joined : Failure → Failure → Failure
  foreign : ℕ → Failure

-- errors.Is for a target that wraps nothing: `test` compares with the target.
unfoldable pub errors_is : (Failure → Bool) → Failure → Bool
errors_is test (wrapped m a e) = errors_is test e
errors_is test (joined e f) = errors_is test e || errors_is test f
errors_is test e = test e

abbrev pub is_nil_response_body : Failure → Bool
is_nil_response_body nil_response_body = true
is_nil_response_body e = false

abbrev pub is_invalid_round_trip : Failure → Bool
is_invalid_round_trip invalid_round_trip = true
is_invalid_round_trip e = false

abbrev pub is_nil_round_tripper : Failure → Bool
is_nil_round_tripper nil_round_tripper = true
is_nil_round_tripper e = false

-- A nil error is `none`, and matches no target.
unfoldable pub is_round_tripper_contract_error : Option Failure → Bool
unfolding errors_is
is_round_tripper_contract_error none = false
is_round_tripper_contract_error (some e) =
    errors_is is_nil_response_body e
    || errors_is is_invalid_round_trip e
    || errors_is is_nil_round_tripper e

-- The fields of http.Request that the transport reads or writes; `host` is the Host header.
pub record Request : Type 0 where
  pub method : String
  pub scheme : List ℕ
  pub url_host : List ℕ
  pub host : List ℕ

-- A response as a round tripper returns it, with a number for its body, if that is not nil.
pub record Answer : Type 0 where
  pub status : ℕ
  pub body : Option ℕ

-- A response that roundTrip has accepted. `cancel` is the attempt whose context a cancelCloser
-- around the body cancels.
pub record Response : Type 0 where
  pub status : ℕ
  pub body : ℕ
  pub cancel : Option ℕ

-- What RoundTrip of an http.RoundTripper returns, and whether one of the httptrace hooks was
-- called.
pub record Reply : Type 0 where
  pub resp : Option Answer
  pub err : Option Failure
  pub wrote : Bool

-- An http.RoundTripper: an *http.Transport, with the TLS server name that a clone of it was given,
-- or one of another type.
pub data RoundTripper : Type 0 where
  standard : ℕ → Option (List ℕ) → RoundTripper
  custom : ℕ → RoundTripper

abbrev pub is_standard : RoundTripper → Bool
is_standard (standard n name) = true
is_standard (custom n) = false

abbrev pub is_some {ℓ} : {A : Type ℓ} → Option A → Bool
is_some none = false
is_some (some a) = true
