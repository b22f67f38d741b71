-- ===== src/Decision/Verdict.antt =====
-- The rules by which an attempt is judged, one for each field of the decision.
use Prim.Native.String.{String}
use cslb.Prelude.{◌≡◌, ◌==◌, Bool, false, not, ◌&&◌, ◌||◌, Option, none, some, arith}
use cslb.Http.{Failure, Response, is_round_tripper_contract_error}
use cslb.Decision.{
  RetryPolicy, should_retry, is_non_idempotent_method, spare_status, decide_attempt,
}

-- The gate for POST, LOCK and PATCH.
abbrev is_gated : RetryPolicy → String → Bool → Bool
is_gated t method sent = sent && is_non_idempotent_method method && not t.retry_non_idempotent

-- A response that may be passed on to the next peer but is no failure of its peer: by its status,
-- or since the gate is closed.
abbrev is_spared : Bool → Option Response → Option Failure → Bool
is_spared gated (some r) none = r.status == 403 || r.status == 404 || gated
is_spared gated none err = false
is_spared gated (some r) (some e) = false

-- For every transport, method and result of an attempt: it is retried exactly if the condition asks
-- for it and the gate for sent POST, LOCK and PATCH is open; the peer is released neutrally exactly if
-- the round tripper broke its contract; and it is blamed exactly if the condition asks for a retry, the
-- round tripper kept its contract, and the result is not a response with status 403 or 404 or one that
-- the gate has stopped. So a transport error of a sent POST is blamed, and a response to it is not.
pub decide_attempt-rules :
    (t : RetryPolicy) (method : String) (resp : Option Response) (err : Option Failure)
    (sent : Bool)
    → let d = decide_attempt t method resp err sent in
      let asked = should_retry t resp err in
      (d.retry ≡ asked && not (is_gated t method sent))
      × (d.neutral ≡ is_round_tripper_contract_error err)
      × (d.failed
          ≡ asked
            && not (is_round_tripper_contract_error err)
            && not (is_spared (is_gated t method sent) resp err))
unfolding decide_attempt spare_status
decide_attempt-rules t method resp err sent = ground arith
