-- ===== src/Transport/Way.antt =====
-- transport.go: the first checks of RoundTrip, and what its loop takes from the transport.
use cslb.Prelude.{Bool, pos, ltb_ℤ, Option, none, some, get_elem?}
use cslb.Http.{Failure, nil_request, nil_request_url, nil_round_tripper, Request, RoundTripper}
use cslb.Trip.{Route}
use cslb.Transport.{Transport, Upstream, lookup}

-- The request of a caller: nil, without a URL, or whole.
pub data Incoming : Type 0 where
  nil_incoming no_url : Incoming
  whole : Request → Incoming

-- What RoundTrip does with a request: it fails, it leaves it to the round tripper, or it balances.
pub data Way : Type 0 where
  refuse : Failure → Way
  direct : RoundTripper → Request → Way
  balance : Transport → RoundTripper → Upstream → Request → Way

-- The first checks of RoundTrip, with the error of the request's context.
unfoldable pub way : Option Transport → Incoming → Option Failure → Way
unfolding lookup
way none req canceled = refuse nil_round_tripper
way (some t) req canceled = elim t.init_err [
  | some e ↦ refuse e
  | none ↦ elim req [
    | nil_incoming ↦ refuse nil_request
    | no_url ↦ refuse nil_request_url
    | whole r ↦ elim t.transport [
      | none ↦ refuse nil_round_tripper
      | some rt ↦ elim canceled [
        | some e ↦ refuse e
        | none ↦ elim (lookup (record { scheme = r.scheme; host = r.url_host }) t.upstreams) [
          | none ↦ direct rt r
          | some u ↦ balance t rt u r
        ]
      ]
    ]
  ]
]

-- What the loop takes from the transport and an upstream; `has_get_body` is what prepareBody tells.
unfoldable pub route : Transport → RoundTripper → Upstream → Request → Bool → Route
route t rt u req has_get_body = record {
  policy = t.policy;
  request = req;
  backends = get_elem? u.backends;
  transport = elim u.transport [ none ↦ rt | some ssl ↦ ssl ];
  has_timeout = ltb_ℤ (pos 0) t.timeout;
  has_get_body = has_get_body;
}
