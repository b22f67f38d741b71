-- ===== src/Transport.antt =====
-- transport.go: Transport, its options and its registered upstreams.
-- url.Parse and the making of an *http.Transport are parameters.
pub mod Listed
pub mod Registered
pub mod Usable
pub mod Whole
pub mod Way
use cslb.Prelude.{
  ℕ, zero, suc, ltb, ◌==◌, Bool, true, false, not, ◌&&◌, ◌||◌, if◌then◌else◌, ℤ, pos, ltb_ℤ, eqb_ℤ,
  List, [], ◌∷◌, ◌++◌, Option, none, some, get_elem?, length, map,
}
use cslb.Chash.{same_addr}
use cslb.Http.{
  Message, nil_transport_option, ssl_name_transport, negative_timeout, negative_connect_timeout,
  negative_body_buffer, nil_next_upstream, invalid_pattern, no_backends, no_usable_backends,
  duplicate_upstream, upstream_message, Failure, nil_request, nil_request_url, nil_round_tripper,
  invalid_upstream_config, described, wrapped, Request, RoundTripper, standard, custom, is_some,
  Response,
}
use cslb.Decision.{RetryPolicy, Condition, request_body_may_need_replay}
use cslb.Server.{join}
use cslb.Trip.{Backend, Route}
use cslb.Upstream.{
  UpstreamConfig, Url, Parser, absolute, is_empty, Draft, draft, inherit_scheme, normalize,
  HashFunc, AlgorithmType,
}
use cslb.Upstream.Balancers.{usable_peers, Balancer, new_balancer}

pub record UpstreamKey : Type 0 where
  pub scheme : List ℕ
  pub host : List ℕ

-- upstream; the backends by the number of the peer.
pub record Upstream : Type 0 where
  pub balancer : Option Balancer
  pub backends : List Backend
  pub hash_func : Option HashFunc
  pub algo : AlgorithmType
  pub multiple_usable_peers : Bool
  pub ssl_name : List ℕ
  pub transport : Option RoundTripper

-- The map of upstreams is a list in the order of registration.
pub record Transport : Type 0 where
  pub transport : Option RoundTripper
  pub upstreams : List (UpstreamKey × Upstream)
  pub timeout : ℤ
  pub connect_timeout : ℤ
  pub max_body_buffer : ℤ
  pub policy : RetryPolicy
  pub init_err : Option Failure

unfoldable pub add_init_error : Failure → Transport → Transport
unfolding join
add_init_error e t = record t { init_err = some (join t.init_err e) }

abbrev pub same_key : UpstreamKey → UpstreamKey → Bool
same_key k j = same_addr k.scheme j.scheme && same_addr k.host j.host

unfoldable pub lookup : UpstreamKey → List (UpstreamKey × Upstream) → Option Upstream
lookup k [] = none
lookup k ((j, u) ∷ us) = let rest = lookup k us in if same_key k j then some u else rest

-- registerUpstream, from the check of len(cfg.peers) on.
unfoldable pub add_upstream : List ℕ → UpstreamKey → Draft → Transport → Transport
unfolding add_init_error lookup usable_peers new_balancer
add_upstream pattern key c t =
    let usable = usable_peers c.peers in
    if length c.peers == 0
    then add_init_error (described no_backends pattern) t
    else if usable == 0
    then add_init_error (described no_usable_backends pattern) t
    else if is_some (lookup key t.upstreams)
    then add_init_error (described duplicate_upstream (key.scheme ++ key.host)) t
    else record t {
      upstreams =
          t.upstreams
          ++ (
            key,
            record {
              balancer = some (new_balancer c.algo c.peers);
              backends = c.addrs;
              hash_func = c.hash_func;
              algo = c.algo;
              multiple_usable_peers = ltb 1 usable;
              ssl_name = c.ssl_name;
              transport = none;
            },
          )
            ∷ [];
    }

-- What registerUpstream does after normalize.
unfoldable pub register_draft : List ℕ → UpstreamKey → Draft → Transport → Transport
unfolding add_init_error add_upstream
register_draft pattern key c t = elim c.err [
  | some e ↦ add_init_error (wrapped upstream_message pattern e) t
  | none ↦ add_upstream pattern key c t
]

module _ (parse : Parser) where
  unfoldable pub register_upstream : List ℕ → Draft → Transport → Transport
  unfolding add_init_error register_draft
  register_upstream pattern c t = elim (absolute (parse pattern)) [
    | none ↦ add_init_error (described invalid_pattern pattern) t
    | some u ↦
        register_draft pattern (record { scheme = u.scheme; host = u.host })
          (normalize (inherit_scheme u.scheme c)) t
  ]

  unfoldable pub register_explicit_upstream : UpstreamConfig → Transport → Transport
  unfolding register_upstream
  register_explicit_upstream u t = register_upstream u.pattern (draft parse u) t

  unfoldable pub register_all : List UpstreamConfig → Transport → Transport
  unfolding register_explicit_upstream
  register_all [] t = t
  register_all (u ∷ us) t = register_all us (register_explicit_upstream u t)

-- The TransportOptions, with the arguments of the functions that make them.
pub data TransportOption : Type 0 where
  with_round_tripper : Option RoundTripper → TransportOption
  with_timeout with_connect_timeout with_max_body_buffer : ℤ → TransportOption
  with_next_upstream : Option Condition → TransportOption
  with_next_upstream_codes : List ℕ → TransportOption
  with_non_idempotent_retries : TransportOption
  with_upstreams : List UpstreamConfig → TransportOption

unfoldable pub is_code : List ℕ → ℕ → Bool
is_code [] n = false
is_code (c ∷ cs) n = c == n || is_code cs n

-- The condition of WithNextUpstreamCodes; a nil response with a nil error, on which the code panics,
-- is not retried.
unfoldable pub codes_condition : List ℕ → Condition
unfolding is_code
codes_condition codes resp (some e) = true
codes_condition codes none none = false
codes_condition codes (some r) none = is_code codes r.status

unfoldable pub set_next_upstream : Option Condition → Transport → Transport
unfolding add_init_error
set_next_upstream none t = add_init_error (described nil_next_upstream []) t
set_next_upstream (some c) t = record t {
  policy = record { next_upstream = some c; retry_non_idempotent = t.policy.retry_non_idempotent };
}

-- `if d < 0 { addInitError; return }`
abbrev pub unless_negative : ℤ → Message → Transport → Transport → Transport
unless_negative d m t u = if ltb_ℤ d (pos 0) then add_init_error (described m []) t else u

-- A TransportOption, called with the transport.
unfoldable pub apply_option : Parser → TransportOption → Transport → Transport
unfolding add_init_error set_next_upstream register_all
apply_option parse (with_round_tripper none) t = add_init_error nil_round_tripper t
apply_option parse (with_round_tripper (some rt)) t = record t { transport = some rt }
apply_option parse (with_timeout d) t =
    unless_negative d negative_timeout t (record t { timeout = d })
apply_option parse (with_connect_timeout d) t =
    unless_negative d negative_connect_timeout t (record t { connect_timeout = d })
apply_option parse (with_max_body_buffer n) t =
    unless_negative n negative_body_buffer t (record t { max_body_buffer = n })
apply_option parse (with_next_upstream c) t = set_next_upstream c t
apply_option parse (with_next_upstream_codes codes) t =
    set_next_upstream (some (codes_condition codes)) t
apply_option parse with_non_idempotent_retries t = record t {
  policy = record { next_upstream = t.policy.next_upstream; retry_non_idempotent = true };
}
apply_option parse (with_upstreams us) t = register_all parse us t

-- The loop over the options; `none` is a nil option.
unfoldable pub apply_options : Parser → List (Option TransportOption) → Transport → Transport
unfolding apply_option add_init_error
apply_options parse [] t = t
apply_options parse (none ∷ os) t =
    apply_options parse os (add_init_error (described nil_transport_option []) t)
apply_options parse (some o ∷ os) t = apply_options parse os (apply_option parse o t)

abbrev pub default_max_body_buffer : ℤ
default_max_body_buffer = pos 33_554_432

abbrev pub default_dial_timeout : ℤ
default_dial_timeout = pos 30_000_000_000

abbrev pub empty_transport : Transport
empty_transport = record {
  transport = none;
  upstreams = [];
  timeout = pos 0;
  connect_timeout = pos 0;
  max_body_buffer = default_max_body_buffer;
  policy = record { next_upstream = none; retry_non_idempotent = false };
  init_err = none;
}

-- The *http.Transport that is made for a dial timeout.
unfoldable pub default_round_tripper : (ℤ → ℕ) → Transport → Transport
default_round_tripper make t = elim t.transport [
  | some rt ↦ t
  | none ↦
      let dial =
        if eqb_ℤ t.connect_timeout (pos 0) then default_dial_timeout else t.connect_timeout in
      record t { transport = some (standard (make dial) none) }
]

-- The body of the loop over the upstreams: the upstream, and whether its SSL name is refused.
unfoldable pub with_ssl_name : Option RoundTripper → Upstream → Upstream × Bool
with_ssl_name none u = (u, not (is_empty u.ssl_name))
with_ssl_name (some (custom n)) u = (u, not (is_empty u.ssl_name))
with_ssl_name (some (standard n name)) u =
    if is_empty u.ssl_name
    then (u, false)
    else (record u { transport = some (standard n (some u.ssl_name)) }, false)

-- The loop, with what becomes of initErr.
unfoldable pub ssl_transports :
    Option RoundTripper
    → List (UpstreamKey × Upstream)
    → Option Failure
    → List (UpstreamKey × Upstream) × Option Failure
unfolding join with_ssl_name
ssl_transports rt [] err = ([], err)
ssl_transports rt ((k, u) ∷ us) err =
    let r = with_ssl_name rt u in
    let rest =
      ssl_transports rt us
        (if r.1 then some (join err (described ssl_name_transport [])) else err) in
    ((k, r.0) ∷ rest.0, rest.1)

unfoldable pub add_ssl_transports : Transport → Transport
unfolding ssl_transports
add_ssl_transports t =
    let r = ssl_transports t.transport t.upstreams t.init_err in
    record t { upstreams = r.0; init_err = r.1 }

-- NewTransportE; its error is init_err, and so is that of Err.
unfoldable pub new_transport : Parser → (ℤ → ℕ) → List (Option TransportOption) → Transport
unfolding apply_options default_round_tripper add_ssl_transports
new_transport parse make options =
    add_ssl_transports (default_round_tripper make (apply_options parse options empty_transport))

-- Err, of a transport that may be nil.
unfoldable pub err : Option Transport → Option Failure
err none = some nil_round_tripper
err (some t) = t.init_err
