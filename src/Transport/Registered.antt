-- ===== src/Transport/Registered.antt =====
-- What NewTransportE registers.
use cslb.Prelude.{
  ℕ, Bool, if◌then◌else◌, if_intro, ℤ, pos, ltb_ℤ, eqb_ℤ, List, [], ◌∷◌, Option, none, some,
}
use cslb.Http.{Message, Failure, described, RoundTripper, standard, custom}
use cslb.Server.{join}
use cslb.Upstream.{Parser, is_empty}
use cslb.Transport.{
  UpstreamKey, Upstream, Transport, add_init_error, TransportOption, with_round_tripper,
  with_timeout, with_connect_timeout, with_max_body_buffer, with_next_upstream,
  with_next_upstream_codes, with_non_idempotent_retries, with_upstreams, set_next_upstream,
  apply_option, apply_options, default_round_tripper, default_dial_timeout, with_ssl_name,
  ssl_transports, add_ssl_transports, empty_transport, new_transport,
}
use cslb.Transport.Listed.{IsListed, AllRegistered, Sound, add_init_error-Sound, register_all-Sound}

module _ (parse : Parser) where
  apply_option-Sound :
      (o : TransportOption) (t : Transport) → Sound parse t → Sound parse (apply_option parse o t)
  unfolding apply_option set_next_upstream add_init_error
  apply_option-Sound (with_round_tripper none) t v = v
  apply_option-Sound (with_round_tripper (some rt)) t v = v
  apply_option-Sound (with_timeout d) t v = if_intro (Sound parse) (ltb_ℤ d (pos 0)) v v
  apply_option-Sound (with_connect_timeout d) t v = if_intro (Sound parse) (ltb_ℤ d (pos 0)) v v
  apply_option-Sound (with_max_body_buffer n) t v = if_intro (Sound parse) (ltb_ℤ n (pos 0)) v v
  apply_option-Sound (with_next_upstream none) t v = v
  apply_option-Sound (with_next_upstream (some c)) t v = v
  apply_option-Sound (with_next_upstream_codes codes) t v = v
  apply_option-Sound with_non_idempotent_retries t v = v
  apply_option-Sound (with_upstreams us) t v = register_all-Sound parse us t v

  apply_options-Sound :
      (os : List (Option TransportOption)) (t : Transport)
      → Sound parse t
      → Sound parse (apply_options parse os t)
  unfolding apply_options
  apply_options-Sound [] t v = v
  apply_options-Sound (none ∷ os) t v =
      apply_options-Sound os (add_init_error (described Message.nil_transport_option []) t)
        (add_init_error-Sound parse (described Message.nil_transport_option []) t v)
  apply_options-Sound (some o ∷ os) t v =
      apply_options-Sound os (apply_option parse o t) (apply_option-Sound o t v)

  with_transport-IsListed :
      (k : UpstreamKey) (u : Upstream) (rt : Option RoundTripper)
      → IsListed parse k u
      → IsListed parse k (record u { transport = rt })
  with_transport-IsListed k u rt v = record {
    registered = record {
      peers = v.registered.peers;
      built = v.registered.built;
      addressed = v.registered.addressed;
      valid = v.registered.valid;
      supported = v.registered.supported;
      keyed = v.registered.keyed;
      usable = v.registered.usable;
      several = v.registered.several;
    };
    key_scheme = v.key_scheme;
    key_host = v.key_host;
    addressed = v.addressed;
  }

  with_ssl_name-IsListed :
      (k : UpstreamKey) (rt : Option RoundTripper) (u : Upstream)
      → IsListed parse k u
      → IsListed parse k (with_ssl_name rt u).0
  unfolding with_ssl_name
  with_ssl_name-IsListed k none u v = v
  with_ssl_name-IsListed k (some (custom n)) u v = v
  with_ssl_name-IsListed k (some (standard n name)) u v =
      if_intro (λ (r : Upstream × Bool). IsListed parse k r.0) (is_empty u.ssl_name) v
        (with_transport-IsListed k u (some (standard n (some u.ssl_name))) v)

  ssl_transports-AllRegistered :
      (rt : Option RoundTripper) (us : List (UpstreamKey × Upstream)) (err : Option Failure)
      → AllRegistered parse us
      → AllRegistered parse (ssl_transports rt us err).0
  unfolding ssl_transports
  ssl_transports-AllRegistered rt [] err v = tt
  ssl_transports-AllRegistered rt ((k, u) ∷ us) err v =
      let refused = (with_ssl_name rt u).1 in
      let failed = some (join err (described Message.ssl_name_transport [])) in
      (
        with_ssl_name-IsListed k rt u v.0,
        ssl_transports-AllRegistered rt us (if refused then failed else err) v.1,
      )

  default_round_tripper-Sound :
      (make : ℤ → ℕ) (t : Transport) → Sound parse t → Sound parse (default_round_tripper make t)
  unfolding default_round_tripper
  default_round_tripper-Sound make t v = by_transport t.transport
    where
      by_transport :
          (o : Option RoundTripper)
          → Sound parse (elim o [
            | some rt ↦ t
            | none ↦
                let dial =
                  if eqb_ℤ t.connect_timeout (pos 0)
                  then default_dial_timeout
                  else t.connect_timeout in
                record t { transport = some (standard (make dial) none) }
          ])
      by_transport none = v
      by_transport (some rt) = v

pub new_transport-AllRegistered :
    (parse : Parser) (make : ℤ → ℕ) (options : List (Option TransportOption))
    → AllRegistered parse (new_transport parse make options).upstreams
unfolding new_transport add_ssl_transports
new_transport-AllRegistered parse make options =
    let t = default_round_tripper make (apply_options parse options empty_transport) in
    ssl_transports-AllRegistered parse t.transport t.upstreams t.init_err (
      default_round_tripper-Sound parse make (apply_options parse options empty_transport)
        (apply_options-Sound parse options empty_transport tt))
