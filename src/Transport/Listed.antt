-- ===== src/Transport/Listed.antt =====
-- transport.go: the upstreams that registerUpstream adds to a transport.
use cslb.Prelude.{
  ℕ, ◌<◌, ◌==◌, ltb, ◌≡◌, refl, sym, ap, ◌∙◌, subst, true, false, if_intro, if_cases, List, [], ◌∷◌,
  ◌++◌, Option, none, some, length, arith,
}
use cslb.Peer.{PeerSpec}
use cslb.Http.{Message, Failure, described, is_some}
use cslb.Upstream.{
  UpstreamConfig, Url, Parser, absolute, is_empty, Draft, draft, inherit_scheme, normalize,
  supported_algorithm, is_hash_algorithm,
}
use cslb.Upstream.Balancers.{usable_peers, new_balancer}
use cslb.Upstream.Checked.{
  AllValid, IsPaired, IsChecked, draft-IsPaired, inherit_scheme-IsPaired, normalize-IsChecked,
}
use cslb.Upstream.Addresses.{
  IsStored, AllPaired, absolute-some, draft-IsDraft, inherit_scheme-AllPaired,
}
use cslb.Transport.{
  UpstreamKey, Upstream, Transport, add_init_error, lookup, add_upstream, register_draft,
  register_upstream, register_explicit_upstream, register_all,
}

-- An upstream that RoundTrip can use: the balancer is over its peers, each of them has an address and
-- valid parameters, one of them at least is not down, and there is a key function exactly if the
-- algorithm hashes a key.
pub record IsRegistered (u : Upstream) : Type 0 where
  pub peers : List PeerSpec
  pub built : u.balancer ≡ some (new_balancer u.algo peers)
  pub addressed : length u.backends ≡ length peers
  pub valid : AllValid peers
  pub supported : supported_algorithm u.algo ≡ true
  pub keyed : is_some u.hash_func ≡ is_hash_algorithm u.algo
  pub usable : 0 < usable_peers peers
  pub several : u.multiple_usable_peers ≡ ltb 1 (usable_peers peers)

-- An upstream under its key, which has a scheme and a host. For each peer there is one backend, with a
-- host: that of the URL which the peer's address is, or the address and the scheme of the key; and a
-- weight that the caller has given is positive.
pub record IsListed (parse : Parser) (k : UpstreamKey) (u : Upstream) : Type 0 where
  pub registered : IsRegistered u
  pub key_scheme : is_empty k.scheme ≡ false
  pub key_host : is_empty k.host ≡ false
  pub addressed : AllPaired (IsStored parse k.scheme) registered.peers u.backends

abbrev pub AllRegistered : Parser → List (UpstreamKey × Upstream) → Type 0
AllRegistered parse [] = Unit {0}
AllRegistered parse ((k, u) ∷ us) = IsListed parse k u × AllRegistered parse us

AllRegistered-append :
    (parse : Parser) (us : List (UpstreamKey × Upstream)) (k : UpstreamKey) (u : Upstream)
    → AllRegistered parse us
    → IsListed parse k u
    → AllRegistered parse (us ++ (k, u) ∷ [])
AllRegistered-append parse [] k u v w = (w, tt)
AllRegistered-append parse ((j, x) ∷ us) k u v w = (v.0, AllRegistered-append parse us k u v.1 w)

module _ (parse : Parser) where
  -- The transport so far.
  abbrev pub Sound : Transport → Type 0
  Sound t = AllRegistered parse t.upstreams

  pub add_init_error-Sound : (e : Failure) (t : Transport) → Sound t → Sound (add_init_error e t)
  unfolding add_init_error
  add_init_error-Sound e t v = v

  -- What the checks of an upstream have found out.
  record IsReadyToAdd (key : UpstreamKey) (c d : Draft) : Type 0 where
    paired : IsPaired c
    checked : IsChecked c d
    addresses : AllPaired (IsStored parse key.scheme) c.peers c.addrs
    key_scheme : is_empty key.scheme ≡ false
    key_host : is_empty key.host ≡ false

  add_upstream-Sound :
      (pattern : List ℕ) (key : UpstreamKey) (c d : Draft) (t : Transport)
      → IsReadyToAdd key c d
      → d.err ≡ none
      → Sound t
      → Sound (add_upstream pattern key d t)
  unfolding add_upstream add_init_error
  add_upstream-Sound pattern key c d t p r v =
      let q = p.checked in
      if_intro Sound (length d.peers == 0) v (
        if_cases Sound (usable_peers d.peers == 0) (λ y. v)
          (λ n. if_intro Sound (is_some (lookup key t.upstreams)) v (
            AllRegistered-append parse t.upstreams key _ v (record {
              registered = record {
                peers = d.peers;
                built = refl;
                addressed = ap length q.same_addrs ∙ (p.paired.same ∙ ap length (sym q.same_peers));
                valid = subst AllValid (sym q.same_peers) p.paired.valid;
                supported = q.supported r;
                keyed = q.keyed r;
                usable = ground (arith, n);
                several = refl;
              };
              key_scheme = p.key_scheme;
              key_host = p.key_host;
              addressed =
                  subst (λ ps. AllPaired (IsStored parse key.scheme) ps d.addrs) (sym q.same_peers)
                    (subst (AllPaired (IsStored parse key.scheme) c.peers) (sym q.same_addrs)
                      p.addresses);
            }))))

  register_draft-Sound :
      (pattern : List ℕ) (key : UpstreamKey) (c d : Draft) (t : Transport)
      → IsReadyToAdd key c d
      → Sound t
      → Sound (register_draft pattern key d t)
  unfolding register_draft add_init_error
  register_draft-Sound pattern key c d t p v = by_error d.err refl
    where
      by_error :
          (o : Option Failure)
          → d.err ≡ o
          → Sound (elim o [
            | some e ↦ add_init_error (Failure.wrapped Message.upstream_message pattern e) t
            | none ↦ add_upstream pattern key d t
          ])
      by_error (some e) r = v
      by_error none r = add_upstream-Sound pattern key c d t p r v

  register_explicit_upstream-Sound :
      (u : UpstreamConfig) (t : Transport) → Sound t → Sound (register_explicit_upstream parse u t)
  unfolding register_explicit_upstream register_upstream add_init_error
  register_explicit_upstream-Sound u t v = by_url (absolute (parse u.pattern)) refl
    where
      c : Draft
      c = draft parse u

      by_url :
          (o : Option Url)
          → absolute (parse u.pattern) ≡ o
          → Sound (elim o [
            | none ↦ add_init_error (described Message.invalid_pattern u.pattern) t
            | some x ↦
                register_draft u.pattern
                  (record { scheme = x.scheme; host = x.host })
                  (normalize (inherit_scheme x.scheme c))
                  t
          ])
      by_url none e = v
      by_url (some x) e =
          let d = inherit_scheme x.scheme c in
          let (given, to_scheme, to_host) = absolute-some (parse u.pattern) x e in
          register_draft-Sound u.pattern (record { scheme = x.scheme; host = x.host }) d
            (normalize d) t
            (record {
              paired = inherit_scheme-IsPaired x.scheme c (draft-IsPaired parse u);
              checked = normalize-IsChecked d;
              addresses = inherit_scheme-AllPaired parse x.scheme c (draft-IsDraft parse u);
              key_scheme = to_scheme;
              key_host = to_host;
            })
            v

  pub register_all-Sound :
      (us : List UpstreamConfig) (t : Transport) → Sound t → Sound (register_all parse us t)
  unfolding register_all
  register_all-Sound [] t v = v
  register_all-Sound (u ∷ us) t v =
      register_all-Sound us (register_explicit_upstream parse u t)
        (register_explicit_upstream-Sound u t v)
