-- ===== src/Upstream/Addresses.antt =====
-- The addresses of an upstream's peers: what each one's backend is made from.
use cslb.Prelude.{
  ℕ, ◌≡◌, refl, true, false, ◌&&◌, ◌||◌, if◌then◌else◌, if_cases, pos, ◌<ℤ◌, ltb_ℤ, eqb_ℤ, List, [],
  ◌∷◌, ◌++◌, Option, none, some, arith,
}
use cslb.Peer.{PeerSpec}
use cslb.Http.{Message, Failure, described}
use cslb.Server.{ServerConfig, complain, validate, peer_of}
use cslb.Trip.{Backend}
use cslb.Upstream.{
  UpstreamConfig, Url, Parser, absolute, is_empty, has_scheme, Draft, draft, add_error, store_peer,
  add_peer, add_server, add_servers, inherit_all, inherit_scheme,
}
use cslb.Upstream.Checked.{complain-none}

-- The scheme and the host of a peer's backend: from the URL that its address is, or `scheme` and the
-- address itself, if the address has no scheme.
pub data IsAddressed (parse : Parser) (scheme : List ℕ) (p : PeerSpec) (b : Backend) : Type 0 where
  inherited :
      has_scheme p.addr ≡ false → b.scheme ≡ scheme → b.host ≡ p.addr → IsAddressed parse scheme p b
  own :
      (u : Url)
      → has_scheme p.addr ≡ true
      → parse p.addr ≡ some u
      → b.scheme ≡ u.scheme
      → b.host ≡ u.host
      → is_empty u.scheme ≡ false
      → IsAddressed parse scheme p b

-- A peer, with its backend, as addPeer accepts it: also, a weight that the caller has given is
-- positive.
pub record IsStored (parse : Parser) (scheme : List ℕ) (p : PeerSpec) (b : Backend) : Type 0 where
  pub address : IsAddressed parse scheme p b
  pub some_host : is_empty b.host ≡ false
  pub weighted : p.explicit.weight ≡ true → pos 0 <ℤ p.weight

-- Two lists that go along with each other.
abbrev pub AllPaired : (PeerSpec → Backend → Type 0) → List PeerSpec → List Backend → Type 0
AllPaired R [] [] = Unit {0}
AllPaired R [] (b ∷ bs) = ⊥
AllPaired R (p ∷ ps) [] = ⊥
AllPaired R (p ∷ ps) (b ∷ bs) = R p b × AllPaired R ps bs

AllPaired-append :
    (R : PeerSpec → Backend → Type 0) (ps : List PeerSpec) (bs : List Backend) (p : PeerSpec)
    (b : Backend)
    → AllPaired R ps bs
    → R p b
    → AllPaired R (ps ++ p ∷ []) (bs ++ b ∷ [])
AllPaired-append R [] [] p b v w = (w, tt)
AllPaired-append R [] (c ∷ cs) p b v w = absurd v
AllPaired-append R (q ∷ qs) [] p b v w = absurd v
AllPaired-append R (q ∷ qs) (c ∷ cs) p b v w = (v.0, AllPaired-append R qs cs p b v.1 w)

pub absolute-some :
    (o : Option Url) (u : Url)
    → absolute o ≡ some u
    → (o ≡ some u) × (is_empty u.scheme ≡ false) × (is_empty u.host ≡ false)
unfolding absolute
absolute-some none u e = cc
absolute-some (some x) u e = ground arith

validate-weight :
    (s : ServerConfig) → validate s ≡ none → s.explicit.weight ≡ true → pos 0 <ℤ s.weight
unfolding validate
validate-weight s e x =
    let no_nil = complain s.nil_option Message.nil_server_option none in
    let bad_weight = ltb_ℤ s.weight (pos 0) || (s.explicit.weight && eqb_ℤ s.weight (pos 0)) in
    let to_weight = complain bad_weight Message.bad_weight no_nil in
    let to_conns = complain (ltb_ℤ s.max_conns (pos 0)) Message.bad_max_conns to_weight in
    let to_fails = complain (ltb_ℤ s.max_fails (pos 0)) Message.bad_max_fails to_conns in
    let timeout =
      complain-none (ltb_ℤ s.fail_timeout (pos 0)) Message.bad_fail_timeout to_fails e in
    let fails =
      complain-none (ltb_ℤ s.max_fails (pos 0)) Message.bad_max_fails to_conns timeout.1 in
    let conns = complain-none (ltb_ℤ s.max_conns (pos 0)) Message.bad_max_conns to_weight fails.1 in
    let weight = complain-none bad_weight Message.bad_weight no_nil conns.1 in
    ground (arith, weight.0, x)

-- Before registration, no scheme is known.
pub record IsDraft (parse : Parser) (c : Draft) : Type 0 where
  pub no_scheme : c.default_scheme ≡ []
  pub paired : AllPaired (IsStored parse []) c.peers c.addrs

module _ (parse : Parser) where
  add_error-IsDraft : (e : Failure) (c : Draft) → IsDraft parse c → IsDraft parse (add_error e c)
  unfolding add_error
  add_error-IsDraft e c v = record { no_scheme = v.no_scheme; paired = v.paired }

  store_peer-IsDraft :
      (p : PeerSpec) (b : Backend) (c : Draft)
      → IsStored parse [] p b
      → IsDraft parse c
      → IsDraft parse (store_peer p b c)
  store_peer-IsDraft p b c w v = record {
    no_scheme = v.no_scheme;
    paired = AllPaired-append (IsStored parse []) c.peers c.addrs p b v.paired w;
  }

  add_peer-IsDraft :
      (p : PeerSpec) (c : Draft)
      → (p.explicit.weight ≡ true → pos 0 <ℤ p.weight)
      → IsDraft parse c
      → IsDraft parse (add_peer parse p p.addr c)
  unfolding add_peer
  add_peer-IsDraft p c w v =
      if_cases (IsDraft parse) (is_empty p.addr) (λ y. add_error-IsDraft _ c v)
        (λ full.
          if_cases (IsDraft parse) (has_scheme p.addr)
            (λ y. parsed y (absolute (parse p.addr)) refl)
            (λ n.
              store_peer-IsDraft p _ c
                (record { address = inherited n v.no_scheme refl; some_host = full; weighted = w })
                v))
    where
      parsed :
          has_scheme p.addr ≡ true
          → (o : Option Url) → absolute (parse p.addr) ≡ o
          → IsDraft parse (elim o [
            | none ↦ add_error (described Message.invalid_address p.addr) c
            | some u ↦ store_peer p (record { scheme = u.scheme; host = u.host }) c
          ])
      parsed y none e = add_error-IsDraft _ c v
      parsed y (some u) e =
          let (given, to_scheme, to_host) = absolute-some (parse p.addr) u e in
          store_peer-IsDraft p _ c
            (record {
              address = own u y given refl refl to_scheme;
              some_host = to_host;
              weighted = w;
            })
            v

  add_server-IsDraft :
      (s : ServerConfig) (c : Draft) → IsDraft parse c → IsDraft parse (add_server parse s c)
  unfolding add_server peer_of
  add_server-IsDraft s c v = checked (validate s) refl
    where
      checked :
          (o : Option Failure)
          → validate s ≡ o
          → IsDraft parse (elim o [
            | some e ↦ add_error (Failure.wrapped Message.server_message s.address e) c
            | none ↦ add_peer parse (peer_of s) s.address c
          ])
      checked none e = add_peer-IsDraft (peer_of s) c (validate-weight s e) v
      checked (some f) e = add_error-IsDraft _ c v

  add_servers-IsDraft :
      (ss : List ServerConfig) (c : Draft)
      → IsDraft parse c
      → IsDraft parse (add_servers parse ss c)
  unfolding add_servers
  add_servers-IsDraft [] c v = v
  add_servers-IsDraft (s ∷ ss) c v =
      add_servers-IsDraft ss (add_server parse s c) (add_server-IsDraft s c v)

  pub draft-IsDraft : (u : UpstreamConfig) → IsDraft parse (draft parse u)
  unfolding draft
  draft-IsDraft u = add_servers-IsDraft u.servers _ (record { no_scheme = refl; paired = tt })

  inherit-IsStored :
      (scheme : List ℕ) (p : PeerSpec) (b : Backend)
      → IsStored parse [] p b
      → IsStored parse scheme p (if has_scheme p.addr then b else record b { scheme = scheme })
  inherit-IsStored scheme p b v = by_address v.address
    where
      by_address :
          IsAddressed parse [] p b
          → IsStored parse scheme p (if has_scheme p.addr then b else record b { scheme = scheme })
      by_address (inherited n s h) =
          rw n (record {
            address = inherited n refl h;
            some_host = v.some_host;
            weighted = v.weighted;
          })
      by_address (own u y q s h e) =
          rw y
            (record { address = own u y q s h e; some_host = v.some_host; weighted = v.weighted })

  inherit_all-AllPaired :
      (scheme : List ℕ) (ps : List PeerSpec) (bs : List Backend)
      → AllPaired (IsStored parse []) ps bs
      → AllPaired (IsStored parse scheme) ps (inherit_all scheme ps bs)
  unfolding inherit_all
  inherit_all-AllPaired scheme [] [] v = tt
  inherit_all-AllPaired scheme [] (b ∷ bs) v = absurd v
  inherit_all-AllPaired scheme (p ∷ ps) [] v = absurd v
  inherit_all-AllPaired scheme (p ∷ ps) (b ∷ bs) v =
      (inherit-IsStored scheme p b v.0, inherit_all-AllPaired scheme ps bs v.1)

  pub inherit_scheme-AllPaired :
      (scheme : List ℕ) (c : Draft)
      → IsDraft parse c
      → let d = inherit_scheme scheme c in AllPaired (IsStored parse scheme) d.peers d.addrs
  unfolding inherit_scheme
  inherit_scheme-AllPaired scheme c v =
      rw (v.no_scheme) (inherit_all-AllPaired scheme c.peers c.addrs v.paired)
