-- ===== src/Upstream/Checked.antt =====
-- The checks of an upstream's configuration.
use cslb.Prelude.{
  ℕ, ◌≡◌, refl, ◌∙◌, Bool, true, false, not, ◌&&◌, ◌||◌, if◌then◌else◌, if_intro, if_cases, pos,
  pos_part, neg_part, ◌≤ℤ◌, ltb_ℤ, eqb_ℤ, List, [], ◌∷◌, ◌++◌, Option, none, some, length,
  length-append, arith,
}
use cslb.Peer.{PeerSpec}
use cslb.Http.{Message, Failure, described, is_some}
use cslb.Server.{ServerConfig, complain, validate, peer_of}
use cslb.Trip.{Backend}
use cslb.Upstream.{
  UpstreamConfig, Url, Parser, absolute, is_empty, has_scheme, Draft, draft, add_error, store_peer,
  add_peer, add_server, add_servers, inherit_all, inherit_scheme, supported_algorithm,
  is_hash_algorithm, check_hash_func, normalize, algo_round_robin, algo_hash,
}

-- The parameters that nginx would accept.
abbrev pub IsValid : PeerSpec → Type 0
IsValid p =
    (pos 0 ≤ℤ p.weight)
    × (pos 0 ≤ℤ p.max_conns)
    × (pos 0 ≤ℤ p.max_fails)
    × (pos 0 ≤ℤ p.fail_timeout)

abbrev pub AllValid : List PeerSpec → Type 0
AllValid [] = Unit {0}
AllValid (p ∷ ps) = IsValid p × AllValid ps

pub complain-none :
    (bad : Bool) (m : Message) (err : Option Failure)
    → complain bad m err ≡ none
    → (bad ≡ false) × (err ≡ none)
unfolding complain
complain-none true m err e = cc
complain-none false m err e = (refl, e)

validate-IsValid : (s : ServerConfig) → validate s ≡ none → IsValid (peer_of s)
unfolding validate peer_of
validate-IsValid s e =
    let no_nil = complain s.nil_option Message.nil_server_option none in
    let bad_weight = ltb_ℤ s.weight (pos 0) || (s.explicit.weight && eqb_ℤ s.weight (pos 0)) in
    let to_weight = complain bad_weight Message.bad_weight no_nil in
    let to_conns = complain (ltb_ℤ s.max_conns (pos 0)) Message.bad_max_conns to_weight in
    let to_fails = complain (ltb_ℤ s.max_fails (pos 0)) Message.bad_max_fails to_conns in
    let timeout =
      complain-none (ltb_ℤ s.fail_timeout (pos 0)) Message.bad_fail_timeout to_fails e in
    let fails =
      complain-none (ltb_ℤ s.max_fails (pos 0)) Message.bad_max_fails to_conns timeout.1 in
    let conns = complain-none (ltb_ℤ s.max_conns (pos 0)) Message.bad_max_conns to_weight fails.1 in
    let weight = complain-none bad_weight Message.bad_weight no_nil conns.1 in
    (
      ground (arith, weight.0),
      ground (arith, conns.0),
      ground (arith, fails.0),
      ground (arith, timeout.0),
    )

-- The list of addresses goes along with that of the peers.
pub record IsPaired (c : Draft) : Type 0 where
  pub same : length c.addrs ≡ length c.peers
  pub valid : AllValid c.peers

AllValid-append :
    (ps : List PeerSpec) (p : PeerSpec) → AllValid ps → IsValid p → AllValid (ps ++ p ∷ [])
AllValid-append [] p v w = (w, tt)
AllValid-append (q ∷ qs) p v w = (v.0, AllValid-append qs p v.1 w)

store_peer-IsPaired :
    (p : PeerSpec) (b : Backend) (c : Draft) → IsValid p → IsPaired c → IsPaired (store_peer p b c)
store_peer-IsPaired p b c w v = record {
  same = omega (arith, length-append c.addrs (b ∷ []), length-append c.peers (p ∷ []), v.same);
  valid = AllValid-append c.peers p v.valid w;
}

add_error-IsPaired : (e : Failure) (c : Draft) → IsPaired c → IsPaired (add_error e c)
unfolding add_error
add_error-IsPaired e c v = record { same = v.same; valid = v.valid }

module _ (parse : Parser) where
  add_peer-IsPaired :
      (p : PeerSpec) (addr : List ℕ) (c : Draft)
      → IsValid p
      → IsPaired c
      → IsPaired (add_peer parse p addr c)
  unfolding add_peer
  add_peer-IsPaired p addr c w v = if_intro IsPaired (is_empty addr) (add_error-IsPaired _ c v) (
      if_intro IsPaired (has_scheme addr) (parsed (absolute (parse addr)))
        (store_peer-IsPaired p _ c w v))
    where
      parsed :
          (o : Option Url)
          → IsPaired (elim o [
            | none ↦ add_error (described Message.invalid_address addr) c
            | some u ↦ store_peer p (record { scheme = u.scheme; host = u.host }) c
          ])
      parsed none = add_error-IsPaired _ c v
      parsed (some u) = store_peer-IsPaired p _ c w v

  add_server-IsPaired :
      (s : ServerConfig) (c : Draft) → IsPaired c → IsPaired (add_server parse s c)
  unfolding add_server
  add_server-IsPaired s c v = checked (validate s) refl
    where
      checked :
          (o : Option Failure)
          → validate s ≡ o
          → IsPaired (elim o [
            | some e ↦ add_error (Failure.wrapped Message.server_message s.address e) c
            | none ↦ add_peer parse (peer_of s) s.address c
          ])
      checked none e = add_peer-IsPaired (peer_of s) s.address c (validate-IsValid s e) v
      checked (some f) e = add_error-IsPaired _ c v

  add_servers-IsPaired :
      (ss : List ServerConfig) (c : Draft) → IsPaired c → IsPaired (add_servers parse ss c)
  unfolding add_servers
  add_servers-IsPaired [] c v = v
  add_servers-IsPaired (s ∷ ss) c v =
      add_servers-IsPaired ss (add_server parse s c) (add_server-IsPaired s c v)

  pub draft-IsPaired : (u : UpstreamConfig) → IsPaired (draft parse u)
  unfolding draft
  draft-IsPaired u = add_servers-IsPaired u.servers _ (record { same = refl; valid = tt })

inherit_all-length :
    (scheme : List ℕ) (ps : List PeerSpec) (bs : List Backend)
    → length bs ≡ length ps
    → length (inherit_all scheme ps bs) ≡ length ps
unfolding inherit_all
inherit_all-length scheme [] bs e = e
inherit_all-length scheme (p ∷ ps) [] e = e
inherit_all-length scheme (p ∷ ps) (b ∷ bs) e =
    omega (arith, inherit_all-length scheme ps bs (omega (arith, e)))

pub inherit_scheme-IsPaired :
    (scheme : List ℕ) (c : Draft) → IsPaired c → IsPaired (inherit_scheme scheme c)
unfolding inherit_scheme
inherit_scheme-IsPaired scheme c v =
    if_intro IsPaired (is_empty c.default_scheme)
      (record { same = inherit_all-length scheme c.peers c.addrs v.same; valid = v.valid }) v

-- What normalize has checked, if it finds no error.
pub record IsChecked (c d : Draft) : Type 0 where
  pub same_peers : d.peers ≡ c.peers
  pub same_addrs : d.addrs ≡ c.addrs
  pub supported : d.err ≡ none → supported_algorithm d.algo ≡ true
  pub keyed : d.err ≡ none → is_some d.hash_func ≡ is_hash_algorithm d.algo

-- A draft with an error passes no check.
refused-IsChecked :
    (e : Failure) (c d : Draft)
    → d.peers ≡ c.peers
    → d.addrs ≡ c.addrs
    → IsChecked c (add_error e d)
unfolding add_error
refused-IsChecked e c d p a = record {
  same_peers = p;
  same_addrs = a;
  supported = λ q. cc;
  keyed = λ q. cc;
}

has_key_iff : (a b : Bool) → (a && not b) ≡ false → (b && not a) ≡ false → a ≡ b
has_key_iff a b p q = ground arith

check_hash_func-IsChecked :
    (c : Draft) → supported_algorithm c.algo ≡ true → IsChecked c (check_hash_func c)
unfolding check_hash_func add_error
check_hash_func-IsChecked c u =
    let keyed = is_hash_algorithm c.algo in
    let misplaced = add_error (described Message.misplaced_hash_func []) c in
    if_cases
      (λ d. IsChecked c (
        if is_hash_algorithm d.algo && not (is_some d.hash_func)
        then add_error (described Message.nil_hash_func []) d
        else d))
      (is_some c.hash_func && not keyed)
      (λ y.
        if_intro (IsChecked c) (keyed && not (is_some c.hash_func))
          (refused-IsChecked (described Message.nil_hash_func []) c misplaced refl refl)
          (refused-IsChecked (described Message.misplaced_hash_func []) c c refl refl))
      (λ n.
        if_cases (IsChecked c) (keyed && not (is_some c.hash_func))
          (λ y. refused-IsChecked (described Message.nil_hash_func []) c c refl refl)
          (λ m. record {
            same_peers = refl;
            same_addrs = refl;
            supported = λ q. u;
            keyed = λ q. has_key_iff (is_some c.hash_func) keyed n m;
          }))

pub normalize-IsChecked : (c : Draft) → IsChecked c (normalize c)
unfolding normalize
normalize-IsChecked c =
    let hashed : Draft = record c { algo = algo_hash } in
    let either : (d : Draft)
        → d.peers ≡ c.peers
        → d.addrs ≡ c.addrs
        → IsChecked c (
            if not (supported_algorithm d.algo)
            then add_error
                (described Message.unsupported_algorithm (pos_part d.algo ∷ neg_part d.algo ∷ [])) d
            else check_hash_func d) =
      λ d p a.
        if_cases (IsChecked c) (not (supported_algorithm d.algo)) (λ y. refused-IsChecked _ c d p a)
          (λ n.
            let k = check_hash_func-IsChecked d (ground (arith, n)) in
            record {
              same_peers = k.same_peers ∙ p;
              same_addrs = k.same_addrs ∙ a;
              supported = k.supported;
              keyed = k.keyed;
            }) in
    if_intro
      (λ d. IsChecked c (
        if not (supported_algorithm d.algo)
        then add_error
            (described Message.unsupported_algorithm (pos_part d.algo ∷ neg_part d.algo ∷ [])) d
        else check_hash_func d))
      (is_some c.hash_func && eqb_ℤ c.algo algo_round_robin) (either hashed refl refl)
      (either c refl refl)
