-- ===== src/Upstream.antt =====
-- transport.go: the configuration of an upstream, up to normalize.
-- A new *Peer is the number of its place among the upstream's peers, so that the map of addresses is a
-- list beside the list of peers.
pub mod Checked
pub mod Balancers
pub mod Addresses
use cslb.Prelude.{
  ℕ, zero, suc, ◌+◌, ◌==◌, Bool, true, false, not, ◌&&◌, ◌||◌, if◌then◌else◌, ℤ, pos, pos_part,
  neg_part, eqb_ℤ, List, [], ◌∷◌, ◌++◌, Option, none, some, length, get_elem?,
}
use cslb.Peer.{PeerSpec, Heap}
use cslb.Group.{Groups, init_all, build_groups}
use cslb.Ring.{cut_scheme}
use cslb.Http.{
  Message, empty_address, invalid_address, unsupported_algorithm, misplaced_hash_func,
  nil_hash_func, Failure, described, wrapped, Request, RoundTripper, is_some, server_message,
}
use cslb.Trip.{Backend}
use cslb.Server.{ServerConfig, fresh_server, join, validate, peer_of}

-- AlgorithmType, an `int`.
abbrev pub AlgorithmType : Type 0
AlgorithmType = ℤ

abbrev pub algo_round_robin : AlgorithmType
algo_round_robin = pos 0

abbrev pub algo_least_conn : AlgorithmType
algo_least_conn = pos 1

abbrev pub algo_ip_hash : AlgorithmType
algo_ip_hash = pos 2

abbrev pub algo_hash : AlgorithmType
algo_hash = pos 3

abbrev pub algo_random : AlgorithmType
algo_random = pos 4

abbrev pub algo_random_two : AlgorithmType
algo_random_two = pos 5

abbrev pub algo_hash_consistent : AlgorithmType
algo_hash_consistent = pos 6

-- A key function for the hash algorithms.
abbrev pub HashFunc : Type 0
HashFunc = Request → List ℕ

pub record UpstreamConfig : Type 0 where
  pub pattern : List ℕ
  pub servers : List ServerConfig
  pub algorithm : AlgorithmType
  pub hash_func : Option HashFunc
  pub ssl_name : List ℕ

-- Upstream
unfoldable pub new_upstream : List ℕ → List ServerConfig → UpstreamConfig
new_upstream pattern servers = record {
  pattern = pattern;
  servers = servers;
  algorithm = algo_round_robin;
  hash_func = none;
  ssl_name = [];
}

abbrev pub with_algorithm : AlgorithmType → UpstreamConfig → UpstreamConfig
with_algorithm a u = record u { algorithm = a; hash_func = none }

unfoldable pub round_robin : UpstreamConfig → UpstreamConfig
round_robin u = with_algorithm algo_round_robin u

unfoldable pub least_conn : UpstreamConfig → UpstreamConfig
least_conn u = with_algorithm algo_least_conn u

unfoldable pub ip_hash : UpstreamConfig → UpstreamConfig
ip_hash u = with_algorithm algo_ip_hash u

unfoldable pub random : UpstreamConfig → UpstreamConfig
random u = with_algorithm algo_random u

unfoldable pub random_two : UpstreamConfig → UpstreamConfig
random_two u = with_algorithm algo_random_two u

unfoldable pub hash : Option HashFunc → UpstreamConfig → UpstreamConfig
hash key u = record u { algorithm = algo_hash; hash_func = key }

unfoldable pub hash_consistent : Option HashFunc → UpstreamConfig → UpstreamConfig
hash_consistent key u = record u { algorithm = algo_hash_consistent; hash_func = key }

unfoldable pub proxy_ssl_name : List ℕ → UpstreamConfig → UpstreamConfig
proxy_ssl_name name u = record u { ssl_name = name }

-- A parsed URL, as far as the transport reads it.
pub record Url : Type 0 where
  pub scheme : List ℕ
  pub host : List ℕ

-- url.Parse: `none` is an error.
abbrev pub Parser : Type 0
Parser = List ℕ → Option Url

abbrev pub is_empty : List ℕ → Bool
is_empty s = length s == 0

-- `err != nil || u.Scheme == "" || u.Host == ""`
unfoldable pub absolute : Option Url → Option Url
absolute none = none
absolute (some u) = if is_empty u.scheme || is_empty u.host then none else some u

-- upstreamConfig
pub record Draft : Type 0 where
  pub default_scheme : List ℕ
  pub peers : List PeerSpec
  pub addrs : List Backend
  pub algo : AlgorithmType
  pub hash_func : Option HashFunc
  pub ssl_name : List ℕ
  pub err : Option Failure

unfoldable pub add_error : Failure → Draft → Draft
unfolding join
add_error e c = record c { err = some (join c.err e) }

abbrev pub has_scheme : List ℕ → Bool
has_scheme addr = is_some (cut_scheme addr)

abbrev pub store_peer : PeerSpec → Backend → Draft → Draft
store_peer peer b c = record c { peers = c.peers ++ peer ∷ []; addrs = c.addrs ++ b ∷ [] }

module _ (parse : Parser) where
  unfoldable pub add_peer : PeerSpec → List ℕ → Draft → Draft
  unfolding add_error absolute
  add_peer peer addr c =
      if is_empty addr
      then add_error (described empty_address []) c
      else if has_scheme addr
      then elim (absolute (parse addr)) [
        | none ↦ add_error (described invalid_address addr) c
        | some u ↦ store_peer peer (record { scheme = u.scheme; host = u.host }) c
      ]
      else store_peer peer (record { scheme = c.default_scheme; host = addr }) c

  unfoldable pub add_server : ServerConfig → Draft → Draft
  unfolding add_peer
  add_server s c = elim (validate s) [
    | some e ↦ add_error (wrapped server_message s.address e) c
    | none ↦ add_peer (peer_of s) s.address c
  ]

  unfoldable pub add_servers : List ServerConfig → Draft → Draft
  unfolding add_server
  add_servers [] c = c
  add_servers (s ∷ ss) c = add_servers ss (add_server s c)

  -- newUpstreamConfig(""), its fields, and the servers.
  unfoldable pub draft : UpstreamConfig → Draft
  unfolding add_servers
  draft u = add_servers u.servers (record {
    default_scheme = [];
    peers = [];
    addrs = [];
    algo = u.algorithm;
    hash_func = u.hash_func;
    ssl_name = u.ssl_name;
    err = none;
  })

-- The peers whose address has no scheme get that of the pattern.
unfoldable pub inherit_all : List ℕ → List PeerSpec → List Backend → List Backend
inherit_all scheme [] bs = bs
inherit_all scheme (p ∷ ps) [] = []
inherit_all scheme (p ∷ ps) (b ∷ bs) =
    let rest = inherit_all scheme ps bs in
    (if has_scheme p.addr then b else record b { scheme = scheme }) ∷ rest

unfoldable pub inherit_scheme : List ℕ → Draft → Draft
unfolding inherit_all
inherit_scheme scheme c =
    if is_empty c.default_scheme
    then record c { default_scheme = scheme; addrs = inherit_all scheme c.peers c.addrs }
    else c

unfoldable pub supported_algorithm : AlgorithmType → Bool
supported_algorithm a =
    eqb_ℤ a algo_round_robin
    || eqb_ℤ a algo_least_conn
    || eqb_ℤ a algo_ip_hash
    || eqb_ℤ a algo_hash
    || eqb_ℤ a algo_random
    || eqb_ℤ a algo_random_two
    || eqb_ℤ a algo_hash_consistent

abbrev pub is_hash_algorithm : AlgorithmType → Bool
is_hash_algorithm a = eqb_ℤ a algo_hash || eqb_ℤ a algo_hash_consistent

-- The last two checks of normalize.
unfoldable pub check_hash_func : Draft → Draft
unfolding add_error
check_hash_func c =
    let d =
      if is_some c.hash_func && not (is_hash_algorithm c.algo)
      then add_error (described misplaced_hash_func []) c
      else c in
    if is_hash_algorithm d.algo && not (is_some d.hash_func)
    then add_error (described nil_hash_func []) d
    else d

-- An unsupported algorithm is reported by the two parts of its number.
unfoldable pub normalize : Draft → Draft
unfolding check_hash_func add_error supported_algorithm
normalize c =
    let d =
      if is_some c.hash_func && eqb_ℤ c.algo algo_round_robin
      then record c { algo = algo_hash }
      else c in
    if not (supported_algorithm d.algo)
    then add_error (described unsupported_algorithm (pos_part d.algo ∷ neg_part d.algo ∷ [])) d
    else check_hash_func d
