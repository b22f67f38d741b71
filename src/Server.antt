-- ===== src/Server.antt =====
-- transport.go: the configuration of one server.
use cslb.Prelude.{
  ℕ, Bool, true, false, ◌&&◌, ◌||◌, if◌then◌else◌, ℤ, pos, ltb_ℤ, eqb_ℤ, List, [], ◌∷◌, Option,
  none, some,
}
use cslb.Peer.{ServerFieldSet, PeerSpec}
use cslb.Http.{
  Message, nil_server_option, bad_weight, bad_max_conns, bad_max_fails, bad_fail_timeout, Failure,
  described, joined,
}

-- ServerOption: what an option writes into the server.
abbrev pub ServerOption : Type 0
ServerOption = PeerSpec → PeerSpec

pub record ServerConfig : Type 0 where
  pub address : List ℕ
  pub weight : ℤ
  pub down : Bool
  pub max_conns : ℤ
  pub max_fails : ℤ
  pub fail_timeout : ℤ
  pub backup : Bool
  pub explicit : ServerFieldSet
  pub nil_option : Bool

unfoldable pub weight : ℤ → ServerOption
weight n p = record p { weight = n; explicit = record (p.explicit) { weight = true } }

unfoldable pub max_fails : ℤ → ServerOption
max_fails n p = record p { max_fails = n; explicit = record (p.explicit) { max_fails = true } }

unfoldable pub fail_timeout : ℤ → ServerOption
fail_timeout d p = record p {
  fail_timeout = d;
  explicit = record (p.explicit) { fail_timeout = true };
}

unfoldable pub max_conns : ℤ → ServerOption
max_conns n p = record p { max_conns = n }

unfoldable pub backup : ServerOption
backup p = record p { backup = true }

unfoldable pub down : ServerOption
down p = record p { down = true }

-- `&Peer{Addr: addr}`
abbrev pub fresh_server : List ℕ → PeerSpec
fresh_server addr = record {
  addr = addr;
  weight = pos 0;
  down = false;
  max_conns = pos 0;
  max_fails = pos 0;
  fail_timeout = pos 0;
  backup = false;
  explicit = record { weight = false; max_fails = false; fail_timeout = false };
}

-- The loop over the options; `none` is a nil option.
unfoldable pub apply_options : List (Option ServerOption) → PeerSpec × Bool → PeerSpec × Bool
apply_options [] r = r
apply_options (none ∷ os) (p, missing) = apply_options os (p, true)
apply_options (some f ∷ os) (p, missing) = apply_options os (f p, missing)

unfoldable pub server : List ℕ → List (Option ServerOption) → ServerConfig
unfolding apply_options
server addr options =
    let (p, missing) = apply_options options (fresh_server addr, false) in
    record {
      address = addr;
      weight = p.weight;
      down = p.down;
      max_conns = p.max_conns;
      max_fails = p.max_fails;
      fail_timeout = p.fail_timeout;
      backup = p.backup;
      explicit = p.explicit;
      nil_option = missing;
    }

-- errors.Join with an error that may be nil; alone, the other error stands for their join.
unfoldable pub join : Option Failure → Failure → Failure
join none e = e
join (some f) e = joined f e

-- `if bad { err = errors.Join(err, errors.New(...)) }`
unfoldable pub complain : Bool → Message → Option Failure → Option Failure
unfolding join
complain bad m err = if bad then some (join err (described m [])) else err

unfoldable pub validate : ServerConfig → Option Failure
unfolding complain
validate s = complain (ltb_ℤ s.fail_timeout (pos 0)) bad_fail_timeout (
    complain (ltb_ℤ s.max_fails (pos 0)) bad_max_fails (
      complain (ltb_ℤ s.max_conns (pos 0)) bad_max_conns (
        complain (ltb_ℤ s.weight (pos 0) || (s.explicit.weight && eqb_ℤ s.weight (pos 0)))
          bad_weight (complain s.nil_option nil_server_option none))))

-- The Peer that registerExplicitUpstream makes of a server.
unfoldable pub peer_of : ServerConfig → PeerSpec
peer_of s = record {
  addr = s.address;
  weight = s.weight;
  down = s.down;
  max_conns = s.max_conns;
  max_fails = s.max_fails;
  fail_timeout = s.fail_timeout;
  backup = s.backup;
  explicit = s.explicit;
}
