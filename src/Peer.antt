-- ===== src/Peer.antt =====
-- balancer.go: a backend server, and the memory that holds the servers.
-- A `*Peer` is a number, and the memory gives the struct behind it, so that a pointer that stands in
-- two places is one server. An `int` is an integer that does not wrap; a `time.Time` counts
-- nanoseconds from the zero time.
use cslb.Prelude.{
  ℕ, suc, ◌==◌, ◌&&◌, Bool, not, ℤ, pos, pos_part, leb_ℤ, eqb_ℤ, List, if◌then◌else◌,
}

-- serverFieldSet: which options the caller has given.
pub record ServerFieldSet : Type 0 where
  pub weight : Bool
  pub max_fails : Bool
  pub fail_timeout : Bool

-- The fields that a caller of BuildGroups fills in, before `init`.
pub record PeerSpec : Type 0 where
  pub addr : List ℕ
  pub weight : ℤ
  pub down : Bool
  pub max_conns : ℤ
  pub max_fails : ℤ
  pub fail_timeout : ℤ
  pub backup : Bool
  pub explicit : ServerFieldSet

-- A server after `init`. Its weight is positive, and `done` keeps the effective weight from
-- falling below zero, so both are numbers.
pub record Peer : Type 0 where
  pub addr : List ℕ
  pub weight : ℕ
  pub down : Bool
  pub max_conns : ℤ
  pub max_fails : ℤ
  pub fail_timeout : ℤ
  pub backup : Bool
  pub current_weight : ℤ
  pub effective_weight : ℕ
  pub conns : ℤ
  pub fails : ℕ
  pub accessed : ℕ
  pub checked : ℕ
  pub checked_seq : ℕ

-- 10 * time.Second
abbrev pub default_fail_timeout : ℤ
default_fail_timeout = pos 10_000_000_000

-- The server is a fresh struct: its mutable fields are zero before the call.
unfoldable pub init : PeerSpec → Peer
init s =
    let weight : ℕ = if leb_ℤ s.weight (pos 0) then 1 else pos_part s.weight in
    record {
      addr = s.addr;
      weight = weight;
      down = s.down;
      max_conns = s.max_conns;
      max_fails =
          if eqb_ℤ s.max_fails (pos 0) && not s.explicit.max_fails then pos 1 else s.max_fails;
      fail_timeout =
          if eqb_ℤ s.fail_timeout (pos 0) && not s.explicit.fail_timeout
          then default_fail_timeout
          else s.fail_timeout;
      backup = s.backup;
      current_weight = pos 0;
      effective_weight = weight;
      conns = pos 0;
      fails = 0;
      accessed = 0;
      checked = 0;
      checked_seq = 0;
    }

unfoldable pub set_checked : ℕ → Peer → Peer
set_checked t p = record p { checked = t; checked_seq = suc p.checked_seq }

abbrev pub Heap : Type 0
Heap = ℕ → Peer

-- A write through a pointer.
abbrev pub update {ℓ} : {A : Type ℓ} → (ℕ → A) → ℕ → A → ℕ → A
update h i p j = if j == i then p else h j
