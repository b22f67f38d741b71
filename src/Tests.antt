-- ===== src/Tests.antt =====
-- Five servers for the tests: three primary ones of the weights 5, 1 and 1, and two backups.
pub mod Scheduling
pub mod Requests
pub mod Health
pub mod Hashing
pub mod Ketama
pub mod Transport
pub mod Registration
pub mod Bodies
use cslb.Prelude.{
  ℕ, zero, suc, ◌<◌, ◌≡◌, ◌≢◌, ◌==◌, refl, Bool, true, false, ◌||◌, if◌then◌else◌, ℤ, pos, List, [],
  ◌∷◌, Option, none, some, arith, inl, inr, Distinct, Absent, ltb,
}
use cslb.Peer.{Peer, PeerSpec, Heap, init}
use cslb.Group.{PeerGroup, init_all}
use cslb.RoundRobin.{Ctx, RrPicker, new_rr_picker}
use cslb.RoundRobin.Backup.{IsSound}

abbrev pub servers : ℕ → PeerSpec
servers i = record {
  addr = i ∷ [];
  weight = if i == 0 then pos 5 else pos 0;
  down = false;
  max_conns = pos 2;
  max_fails = pos 0;
  fail_timeout = pos 0;
  backup = ltb 2 i;
  explicit = record { weight = false; max_fails = false; fail_timeout = false };
}

abbrev pub memory : Heap
memory = init_all servers

-- A nil server among them.
abbrev pub listed : List (Option ℕ)
listed = some 0 ∷ some 3 ∷ some 1 ∷ none ∷ some 2 ∷ some 4 ∷ []

abbrev pub primaries : List ℕ
primaries = 0 ∷ 1 ∷ 2 ∷ []

abbrev pub backups : List ℕ
backups = 3 ∷ 4 ∷ []

abbrev pub primary : PeerGroup
primary = record { peers = primaries; total_weight = 7; single = false }

abbrev pub backup : PeerGroup
backup = record { peers = backups; total_weight = 2; single = false }

abbrev pub request : Ctx
request = record { picker = new_rr_picker primary (some backup); heap = memory }

pub primaries-Distinct : Distinct primaries
primaries-Distinct =
    ((λ e. omega (arith, e), (λ e. omega (arith, e), tt)), ((λ e. omega (arith, e), tt), (tt, tt)))

pub backups-Distinct : Distinct backups
backups-Distinct = ((λ e. omega (arith, e), tt), (tt, tt))

pub request-IsSound : IsSound request.picker
unfolding new_rr_picker
request-IsSound = record { primary = primaries-Distinct; backup = backups-Distinct }

pub memory-weight : (j : ℕ) → 0 < (memory j).weight
unfolding init_all init
memory-weight j = ground arith
