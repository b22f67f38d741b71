-- ===== src/RoundRobin/Contract.antt =====
-- What every way of picking from a group promises, whichever algorithm chooses.
use cslb.Prelude.{
  ℕ, ◌==◌, ◌≡◌, Bool, true, false, pos, ◌+ℤ◌, if◌then◌else◌, List, Option, none, some, Has,
}
use cslb.Peer.{Peer}
use cslb.RoundRobin.{Ctx, is_full}

-- A peer without the fields that requests change.
abbrev pub static : Peer → Peer
static p = record p {
  current_weight = pos 0;
  effective_weight = 0;
  conns = pos 0;
  fails = 0;
  accessed = 0;
  checked = 0;
  checked_seq = 0;
}

abbrev pub hits : Option ℕ → ℕ → Bool
hits none j = false
hits (some i) j = j == i

-- `r` is what a pick among `ids` may do from `c`: it opens one connection, to the peer that it
-- returns, and marks that peer as tried.
pub record Outcome (ids : List ℕ) (c : Ctx) (r : Option ℕ × Ctx) : Type 0 where
  pub frame : (j : ℕ) → static (r.1.heap j) ≡ static (c.heap j)
  pub same_primary : r.1.picker.primary ≡ c.picker.primary
  pub same_backup : r.1.picker.backup ≡ c.picker.backup
  pub same_phase : r.1.picker.backup_phase ≡ c.picker.backup_phase
  pub opened : (j : ℕ) → (r.1.heap j).conns ≡ (c.heap j).conns +ℤ pos (if hits r.0 j then 1 else 0)
  pub marked : (j : ℕ) → r.1.picker.tried j ≡ (if hits r.0 j then true else c.picker.tried j)
  pub member : (i : ℕ) → r.0 ≡ some i → Has i ids
  pub untried : (i : ℕ) → r.0 ≡ some i → c.picker.tried i ≡ false
  pub up : (i : ℕ) → r.0 ≡ some i → (c.heap i).down ≡ false
  pub room : (i : ℕ) → r.0 ≡ some i → is_full (c.heap i) ≡ false
