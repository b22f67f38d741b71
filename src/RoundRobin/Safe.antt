-- ===== src/RoundRobin/Safe.antt =====
-- What every picker promises of a whole pick, also one that may visit the groups in another order.
use cslb.Prelude.{
  ℕ, ◌<◌, ◌≡◌, refl, sym, ap, ◌∙◌, ◌⊎◌, pos, ◌+ℤ◌, false, if◌then◌else◌, List, Option, some, Has,
}
use cslb.RoundRobin.{Ctx, is_full, commit_peer}
use cslb.Peer.{Peer, Heap}
use cslb.RoundRobin.Contract.{static, hits, Outcome}
use cslb.RoundRobin.Effects.{vitals}
use cslb.RoundRobin.Sections.{Usable, commit-Outcome}
use cslb.RoundRobin.Untried.{backup_peers, budget}
use cslb.RoundRobin.Backup.{Picked, Outcome-budget}

-- The peer that is returned stands in one of the groups, is up and below max_conns; it gets one
-- connection more, no other peer does, no configuration changes, and the picker's budget shrinks.
pub record IsSafe (c : Ctx) (r : Option ℕ × Ctx) : Type 0 where
  pub frame : (j : ℕ) → static (r.1.heap j) ≡ static (c.heap j)
  pub same_primary : r.1.picker.primary ≡ c.picker.primary
  pub same_backup : r.1.picker.backup ≡ c.picker.backup
  pub opened : (j : ℕ) → (r.1.heap j).conns ≡ (c.heap j).conns +ℤ pos (if hits r.0 j then 1 else 0)
  pub member : (i : ℕ) → r.0 ≡ some i → Has i c.picker.primary.peers ⊎ Has i (backup_peers c.picker)
  pub up : (i : ℕ) → r.0 ≡ some i → (c.heap i).down ≡ false
  pub room : (i : ℕ) → r.0 ≡ some i → is_full (c.heap i) ≡ false
  pub spends : (i : ℕ) → r.0 ≡ some i → budget r.1.picker < budget c.picker

pub Picked-IsSafe : {c : Ctx} {r : Option ℕ × Ctx} → Picked c r → IsSafe c r
Picked-IsSafe p = record {
  frame = p.frame;
  same_primary = p.same_primary;
  same_backup = p.same_backup;
  opened = p.opened;
  member = p.member;
  up = p.up;
  room = p.room;
  spends = p.spends;
}

-- A pick from one of the groups.
pub Outcome-IsSafe :
    (ids : List ℕ) (c : Ctx) (r : Option ℕ × Ctx)
    → ((j : ℕ) → Has j ids → Has j c.picker.primary.peers ⊎ Has j (backup_peers c.picker))
    → Outcome ids c r
    → IsSafe c r
Outcome-IsSafe ids c r m o = record {
  frame = o.frame;
  same_primary = o.same_primary;
  same_backup = o.same_backup;
  opened = o.opened;
  member = λ j e. m j (o.member j e);
  up = o.up;
  room = o.room;
  spends = Outcome-budget ids c r o m;
}

-- Committing a usable peer of a group.
pub commit-IsSafe :
    (now i : ℕ) (ids : List ℕ) (c : Ctx)
    → ((j : ℕ) → Has j ids → Has j c.picker.primary.peers ⊎ Has j (backup_peers c.picker))
    → Usable ids c i
    → IsSafe c (some i, commit_peer now i c)
commit-IsSafe now i ids c m u =
    Outcome-IsSafe ids c (some i, commit_peer now i c) m
      (commit-Outcome ids c c.heap (λ j. refl) now i u.0 u.1 u.2 u.3)

-- Memory in which only the two weights of the schedule have changed.
pub vitals-IsSafe :
    (c : Ctx) (h : Heap) (r : Option ℕ × Ctx)
    → ((j : ℕ) → vitals (h j) ≡ vitals (c.heap j))
    → IsSafe (record c { heap = h }) r
    → IsSafe c r
vitals-IsSafe c h r kept s = record {
  frame = λ j. s.frame j ∙ ap static (kept j);
  same_primary = s.same_primary;
  same_backup = s.same_backup;
  opened =
      λ j. s.opened j ∙ ap (λ (p : Peer). p.conns +ℤ pos (if hits r.0 j then 1 else 0)) (kept j);
  member = s.member;
  up = λ i e. sym (ap (λ p. p.down) (kept i)) ∙ s.up i e;
  room = λ i e. sym (ap is_full (kept i)) ∙ s.room i e;
  spends = s.spends;
}
