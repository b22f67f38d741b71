-- ===== src/Group.antt =====
-- balancer.go: PeerGroup and BuildGroups.
pub mod Parts
use cslb.Prelude.{
  ℕ, ◌+◌, ◌==◌, Bool, true, false, if◌then◌else◌, List, [], ◌∷◌, ◌++◌, Option, none, some, length,
}
use cslb.Peer.{PeerSpec, Heap, init}

pub record PeerGroup : Type 0 where
  pub peers : List ℕ
  pub total_weight : ℕ
  pub single : Bool

pub record Groups : Type 0 where
  pub primary : PeerGroup
  pub backup : Option PeerGroup

-- The two groups while the loop of BuildGroups fills them.
pub record Split : Type 0 where
  pub primary : List ℕ
  pub primary_weight : ℕ
  pub backup : List ℕ
  pub backup_weight : ℕ

-- `p.init()` on every server.
unfoldable pub init_all : (ℕ → PeerSpec) → Heap
init_all specs i = init (specs i)

unfoldable pub split_step : Heap → Option ℕ → Split → Split
split_step h none s = s
split_step h (some i) s =
    if (h i).backup
    then record s { backup = s.backup ++ i ∷ []; backup_weight = s.backup_weight + (h i).weight }
    else record s {
      primary = s.primary ++ i ∷ [];
      primary_weight = s.primary_weight + (h i).weight;
    }

unfoldable pub split_loop : Heap → List (Option ℕ) → Split → Split
split_loop h [] s = s
split_loop h (p ∷ ps) s = split_loop h ps (split_step h p s)

unfoldable pub close_groups : Split → Groups
close_groups s =
    let none_left = length s.backup == 0 in
    record {
      primary = record {
        peers = s.primary;
        total_weight = s.primary_weight;
        single = if none_left then length s.primary == 1 else false;
      };
      backup =
          if none_left
          then none
          else some (record { peers = s.backup; total_weight = s.backup_weight; single = false });
    }

-- BuildGroups, on servers that `init_all` has initialised.
unfoldable pub build_groups : Heap → List (Option ℕ) → Groups
unfolding split_loop split_step close_groups
build_groups h peers = close_groups (
    split_loop h peers
      (record { primary = []; primary_weight = 0; backup = []; backup_weight = 0 }))
