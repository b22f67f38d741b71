-- ===== src/Group/Parts.antt =====
-- BuildGroups splits the servers by their backup flag, and counts their weights.
use mathlib.Core.List.{append_assoc, append-nil}
use native.Mathlib.Nat.{zero-add}
use cslb.Prelude.{
  ℕ, ◌+◌, ◌≤◌, ◌<◌, ◌==◌, ◌≡◌, refl, sym, ◌∙◌, inl, inr, Bool, true, false, pos, if◌then◌else◌,
  List, [], ◌∷◌, ◌++◌, Option, none, some, arith, length, Distinct, Has, Bool-cases, subst,
}
use cslb.Peer.{PeerSpec, Heap, init}
use cslb.Group.{
  PeerGroup, Groups, Split, init_all, split_step, split_loop, close_groups, build_groups,
}
use cslb.Smooth.Spec.{sum_ℕ}
use cslb.Smooth.Conserve.{weight_of}
use cslb.Smooth.Cycle.{rounds, wins}
use cslb.Smooth.Fair.{IsFresh, total_weight, rounds-IsFresh}

-- The servers that are not nil and whose backup flag is `flag`, in order.
unfoldable pub chosen : Bool → Heap → List (Option ℕ) → List ℕ
chosen flag h [] = []
chosen flag h (none ∷ ps) = chosen flag h ps
chosen flag h (some i ∷ ps) =
    let rest = chosen flag h ps in
    if (h i).backup then (if flag then i ∷ rest else rest) else (if flag then rest else i ∷ rest)

-- The loop with its two lists and two sums.
record IsSplit (h : Heap) (ps : List (Option ℕ)) (s t : Split) : Type 0 where
  primary : t.primary ≡ s.primary ++ chosen false h ps
  backup : t.backup ≡ s.backup ++ chosen true h ps
  primary_weight : t.primary_weight ≡ s.primary_weight + total_weight (chosen false h ps) h
  backup_weight : t.backup_weight ≡ s.backup_weight + total_weight (chosen true h ps) h

split_step-none : (h : Heap) (s : Split) → split_step h none s ≡ s
unfolding split_step
split_step-none h s = refl

module _ (h : Heap) (i : ℕ) (s : Split) where
  step-primary :
      (rest : List ℕ)
      → (split_step h (some i) s).primary ++ rest
        ≡ s.primary ++ (if (h i).backup then rest else i ∷ rest)
  unfolding split_step
  step-primary rest = elim (Bool-cases (h i).backup) [
    | inl y ↦ rw (y, split_step)
    | inr n ↦ rw (n, split_step) (append_assoc s.primary (i ∷ []) rest)
  ]

  step-backup :
      (rest : List ℕ)
      → (split_step h (some i) s).backup ++ rest
        ≡ s.backup ++ (if (h i).backup then i ∷ rest else rest)
  unfolding split_step
  step-backup rest = elim (Bool-cases (h i).backup) [
    | inl y ↦ rw (y, split_step) (append_assoc s.backup (i ∷ []) rest)
    | inr n ↦ rw (n, split_step)
  ]

  step-primary_weight :
      (rest : List ℕ)
      → (split_step h (some i) s).primary_weight + total_weight rest h
        ≡ s.primary_weight + total_weight (if (h i).backup then rest else i ∷ rest) h
  unfolding split_step sum_ℕ
  step-primary_weight rest = elim (Bool-cases (h i).backup) [
    | inl y ↦ rw (y, split_step)
    | inr n ↦ rw (n, split_step) (omega arith)
  ]

  step-backup_weight :
      (rest : List ℕ)
      → (split_step h (some i) s).backup_weight + total_weight rest h
        ≡ s.backup_weight + total_weight (if (h i).backup then i ∷ rest else rest) h
  unfolding split_step sum_ℕ
  step-backup_weight rest = elim (Bool-cases (h i).backup) [
    | inl y ↦ rw (y, split_step) (omega arith)
    | inr n ↦ rw (n, split_step)
  ]

split_loop-IsSplit :
    (h : Heap) (ps : List (Option ℕ)) (s : Split) → IsSplit h ps s (split_loop h ps s)
unfolding split_loop chosen sum_ℕ
split_loop-IsSplit h [] s = record {
  primary = sym (append-nil s.primary);
  backup = sym (append-nil s.backup);
  primary_weight = omega arith;
  backup_weight = omega arith;
}
split_loop-IsSplit h (none ∷ ps) s =
    let r = split_loop-IsSplit h ps s in
    subst (λ u. IsSplit h (none ∷ ps) s (split_loop h ps u)) (sym (split_step-none h s))
      (record {
        primary = r.primary;
        backup = r.backup;
        primary_weight = r.primary_weight;
        backup_weight = r.backup_weight;
      })
split_loop-IsSplit h (some i ∷ ps) s =
    let r = split_loop-IsSplit h ps (split_step h (some i) s) in
    record {
      primary = r.primary ∙ step-primary h i s (chosen false h ps);
      backup = r.backup ∙ step-backup h i s (chosen true h ps);
      primary_weight = r.primary_weight ∙ step-primary_weight h i s (chosen false h ps);
      backup_weight = r.backup_weight ∙ step-backup_weight h i s (chosen true h ps);
    }

-- The group that BuildGroups makes of these servers.
abbrev pub group_of : List ℕ → Heap → Bool → PeerGroup
group_of ids h single = record { peers = ids; total_weight = total_weight ids h; single = single }

-- What BuildGroups promises.
abbrev pub groups_of : Heap → List ℕ → List ℕ → Groups
groups_of h primary backup =
    let lone = length backup == 0 in
    record {
      primary = group_of primary h (if lone then length primary == 1 else false);
      backup = if lone then none else some (group_of backup h false);
    }

-- BuildGroups drops the nil servers, puts the others in their order into the group that their
-- backup flag names, and gives each group the sum of its weights. There is a backup group exactly
-- if there is a backup server, and the single-peer path is on exactly if there is one server and
-- no backup.
pub build_groups-groups_of :
    (h : Heap) (ps : List (Option ℕ))
    → build_groups h ps ≡ groups_of h (chosen false h ps) (chosen true h ps)
unfolding build_groups
build_groups-groups_of h ps =
    let r =
      split_loop-IsSplit h ps
        (record { primary = []; primary_weight = 0; backup = []; backup_weight = 0 }) in
    λ k. close_groups (record {
      primary = r.primary k;
      primary_weight = (r.primary_weight ∙ zero-add _) k;
      backup = r.backup k;
      backup_weight = (r.backup_weight ∙ zero-add _) k;
    })

init-weight : (s : PeerSpec) → 1 ≤ (init s).weight
unfolding init
init-weight s = ground arith

pub init_all-weight : (specs : ℕ → PeerSpec) (j : ℕ) → 0 < (init_all specs j).weight
unfolding init_all
init_all-weight specs j = init-weight (specs j)

init_all-IsFresh : (specs : ℕ → PeerSpec) (ids : List ℕ) → IsFresh ids (init_all specs)
unfolding init_all init
init_all-IsFresh specs ids = record { idle = λ j m. refl; full = λ j m. refl }

Has-total :
    (h : Heap) (w : (j : ℕ) → 0 < (h j).weight) (ids : List ℕ) (j : ℕ)
    → Has j ids
    → 0 < total_weight ids h
unfolding sum_ℕ
Has-total h w [] j m = absurd m
Has-total h w (i ∷ is) j m = omega (arith, w i)

-- Smooth weighted round-robin is fair: over as many rounds of smoothWeightedPeer as the primary
-- group's TotalWeight, from the peers that BuildGroups has initialised, in a group that names each
-- peer once and with all its peers eligible, each primary peer wins exactly as many rounds as its
-- weight, and its current weight is zero again.
pub build_groups-fair :
    (specs : ℕ → PeerSpec) (ps : List (Option ℕ)) (j : ℕ)
    → Distinct (build_groups (init_all specs) ps).primary.peers
    → Has j (build_groups (init_all specs) ps).primary.peers
    → let g = (build_groups (init_all specs) ps).primary in
      (wins (rounds g.total_weight g.peers (init_all specs)).0 j ≡ (init_all specs j).weight)
      × (weight_of (rounds g.total_weight g.peers (init_all specs)).1 j ≡ pos 0)
build_groups-fair specs ps j =
    let h = init_all specs in
    rw (build_groups-groups_of h ps) (λ d m.
      rounds-IsFresh (chosen false h ps) h j d
        (Has-total h (init_all-weight specs) (chosen false h ps) j m)
        (init_all-IsFresh specs (chosen false h ps)) m)
