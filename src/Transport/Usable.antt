-- ===== src/Transport/Usable.antt =====
-- What the balancer of an upstream is built on: groups that share no peer, over the upstream's peers.
use cslb.Prelude.{
  ℕ, zero, suc, ◌+◌, ◌≤◌, ◌<◌, ◌==◌, ◌≡◌, refl, sym, subst, Bool, true, false, if◌then◌else◌,
  if_intro, List, [], ◌∷◌, Option, length, get_elem?, arith, inl, inr, ◌⊎◌, Absent, Distinct, Has,
}
use cslb.Peer.{PeerSpec, Heap}
use cslb.Smooth.Fair.{total_weight}
use cslb.Group.{PeerGroup, Groups, init_all}
use cslb.Group.Parts.{chosen, groups_of, build_groups-groups_of, init_all-weight}
use cslb.RoundRobin.Untried.{backup_of}
use cslb.Http.{is_some}
use cslb.Upstream.{AlgorithmType}
use cslb.Upstream.Balancers.{Balancer, new_balancer, pointers, spec_at}

-- `chosen` keeps a pointer or drops it.
keep_or_drop :
    (P : List ℕ → Type 0) (flag backup : Bool) (i : ℕ) (rest : List ℕ)
    → P (i ∷ rest)
    → P rest
    → P (if backup then (if flag then i ∷ rest else rest) else (if flag then rest else i ∷ rest))
keep_or_drop P flag backup i rest p q =
    if_intro P backup (if_intro P flag p q) (if_intro P flag q p)

module _ (h : Heap) (flag : Bool) where
  abbrev Within : ℕ → ℕ → List ℕ → Type 0
  Within i n ids = (j : ℕ) → Has j ids → (i ≤ j) × (j < i + n)

  -- The pointers from `i` on that a group takes.
  pub chosen-Within : (n i : ℕ) → Within i n (chosen flag h (pointers n i))
  unfolding chosen pointers
  chosen-Within zero i = λ j m. absurd m
  chosen-Within (suc n) i =
      let rest = chosen flag h (pointers n (suc i)) in
      let later : Within i (suc n) rest =
        λ j m. let b = chosen-Within n (suc i) j m in (omega (arith, b.0), omega (arith, b.1)) in
      keep_or_drop (Within i (suc n)) flag (h i).backup i rest
        (λ j m. elim m [ inl e ↦ (omega (arith, e), omega (arith, e)) | inr k ↦ later j k ]) later

  chosen-Absent : (n i j : ℕ) → j < i → Absent j (chosen flag h (pointers n i))
  unfolding chosen pointers
  chosen-Absent zero i j l = tt
  chosen-Absent (suc n) i j l =
      let later = chosen-Absent n (suc i) j (omega (arith, l)) in
      keep_or_drop (Absent j) flag (h i).backup i (chosen flag h (pointers n (suc i)))
        ((λ e. omega (arith, e, l)), later) later

  pub chosen-Distinct : (n i : ℕ) → Distinct (chosen flag h (pointers n i))
  unfolding chosen pointers
  chosen-Distinct zero i = tt
  chosen-Distinct (suc n) i =
      let later = chosen-Distinct n (suc i) in
      keep_or_drop Distinct flag (h i).backup i (chosen flag h (pointers n (suc i)))
        (chosen-Absent n (suc i) i (omega arith), later) later

pub get_elem?-is_some :
    {A : Type 0} (xs : List A) (j : ℕ) → j < length xs → is_some (get_elem? xs j) ≡ true
get_elem?-is_some [] j l = absurd (omega (arith, l))
get_elem?-is_some (x ∷ xs) zero l = refl
get_elem?-is_some (x ∷ xs) (suc j) l = get_elem?-is_some xs j (omega (arith, l))

-- What the balancer of a list of peers is built on.
pub record IsBuilt (n : ℕ) (b : Balancer) : Type 0 where
  pub primary : Distinct b.groups.primary.peers
  pub backup : Distinct (backup_of b.groups.backup)
  pub within : (j : ℕ) → Has j b.groups.primary.peers ⊎ Has j (backup_of b.groups.backup) → j < n
  pub total : b.groups.primary.total_weight ≡ total_weight b.groups.primary.peers b.heap
  pub positive : (j : ℕ) → 0 < (b.heap j).weight

backup-groups_of :
    (h : Heap) (ps bs : List ℕ) (P : List ℕ → Type 0)
    → P []
    → P bs
    → P (backup_of (groups_of h ps bs).backup)
backup-groups_of h ps bs P p q =
    if_intro (λ (g : Option PeerGroup). P (backup_of g)) (length bs == 0) p q

pub new_balancer-IsBuilt :
    (a : AlgorithmType) (peers : List PeerSpec) → IsBuilt (length peers) (new_balancer a peers)
unfolding new_balancer
new_balancer-IsBuilt a peers =
    let h = init_all (spec_at peers) in
    let n = length peers in
    let ps = chosen false h (pointers n 0) in
    let bs = chosen true h (pointers n 0) in
    let same = build_groups-groups_of h (pointers n 0) in
    let below : (flag : Bool) (j : ℕ) → Has j (chosen flag h (pointers n 0)) → j < n =
      λ flag j m. omega (arith, (chosen-Within h flag n 0 j m).1) in
    record {
      primary =
          subst (λ (g : Groups). Distinct g.primary.peers) (sym same) (chosen-Distinct h false n 0);
      backup =
          subst (λ (g : Groups). Distinct (backup_of g.backup)) (sym same)
            (backup-groups_of h ps bs Distinct tt (chosen-Distinct h true n 0));
      within =
          subst
            (λ (g : Groups). (j : ℕ) → Has j g.primary.peers ⊎ Has j (backup_of g.backup) → j < n)
            (sym same)
            (λ j m. elim m [
              | inl k ↦ below false j k
              | inr k ↦
                  backup-groups_of h ps bs (λ ids. Has j ids → j < n) (λ e. absurd e) (below true j)
                    k
            ]);
      total =
          subst (λ (g : Groups). g.primary.total_weight ≡ total_weight g.primary.peers h) (sym same)
            refl;
      positive = init_all-weight (spec_at peers);
    }
