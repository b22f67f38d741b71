-- ===== src/RoundRobin/Sections.antt =====
-- pickFromGroup, and whatever commits a peer, keeps the contract of a pick.
use cslb.Prelude.{
  ℕ, ◌==◌, ◌≡◌, refl, sym, ◌∙◌, ap, Bool, true, false, pos, ◌+ℤ◌, ◌||◌, if◌then◌else◌, List, [],
  ◌∷◌, Option, none, some, arith, Bool-cases, inl, inr, Has, Distinct, +ℤ-zero,
}
use cslb.Peer.{Peer, Heap}
use cslb.Group.{PeerGroup}
use cslb.Smooth.{smooth_weighted_peer}
use cslb.Smooth.Select.{select-Has}
use cslb.Smooth.Spec.{boost}
use cslb.Smooth.Refines.{smooth_weighted_peer-choice}
use cslb.RoundRobin.{
  Ctx, is_full, is_eligible, take, commit_peer, commit_best, pick_single, pick_smooth,
  pick_from_group,
}
use cslb.RoundRobin.Contract.{static, Outcome}
use cslb.RoundRobin.Effects.{
  vitals, smooth_weighted_peer-vitals, commit_peer-static, commit_peer-opened, commit_peer-tried,
  commit_peer-picker,
}

some-inj : {i j : ℕ} → some i ≡ some j → i ≡ j
some-inj e = cc

module _ (ids : List ℕ) (c : Ctx) (h : Heap)
    (kept : (j : ℕ) → vitals (h j) ≡ vitals (c.heap j)) where
  pub none-Outcome : Outcome ids c (none, record c { heap = h })
  none-Outcome = record {
    frame = λ j. ap static (kept j);
    same_primary = refl;
    same_backup = refl;
    same_phase = refl;
    opened = λ j. ap (λ p. p.conns) (kept j) ∙ sym (+ℤ-zero _);
    marked = λ j. refl;
    member = λ i e. cc;
    untried = λ i e. cc;
    up = λ i e. cc;
    room = λ i e. cc;
  }

  pub commit-Outcome :
      (now i : ℕ)
      → Has i ids
      → c.picker.tried i ≡ false
      → (c.heap i).down ≡ false
      → is_full (c.heap i) ≡ false
      → Outcome ids c (some i, commit_peer now i (record c { heap = h }))
  commit-Outcome now i m t u r =
      let d : Ctx = record c { heap = h } in
      record {
        frame = λ j. commit_peer-static now i j d ∙ ap static (kept j);
        same_primary = (commit_peer-picker now i d).0;
        same_backup = (commit_peer-picker now i d).1;
        same_phase = (commit_peer-picker now i d).2;
        opened = λ j.
            commit_peer-opened now i j d
            ∙ ap (λ p. p.conns +ℤ pos (if j == i then 1 else 0)) (kept j);
        marked = λ j. commit_peer-tried now i j d;
        member = λ k e. rw (← some-inj e) m;
        untried = λ k e. rw (← some-inj e) t;
        up = λ k e. rw (← some-inj e) u;
        room = λ k e. rw (← some-inj e) r;
      }

pub is_eligible-usable :
    (now : ℕ) (tried : ℕ → Bool) (i : ℕ) (p : Peer)
    → is_eligible now tried i p ≡ true
    → (tried i ≡ false) × (p.down ≡ false) × (is_full p ≡ false)
unfolding is_eligible
is_eligible-usable now tried i p e = ground arith

-- What a choice has to show before it is committed.
abbrev pub Usable : List ℕ → Ctx → ℕ → Type 0
Usable ids c i =
    Has i ids
    × (c.picker.tried i ≡ false)
    × ((c.heap i).down ≡ false)
    × (is_full (c.heap i) ≡ false)

pub commit_best-choice : (now : ℕ) (c : Ctx) (r : Option ℕ × Heap) → (commit_best now c r).0 ≡ r.0
unfolding commit_best
commit_best-choice now c (none, h) = refl
commit_best-choice now c (some i, h) = refl

pub commit_best-Outcome :
    (now : ℕ) (ids : List ℕ) (c : Ctx) (r : Option ℕ × Heap)
    → ((j : ℕ) → vitals (r.1 j) ≡ vitals (c.heap j))
    → ((i : ℕ) → r.0 ≡ some i → Usable ids c i)
    → Outcome ids c (commit_best now c r)
unfolding commit_best
commit_best-Outcome now ids c (none, h) kept fit = none-Outcome ids c h kept
commit_best-Outcome now ids c (some i, h) kept fit =
    let u = fit i refl in commit-Outcome ids c h kept now i u.0 u.1 u.2 u.3

pub pick_smooth-Outcome :
    (now : ℕ) (ids : List ℕ) (c : Ctx) → Distinct ids → Outcome ids c (pick_smooth now ids c)
unfolding pick_smooth
pick_smooth-Outcome now ids c d =
    let e = is_eligible now c.picker.tried in
    commit_best-Outcome now ids c (smooth_weighted_peer e ids c.heap)
      (smooth_weighted_peer-vitals e ids c.heap)
      (λ i q.
        let won =
          select-Has (λ j. e j (c.heap j)) (boost c.heap) ids
            (sym (smooth_weighted_peer-choice e ids c.heap d) ∙ q) in
        let ok = is_eligible-usable now c.picker.tried i (c.heap i) won.1 in
        (won.0, ok.0, ok.1, ok.2))

take-Outcome : (i : ℕ) (ids : List ℕ) (c : Ctx) → Usable ids c i → Outcome ids c (some i, take i c)
unfolding take
take-Outcome i ids c u = record {
  frame = λ j. ground arith;
  same_primary = refl;
  same_backup = refl;
  same_phase = refl;
  opened = λ j. ground (arith, +ℤ-zero (c.heap j).conns);
  marked = λ j. refl;
  member = λ k e. rw (← some-inj e) u.0;
  untried = λ k e. rw (← some-inj e) u.1;
  up = λ k e. rw (← some-inj e) u.2;
  room = λ k e. rw (← some-inj e) u.3;
}

pick_single-Outcome : (ids : List ℕ) (c : Ctx) → Outcome ids c (pick_single ids c)
unfolding pick_single
pick_single-Outcome [] c = none-Outcome [] c c.heap (λ j. refl)
pick_single-Outcome (i ∷ is) c =
    elim (Bool-cases (c.picker.tried i || (c.heap i).down || is_full (c.heap i))) [
      | inl s ↦ rw (s, pick_single) (none-Outcome (i ∷ is) c c.heap (λ j. refl))
      | inr s ↦
          rw (s, pick_single)
            (take-Outcome i (i ∷ is) c (inl refl, ground arith, ground arith, ground arith))
    ]

pub pick_from_group-Outcome :
    (now : ℕ) (g : PeerGroup) (c : Ctx)
    → Distinct g.peers
    → Outcome g.peers c (pick_from_group now g c)
unfolding pick_from_group
pick_from_group-Outcome now g c d = elim (Bool-cases g.single) [
  | inl s ↦ rw (s, pick_from_group) (pick_single-Outcome g.peers c)
  | inr s ↦ rw (s, pick_from_group) (pick_smooth-Outcome now g.peers c d)
]
