-- ===== src/RoundRobin/Backup.antt =====
-- pickWithBackup over any strategy that keeps the contract: the primary group first, then backups.
use cslb.Prelude.{
  ℕ, ◌≤◌, ◌<◌, ◌==◌, ◌≡◌, refl, sym, ◌∙◌, ap, Bool, true, false, pos, ◌+ℤ◌, if◌then◌else◌, List,
  Option, none, some, arith, ◌⊎◌, inl, inr, Has, Distinct, length, Bool-cases, +ℤ-zero, subst,
  if_intro,
}
use cslb.Group.{PeerGroup}
use cslb.RoundRobin.{
  RrPicker, Ctx, Strategy, is_full, pick_from_group, pick_from_current_group, enter_backup,
  usable_backup, backup_group_for_pick, forget_tried, pick_backup,
}
use cslb.RoundRobin.Contract.{static, hits, Outcome}
use cslb.RoundRobin.Sections.{pick_from_group-Outcome}
use cslb.RoundRobin.Untried.{
  untried, backup_peers, remaining, untried-le-length, left_of, backup_of, untried-mark,
  untried-mark-either, budget, budget_of,
}

-- The contract as an interface: what an algorithm shows of its strategy.
pub record Lawful (s : Strategy) : Type 0 where
  pub outcome :
      (now : ℕ) (g : PeerGroup) (c : Ctx) → Distinct g.peers → Outcome g.peers c (s now g c)

-- The groups of a picker name each peer once.
pub record IsSound (rr : RrPicker) : Type 0 where
  pub primary : Distinct rr.primary.peers
  pub backup : Distinct (backup_peers rr)

-- What a whole pick does: it may visit both groups, opens one connection, and uses up one try.
pub record Picked (c : Ctx) (r : Option ℕ × Ctx) : Type 0 where
  pub frame : (j : ℕ) → static (r.1.heap j) ≡ static (c.heap j)
  pub same_primary : r.1.picker.primary ≡ c.picker.primary
  pub same_backup : r.1.picker.backup ≡ c.picker.backup
  pub opened : (j : ℕ) → (r.1.heap j).conns ≡ (c.heap j).conns +ℤ pos (if hits r.0 j then 1 else 0)
  pub member : (i : ℕ) → r.0 ≡ some i → Has i c.picker.primary.peers ⊎ Has i (backup_peers c.picker)
  pub up : (i : ℕ) → r.0 ≡ some i → (c.heap i).down ≡ false
  pub room : (i : ℕ) → r.0 ≡ some i → is_full (c.heap i) ≡ false
  pub less : (i : ℕ) → r.0 ≡ some i → remaining r.1.picker < remaining c.picker
  pub spends : (i : ℕ) → r.0 ≡ some i → budget r.1.picker < budget c.picker

pub pick_from_group-Lawful : Lawful pick_from_group
pick_from_group-Lawful = record { outcome = pick_from_group-Outcome }

module _ (s : Strategy) (l : Lawful s) where
  pub pick_from_current_group-Outcome :
      (now : ℕ) (g : PeerGroup) (c : Ctx)
      → Distinct g.peers
      → Outcome g.peers c (pick_from_current_group s now g c)
  unfolding pick_from_current_group
  pick_from_current_group-Outcome now g c d =
      if_intro (Outcome g.peers c) g.single (pick_from_group-Outcome now g c d)
        (l.outcome now g c d)

module _ (ids : List ℕ) (c : Ctx) (r : Option ℕ × Ctx) (o : Outcome ids c r) where
  pub remaining_after :
      remaining r.1.picker
      ≡ left_of c.picker.backup_phase r.1.picker.tried c.picker.primary.peers
          (backup_peers c.picker)
  unfolding remaining
  remaining_after = λ k.
      left_of (o.same_phase k) r.1.picker.tried (o.same_primary k).peers
        (backup_of (o.same_backup k))

  pub budget_after :
      budget r.1.picker
      ≡ budget_of c.picker.backup_phase r.1.picker.tried c.picker.primary.peers
          (backup_peers c.picker)
  unfolding budget
  budget_after = λ k.
      budget_of (o.same_phase k) r.1.picker.tried (o.same_primary k).peers
        (backup_of (o.same_backup k))

  -- A pick among the peers of the two groups marks one that was untried.
  pub Outcome-budget :
      ((i : ℕ) → Has i ids → Has i c.picker.primary.peers ⊎ Has i (backup_peers c.picker))
      → (i : ℕ) → r.0 ≡ some i
      → budget r.1.picker < budget c.picker
  unfolding budget budget_of
  Outcome-budget m i e =
      let marks : (j : ℕ) → r.1.picker.tried j ≡ (if j == i then true else c.picker.tried j) =
        λ j. o.marked j ∙ ap (λ w. if hits w j then true else c.picker.tried j) e in
      omega (
        arith,
        budget_after,
        untried-mark-either c.picker.tried r.1.picker.tried i marks c.picker.primary.peers
            (backup_peers c.picker) (m i (o.member i e)) (o.untried i e),
      )

  Outcome-untried :
      (i : ℕ) → r.0 ≡ some i → untried r.1.picker.tried ids < untried c.picker.tried ids
  Outcome-untried i e =
      untried-mark c.picker.tried r.1.picker.tried i
        (λ j. o.marked j ∙ ap (λ w. if hits w j then true else c.picker.tried j) e) ids
        (o.member i e) (o.untried i e)

left_of-phase :
    (b d : Bool) (t : ℕ → Bool) (ps bs : List ℕ) → b ≡ d → left_of b t ps bs ≡ left_of d t ps bs
left_of-phase b d t ps bs e = rw e

-- A pick from the primary group, before any backup was asked.
pub primary-less :
    (c : Ctx) (r : Option ℕ × Ctx) (i : ℕ)
    → c.picker.backup_phase ≡ false
    → Outcome c.picker.primary.peers c r
    → r.0 ≡ some i
    → remaining r.1.picker < remaining c.picker
unfolding remaining
primary-less c r i p o e =
    let ps = c.picker.primary.peers in
    let bs = backup_peers c.picker in
    omega (
      arith,
      remaining_after ps c r o,
      left_of-phase c.picker.backup_phase false r.1.picker.tried ps bs p,
      left_of-phase c.picker.backup_phase false c.picker.tried ps bs p,
      Outcome-untried ps c r o i e,
    )

-- A pick from the backup group, by a picker that has entered it.
backup-less :
    (c : Ctx) (g : PeerGroup) (r : Option ℕ × Ctx) (i : ℕ)
    → c.picker.backup_phase ≡ true
    → c.picker.backup ≡ some g
    → Outcome g.peers c r
    → r.0 ≡ some i
    → remaining r.1.picker < remaining c.picker
unfolding remaining
backup-less c g r i p b o e =
    let ps = c.picker.primary.peers in
    let bs = backup_peers c.picker in
    let same : bs ≡ g.peers = ap backup_of b in
    omega (
      arith,
      remaining_after g.peers c r o,
      left_of-phase c.picker.backup_phase true r.1.picker.tried ps bs p,
      left_of-phase c.picker.backup_phase true c.picker.tried ps bs p,
      ap (untried r.1.picker.tried) same,
      ap (untried c.picker.tried) same,
      Outcome-untried g.peers c r o i e,
    )

-- Entering the backup phase never gives back more tries than were promised.
enter_backup-le :
    (c : Ctx) (g : PeerGroup)
    → c.picker.backup ≡ some g
    → remaining (enter_backup g c.picker) ≤ remaining c.picker
unfolding remaining enter_backup
enter_backup-le c g b =
    let bs = backup_peers c.picker in
    elim (Bool-cases c.picker.backup_phase) [
      | inl y ↦ simp y (omega arith)
      | inr n ↦ simp n (omega (arith, untried-le-length (forget_tried g.peers c.picker.tried) bs))
    ]

enter_backup-budget : (g : PeerGroup) (rr : RrPicker) → budget (enter_backup g rr) ≤ budget rr
unfolding budget budget_of enter_backup
enter_backup-budget g rr =
    let t = forget_tried g.peers rr.tried in
    elim (Bool-cases rr.backup_phase) [
      | inl y ↦ simp y (omega arith)
      | inr n ↦ simp n (
          omega
            (arith, untried-le-length t rr.primary.peers, untried-le-length t (backup_peers rr)))
    ]

-- What the two kinds of pick have in common with a whole pick.
pub Outcome-Picked :
    (ids : List ℕ) (c d : Ctx) (r : Option ℕ × Ctx)
    → d.heap ≡ c.heap
    → d.picker.primary ≡ c.picker.primary
    → d.picker.backup ≡ c.picker.backup
    → ((i : ℕ) → Has i ids → Has i c.picker.primary.peers ⊎ Has i (backup_peers c.picker))
    → ((i : ℕ) → r.0 ≡ some i → remaining r.1.picker < remaining c.picker)
    → budget d.picker ≤ budget c.picker
    → Outcome ids d r
    → Picked c r
Outcome-Picked ids c d r h p b m less fits o = record {
  frame = λ j. o.frame j ∙ ap (λ g. static (g j)) h;
  same_primary = o.same_primary ∙ p;
  same_backup = o.same_backup ∙ b;
  opened = λ j. o.opened j ∙ ap (λ g. (g j).conns +ℤ pos (if hits r.0 j then 1 else 0)) h;
  member = λ i e. m i (o.member i e);
  up = λ i e. sym (ap (λ g. (g i).down) h) ∙ o.up i e;
  room = λ i e. sym (ap (λ g. is_full (g i)) h) ∙ o.room i e;
  less = less;
  spends = λ i e.
      let spent =
        Outcome-budget ids d r o
          (λ j v.
            subst (λ g. Has j g.peers ⊎ Has j (backup_peers d.picker)) (sym p)
              (subst (λ x. Has j c.picker.primary.peers ⊎ Has j (backup_of x)) (sym b) (m j v)))
          i e in
      omega (arith, spent, fits);
}

usable_backup-cases :
    (b : Option PeerGroup) (rr : RrPicker)
    → (usable_backup b rr ≡ none)
      ⊎ ((g : PeerGroup) × (b ≡ some g) × (usable_backup b rr ≡ some (g, enter_backup g rr)))
unfolding usable_backup
usable_backup-cases none rr = inl refl
usable_backup-cases (some g) rr = elim (Bool-cases (length g.peers == 0)) [
  | inl y ↦ inl (rw y refl)
  | inr n ↦ inr (g, refl, rw n refl)
]

enter_backup_fields :
    (g : PeerGroup) (rr : RrPicker)
    → ((enter_backup g rr).backup_phase ≡ true)
      × ((enter_backup g rr).primary ≡ rr.primary)
      × ((enter_backup g rr).backup ≡ rr.backup)
unfolding enter_backup
enter_backup_fields g rr = ground arith

pub none-Picked : (c : Ctx) → Picked c (none, c)
none-Picked c = record {
  frame = λ j. refl;
  same_primary = refl;
  same_backup = refl;
  opened = λ j. sym (+ℤ-zero (c.heap j).conns);
  member = λ i e. cc;
  up = λ i e. cc;
  room = λ i e. cc;
  less = λ i e. cc;
  spends = λ i e. cc;
}

module _ (s : Strategy) (l : Lawful s) (now : ℕ) where
  pub pick_backup-Picked : (c : Ctx) → IsSound c.picker → Picked c (pick_backup s now c)
  unfolding pick_backup backup_group_for_pick
  pick_backup-Picked c v = elim (usable_backup-cases c.picker.backup c.picker) [
    | inl n ↦ rw (n, pick_backup) (none-Picked c)
    | inr (g, b, e) ↦
        let rr = enter_backup g c.picker in
        let f = enter_backup_fields g c.picker in
        let d : Ctx = record c { picker = rr } in
        let ids : backup_peers c.picker ≡ g.peers = ap backup_of b in
        let o = pick_from_current_group-Outcome s l now g d (subst Distinct ids v.backup) in
        rw (e, pick_backup)
          (Outcome-Picked g.peers c d (pick_from_current_group s now g d) refl f.1 f.2
            (λ i m. inr (subst (Has i) (sym ids) m))
            (λ i q. omega (
              arith,
              backup-less d g (pick_from_current_group s now g d) i f.0 (f.2 ∙ b) o q,
              enter_backup-le c g b,
            ))
            (enter_backup-budget g c.picker) o)
  ]
