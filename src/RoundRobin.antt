-- ===== src/RoundRobin.antt =====
-- roundrobin.go and util.go: the per-request picker RRPicker.
-- A method takes the picker and the memory and gives both back. Each section under the group's lock
-- reads the clock once, and that time is an argument.
pub mod Contract
pub mod Effects
pub mod Sections
pub mod Untried
pub mod Backup
pub mod Whole
pub mod Safe
pub mod Release
pub mod Health
pub mod Failures
pub mod Exhausted
use cslb.Prelude.{
  ℕ, suc, ◌+◌, ◌-◌, ◌/◌, ◌==◌, ltb, ltb_ℤ, leb_ℤ, sub_ℕ, pos, pos_part, ◌+ℤ◌, ◌-ℤ◌, Bool, true,
  false, not, ◌&&◌, ◌||◌, if◌then◌else◌, List, [], ◌∷◌, Option, none, some, length,
}
use cslb.Peer.{Peer, Heap, update, set_checked}
use cslb.Group.{PeerGroup}
use cslb.Smooth.{smooth_weighted_peer}

pub record ProbeCheck : Type 0 where
  pub prior : ℕ
  pub seq : ℕ

-- The maps are read by index only: a missing key is `false` or `none`.
pub record RrPicker : Type 0 where
  pub primary : PeerGroup
  pub backup : Option PeerGroup
  pub tried : ℕ → Bool
  pub backup_phase : Bool
  pub probe_checked : ℕ → Option ProbeCheck

pub record Ctx : Type 0 where
  pub picker : RrPicker
  pub heap : Heap

unfoldable pub new_rr_picker : PeerGroup → Option PeerGroup → RrPicker
new_rr_picker primary backup = record {
  primary = primary;
  backup = backup;
  tried = λ i. false;
  backup_phase = false;
  probe_checked = λ i. none;
}

-- At max_fails within fail_timeout.
abbrev pub is_quarantined : ℕ → Peer → Bool
is_quarantined now p =
    ltb_ℤ (pos 0) p.max_fails
    && leb_ℤ p.max_fails (pos p.fails)
    && leb_ℤ (sub_ℕ now p.checked) p.fail_timeout

-- At max_conns.
abbrev pub is_full : Peer → Bool
is_full p = ltb_ℤ (pos 0) p.max_conns && leb_ℤ p.max_conns p.conns

-- util.go
unfoldable pub peer_available : ℕ → Peer → Bool
peer_available now p = if is_quarantined now p then false else if is_full p then false else true

-- The callback of pickFromGroup.
unfoldable pub is_eligible : ℕ → (ℕ → Bool) → ℕ → Peer → Bool
is_eligible now tried i p =
    if tried i
    then false
    else if p.down
    then false
    else if is_quarantined now p
    then false
    else if is_full p
    then false
    else true

unfoldable pub set_tried : ℕ → RrPicker → RrPicker
set_tried i rr = record rr { tried = update rr.tried i true }

-- `peer.conns++` and SetTried.
unfoldable pub take : ℕ → Ctx → Ctx
unfolding set_tried
take i c =
    let p = c.heap i in
    record {
      picker = set_tried i c.picker;
      heap = update c.heap i (record p { conns = p.conns +ℤ pos 1 });
    }

-- Starts the recovery probe of a peer whose fail_timeout has run out.
unfoldable pub start_probe : ℕ → ℕ → Ctx → Ctx
unfolding set_checked
start_probe now i c =
    let p = c.heap i in
    if ltb_ℤ p.fail_timeout (sub_ℕ now p.checked)
    then record {
      picker = record (c.picker) {
        probe_checked =
            update c.picker.probe_checked i
              (some (record { prior = p.checked; seq = (set_checked now p).checked_seq }));
      };
      heap = update c.heap i (set_checked now p);
    }
    else c

unfoldable pub commit_peer : ℕ → ℕ → Ctx → Ctx
unfolding start_probe take
commit_peer now i c = take i (start_probe now i c)

-- nginx's single-peer fast path: `Peers[0]` of a group that has one peer.
unfoldable pub pick_single : List ℕ → Ctx → Option ℕ × Ctx
unfolding take
pick_single [] c = (none, c)
pick_single (i ∷ is) c =
    if c.picker.tried i || (c.heap i).down || is_full (c.heap i)
    then (none, c)
    else (some i, take i c)

unfoldable pub commit_best : ℕ → Ctx → Option ℕ × Heap → Option ℕ × Ctx
commit_best now c (none, h) = (none, record c { heap = h })
commit_best now c (some i, h) = (some i, commit_peer now i (record c { heap = h }))

unfoldable pub pick_smooth : ℕ → List ℕ → Ctx → Option ℕ × Ctx
unfolding commit_best
pick_smooth now peers c =
    commit_best now c (smooth_weighted_peer (is_eligible now c.picker.tried) peers c.heap)

unfoldable pub pick_from_group : ℕ → PeerGroup → Ctx → Option ℕ × Ctx
pick_from_group now g c = if g.single then pick_single g.peers c else pick_smooth now g.peers c

-- A strategy: how an algorithm picks from a group.
abbrev pub Strategy : Type 0
Strategy = ℕ → PeerGroup → Ctx → Option ℕ × Ctx

unfoldable pub pick_from_current_group : Strategy → Strategy
pick_from_current_group pick now g c = if g.single then pick_from_group now g c else pick now g c

-- `delete(rr.tried, bp)` for every backup peer.
unfoldable pub forget_tried : List ℕ → (ℕ → Bool) → ℕ → Bool
forget_tried [] tried = tried
forget_tried (i ∷ is) tried = forget_tried is (update tried i false)

unfoldable pub enter_backup : PeerGroup → RrPicker → RrPicker
unfolding forget_tried
enter_backup g rr =
    if rr.backup_phase
    then rr
    else record rr { backup_phase = true; tried = forget_tried g.peers rr.tried }

-- `rr.backup == nil || len(rr.backup.Peers) == 0` ends the pick.
unfoldable pub usable_backup : Option PeerGroup → RrPicker → Option (PeerGroup × RrPicker)
usable_backup none rr = none
usable_backup (some g) rr = if length g.peers == 0 then none else some (g, enter_backup g rr)

unfoldable pub backup_group_for_pick : RrPicker → Option (PeerGroup × RrPicker)
backup_group_for_pick rr = usable_backup rr.backup rr

unfoldable pub pick_entered : Strategy → ℕ → Ctx → Option (PeerGroup × RrPicker) → Option ℕ × Ctx
pick_entered pick now c none = (none, c)
pick_entered pick now c (some (g, rr)) =
    pick_from_current_group pick now g (record c { picker = rr })

unfoldable pub pick_backup : Strategy → ℕ → Ctx → Option ℕ × Ctx
unfolding pick_entered
pick_backup pick now c = pick_entered pick now c (backup_group_for_pick c.picker)

unfoldable pub or_backup : Strategy → ℕ → Option ℕ × Ctx → Option ℕ × Ctx
or_backup pick now (some i, c) = (some i, c)
or_backup pick now (none, c) = pick_backup pick now c

-- The primary group is tried at the first time, the backup group at the second.
unfoldable pub pick_with_backup : Strategy → ℕ → ℕ → Ctx → Option ℕ × Ctx
pick_with_backup pick now later c =
    if c.picker.backup_phase
    then pick_backup pick later c
    else or_backup pick later (pick_from_current_group pick now c.picker.primary c)

unfoldable pub pick : ℕ → ℕ → Ctx → Option ℕ × Ctx
pick = pick_with_backup pick_from_group

abbrev pub release : Peer → Peer
release p = record p { conns = p.conns -ℤ pos 1 }

-- The effective weight that falls below zero is set to zero, as subtraction on numbers does.
unfoldable pub record_failure : ℕ → Peer → Peer
unfolding set_checked
record_failure now p =
    let q = set_checked now (record p { fails = suc p.fails; accessed = now }) in
    record q {
      effective_weight =
          if ltb_ℤ (pos 0) p.max_fails
          then p.effective_weight - p.weight / pos_part p.max_fails
          else p.effective_weight;
    }

-- The recovery: `accessed` is before `checked`.
unfoldable pub record_success : Peer → Peer
record_success p = record p { fails = if ltb p.accessed p.checked then 0 else p.fails }

-- Hands the recovery probe back, unless someone has written `checked` since.
unfoldable pub return_probe : Option ProbeCheck → Peer → Peer
unfolding set_checked
return_probe none p = p
return_probe (some probe) p = if p.checked_seq == probe.seq then set_checked probe.prior p else p

abbrev pub is_single : RrPicker → Peer → Bool
is_single rr p =
    if p.backup
    then elim rr.backup [ none ↦ rr.primary.single | some g ↦ g.single ]
    else rr.primary.single

unfoldable pub done_peer : ℕ → Bool → Bool → ℕ → Ctx → Ctx
unfolding record_failure record_success return_probe
done_peer now failed neutral i c =
    let p = c.heap i in
    if is_single c.picker p
    then record c { heap = update c.heap i (release (record p { fails = 0 })) }
    else if neutral
    then record {
      picker = record (c.picker) { probe_checked = update c.picker.probe_checked i none };
      heap = update c.heap i (release (return_probe (c.picker.probe_checked i) p));
    }
    else record c {
      heap = update c.heap i (release (if failed then record_failure now p else record_success p));
    }

-- A nil peer is ignored.
unfoldable pub done_with : ℕ → Bool → Bool → Option ℕ → Ctx → Ctx
unfolding done_peer
done_with now failed neutral none c = c
done_with now failed neutral (some i) c = done_peer now failed neutral i c

unfoldable pub done : ℕ → Option ℕ → Bool → Ctx → Ctx
unfolding done_with
done now peer failed = done_with now failed false peer

unfoldable pub done_neutral : ℕ → Option ℕ → Ctx → Ctx
unfolding done_with
done_neutral now peer = done_with now false true peer
