-- ===== src/Balancer/Finite.antt =====
-- The round-robin picker runs out of tries.
use cslb.Prelude.{ℕ, suc, ◌+◌, ◌≤◌, ◌≡◌, sym, ap, false, Option, arith, length, subst, Distinct}
use native.Mathlib.Nat.{le_of_eq}
use cslb.Peer.{Heap}
use cslb.Group.{PeerGroup}
use cslb.RoundRobin.{Ctx, new_rr_picker, pick}
use cslb.RoundRobin.Untried.{remaining, untried-le-length, backup_of}
use cslb.RoundRobin.Backup.{IsSound}
use cslb.RoundRobin.Whole.{pick-Picked}
use cslb.RoundRobin.Health.{done-picker}
use cslb.Balancer.{rr_picker, Surroundings, retry_loop}
use cslb.Balancer.Retry.{IsFinite, Ends, retry_loop-Ends}

-- Other requests change the memory that the peers share, and not this request's picker.
pub record IsQuiet (w : Surroundings Ctx) : Type 0 where
  pub pick_same : (k : ℕ) (c : Ctx) → (w.before_pick k c).picker ≡ c.picker
  pub done_same : (k : ℕ) (c : Ctx) → (w.before_done k c).picker ≡ c.picker

pick-IsSound : (now later : ℕ) (c : Ctx) → IsSound c.picker → IsSound (pick now later c).1.picker
pick-IsSound now later c v =
    let p = pick-Picked now later c v in
    record {
      primary = subst (λ g. Distinct g.peers) (sym p.same_primary) v.primary;
      backup = subst (λ b. Distinct (backup_of b)) (sym p.same_backup) v.backup;
    }

module _ (w : Surroundings Ctx) (q : IsQuiet w) where
  pub rr_picker-IsFinite : IsFinite rr_picker w
  rr_picker-IsFinite = record {
    Inv = λ c. IsSound c.picker;
    left = λ c. remaining c.picker;
    pick_keeps = λ clock c v. pick-IsSound (clock 0) (clock 1) c v;
    pick_less = λ clock c i v e. (pick-Picked (clock 0) (clock 1) c v).less i e;
    done_keeps = λ clock i failed c v. (
      subst IsSound (sym (done-picker (clock 0) i failed c)) v,
      le_of_eq (ap remaining (done-picker (clock 0) i failed c)),
    );
    before_pick_keeps = λ k c v.
        (subst IsSound (sym (q.pick_same k c)) v, le_of_eq (ap remaining (q.pick_same k c)));
    before_done_keeps = λ k c v.
        (subst IsSound (sym (q.done_same k c)) v, le_of_eq (ap remaining (q.done_same k c)));
  }

  new_rr_picker-remaining :
      (primary : PeerGroup) (backup : Option PeerGroup)
      → remaining (new_rr_picker primary backup) ≤ length primary.peers + length (backup_of backup)
  unfolding remaining new_rr_picker
  new_rr_picker-remaining primary backup =
      omega (arith, untried-le-length (λ i. false) primary.peers)

  -- PickWithRetry over a new round-robin picker ends, whatever tryFunc returns and whatever other
  -- requests do to the peers. It calls tryFunc at most once for each primary and backup peer. In every
  -- round but the last, Pick returns a peer, tryFunc returns an error for its address, and the peer is
  -- reported to Done as failed. In the last round either Pick returns a peer, tryFunc succeeds for its
  -- address, Done is called without a failure, and that peer is the result; or Pick returns no peer,
  -- tryFunc is not called, and the result is ErrNoPeerAvailable.
  pub retry_loop-new_rr_picker :
      (h : Heap) (primary : PeerGroup) (backup : Option PeerGroup)
      → Distinct primary.peers
      → Distinct (backup_of backup)
      → let most = length primary.peers + length (backup_of backup) in
        let start : Ctx = record { picker = new_rr_picker primary backup; heap = h } in
        Ends rr_picker w 0 start most (retry_loop rr_picker w (suc most) 0 start)
  unfolding new_rr_picker rr_picker-IsFinite
  retry_loop-new_rr_picker h primary backup d e =
      let most = length primary.peers + length (backup_of backup) in
      let bound = new_rr_picker-remaining primary backup in
      retry_loop-Ends rr_picker w rr_picker-IsFinite (suc most) 0 most
        (record { picker = new_rr_picker primary backup; heap = h })
        (record { primary = d; backup = e }) (omega (arith, bound)) (omega (arith, bound))
