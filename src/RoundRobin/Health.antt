-- ===== src/RoundRobin/Health.antt =====
-- The health of a peer: failures, quarantine, the recovery probe, neutral releases.
use cslb.Prelude.{
  if_intro, ℕ, suc, ◌≤◌, ◌≡◌, refl, ◌∙◌, ap, Bool, true, false, ℤ, pos, ◌≤ℤ◌, ◌<ℤ◌, sub_ℕ, leb_ℤ,
  ltb_ℤ, ◌+ℤ◌, ◌-ℤ◌, if◌then◌else◌, Option, none, some, arith, int_laws, ==_refl,
}
use cslb.Peer.{Peer, set_checked}
use cslb.RoundRobin.{
  Ctx, ProbeCheck, is_quarantined, release, record_failure, record_success, return_probe,
  commit_peer, is_single, done, done_neutral,
}
use cslb.RoundRobin.Release.{done_peer-heap}

-- After a failure that reaches max_fails the peer is quarantined for exactly fail_timeout.
pub record_failure-quarantine :
    (now t : ℕ) (p : Peer)
    → pos 0 <ℤ p.max_fails
    → p.max_fails ≤ℤ pos (suc p.fails)
    → is_quarantined t (record_failure now p) ≡ leb_ℤ (sub_ℕ t now) p.fail_timeout
unfolding record_failure
record_failure-quarantine now t p m f = ground arith

pub record_failure-weight :
    (now : ℕ) (p : Peer) → (record_failure now p).effective_weight ≤ p.effective_weight
unfolding record_failure
record_failure-weight now p = ground arith

pub done-picker :
    (now i : ℕ) (failed : Bool) (c : Ctx) → (done now (some i) failed c).picker ≡ c.picker
unfolding done
done-picker now i failed c =
    if_intro (λ (d : Ctx). d.picker ≡ c.picker) (is_single c.picker (c.heap i)) refl refl

-- A peer as `commit_peer` leaves it.
abbrev pub committed : ℕ → Peer → Peer
committed now p =
    let q = if ltb_ℤ p.fail_timeout (sub_ℕ now p.checked) then set_checked now p else p in
    record q { conns = p.conns +ℤ pos 1 }

commit_peer_self : (now i : ℕ) (c : Ctx) → (commit_peer now i c).heap i ≡ committed now (c.heap i)
unfolding commit_peer
commit_peer_self now i c = ground arith

-- What a picker remembers of a peer's probe after it commits the peer.
abbrev new_probe : ℕ → Peer → Option ProbeCheck → Option ProbeCheck
new_probe now p old =
    if ltb_ℤ p.fail_timeout (sub_ℕ now p.checked)
    then some (record { prior = p.checked; seq = suc p.checked_seq })
    else old

commit_peer-probe :
    (now i : ℕ) (c : Ctx)
    → (commit_peer now i c).picker.probe_checked i
      ≡ new_probe now (c.heap i) (c.picker.probe_checked i)
unfolding commit_peer
commit_peer-probe now i c = ground arith

commit_peer-single :
    (now i : ℕ) (c : Ctx)
    → is_single (commit_peer now i c).picker ((commit_peer now i c).heap i)
      ≡ is_single c.picker (c.heap i)
unfolding commit_peer
commit_peer-single now i c = ground arith

pub done_self :
    (now : ℕ) (failed : Bool) (i : ℕ) (c : Ctx)
    → is_single c.picker (c.heap i) ≡ false
    → (done now (some i) failed c).heap i
      ≡ release (if failed then record_failure now (c.heap i) else record_success (c.heap i))
unfolding done
done_self now failed i c n = done_peer-heap now failed false i i c ∙ rw (==_refl i, n) refl

done_neutral_self :
    (now i : ℕ) (c : Ctx)
    → is_single c.picker (c.heap i) ≡ false
    → (done_neutral now (some i) c).heap i
      ≡ release (return_probe (c.picker.probe_checked i) (c.heap i))
unfolding done_neutral
done_neutral_self now i c n = done_peer-heap now false true i i c ∙ rw (==_refl i, n) refl

committed-quarantine :
    (now t : ℕ) (p : Peer)
    → pos 0 <ℤ p.max_fails
    → p.max_fails ≤ℤ pos p.fails
    → p.fail_timeout <ℤ sub_ℕ now p.checked
    → is_quarantined t (committed now p) ≡ leb_ℤ (sub_ℕ t now) p.fail_timeout
unfolding set_checked
committed-quarantine now t p m f x = ground arith

committed-recovers :
    (now : ℕ) (p : Peer)
    → pos 0 ≤ℤ p.fail_timeout
    → p.accessed ≤ p.checked
    → p.fail_timeout <ℤ sub_ℕ now p.checked
    → (record_success (committed now p)).fails ≡ 0
unfolding set_checked record_success
committed-recovers now p z a x = ground arith

-- Outside the single-peer path, a peer at a positive max_fails, whose fail_timeout is not negative and
-- has passed since it was checked, and which has not failed since: once a request commits it, the
-- peer is quarantined at exactly the times at most fail_timeout after that, and the success of the
-- request, with nothing in between, clears its failures.
pub probe_recovers :
    (now t later i : ℕ) (c : Ctx)
    → is_single c.picker (c.heap i) ≡ false
    → pos 0 <ℤ (c.heap i).max_fails
    → (c.heap i).max_fails ≤ℤ pos (c.heap i).fails
    → pos 0 ≤ℤ (c.heap i).fail_timeout
    → (c.heap i).accessed ≤ (c.heap i).checked
    → (c.heap i).fail_timeout <ℤ sub_ℕ now (c.heap i).checked
    → (is_quarantined t ((commit_peer now i c).heap i)
        ≡ leb_ℤ (sub_ℕ t now) (c.heap i).fail_timeout)
      × (((done later (some i) false (commit_peer now i c)).heap i).fails ≡ 0)
probe_recovers now t later i c n m f z a x = (
  ap (λ p. is_quarantined t p) (commit_peer_self now i c)
      ∙ committed-quarantine now t (c.heap i) m f x,
  ap (λ p. p.fails) (done_self later false i (commit_peer now i c) (commit_peer-single now i c ∙ n))
      ∙ ap (λ p. (record_success p).fails) (commit_peer_self now i c)
      ∙ committed-recovers now (c.heap i) z a x,
)

-- A peer without the counter of the writes to `checked`.
abbrev pub unversioned : Peer → Peer
unversioned p = record p { checked_seq = 0 }

conns_back : (a : ℤ) → a +ℤ pos 1 -ℤ pos 1 ≡ a
conns_back a = omega int_laws

probe_returned :
    (now : ℕ) (p : Peer)
    → unversioned (release (return_probe (new_probe now p none) (committed now p))) ≡ unversioned p
unfolding return_probe
probe_returned now p = ground (arith, conns_back p.conns)

-- Outside the single-peer path, by a picker that remembers no probe of the peer: a commit that is
-- released neutrally, with nothing in between, leaves the peer as it was, except for the counter of
-- the writes to `checked`.
pub done_neutral-commit_peer :
    (now later i : ℕ) (c : Ctx)
    → is_single c.picker (c.heap i) ≡ false
    → c.picker.probe_checked i ≡ none
    → unversioned ((done_neutral later (some i) (commit_peer now i c)).heap i)
      ≡ unversioned (c.heap i)
done_neutral-commit_peer now later i c n q =
    ap unversioned
      (done_neutral_self later i (commit_peer now i c) (commit_peer-single now i c ∙ n))
    ∙ (λ k.
        unversioned
          (release (return_probe (commit_peer-probe now i c k) (commit_peer_self now i c k))))
    ∙ (λ k.
        unversioned
          (release (return_probe (new_probe now (c.heap i) (q k)) (committed now (c.heap i)))))
    ∙ probe_returned now (c.heap i)
