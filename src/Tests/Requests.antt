-- ===== src/Tests/Requests.antt =====
-- Tests and examples for whole requests, and for several at once.
use cslb.Prelude.{
  ◌+◌, ◌≡◌, refl, true, false, pos, ◌+ℤ◌, ◌-ℤ◌, ◌*ℤ◌, [], ◌∷◌, none, some, inl, inr, arith,
}
use cslb.Peer.{init}
use cslb.Group.{init_all}
use cslb.RoundRobin.{
  Ctx, new_rr_picker, pick_from_current_group, pick_with_backup, done_peer, pick_from_group,
  commit_best, is_eligible, pick_smooth, commit_peer,
}
use cslb.Smooth.{smooth_weighted_peer}
use cslb.RoundRobin.Backup.{Picked, pick_from_group-Lawful}
use cslb.RoundRobin.Whole.{pick_with_backup-Picked}
use cslb.RoundRobin.Release.{done_peer-conns}
use cslb.RoundRobin.Exhausted.{pick-exhausted}
use cslb.LeastConn
use cslb.RoundRobin
use cslb.LeastConn.Choice
use cslb.System.{
  System, after_pick, pick_section, done_section, Reach, here, next, IsAccounted, Reach-IsAccounted,
  init_all-IsAccounted, drop_one,
}
use cslb.Balancer.{Surroundings, rr_picker, retry_loop}
use cslb.Balancer.Retry.{Ends}
use cslb.Balancer.Finite.{IsQuiet, retry_loop-new_rr_picker}
use cslb.Balancer.One.{both, pick_one-result_done}
use cslb.Tests.{
  servers, memory, primary, backup, request, primaries-Distinct, backups-Distinct, request-IsSound,
}

abbrev start : System
start = record { heap = memory; leases = [] }

-- One request takes server 0, another one by least connections server 1, and the first one ends.
abbrev first : System
first = after_pick start (pick_from_current_group pick_from_group 5 primary request)

abbrev second : System
second = after_pick first (
    pick_from_current_group LeastConn.pick_from_group 6 primary
      (record { picker = new_rr_picker primary (some backup); heap = first.heap }))

second_leases : second.leases ≡ 1 ∷ 0 ∷ []
unfolding pick_from_current_group LeastConn.pick_from_group commit_best LeastConn.break_tie
    LeastConn.least_loop is_eligible new_rr_picker pick_from_group pick_smooth smooth_weighted_peer
    init_all init ◌+ℤ◌ commit_peer LeastConn.consider ◌*ℤ◌ LeastConn.is_tied
second_leases = refl

abbrev third : System
third = record {
  heap =
      (done_peer 9 false false 0
        (record { picker = new_rr_picker primary (some backup); heap = second.heap })).heap;
  leases = drop_one 0 second.leases;
}

run_to_third : Reach start third
run_to_third =
    let rr = new_rr_picker primary (some backup) in
    next
      (next
        (next here
          (pick_section pick_from_group 5 primary rr pick_from_group-Lawful primaries-Distinct))
        (pick_section LeastConn.pick_from_group 6 primary rr LeastConn.Choice.pick_from_group-Lawful
          primaries-Distinct))
      (done_section 9 false false 0 rr (rw second_leases (omega arith)))

Reach-IsAccounted_example : IsAccounted third
Reach-IsAccounted_example = Reach-IsAccounted run_to_third (init_all-IsAccounted servers)

-- Every call of tryFunc fails, and nobody else is there.
abbrev failing : Surroundings Ctx
failing = record {
  clock = λ k n. k;
  before_pick = λ k c. c;
  before_done = λ k c. c;
  attempt = λ k addr. false;
}

failing-IsQuiet : IsQuiet failing
failing-IsQuiet = record { pick_same = λ k c. refl; done_same = λ k c. refl }

retry_loop-new_rr_picker_example :
    Ends rr_picker failing 0 request 5 (retry_loop rr_picker failing 6 0 request)
retry_loop-new_rr_picker_example =
    retry_loop-new_rr_picker failing failing-IsQuiet memory primary (some backup) primaries-Distinct
      backups-Distinct

pick_with_backup-Picked_example :
    Picked request (pick_with_backup LeastConn.pick_from_group 5 6 request)
pick_with_backup-Picked_example =
    pick_with_backup-Picked LeastConn.pick_from_group LeastConn.Choice.pick_from_group-Lawful 5 6
      request request-IsSound

pick_one-result_done_example : ((both (λ n. n) (λ n. 9 + n) true request).heap 0).conns ≡ pos 0
unfolding init_all init
pick_one-result_done_example =
    pick_one-result_done (λ n. n) (λ n. 9 + n) true request 0 request-IsSound

done_peer-conns_example :
    ((done_peer 9 true false 0 (record { picker = request.picker; heap = first.heap })).heap
      0).conns
    ≡ (first.heap 0).conns -ℤ pos 1
done_peer-conns_example =
    done_peer-conns 9 true false 0 0 (record { picker = request.picker; heap = first.heap })

-- A request that has tried every primary peer, with no backups.
abbrev spent : Ctx
spent = record { picker = record (new_rr_picker primary none) { tried = λ i. true }; heap = memory }

pick-exhausted_example : is_eligible 5 spent.picker.tried 1 (memory 1) ≡ false
unfolding new_rr_picker RoundRobin.pick pick_with_backup RoundRobin.or_backup
    pick_from_current_group pick_from_group pick_smooth smooth_weighted_peer is_eligible
    RoundRobin.pick_backup RoundRobin.backup_group_for_pick RoundRobin.usable_backup
pick-exhausted_example =
    pick-exhausted 5 6 spent 1 primaries-Distinct refl refl refl (inr (inl refl))
