-- ===== src/Tests/Health.antt =====
-- Examples for failures, quarantine and the recovery probe.
use cslb.Prelude.{◌≡◌, refl, [], ◌∷◌, true, false, pos, some, arith}
use cslb.Peer.{init, update}
use cslb.Group.{init_all}
use cslb.RoundRobin.{Ctx, new_rr_picker, is_quarantined, commit_peer, done, done_neutral}
use cslb.RoundRobin.Health.{probe_recovers, done_neutral-commit_peer, unversioned}
use cslb.RoundRobin.Failures.{failures, done-failures}
use cslb.Tests.{memory, request}

-- Server 0 has a max_fails of three.
abbrev tolerant : Ctx
tolerant = record {
  picker = request.picker;
  heap = update memory 0 (record (memory 0) { max_fails = pos 3 });
}

done-failures_example :
    is_quarantined 20 ((done 9 (some 0) true (failures (5 ∷ []) 0 tolerant)).heap 0) ≡ false
unfolding new_rr_picker init_all init
done-failures_example = done-failures (5 ∷ []) 9 20 0 tolerant refl

-- Server 0 failed at time 5.
abbrev failed : Ctx
failed = record {
  picker = request.picker;
  heap = update memory 0 (record (memory 0) { fails = 1; accessed = 5; checked = 5 });
}

probe_recovers_example :
    (is_quarantined 30_000_000_000 ((commit_peer 20_000_000_000 0 failed).heap 0) ≡ true)
    × (((done 30_000_000_001 (some 0) false (commit_peer 20_000_000_000 0 failed)).heap 0).fails
        ≡ 0)
unfolding new_rr_picker init_all init
probe_recovers_example =
    probe_recovers 20_000_000_000 30_000_000_000 30_000_000_001 0 failed refl (omega arith)
      (omega arith) (omega arith) (omega arith) (omega arith)

done_neutral-commit_peer_example :
    unversioned
      ((done_neutral 30_000_000_000 (some 0) (commit_peer 20_000_000_000 0 failed)).heap 0)
    ≡ unversioned (failed.heap 0)
unfolding new_rr_picker init_all init
done_neutral-commit_peer_example =
    done_neutral-commit_peer 20_000_000_000 30_000_000_000 0 failed refl refl
