-- ===== src/Balancer/One.antt =====
-- PickOne and PickResult.Done over the round-robin picker.
use cslb.Prelude.{
  ℕ, ◌==◌, ◌≡◌, ◌∙◌, ap, Bool, true, false, ℤ, pos, ◌+ℤ◌, ◌-ℤ◌, if◌then◌else◌, Option, none, some,
  int_laws, +ℤ-zero,
}
use cslb.RoundRobin.{Ctx, pick, done}
use cslb.RoundRobin.Backup.{IsSound, Picked}
use cslb.RoundRobin.Whole.{pick-Picked}
use cslb.RoundRobin.Release.{done_peer-conns}
use cslb.Balancer.{rr_picker, PickResult, result_done, picked_result, pick_one}

-- The memory after the result has been reported: with a picker in the result that picker's, else what
-- the call of PickOne left, and `c` if there was no picker.
abbrev left_by : Ctx → Option Ctx → Ctx
left_by c none = c
left_by c (some d) = d

unfoldable pub state_of : Ctx → Option (PickResult Ctx) → Option Ctx → Ctx
state_of c none o = left_by c o
state_of c (some r) o = elim r.picker [ none ↦ left_by c o | some d ↦ d ]

unfoldable pub both : (ℕ → ℕ) → (ℕ → ℕ) → Bool → Ctx → Ctx
both clock later failed c =
    let r = pick_one rr_picker clock (some (some c)) in
    state_of c (result_done rr_picker later failed r.0) r.1

given_back : (b : Bool) (a : ℤ) → a +ℤ pos (if b then 1 else 0) -ℤ pos (if b then 1 else 0) ≡ a
given_back true a = omega int_laws
given_back false a = omega int_laws

Picked-conns :
    (later : ℕ → ℕ) (failed : Bool) (c : Ctx) (r : Option ℕ × Ctx) (j : ℕ)
    → Picked c r
    → let x = picked_result rr_picker r in
      ((state_of c (result_done rr_picker later failed x.0) x.1).heap j).conns ≡ (c.heap j).conns
unfolding picked_result result_done state_of done
Picked-conns later failed c (none, d) j p = p.opened j ∙ +ℤ-zero (c.heap j).conns
Picked-conns later failed c (some i, d) j p =
    done_peer-conns (later 0) failed false i j d
    ∙ ap (λ n. n -ℤ pos (if j == i then 1 else 0)) (p.opened j)
    ∙ given_back (j == i) (c.heap j).conns

-- PickOne over a round-robin picker whose groups name each peer once, followed by Done with nothing
-- in between, leaves every peer's connection counter as it was, whatever is reported.
pub pick_one-result_done :
    (clock later : ℕ → ℕ) (failed : Bool) (c : Ctx) (j : ℕ)
    → IsSound c.picker
    → ((both clock later failed c).heap j).conns ≡ (c.heap j).conns
unfolding pick_one both
pick_one-result_done clock later failed c j v =
    Picked-conns later failed c (pick (clock 0) (clock 1) c) j (pick-Picked (clock 0) (clock 1) c v)
