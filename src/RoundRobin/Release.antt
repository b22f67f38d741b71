-- ===== src/RoundRobin/Release.antt =====
-- What `done` changes of a peer, on every branch.
use cslb.Prelude.{
  ℕ, ◌==◌, ◌≡◌, refl, ◌∙◌, ap, Bool, pos, ◌-ℤ◌, if◌then◌else◌, Option, none, some, arith,
  Bool-cases, inl, inr, if_intro, -ℤ-zero,
}
use cslb.Peer.{Peer}
use cslb.RoundRobin.{
  Ctx, ProbeCheck, RrPicker, is_single, release, record_failure, record_success, return_probe,
  done_peer,
}
use cslb.RoundRobin.Contract.{static}

-- The peer that `done` writes back.
abbrev pub settled_peer : ℕ → Bool → Bool → ℕ → RrPicker → Peer → Peer
settled_peer now failed neutral i rr p =
    if is_single rr p
    then record p { fails = 0 }
    else if neutral
    then return_probe (rr.probe_checked i) p
    else if failed
    then record_failure now p
    else record_success p

pub done_peer-heap :
    (now : ℕ) (failed neutral : Bool) (i j : ℕ) (c : Ctx)
    → (done_peer now failed neutral i c).heap j ≡ (
        if j == i
        then release (settled_peer now failed neutral i c.picker (c.heap i))
        else c.heap j)
unfolding done_peer
done_peer-heap now failed neutral i j c = elim (Bool-cases (is_single c.picker (c.heap i))) [
  | inl y ↦ rw (y, done_peer)
  | inr n ↦ elim (Bool-cases neutral) [
    | inl y ↦ rw (n, y, done_peer)
    | inr m ↦ rw (n, m, done_peer)
  ]
]

settled_peer-static :
    (now : ℕ) (failed neutral : Bool) (i : ℕ) (rr : RrPicker) (p : Peer)
    → static (settled_peer now failed neutral i rr p) ≡ static p
unfolding record_failure record_success return_probe
settled_peer-static now failed neutral i rr p =
    let same : Peer → Type 0 = λ q. static q ≡ static p in
    if_intro same (is_single rr p) refl
      (if_intro same neutral (returned (rr.probe_checked i)) (if_intro same failed refl refl))
  where
    returned : (o : Option ProbeCheck) → static (return_probe o p) ≡ static p
    returned none = refl
    returned (some probe) = ground arith

settled_peer-conns :
    (now : ℕ) (failed neutral : Bool) (i : ℕ) (rr : RrPicker) (p : Peer)
    → (settled_peer now failed neutral i rr p).conns ≡ p.conns
unfolding record_failure record_success return_probe
settled_peer-conns now failed neutral i rr p =
    let same : Peer → Type 0 = λ q. q.conns ≡ p.conns in
    if_intro same (is_single rr p) refl
      (if_intro same neutral (returned (rr.probe_checked i)) (if_intro same failed refl refl))
  where
    returned : (o : Option ProbeCheck) → (return_probe o p).conns ≡ p.conns
    returned none = refl
    returned (some probe) = ground arith

-- No branch of `done` touches the configuration.
pub done_peer-static :
    (now : ℕ) (failed neutral : Bool) (i j : ℕ) (c : Ctx)
    → static ((done_peer now failed neutral i c).heap j) ≡ static (c.heap j)
done_peer-static now failed neutral i j c =
    let p = settled_peer now failed neutral i c.picker (c.heap i) in
    ap static (done_peer-heap now failed neutral i j c)
    ∙ ground (arith, settled_peer-static now failed neutral i c.picker (c.heap i))

-- Every branch of `done` closes one connection of its peer and none of another.
pub done_peer-conns :
    (now : ℕ) (failed neutral : Bool) (i j : ℕ) (c : Ctx)
    → ((done_peer now failed neutral i c).heap j).conns
      ≡ (c.heap j).conns -ℤ pos (if j == i then 1 else 0)
done_peer-conns now failed neutral i j c =
    ap (λ p. p.conns) (done_peer-heap now failed neutral i j c)
    ∙ ground (
      arith,
      settled_peer-conns now failed neutral i c.picker (c.heap i),
      -ℤ-zero (c.heap j).conns,
    )
