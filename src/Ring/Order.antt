-- ===== src/Ring/Order.antt =====
-- The ring is strictly ascending.
use cslb.Prelude.{ℕ, ◌≤◌, ◌<◌, ◌==◌, ◌≡◌, inl, inr, ltb, List, [], ◌∷◌, arith, Bool-cases}
use cslb.Peer.{Heap}
use cslb.Ring.{
  ChashPoint, generate_points, insert_point, sort_points, dedupe_after, dedupe, build_chash_ring,
}

-- The hashes rise from `x` on, and strictly so.
abbrev AtLeast : ℕ → List ChashPoint → Type 0
AtLeast x [] = Unit {0}
AtLeast x (p ∷ ps) = (x ≤ p.hash) × AtLeast p.hash ps

abbrev pub Above : ℕ → List ChashPoint → Type 0
Above x [] = Unit {0}
Above x (p ∷ ps) = (x < p.hash) × Above p.hash ps

abbrev pub Ascending : List ChashPoint → Type 0
Ascending [] = Unit {0}
Ascending (p ∷ ps) = Above p.hash ps

insert_point-AtLeast :
    (x : ℕ) (p : ChashPoint) (ps : List ChashPoint)
    → x ≤ p.hash
    → AtLeast x ps
    → AtLeast x (insert_point p ps)
unfolding insert_point
insert_point-AtLeast x p [] l a = (l, tt)
insert_point-AtLeast x p (q ∷ qs) l a = elim (Bool-cases (ltb q.hash p.hash)) [
  | inl y ↦ rw (y, insert_point) (a.0, insert_point-AtLeast q.hash p qs (ground arith) a.1)
  | inr n ↦ rw (n, insert_point) (l, (ground arith, a.1))
]

sort_points-AtLeast : (ps : List ChashPoint) → AtLeast 0 (sort_points ps)
unfolding sort_points
sort_points-AtLeast [] = tt
sort_points-AtLeast (p ∷ ps) =
    insert_point-AtLeast 0 p (sort_points ps) (omega arith) (sort_points-AtLeast ps)

dedupe_after-Above :
    (p : ChashPoint) (qs : List ChashPoint) → AtLeast p.hash qs → Above p.hash (dedupe_after p qs)
unfolding dedupe_after
dedupe_after-Above p [] a = tt
dedupe_after-Above p (q ∷ qs) a = elim (Bool-cases (q.hash == p.hash)) [
  | inl y ↦
      let same : q.hash ≡ p.hash = ground arith in
      rw (y, dedupe_after) (dedupe_after-Above p qs (rw (← same) a.1))
  | inr n ↦ let l = a.0 in rw (n, dedupe_after) (ground arith, dedupe_after-Above q qs a.1)
]

dedupe-Ascending : (ps : List ChashPoint) → AtLeast 0 ps → Ascending (dedupe ps)
unfolding dedupe
dedupe-Ascending [] a = tt
dedupe-Ascending (p ∷ ps) a = dedupe_after-Above p ps a.1

-- The hashes of a ring strictly ascend, so that no two of its points share one.
pub build_chash_ring-Ascending :
    (crc32 : List ℕ → ℕ) (h : Heap) (peers : List ℕ) → Ascending (build_chash_ring crc32 h peers)
unfolding build_chash_ring
build_chash_ring-Ascending crc32 h peers =
    let points = generate_points crc32 h peers in
    dedupe-Ascending (sort_points points) (sort_points-AtLeast points)
