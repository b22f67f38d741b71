-- ===== src/Ring/First.antt =====
-- The ring keeps the point that was generated first for each hash.
use cslb.Prelude.{
  ℕ, ◌==◌, ◌≡◌, refl, ◌∙◌, ap, inl, inr, ltb, if◌then◌else◌, List, [], ◌∷◌, Option, none, some,
  arith, Bool-cases,
}
use cslb.Peer.{Heap}
use cslb.Ring.{
  ChashPoint, generate_points, insert_point, sort_points, dedupe_after, dedupe, build_chash_ring,
}

-- The first point of the list with this hash.
unfoldable pub first_with : ℕ → List ChashPoint → Option ChashPoint
first_with x [] = none
first_with x (p ∷ ps) = let rest = first_with x ps in if p.hash == x then some p else rest

first_with-insert_point :
    (x : ℕ) (p : ChashPoint) (ps : List ChashPoint)
    → first_with x (insert_point p ps) ≡ first_with x (p ∷ ps)
unfolding insert_point first_with
first_with-insert_point x p [] = refl
first_with-insert_point x p (q ∷ qs) = elim (Bool-cases (ltb q.hash p.hash)) [
  | inl y ↦ rw (y, insert_point) (ground (arith, first_with-insert_point x p qs))
  | inr n ↦ rw (n, insert_point)
]

first_with-sort_points :
    (x : ℕ) (ps : List ChashPoint) → first_with x (sort_points ps) ≡ first_with x ps
unfolding sort_points first_with
first_with-sort_points x [] = refl
first_with-sort_points x (p ∷ ps) =
    first_with-insert_point x p (sort_points ps)
    ∙ ap (λ r. if p.hash == x then some p else r) (first_with-sort_points x ps)

first_with-dedupe_after :
    (x : ℕ) (p : ChashPoint) (qs : List ChashPoint)
    → first_with x (p ∷ dedupe_after p qs) ≡ first_with x (p ∷ qs)
unfolding dedupe_after first_with
first_with-dedupe_after x p [] = refl
first_with-dedupe_after x p (q ∷ qs) = elim (Bool-cases (q.hash == p.hash)) [
  | inl y ↦ rw (y, dedupe_after) (ground (arith, first_with-dedupe_after x p qs))
  | inr n ↦ rw (n, dedupe_after) (ground (arith, first_with-dedupe_after x q qs))
]

first_with-dedupe : (x : ℕ) (ps : List ChashPoint) → first_with x (dedupe ps) ≡ first_with x ps
unfolding dedupe
first_with-dedupe x [] = refl
first_with-dedupe x (p ∷ ps) = first_with-dedupe_after x p ps

-- For every hash, the ring has the point that was generated first with it, and none if none was.
pub first_with-build_chash_ring :
    (crc32 : List ℕ → ℕ) (h : Heap) (peers : List ℕ) (x : ℕ)
    → first_with x (build_chash_ring crc32 h peers) ≡ first_with x (generate_points crc32 h peers)
unfolding build_chash_ring
first_with-build_chash_ring crc32 h peers x =
    let points = generate_points crc32 h peers in
    first_with-dedupe x (sort_points points) ∙ first_with-sort_points x points
