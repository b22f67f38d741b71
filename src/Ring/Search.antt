-- ===== src/Ring/Search.antt =====
-- findChashStart finds the owner of a key: the first point at or after it, around the ring.
use cslb.Prelude.{
  ℕ, zero, suc, ◌+◌, ◌-◌, ◌/◌, ◌≤◌, ◌<◌, ◌==◌, ◌≡◌, refl, ◌∙◌, inl, inr, ltb, leb, List, [], ◌∷◌,
  Option, none, some, arith, length, get_elem?, Bool-cases, if◌then◌else◌,
}
use cslb.Ring.{ChashPoint, hash_at, search_points, find_chash_start}
use cslb.Ring.Order.{Above, Ascending}

unfoldable pub first_from : ℕ → List ChashPoint → Option ChashPoint
first_from key [] = none
first_from key (p ∷ ps) = let rest = first_from key ps in if leb key p.hash then some p else rest

-- The first point at or after the key, or the first point of the ring.
unfoldable pub owner : ℕ → List ChashPoint → Option ChashPoint
unfolding first_from
owner key ps = elim (first_from key ps) [ some p ↦ some p | none ↦ get_elem? ps 0 ]

Above-hash_at : (x k : ℕ) (ps : List ChashPoint) → Above x ps → k < length ps → x < hash_at ps k
unfolding hash_at
Above-hash_at x k [] a l = absurd (omega arith)
Above-hash_at x zero (p ∷ ps) a l = a.0
Above-hash_at x (suc k) (p ∷ ps) a l =
    omega (arith, a.0, Above-hash_at p.hash k ps a.1 (omega arith))

Ascending-hash_at :
    (ps : List ChashPoint) (j k : ℕ)
    → Ascending ps
    → j ≤ k
    → k < length ps
    → hash_at ps j ≤ hash_at ps k
unfolding hash_at
Ascending-hash_at [] j k a o l = absurd (omega arith)
Ascending-hash_at (p ∷ ps) zero zero a o l = omega arith
Ascending-hash_at (p ∷ ps) zero (suc k) a o l =
    omega (arith, Above-hash_at p.hash k ps a (omega arith))
Ascending-hash_at (p ∷ ps) (suc j) zero a o l = absurd (omega arith)
Ascending-hash_at (p ∷ q ∷ ps) (suc j) (suc k) a o l =
    Ascending-hash_at (q ∷ ps) j k a.1 (omega arith) (omega arith)
Ascending-hash_at (p ∷ []) (suc j) (suc k) a o l = absurd (omega arith)

-- What sort.Search returns: the first index at or after the key, or the end `j`.
record IsStart (ps : List ChashPoint) (key j k : ℕ) : Type 0 where
  bounded : k ≤ j
  below : (m : ℕ) → m < k → hash_at ps m < key
  reached : k < length ps → key ≤ hash_at ps k

search_points-IsStart :
    (fuel : ℕ) (ps : List ChashPoint) (key i j : ℕ)
    → Ascending ps
    → i ≤ j
    → j - i < fuel
    → j ≤ length ps
    → ((m : ℕ) → m < i → hash_at ps m < key)
    → (j < length ps → key ≤ hash_at ps j)
    → IsStart ps key j (search_points fuel ps key i j)
unfolding search_points
search_points-IsStart zero ps key i j a o f n below reached = absurd (omega arith)
search_points-IsStart (suc fuel) ps key i j a o f n below reached =
    let mid = (i + j) / 2 in
    elim (Bool-cases (ltb i j)) [
      | inl y ↦
          let less : i < j = ground arith in
          elim (Bool-cases (leb key (hash_at ps mid))) [
            | inl u ↦
                let at_mid : key ≤ hash_at ps mid = ground arith in
                let rest =
                  search_points-IsStart fuel ps key i mid a (omega arith) (omega arith)
                    (omega arith) below (λ l. at_mid) in
                rw (y, u, search_points)
                  (record {
                    bounded = omega (arith, rest.bounded);
                    below = rest.below;
                    reached = rest.reached;
                  })
            | inr v ↦
                let at_mid : hash_at ps mid < key = ground arith in
                rw (y, v, search_points)
                  (search_points-IsStart fuel ps key (mid + 1) j a (omega arith) (omega arith) n
                    (λ m l. omega (arith, Ascending-hash_at ps m mid a (omega arith) (omega arith)))
                    reached)
          ]
      | inr g ↦
          let same : i ≡ j = ground arith in
          rw (g, search_points) (record { bounded = o; below = below; reached = rw same reached })
    ]

-- The walk stops where the bisection does.
first_from-start :
    (ps : List ChashPoint) (key k : ℕ)
    → k < length ps
    → ((m : ℕ) → m < k → hash_at ps m < key)
    → key ≤ hash_at ps k
    → first_from key ps ≡ get_elem? ps k
unfolding first_from hash_at
first_from-start [] key k l b r = absurd (omega arith)
first_from-start (p ∷ ps) key zero l b r = ground arith
first_from-start (p ∷ ps) key (suc k) l b r =
    let first : p.hash < key = b 0 (omega arith) in
    let rest = first_from-start ps key k (omega arith) (λ m q. b (suc m) (omega arith)) r in
    ground (arith, rest)

first_from-none :
    (ps : List ChashPoint) (key : ℕ)
    → ((m : ℕ) → m < length ps → hash_at ps m < key)
    → first_from key ps ≡ none
unfolding first_from hash_at
first_from-none [] key b = refl
first_from-none (p ∷ ps) key b =
    let first : p.hash < key = b 0 (omega arith) in
    ground (arith, first_from-none ps key (λ m q. b (suc m) (omega arith)))

get_elem?-some :
    (ps : List ChashPoint) (k : ℕ) → k < length ps → (p : ChashPoint) × (get_elem? ps k ≡ some p)
get_elem?-some [] k l = absurd (omega arith)
get_elem?-some (p ∷ ps) zero l = (p, refl)
get_elem?-some (p ∷ ps) (suc k) l = get_elem?-some ps k (omega arith)

-- On a strictly ascending ring, findChashStart returns the index of the key's owner: the first point
-- whose hash is at least the key, and the first point of the ring if there is none.
pub find_chash_start-owner :
    (ps : List ChashPoint) (key : ℕ)
    → Ascending ps
    → get_elem? ps (find_chash_start ps key) ≡ owner key ps
unfolding find_chash_start owner
find_chash_start-owner ps key a =
    let n = length ps in
    let k = search_points (suc n) ps key 0 n in
    let s =
      search_points-IsStart (suc n) ps key 0 n a (omega arith) (omega arith) (omega arith)
        (λ m l. absurd (omega arith)) (λ l. absurd (omega arith)) in
    elim (Bool-cases (k == n)) [
      | inl y ↦
          let end : k ≡ n = ground arith in
          let nobody = first_from-none ps key (λ m l. s.below m (omega (arith, end))) in
          rw (y, owner, nobody)
      | inr g ↦
          let inside : k < n = ground (arith, s.bounded) in
          let found = first_from-start ps key k inside s.below (s.reached inside) in
          let (p, e) = get_elem?-some ps k inside in let there = found ∙ e in rw (g, owner, there) e
    ]

-- Any key has an owner on a ring with points, so that the picker never reads past it.
pub find_chash_start-lt :
    (ps : List ChashPoint) (key : ℕ)
    → Ascending ps
    → 0 < length ps
    → find_chash_start ps key < length ps
unfolding find_chash_start
find_chash_start-lt ps key a l =
    let n = length ps in
    let s =
      search_points-IsStart (suc n) ps key 0 n a (omega arith) (omega arith) (omega arith)
        (λ m q. absurd (omega arith)) (λ q. absurd (omega arith)) in
    ground (arith, s.bounded)
