-- ===== src/Random/Ranges.antt =====
-- The binary search of randomSelect finds the peer that a walk along the weights finds.
use cslb.Prelude.{
  ℕ, zero, suc, ◌+◌, ◌-◌, ◌/◌, ◌<◌, ◌≤◌, ◌==◌, ◌≡◌, refl, ◌∙◌, ap, inl, inr, false, ltb, leb, List,
  [], ◌∷◌, arith, length, Bool-cases,
}
use native.Mathlib.Nat.{zero-add}
use cslb.Peer.{Heap}
use cslb.Slot.{slot}
use cslb.Smooth.Spec.{sum_ℕ}
use cslb.Smooth.Fair.{total_weight}
use cslb.Random.{WeightRange, build_ranges, upper_at, search_ranges, peer_at, random_select}

-- The upper bounds rise along the list.
abbrev Rising : List WeightRange → Type 0
Rising rs = (j k : ℕ) → j ≤ k → k < length rs → upper_at rs j ≤ upper_at rs k

-- `k` is the first range above `x`.
record IsFirst (rs : List WeightRange) (x hi k : ℕ) : Type 0 where
  bounded : k ≤ hi
  above : x < upper_at rs k
  below : (j : ℕ) → j < k → upper_at rs j ≤ x

-- The search ends at the first range above `x`, if `hi` is in range and above `x`.
search_ranges-IsFirst :
    (fuel : ℕ) (rs : List WeightRange) (x lo hi : ℕ)
    → Rising rs
    → lo ≤ hi
    → hi - lo < fuel
    → hi < length rs
    → ((j : ℕ) → j < lo → upper_at rs j ≤ x)
    → x < upper_at rs hi
    → IsFirst rs x hi (search_ranges fuel rs x lo hi)
unfolding search_ranges
search_ranges-IsFirst zero rs x lo hi r o f i below above = absurd (omega arith)
search_ranges-IsFirst (suc fuel) rs x lo hi r o f i below above =
    let mid = (lo + hi) / 2 in
    elim (Bool-cases (ltb lo hi)) [
      | inl y ↦
          let less : lo < hi = ground arith in
          elim (Bool-cases (leb (upper_at rs mid) x)) [
            | inl u ↦
                let at_mid : upper_at rs mid ≤ x = ground arith in
                rw (y, u, search_ranges)
                  (search_ranges-IsFirst fuel rs x (mid + 1) hi r (omega arith) (omega arith) i
                    (λ j l. omega (arith, r j mid (omega arith) (omega arith))) above)
            | inr v ↦
                let at_mid : x < upper_at rs mid = ground arith in
                let rest =
                  search_ranges-IsFirst fuel rs x lo mid r (omega arith) (omega arith) (omega arith)
                    below at_mid in
                rw (y, v, search_ranges)
                  (record {
                    bounded = omega (arith, rest.bounded);
                    above = rest.above;
                    below = rest.below;
                  })
          ]
      | inr n ↦
          let same : lo ≡ hi = ground arith in
          rw (n, search_ranges) (record { bounded = o; above = rw same above; below = below })
    ]

module _ (h : Heap) where
  length-build_ranges : (is : List ℕ) (c : ℕ) → length (build_ranges h is c) ≡ length is
  unfolding build_ranges
  length-build_ranges [] c = refl
  length-build_ranges (i ∷ is) c = ap suc (length-build_ranges is (c + (h i).weight))

  upper_at-ge : (is : List ℕ) (c k : ℕ) → k < length is → c ≤ upper_at (build_ranges h is c) k
  unfolding build_ranges upper_at
  upper_at-ge [] c k l = absurd (omega arith)
  upper_at-ge (i ∷ is) c zero l = omega arith
  upper_at-ge (i ∷ is) c (suc k) l =
      omega (arith, upper_at-ge is (c + (h i).weight) k (omega arith))

  build_ranges-Rising :
      (is : List ℕ) (c j k : ℕ)
      → j ≤ k
      → k < length is
      → upper_at (build_ranges h is c) j ≤ upper_at (build_ranges h is c) k
  unfolding build_ranges upper_at
  build_ranges-Rising [] c j k o l = absurd (omega arith)
  build_ranges-Rising (i ∷ is) c zero zero o l = omega arith
  build_ranges-Rising (i ∷ is) c zero (suc k) o l =
      upper_at-ge is (c + (h i).weight) k (omega arith)
  build_ranges-Rising (i ∷ is) c (suc j) zero o l = absurd (omega arith)
  build_ranges-Rising (i ∷ is) c (suc j) (suc k) o l =
      build_ranges-Rising is (c + (h i).weight) j k (omega arith) (omega arith)

  upper_at-last :
      (is : List ℕ) (c : ℕ)
      → 0 < length is
      → upper_at (build_ranges h is c) (length is - 1) ≡ c + total_weight is h
  unfolding build_ranges upper_at sum_ℕ
  upper_at-last [] c l = absurd (omega arith)
  upper_at-last (i ∷ []) c l = omega arith
  upper_at-last (i ∷ k ∷ is) c l =
      let e : length (i ∷ k ∷ is) - 1 ≡ suc (length (k ∷ is) - 1) = omega arith in
      rw e (omega (arith, upper_at-last (k ∷ is) (c + (h i).weight) (omega arith)))

  -- The first range above `x` holds the peer of the slot.
  peer_at-slot :
      (is : List ℕ) (c x k : ℕ)
      → c ≤ x
      → k < length is
      → x < upper_at (build_ranges h is c) k
      → ((j : ℕ) → j < k → upper_at (build_ranges h is c) j ≤ x)
      → peer_at (build_ranges h is c) k ≡ slot h is (x - c)
  unfolding build_ranges upper_at peer_at slot
  peer_at-slot [] c x k o l a b = absurd (omega arith)
  peer_at-slot (i ∷ is) c x zero o l a b = ground arith
  peer_at-slot (i ∷ is) c x (suc k) o l a b =
      let first : c + (h i).weight ≤ x = b 0 (omega arith) in
      let rest =
        peer_at-slot is (c + (h i).weight) x k first (omega arith) a
          (λ j m. b (suc j) (omega arith)) in
      let shift : x - (c + (h i).weight) ≡ x - c - (h i).weight = omega arith in
      let miss : ltb (x - c) (h i).weight ≡ false = ground arith in rest ∙ rw (miss, shift)

  nonempty : (is : List ℕ) → 0 < total_weight is h → 0 < length is
  unfolding sum_ℕ
  nonempty [] l = absurd (omega arith)
  nonempty (i ∷ is) l = omega arith

  -- For every number below TotalWeight, the binary search of randomSelect over the cumulative
  -- weights finds the peer that subtracting one weight after another finds.
  pub random_select-slot :
      (peers : List ℕ) (x : ℕ)
      → x < total_weight peers h
      → random_select (build_ranges h peers 0) (total_weight peers h) x ≡ slot h peers x
  unfolding random_select
  random_select-slot peers x l =
      let rs = build_ranges h peers 0 in
      let size = length-build_ranges peers 0 in
      let some_peer = nonempty peers (omega arith) in
      let last : upper_at rs (length rs - 1) ≡ total_weight peers h =
        ap (λ (n : ℕ). upper_at rs (n - 1)) size
        ∙ (upper_at-last peers 0 some_peer ∙ zero-add (total_weight peers h)) in
      let k = search_ranges (length rs) rs x 0 (length rs - 1) in
      let f =
        search_ranges-IsFirst (length rs) rs x 0 (length rs - 1)
          (λ i j o b. build_ranges-Rising peers 0 i j o (omega (arith, size))) (omega arith)
          (omega (arith, size)) (omega (arith, size)) (λ j m. absurd (omega arith))
          (omega (arith, last)) in
      let z : (total_weight peers h == 0) ≡ false = ground arith in
      let found =
        peer_at-slot peers 0 x k (omega arith) (omega (arith, f.bounded, size)) f.above f.below in
      let start : x - 0 ≡ x = omega arith in rw z (found ∙ ap (slot h peers) start)
