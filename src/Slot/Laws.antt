-- ===== src/Slot/Laws.antt =====
-- Each peer owns as many consecutive numbers as its weight.
use cslb.Prelude.{
  ℕ, ◌+◌, ◌-◌, ◌<◌, ◌≤◌, ◌≡◌, inl, inr, true, ltb, List, [], ◌∷◌, ◌++◌, some, arith, Has,
  Bool-cases,
}
use cslb.Peer.{Heap}
use cslb.Smooth.Spec.{sum_ℕ}
use cslb.Smooth.Fair.{total_weight}
use cslb.RoundRobin.{Ctx}
use cslb.RoundRobin.Sections.{Usable}
use cslb.Slot.{slot, is_usable}

module _ (h : Heap) where
  pub slot-Has : (is : List ℕ) (w : ℕ) {i : ℕ} → slot h is w ≡ some i → Has i is
  unfolding slot
  slot-Has [] w e = cc
  slot-Has (k ∷ ks) w {i} e = elim (Bool-cases (ltb w (h k).weight)) [
    | inl y ↦ inl (ground arith)
    | inr n ↦ inr (slot-Has ks (w - (h k).weight) (rw (n, slot) at e))
  ]

  -- A number below the total falls to a peer.
  pub slot_total : (is : List ℕ) (w : ℕ) → w < total_weight is h → (i : ℕ) × (slot h is w ≡ some i)
  unfolding slot sum_ℕ
  slot_total [] w l = absurd (omega arith)
  slot_total (k ∷ ks) w l = elim (Bool-cases (ltb w (h k).weight)) [
    | inl y ↦ (k, rw (y, slot))
    | inr n ↦
        let rest = slot_total ks (w - (h k).weight) (ground arith) in (rest.0, rw (n, slot) rest.1)
  ]

  -- A peer owns as many consecutive numbers as its weight: in a list where `before` precede it, the
  -- numbers from the total weight of `before` on, as many as its own weight, fall to it.
  pub slot-append :
      (before after : List ℕ) (i w : ℕ)
      → total_weight before h ≤ w
      → w < total_weight before h + (h i).weight
      → slot h (before ++ i ∷ after) w ≡ some i
  unfolding slot sum_ℕ
  slot-append [] after i w lo hi = ground arith
  slot-append (k ∷ ks) after i w lo hi = elim (Bool-cases (ltb w (h k).weight)) [
    | inl y ↦ absurd (ground arith)
    | inr n ↦ rw (n, slot) (slot-append ks after i (w - (h k).weight) (ground arith) (ground arith))
  ]

pub is_usable-Usable :
    (now i : ℕ) (ids : List ℕ) (c : Ctx) → Has i ids → is_usable now i c ≡ true → Usable ids c i
unfolding is_usable
is_usable-Usable now i ids c m u = (m, ground arith, ground arith, ground arith)
