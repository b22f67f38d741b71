-- ===== src/LeastConn/Order.antt =====
-- Connections over weight, compared by cross products.
use cslb.Prelude.{
  ℕ, ◌+◌, ◌*◌, ◌≤◌, ◌<◌, ◌≡◌, true, false, pos_part, neg_part, ◌*ℤ◌, ◌≤ℤ◌, *ℤ_parts, arith,
}
use native.Mathlib.Decide.{dec_le}
use cslb.Peer.{Peer}
use cslb.LeastConn.{less_loaded}

-- `p` carries no more for its weight than `q`.
abbrev pub NoMore : Peer → Peer → Type 0
NoMore p q = p.conns *ℤ q.weight ≤ℤ q.conns *ℤ p.weight

mul_cancel : (x y w : ℕ) → 0 < w → x * w ≤ y * w → x ≤ y
mul_cancel x y w p h = elim (dec_le x y) [
  | yes q ↦ q
  | no n ↦ let big : (y + 1) * w ≤ x * w = grind arith in absurd (omega (arith, big))
]

mul_mono : (x y w : ℕ) → x ≤ y → x * w ≤ y * w
mul_mono x y w h = grind arith

-- Cross products of fractions with numerators p - n, over positive weights.
cross :
    (pa na pb nb pc nc a b c : ℕ)
    → 0 < b
    → pa * b + nb * a ≤ pb * a + na * b
    → pb * c + nc * b ≤ pc * b + nb * c
    → pa * c + nc * a ≤ pc * a + na * c
cross pa na pb nb pc nc a b c p h k = mul_cancel (pa * c + nc * a) (pc * a + na * c) b p (
    omega (
      arith,
      mul_mono (pa * b + nb * a) (pb * a + na * b) c h,
      mul_mono (pb * c + nc * b) (pc * b + nb * c) a k,
    ))

pub NoMore-trans : (p q r : Peer) → 0 < q.weight → NoMore p q → NoMore q r → NoMore p r
NoMore-trans p q r w h k = omega (
  arith,
  *ℤ_parts p.conns r.weight,
  *ℤ_parts r.conns p.weight,
  cross (pos_part p.conns) (neg_part p.conns) (pos_part q.conns) (neg_part q.conns)
      (pos_part r.conns) (neg_part r.conns) p.weight q.weight r.weight w
      (omega (arith, *ℤ_parts p.conns q.weight, *ℤ_parts q.conns p.weight))
      (omega (arith, *ℤ_parts q.conns r.weight, *ℤ_parts r.conns q.weight)),
)

pub NoMore-refl : (p : Peer) → NoMore p p
NoMore-refl p = omega arith

pub less-NoMore : (p q : Peer) → less_loaded p q ≡ true → NoMore p q
less-NoMore p q h = ground arith

pub not_less-NoMore : (p q : Peer) → less_loaded p q ≡ false → NoMore q p
not_less-NoMore p q h = ground arith
