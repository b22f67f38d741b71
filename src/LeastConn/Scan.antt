-- ===== src/LeastConn/Scan.antt =====
-- The first pass finds a peer with the least load among those that the callback lets through.
use cslb.Prelude.{
  ℕ, ◌<◌, ◌≡◌, refl, sym, ◌∙◌, ap, ◌⊎◌, inl, inr, Bool, true, false, List, [], ◌∷◌, Option, none,
  some, arith, Has, Bool-cases,
}
use cslb.Peer.{Peer, Heap}
use cslb.LeastConn.{Least, consider, least_loop, less_loaded}
use cslb.LeastConn.Order.{NoMore, NoMore-trans, NoMore-refl, less-NoMore, not_less-NoMore}

some-inj : {i j : ℕ} → some i ≡ some j → i ≡ j
some-inj e = cc

-- Considering a peer leaves a best peer that carries no more than it, nor than the best so far.
record Considered (h : Heap) (i : ℕ) (old new : Option ℕ) (c : ℕ) : Type 0 where
  found : new ≡ some c
  below : NoMore (h c) (h i)
  below_old : (b : ℕ) → old ≡ some b → NoMore (h c) (h b)
  source : (c ≡ i) ⊎ (old ≡ some c)

considered :
    (h : Heap) (i : ℕ) (b : Option ℕ) (m : Bool)
    → (c : ℕ) × Considered h i b (consider h i (record { best = b; many = m })).best c
unfolding consider
considered h i none m = (
  i,
  record { found = refl; below = NoMore-refl (h i); below_old = λ b e. cc; source = inl refl },
)
considered h i (some b) m = elim (Bool-cases (less_loaded (h i) (h b))) [
  | inl y ↦ (
    i,
    record {
      found = rw y refl;
      below = NoMore-refl (h i);
      below_old = λ a e. rw (← some-inj e) (less-NoMore (h i) (h b) y);
      source = inl refl;
    },
  )
  | inr n ↦ (
    b,
    record {
      found = rw n (ground arith);
      below = not_less-NoMore (h i) (h b) n;
      below_old = λ a e. rw (← some-inj e) (NoMore-refl (h b));
      source = inr refl;
    },
  )
]

module _ (e : ℕ → Peer → Bool) (h : Heap) (w : (j : ℕ) → 0 < (h j).weight) where
  pub least_loop-min :
      (is : List ℕ) (s : Least) (b j : ℕ)
      → (least_loop e h is s).best ≡ some b
      → (Has j is × (e j (h j) ≡ true)) ⊎ (s.best ≡ some j)
      → NoMore (h b) (h j)
  unfolding least_loop
  least_loop-min [] s b j q (inl m) = absurd m.0
  least_loop-min [] s b j q (inr p) =
      let same : b ≡ j = some-inj (sym q ∙ p) in rw same (NoMore-refl (h j))
  least_loop-min (i ∷ is) s b j q m = elim (Bool-cases (e i (h i))) [
    | inl y ↦
        let (c, t) = considered h i s.best s.many in
        let rest : (k : ℕ)
            → (Has k is × (e k (h k) ≡ true)) ⊎ ((consider h i s).best ≡ some k)
            → NoMore (h b) (h k) =
          λ k n. least_loop-min is (consider h i s) b k (rw (y, least_loop) at q) n in
        elim m [
          | inl (inl p, u) ↦
              rw p (NoMore-trans (h b) (h c) (h i) (w c) (rest c (inr t.found)) t.below)
          | inl (inr n, u) ↦ rest j (inl (n, u))
          | inr p ↦ NoMore-trans (h b) (h c) (h j) (w c) (rest c (inr t.found)) (t.below_old j p)
        ]
    | inr n ↦
        let rest : (k : ℕ)
            → (Has k is × (e k (h k) ≡ true)) ⊎ (s.best ≡ some k)
            → NoMore (h b) (h k) =
          λ k x. least_loop-min is s b k (rw (n, least_loop) at q) x in
        elim m [
          | inl (inl p, u) ↦ ground (arith, ap (λ k. e k (h k)) p)
          | inl (inr x, u) ↦ rest j (inl (x, u))
          | inr p ↦ rest j (inr p)
        ]
  ]

module _ (e : ℕ → Peer → Bool) (h : Heap) where
  -- The best peer is one that the callback lets through.
  pub least_loop-source :
      (is : List ℕ) (s : Least) (b : ℕ)
      → (least_loop e h is s).best ≡ some b
      → (Has b is × (e b (h b) ≡ true)) ⊎ (s.best ≡ some b)
  unfolding least_loop
  least_loop-source [] s b q = inr q
  least_loop-source (i ∷ is) s b q = elim (Bool-cases (e i (h i))) [
    | inl y ↦
        let (c, t) = considered h i s.best s.many in
        elim (least_loop-source is (consider h i s) b (rw (y, least_loop) at q)) [
          | inl m ↦ inl (inr m.0, m.1)
          | inr p ↦
              let same : c ≡ b = some-inj (sym t.found ∙ p) in
              elim t.source [
                | inl r ↦ let at_i : b ≡ i = sym same ∙ r in inl (inl at_i, rw at_i y)
                | inr r ↦ inr (rw (← same) r)
              ]
        ]
    | inr n ↦ elim (least_loop-source is s b (rw (n, least_loop) at q)) [
      | inl m ↦ inl (inr m.0, m.1)
      | inr p ↦ inr p
    ]
  ]

  -- No best peer means that the callback lets nobody through.
  pub least_loop-none :
      (is : List ℕ) (s : Least)
      → (least_loop e h is s).best ≡ none
      → (s.best ≡ none) × ((j : ℕ) → Has j is → e j (h j) ≡ false)
  unfolding least_loop
  least_loop-none [] s q = (q, λ j m. absurd m)
  least_loop-none (i ∷ is) s q = elim (Bool-cases (e i (h i))) [
    | inl y ↦
        let (c, t) = considered h i s.best s.many in
        let rest = least_loop-none is (consider h i s) (rw (y, least_loop) at q) in
        ground (arith, t.found, rest.0)
    | inr n ↦
        let rest = least_loop-none is s (rw (n, least_loop) at q) in
        (rest.0, λ j m. elim m [ inl p ↦ rw p n | inr x ↦ rest.1 j x ])
  ]
