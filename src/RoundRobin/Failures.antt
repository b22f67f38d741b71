-- ===== src/RoundRobin/Failures.antt =====
-- Failures of a peer that are reported one after the other.
use cslb.Prelude.{
  subst, List, [], ◌∷◌, ◌+◌, ◌&&◌, length, ℕ, ◌≡◌, refl, ◌∙◌, ap, true, false, pos, sub_ℕ, leb_ℤ,
  ltb_ℤ, if◌then◌else◌, none, some, arith,
}
use cslb.RoundRobin.{Ctx, is_quarantined, record_failure, is_single, done}
use cslb.RoundRobin.Health.{done_self, done-picker}

-- Failures of peer `i` that are reported one after the other, the first one first.
unfoldable pub failures : List ℕ → ℕ → Ctx → Ctx
failures [] i c = c
failures (now ∷ times) i c = failures times i (done now (some i) true c)

-- What is left after `n` failures.
record Failed (n i : ℕ) (c d : Ctx) : Type 0 where
  same_picker : d.picker ≡ c.picker
  same_backup : (d.heap i).backup ≡ (c.heap i).backup
  same_max_fails : (d.heap i).max_fails ≡ (c.heap i).max_fails
  same_fail_timeout : (d.heap i).fail_timeout ≡ (c.heap i).fail_timeout
  counted : (d.heap i).fails ≡ (c.heap i).fails + n

done-Failed :
    (now i : ℕ) (c : Ctx)
    → is_single c.picker (c.heap i) ≡ false
    → Failed 1 i c (done now (some i) true c)
unfolding record_failure
done-Failed now i c n =
    let h = done_self now true i c n in
    record {
      same_picker = done-picker now i true c;
      same_backup = ap (λ p. p.backup) h;
      same_max_fails = ap (λ p. p.max_fails) h;
      same_fail_timeout = ap (λ p. p.fail_timeout) h;
      counted = ap (λ p. p.fails) h ∙ omega arith;
    }

Failed-trans : (m n i : ℕ) (c d e : Ctx) → Failed m i c d → Failed n i d e → Failed (m + n) i c e
Failed-trans m n i c d e f g = record {
  same_picker = g.same_picker ∙ f.same_picker;
  same_backup = g.same_backup ∙ f.same_backup;
  same_max_fails = g.same_max_fails ∙ f.same_max_fails;
  same_fail_timeout = g.same_fail_timeout ∙ f.same_fail_timeout;
  counted = omega (arith, f.counted, g.counted);
}

Failed-single :
    (n i : ℕ) (c d : Ctx)
    → Failed n i c d
    → is_single c.picker (c.heap i) ≡ false
    → is_single d.picker (d.heap i) ≡ false
Failed-single n i c d f q =
    (λ k.
      if f.same_backup k
      then elim (f.same_picker k).backup [
        | none ↦ (f.same_picker k).primary.single
        | some g ↦ g.single
      ]
      else (f.same_picker k).primary.single)
    ∙ q

failures-Failed :
    (times : List ℕ) (i : ℕ) (c : Ctx)
    → is_single c.picker (c.heap i) ≡ false
    → Failed (length times) i c (failures times i c)
unfolding failures
failures-Failed [] i c n = record {
  same_picker = refl;
  same_backup = refl;
  same_max_fails = refl;
  same_fail_timeout = refl;
  counted = omega arith;
}
failures-Failed (now ∷ times) i c n =
    let d = done now (some i) true c in
    let f = done-Failed now i c n in
    let g = failures-Failed times i d (Failed-single 1 i c d f n) in
    subst (λ m. Failed m i c (failures times i d)) (omega arith)
      (Failed-trans 1 (length times) i c d (failures times i d) f g)

-- Outside the single-peer path, after failures at the times `times` and a last one at `last`, which are
-- reported one after the other, a peer is quarantined at `t` exactly if its max_fails is
-- positive and reached by the failures together with those it had before, and `t` is at most
-- fail_timeout after the last one.
pub done-failures :
    (times : List ℕ) (last t i : ℕ) (c : Ctx)
    → is_single c.picker (c.heap i) ≡ false
    → is_quarantined t ((done last (some i) true (failures times i c)).heap i) ≡ (
        ltb_ℤ (pos 0) (c.heap i).max_fails
        && leb_ℤ (c.heap i).max_fails (pos ((c.heap i).fails + (length times + 1)))
        && leb_ℤ (sub_ℕ t last) (c.heap i).fail_timeout)
unfolding record_failure
done-failures times last t i c n =
    let d = failures times i c in
    let f = failures-Failed times i c n in
    let single = Failed-single (length times) i c d f n in
    let g =
      Failed-trans (length times) 1 i c d (done last (some i) true d) f
        (done-Failed last i d single) in
    let checked : ((done last (some i) true d).heap i).checked ≡ last =
      ap (λ p. p.checked) (done_self last true i d single) in
    rw (g.same_max_fails, g.same_fail_timeout, g.counted, checked) refl
