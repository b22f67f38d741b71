-- ===== src/AnyPicker/Shared.antt =====
-- RoundTrip over any of its pickers, while other requests use the peers.
use cslb.Prelude.{
  ℕ, ◌<◌, ◌≡◌, ◌==◌, refl, sym, ap, ◌∙◌, subst, Bool, true, false, ℤ, pos, ◌+ℤ◌, ◌-ℤ◌, int_laws,
  if◌then◌else◌, none, some, if_intro,
}
use native.Mathlib.Nat.{le_of_eq}
use cslb.Peer.{Heap}
use cslb.RoundRobin
use cslb.RoundRobin.{Ctx, done_neutral, done_peer, is_single}
use cslb.Hash
use cslb.IpHash
use cslb.Random
use cslb.Chash
use cslb.RoundRobin.Contract.{static, hits}
use cslb.RoundRobin.Untried.{budget}
use cslb.RoundRobin.Release.{done_peer-conns, done_peer-static}
use cslb.Random.Ranged.{Keeps}
use cslb.AnyPicker.{
  AnyPicker, plain, least, by_ip, by_key, on_ring, at_random, PickLib, pick, done, neutrally_done,
  ctx_of, with_ctx,
}
use cslb.AnyPicker.Safety.{
  IsReady, with_ctx-IsReady, ctx_of-with_ctx, any_pick-IsSafe, any_pick-IsReady,
}
use cslb.Trip.{NeutralPicker, Outside}
use cslb.Trip.Connections.{Closes, IsAccountable}

-- The picker with the memory, and a ghost: how many connections the other requests have opened and
-- not closed.
pub record Shared : Type 0 where
  pub picker : AnyPicker
  pub others : ℕ → ℤ

abbrev pub shared_picker : PickLib → NeutralPicker Shared
shared_picker lib = record {
  base = record {
    pick = λ clock s. let r = pick lib clock s.picker in (r.0, record s { picker = r.1 });
    done = λ clock peer failed s. record s { picker = done clock peer failed s.picker };
    addr = λ s i. ((ctx_of s.picker).heap i).addr;
  };
  neutral = some (λ clock peer s. record s { picker = neutrally_done clock peer s.picker });
}

-- The connections that are not the other requests'.
abbrev pub own_conns : Shared → ℕ → ℤ
own_conns s j = ((ctx_of s.picker).heap j).conns -ℤ s.others j

-- Other requests change the memory alone, and there no configuration; the connections that they open
-- and close are their own.
pub record Touches (s t : Shared) : Type 0 where
  pub heap : Heap
  pub same : t.picker ≡ with_ctx (λ c. record c { heap = heap }) s.picker
  pub frame : (j : ℕ) → static (heap j) ≡ static ((ctx_of s.picker).heap j)
  pub own : (j : ℕ) → own_conns t j ≡ own_conns s j

pub record IsApart (o : Outside Shared) : Type 0 where
  pub before_pick : (k : ℕ) (s : Shared) → Touches s (o.before_pick k s)
  pub before_done : (k : ℕ) (s : Shared) → Touches s (o.before_done k s)

abbrev pub Ready : Shared → Type 0
Ready s = IsReady s.picker

abbrev pub picks_left : Shared → ℕ
picks_left s = budget (ctx_of s.picker).picker

close_own : (x y : ℤ) (n : ℕ) → x -ℤ pos n -ℤ y ≡ x -ℤ y -ℤ pos n
close_own x y n = omega int_laws

pub open_own : (x y : ℤ) (n : ℕ) → x +ℤ pos n -ℤ y ≡ x -ℤ y +ℤ pos n
open_own x y n = omega int_laws

none_own : (x : ℤ) → x ≡ x -ℤ pos 0
none_own x = omega int_laws

done_peer-groups :
    (now i : ℕ) (failed neutral : Bool) (c : Ctx)
    → ((done_peer now failed neutral i c).picker.primary ≡ c.picker.primary)
      × ((done_peer now failed neutral i c).picker.backup ≡ c.picker.backup)
unfolding done_peer
done_peer-groups now i failed neutral c =
    let P : Ctx → Type 0 =
      λ d. (d.picker.primary ≡ c.picker.primary) × (d.picker.backup ≡ c.picker.backup) in
    if_intro P (is_single c.picker (c.heap i)) (refl, refl)
      (if_intro P neutral (refl, refl) (refl, refl))

done_peer-Keeps :
    (now i : ℕ) (failed neutral : Bool) (c : Ctx) → Keeps c (done_peer now failed neutral i c)
done_peer-Keeps now i failed neutral c =
    let same = done_peer-groups now i failed neutral c in
    record {
      same_primary = same.0;
      same_backup = same.1;
      frame = λ j. done_peer-static now failed neutral i j c;
    }

done_peer-budget :
    (now i : ℕ) (failed neutral : Bool) (c : Ctx)
    → budget (done_peer now failed neutral i c).picker ≡ budget c.picker
unfolding done_peer budget
done_peer-budget now i failed neutral c =
    let P : Ctx → Type 0 = λ d. budget d.picker ≡ budget c.picker in
    if_intro P (is_single c.picker (c.heap i)) refl (if_intro P neutral refl refl)

-- A release through any picker is that of the round-robin picker.
pub done-release :
    (clock : ℕ → ℕ) (i : ℕ) (failed : Bool) (p : AnyPicker)
    → done clock (some i) failed p ≡ with_ctx (done_peer (clock 0) failed false i) p
unfolding done RoundRobin.done IpHash.done Hash.done Chash.done Random.done
done-release clock i failed (plain c) = refl
done-release clock i failed (least c) = refl
done-release clock i failed (by_ip p) = refl
done-release clock i failed (by_key p) = refl
done-release clock i failed (on_ring p) = refl
done-release clock i failed (at_random p n) = refl

-- The doneNeutral of any picker.
pub neutral-release :
    (clock : ℕ → ℕ) (i : ℕ) (p : AnyPicker)
    → neutrally_done clock (some i) p ≡ with_ctx (done_peer (clock 0) false true i) p
unfolding neutrally_done done_neutral
neutral-release clock i p = refl

pub release-Closes :
    (now i : ℕ) (failed neutral : Bool) (f : Shared → Shared)
    → ((s : Shared)
        → f s ≡ record s { picker = with_ctx (done_peer now failed neutral i) s.picker })
    → Closes Ready picks_left own_conns (some i) f
release-Closes now i failed neutral f same = record {
  keeps = λ s v.
      subst Ready (sym (same s))
        (with_ctx-IsReady step s.picker (done_peer-Keeps now i failed neutral (ctx_of s.picker)) v);
  no_more = λ s v. le_of_eq (
      ap picks_left (same s)
      ∙ ap (λ c. budget c.picker) (ctx_of-with_ctx step s.picker)
      ∙ done_peer-budget now i failed neutral (ctx_of s.picker));
  closes = λ s j v.
      ap (λ t. own_conns t j) (same s)
      ∙ ap (λ (c : Ctx). (c.heap j).conns -ℤ s.others j) (ctx_of-with_ctx step s.picker)
      ∙ ap (λ x. x -ℤ s.others j) (done_peer-conns now failed neutral i j (ctx_of s.picker))
      ∙ close_own ((ctx_of s.picker).heap j).conns (s.others j) (if j == i then 1 else 0);
}
  where
    step : Ctx → Ctx
    step = done_peer now failed neutral i

module _ (f : Shared → Shared) (t : (s : Shared) → Touches s (f s)) where
  write : Shared → Ctx → Ctx
  write s c = record c { heap = (t s).heap }

  -- What other requests do, as far as this one is concerned.
  pub touch-Closes : Closes Ready picks_left own_conns none f
  unfolding write
  touch-Closes = record {
    keeps = λ s v. subst IsReady (sym (t s).same) (
        with_ctx-IsReady (write s) s.picker
          (record { same_primary = refl; same_backup = refl; frame = (t s).frame }) v);
    no_more = λ s v. le_of_eq (
        ap (λ p. budget (ctx_of p).picker) (t s).same
        ∙ ap (λ (c : Ctx). budget c.picker) (ctx_of-with_ctx (write s) s.picker));
    closes = λ s j v. (t s).own j ∙ none_own (own_conns s j);
  }

module _ (lib : PickLib) (below : (n k m : ℕ) → 0 < m → lib.intn n k m < m) (o : Outside Shared)
    (q : IsApart o) where
  -- Each picker of the transport is what RoundTrip relies on.
  unfoldable pub shared_picker-IsAccountable : IsAccountable (shared_picker lib) o
  shared_picker-IsAccountable = record {
    Inv = Ready;
    left = picks_left;
    conns = own_conns;
    pick_keeps = λ clock s v. any_pick-IsReady lib below clock s.picker v;
    pick_less = λ clock s i v e. (any_pick-IsSafe lib below clock s.picker v).spends i e;
    pick_opens = λ clock s j v.
        ap (λ x. x -ℤ s.others j) ((any_pick-IsSafe lib below clock s.picker v).opened j)
        ∙ open_own ((ctx_of s.picker).heap j).conns (s.others j)
            (if hits (pick lib clock s.picker).0 j then 1 else 0);
    done_closes = λ clock i failed.
        release-Closes (clock 0) i failed false
          ((shared_picker lib).base.done clock (some i) failed)
          (λ s. ap (λ p. record s { picker = p }) (done-release clock i failed s.picker));
    neutral_closes = λ clock i f e.
        subst (λ g. Closes Ready picks_left own_conns (some i) (g clock (some i)))
          (ap (λ n. elim n [ none ↦ f | some g ↦ g ]) e)
          (release-Closes (clock 0) i false true
            (λ s. record s { picker = neutrally_done clock (some i) s.picker })
            (λ s. ap (λ p. record s { picker = p }) (neutral-release clock i s.picker)));
    before_pick_quiet = λ k. touch-Closes (o.before_pick k) (q.before_pick k);
    before_done_quiet = λ k. touch-Closes (o.before_done k) (q.before_done k);
  }
