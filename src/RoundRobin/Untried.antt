-- ===== src/RoundRobin/Untried.antt =====
-- How many picks a picker has left.
use cslb.Prelude.{
  ℕ, ◌+◌, ◌≤◌, ◌<◌, ◌==◌, ◌≡◌, refl, Bool, true, false, if◌then◌else◌, List, [], ◌∷◌, Option, none,
  some, arith, inl, inr, ◌⊎◌, Has, length,
}
use cslb.Group.{PeerGroup}
use cslb.RoundRobin.{RrPicker}

unfoldable pub untried : (ℕ → Bool) → List ℕ → ℕ
untried tried [] = 0
untried tried (i ∷ is) = (if tried i then 0 else 1) + untried tried is

abbrev pub backup_of : Option PeerGroup → List ℕ
backup_of none = []
backup_of (some g) = g.peers

abbrev pub backup_peers : RrPicker → List ℕ
backup_peers rr = backup_of rr.backup

-- In the primary phase the backup peers are all still to come.
unfoldable pub left_of : Bool → (ℕ → Bool) → List ℕ → List ℕ → ℕ
left_of true tried primary backup = untried tried backup
left_of false tried primary backup = untried tried primary + length backup

unfoldable pub remaining : RrPicker → ℕ
unfolding left_of
remaining rr = left_of rr.backup_phase rr.tried rr.primary.peers (backup_peers rr)

-- A bound that also serves pickers which go back to the primary group in the backup phase: the passage
-- to the backups, which makes peers untried again, happens once.
unfoldable pub budget_of : Bool → (ℕ → Bool) → List ℕ → List ℕ → ℕ
budget_of b tried primary backup =
    (if b then 0 else length primary + length backup)
    + (untried tried primary + untried tried backup)

unfoldable pub budget : RrPicker → ℕ
unfolding budget_of
budget rr = budget_of rr.backup_phase rr.tried rr.primary.peers (backup_peers rr)

pub untried-le-length : (t : ℕ → Bool) (ids : List ℕ) → untried t ids ≤ length ids
unfolding untried
untried-le-length t [] = omega arith
untried-le-length t (i ∷ is) = ground (arith, untried-le-length t is)

pub untried-agree :
    (t u : ℕ → Bool) (ids : List ℕ) → ((j : ℕ) → u j ≡ t j) → untried u ids ≡ untried t ids
unfolding untried
untried-agree t u [] e = refl
untried-agree t u (i ∷ is) e = rw (e i, untried-agree t u is e)

module _ (t u : ℕ → Bool) (i : ℕ) (e : (j : ℕ) → u j ≡ (if j == i then true else t j)) where
  untried-mark-le : (ids : List ℕ) → untried u ids ≤ untried t ids
  unfolding untried
  untried-mark-le [] = omega arith
  untried-mark-le (k ∷ ks) = ground (arith, e k, untried-mark-le ks)

  -- Marking an untried peer of the list leaves one fewer.
  pub untried-mark : (ids : List ℕ) → Has i ids → t i ≡ false → untried u ids < untried t ids
  unfolding untried
  untried-mark [] m f = absurd m
  untried-mark (k ∷ ks) (inl p) f = ground (arith, e k, untried-mark-le ks)
  untried-mark (k ∷ ks) (inr m) f = ground (arith, e k, untried-mark ks m f)

  -- The same over two lists, of which one has the peer.
  pub untried-mark-either :
      (ps bs : List ℕ)
      → Has i ps ⊎ Has i bs
      → t i ≡ false
      → untried u ps + untried u bs < untried t ps + untried t bs
  untried-mark-either ps bs (inl m) f = omega (arith, untried-mark ps m f, untried-mark-le bs)
  untried-mark-either ps bs (inr m) f = omega (arith, untried-mark bs m f, untried-mark-le ps)
