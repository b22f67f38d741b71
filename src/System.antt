-- ===== src/System.antt =====
-- Many requests over one set of peers: the sections under the group locks, in any order.
-- roundrobin.go and balancer.go: a pick holds one group's lock while it chooses and commits, and
-- `done` holds it while it releases. A request's picker may be in any state when its section runs,
-- so the runs here are all those of the program and more.

use cslb.Prelude.{
  ℕ, ◌+◌, ◌<◌, ◌==◌, ◌≡◌, refl, ◌∙◌, ap, Bool, true, false, ℤ, pos, ◌+ℤ◌, ◌≤ℤ◌, ◌<ℤ◌, if◌then◌else◌,
  List, [], ◌∷◌, Option, none, some, arith, Distinct, int_laws, parts, +ℤ_parts, ◌&&◌, leb_ℤ, ltb_ℤ,
}
use cslb.Peer.{PeerSpec, Heap, init}
use cslb.Group.{PeerGroup, init_all}
use cslb.RoundRobin.{commit_peer, Ctx, RrPicker, Strategy, pick_from_current_group, done_peer}
use cslb.RoundRobin.Effects.{vitals}
use cslb.RoundRobin.Sections.{Usable, commit-Outcome}
use cslb.RoundRobin.Contract.{hits, Outcome}
use cslb.RoundRobin.Release.{done_peer-static, done_peer-conns}
use cslb.RoundRobin.Backup.{Lawful, pick_from_current_group-Outcome}

-- The peers' memory, and the peers that requests hold, once for each hold.
pub record System : Type 0 where
  pub heap : Heap
  pub leases : List ℕ

abbrev pub count : ℕ → List ℕ → ℕ
count j [] = 0
count j (i ∷ is) = (if j == i then 1 else 0) + count j is

abbrev pub drop_one : ℕ → List ℕ → List ℕ
drop_one i [] = []
drop_one i (k ∷ ks) = if i == k then ks else k ∷ drop_one i ks

abbrev pub leased : Option ℕ → List ℕ → List ℕ
leased none ls = ls
leased (some i) ls = i ∷ ls

abbrev pub after_pick : System → Option ℕ × Ctx → System
after_pick s r = record { heap = r.1.heap; leases = leased r.0 s.leases }

-- A pick's section with a strategy; the section of a hash, random or ring picker, which commits a peer
-- that it has found usable, and may have played a round for it; and the section of `done`.
pub data Step (s : System) : System → Type 0 where
  pick_section :
      (strategy : Strategy) (now : ℕ) (g : PeerGroup) (rr : RrPicker)
      → Lawful strategy
      → Distinct g.peers
      → Step s (
          after_pick s
            (pick_from_current_group strategy now g (record { picker = rr; heap = s.heap })))
  commit_section :
      (now i : ℕ) (ids : List ℕ) (h : Heap) (rr : RrPicker)
      → ((j : ℕ) → vitals (h j) ≡ vitals (s.heap j))
      → Usable ids (record { picker = rr; heap = s.heap }) i
      → Step s (after_pick s (some i, commit_peer now i (record { picker = rr; heap = h })))
  done_section :
      (now : ℕ) (failed neutral : Bool) (i : ℕ) (rr : RrPicker)
      → 0 < count i s.leases
      → Step s (record {
        heap = (done_peer now failed neutral i (record { picker = rr; heap = s.heap })).heap;
        leases = drop_one i s.leases;
      })

pub data Reach (s : System) : System → Type 0 where
  here : Reach s s
  next : {t u : System} → Reach s t → Step t u → Reach s u

-- Every connection is held by a request, and max_conns is kept.
pub record IsAccounted (s : System) : Type 0 where
  pub held : (j : ℕ) → (s.heap j).conns ≡ pos (count j s.leases)
  pub limited : (j : ℕ) → pos 0 <ℤ (s.heap j).max_conns → (s.heap j).conns ≤ℤ (s.heap j).max_conns

count-leased :
    (r : Option ℕ) (j : ℕ) (ls : List ℕ)
    → count j (leased r ls) ≡ (if hits r j then 1 else 0) + count j ls
count-leased none j ls = omega arith
count-leased (some i) j ls = refl

count-drop_one :
    (i j : ℕ) (ls : List ℕ)
    → 0 < count i ls
    → count j (drop_one i ls) + (if j == i then 1 else 0) ≡ count j ls
count-drop_one i j [] h = absurd (omega arith)
count-drop_one i j (k ∷ ks) h = ground (arith, count-drop_one i j ks)

-- One more connection, below the limit, stays within the limit.
room_limit : (a m : ℤ) → (ltb_ℤ (pos 0) m && leb_ℤ m a) ≡ false → pos 0 <ℤ m → a +ℤ pos 1 ≤ℤ m
room_limit a m f x = ground (arith, +ℤ_parts a (pos 1))

limit_kept :
    (b : Bool) (a a' m m' : ℤ)
    → a' ≡ a +ℤ pos (if b then 1 else 0)
    → m' ≡ m
    → (b ≡ true → (ltb_ℤ (pos 0) m && leb_ℤ m a) ≡ false)
    → (pos 0 <ℤ m → a ≤ℤ m)
    → pos 0 <ℤ m'
    → a' ≤ℤ m'
limit_kept true a a' m m' e q f h x =
    omega (int_laws, parts e, parts q, room_limit a m (f refl) (omega (arith, parts q)))
limit_kept false a a' m m' e q f h x =
    omega (int_laws, parts e, parts q, h (omega (arith, parts q)))

hits-some : (r : Option ℕ) (j : ℕ) → hits r j ≡ true → r ≡ some j
hits-some none j e = cc
hits-some (some i) j e = ground arith

module _ (s : System) (v : IsAccounted s) where
  pick-IsAccounted :
      (ids : List ℕ) (rr : RrPicker) (r : Option ℕ × Ctx)
      → Outcome ids (record { picker = rr; heap = s.heap }) r
      → IsAccounted (after_pick s r)
  pick-IsAccounted ids rr r o = record {
    held = λ j. o.opened j ∙ omega (int_laws, parts (v.held j), count-leased r.0 j s.leases);
    limited = λ j x.
        limit_kept (hits r.0 j) (s.heap j).conns (r.1.heap j).conns (s.heap j).max_conns
          (r.1.heap j).max_conns (o.opened j) (ap (λ p. p.max_conns) (o.frame j))
          (λ e. o.room j (hits-some r.0 j e)) (v.limited j) x;
  }

  done-IsAccounted :
      (now : ℕ) (failed neutral : Bool) (i : ℕ) (rr : RrPicker)
      → 0 < count i s.leases
      → IsAccounted (record {
        heap = (done_peer now failed neutral i (record { picker = rr; heap = s.heap })).heap;
        leases = drop_one i s.leases;
      })
  done-IsAccounted now failed neutral i rr h =
      let c : Ctx = record { picker = rr; heap = s.heap } in
      record {
        held = λ j.
            done_peer-conns now failed neutral i j c
            ∙ omega (int_laws, parts (v.held j), count-drop_one i j s.leases h);
        limited = λ j x.
            let m = ap (λ p. p.max_conns) (done_peer-static now failed neutral i j c) in
            omega (
              int_laws,
              parts m,
              parts (done_peer-conns now failed neutral i j c),
              v.limited j (omega (arith, parts m)),
            );
      }

Step-IsAccounted : {s t : System} → Step s t → IsAccounted s → IsAccounted t
Step-IsAccounted {s} (pick_section strategy now g rr l d) v =
    pick-IsAccounted s v g.peers rr _
      (pick_from_current_group-Outcome strategy l now g (record { picker = rr; heap = s.heap }) d)
Step-IsAccounted {s} (commit_section now i ids h rr kept u) v =
    pick-IsAccounted s v ids rr _
      (commit-Outcome ids (record { picker = rr; heap = s.heap }) h kept now i u.0 u.1 u.2 u.3)
Step-IsAccounted {s} (done_section now failed neutral i rr h) v =
    done-IsAccounted s v now failed neutral i rr h

-- However the locked sections of the requests follow one another: a pick uses any lawful strategy on
-- a group that names each peer once, or commits a usable peer, and `done` is called for a peer that is
-- held. If the connection counter of every peer is the number of requests that hold it and no positive
-- max_conns is exceeded, both stay so.
pub Reach-IsAccounted : {s t : System} → Reach s t → IsAccounted s → IsAccounted t
Reach-IsAccounted here v = v
Reach-IsAccounted (next r st) v = Step-IsAccounted st (Reach-IsAccounted r v)

-- The peers as BuildGroups leaves them, before any request.
pub init_all-IsAccounted :
    (specs : ℕ → PeerSpec) → IsAccounted (record { heap = init_all specs; leases = [] })
unfolding init_all init
init_all-IsAccounted specs = record { held = λ j. refl; limited = λ j x. omega arith }
