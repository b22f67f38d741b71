-- ===== src/Trip/Connections.antt =====
-- A round of RoundTrip gives back the connection that its pick opens, and uses up a pick.
use cslb.Prelude.{
  ℕ, ◌<◌, ◌≤◌, ◌≡◌, ◌==◌, refl, sym, ap, ◌∙◌, subst, Bool, true, false, ℤ, pos, ◌+ℤ◌, ◌-ℤ◌,
  int_laws, if◌then◌else◌, Option, none, some, arith, if_intro, ◌||◌, ◌∷◌,
}
use cslb.RoundRobin.Contract.{hits}
use cslb.Http.{Failure, Request, Response, is_some}
use cslb.Decision.{AttemptDecision, decide_attempt, checked_reply, request_was_sent}
use cslb.Trip.{
  NeutralPicker, Route, Outside, Trip, picked, Next, stop, go, round, give_up, fail, close_last,
  release_neutral, release_peer, attempt, attempt_request, settle_deadline, log_attempt,
  is_rejected,
}
use cslb.Trip.Rule.{Leads, opened, found, round_rule, after_attempt_rule}

-- What a step may do to the state of the pickers: close a connection of peer `i`, if it is given.
pub record Closes {S : Type 0} (Inv : S → Type 0) (left : S → ℕ) (conns : S → ℕ → ℤ) (i : Option ℕ)
    (f : S → S) : Type 0 where
  pub keeps : (s : S) → Inv s → Inv (f s)
  pub no_more : (s : S) → Inv s → left (f s) ≤ left s
  pub closes :
      (s : S) (j : ℕ) → Inv s → conns (f s) j ≡ conns s j -ℤ pos (if hits i j then 1 else 0)

-- What RoundTrip relies on in a picker and in the other requests, which close what they open.
pub record IsAccountable {S : Type 0} (p : NeutralPicker S) (o : Outside S) : Type 1 where
  pub Inv : S → Type 0
  pub left : S → ℕ
  pub conns : S → ℕ → ℤ
  pub pick_keeps : (clock : ℕ → ℕ) (s : S) → Inv s → Inv (p.base.pick clock s).1
  pub pick_less :
      (clock : ℕ → ℕ) (s : S) (i : ℕ)
      → Inv s
      → (p.base.pick clock s).0 ≡ some i
      → left (p.base.pick clock s).1 < left s
  pub pick_opens :
      (clock : ℕ → ℕ) (s : S) (j : ℕ)
      → Inv s
      → conns (p.base.pick clock s).1 j
        ≡ conns s j +ℤ pos (if hits (p.base.pick clock s).0 j then 1 else 0)
  pub done_closes :
      (clock : ℕ → ℕ) (i : ℕ) (failed : Bool)
      → Closes Inv left conns (some i) (p.base.done clock (some i) failed)
  pub neutral_closes :
      (clock : ℕ → ℕ) (i : ℕ) (f : (ℕ → ℕ) → Option ℕ → S → S)
      → p.neutral ≡ some f
      → Closes Inv left conns (some i) (f clock (some i))
  pub before_pick_quiet : (k : ℕ) → Closes Inv left conns none (o.before_pick k)
  pub before_done_quiet : (k : ℕ) → Closes Inv left conns none (o.before_done k)

plus_minus :
    (b : Bool) (x : ℤ) → x +ℤ pos (if b then 1 else 0) -ℤ pos (if b then 1 else 0) ≡ x +ℤ pos 0
plus_minus true x = omega int_laws
plus_minus false x = omega int_laws

plus_zero : (x : ℤ) (n : ℕ) → x +ℤ pos 0 +ℤ pos n ≡ x +ℤ pos n
plus_zero x n = omega int_laws

minus_zero : (x : ℤ) → x -ℤ pos 0 ≡ x
minus_zero x = omega int_laws

module _ {S : Type 0} (p : NeutralPicker S) (w : Route) (o : Outside S) (a : IsAccountable p o)
    (base : ℕ → ℤ) (limit : ℕ) where
  -- The state holds a connection of `i`, if that is given, and nothing else.
  record Holding (i : Option ℕ) (m : S) : Type 0 where
    inv : a.Inv m
    fewer : a.left m < limit
    balance : (j : ℕ) → a.conns m j ≡ base j +ℤ pos (if hits i j then 1 else 0)

  -- The other requests, and then a release.
  quiet-Holding :
      (i : Option ℕ) (f : S → S) (m : S)
      → Closes a.Inv a.left a.conns none f
      → Holding i m
      → Holding i (f m)
  quiet-Holding i f m c h = record {
    inv = c.keeps m h.inv;
    fewer = omega (arith, c.no_more m h.inv, h.fewer);
    balance = λ j. c.closes m j h.inv ∙ (minus_zero (a.conns m j) ∙ h.balance j);
  }

  close-Holding :
      (i : ℕ) (f : S → S) (m : S)
      → Closes a.Inv a.left a.conns (some i) f
      → Holding (some i) m
      → Holding none (f m)
  close-Holding i f m c h = record {
    inv = c.keeps m h.inv;
    fewer = omega (arith, c.no_more m h.inv, h.fewer);
    balance = λ j.
        c.closes m j h.inv
        ∙ (ap (λ x. x -ℤ pos (if j == i then 1 else 0)) (h.balance j)
            ∙ plus_minus (j == i) (base j));
  }

  module _ (k : ℕ) where
    neutral-Holding :
        (i : ℕ) (s : Trip S)
        → Holding (some i) s.picker
        → Holding none (release_neutral p w o k i s).picker
    unfolding release_neutral
    neutral-Holding i s h = by_kind p.neutral refl
      where
        m : S
        m = o.before_done k s.picker

        ready : Holding (some i) m
        ready = quiet-Holding (some i) (o.before_done k) s.picker (a.before_done_quiet k) h

        by_kind :
            (n : Option ((ℕ → ℕ) → Option ℕ → S → S))
            → p.neutral ≡ n
            → Holding none (elim n [
              | none ↦ p.base.done (o.clock k) (some i) false m
              | some f ↦ f (o.clock k) (some i) m
            ])
        by_kind none q =
            close-Holding i (p.base.done (o.clock k) (some i) false) m
              (a.done_closes (o.clock k) i false) ready
        by_kind (some f) q =
            close-Holding i (f (o.clock k) (some i)) m (a.neutral_closes (o.clock k) i f q) ready

    release-Holding :
        (d : AttemptDecision) (i : ℕ) (s : Trip S)
        → Holding (some i) s.picker
        → Holding none (release_peer p w o k d i s).picker
    unfolding release_peer
    release-Holding d i s h =
        if_intro (λ (t : Trip S). Holding none t.picker) d.neutral (neutral-Holding i s h)
          (close-Holding i (p.base.done (o.clock k) (some i) d.failed) (o.before_done k s.picker)
            (a.done_closes (o.clock k) i d.failed)
            (quiet-Holding (some i) (o.before_done k) s.picker (a.before_done_quiet k) h))

    settle_deadline-picker :
        (resp : Option Response) (err : Option Failure) (s : Trip S)
        → (settle_deadline p w o k resp err s).1.picker ≡ s.picker
    unfolding settle_deadline
    settle_deadline-picker resp err s = ground arith

    -- At the head of the loop nothing is held, and at the end neither.
    abbrev Settled : Next S → Type 0
    Settled =
        Leads (λ e. (j : ℕ) → a.conns e.picker j ≡ base j +ℤ pos 0) (λ t. Holding none t.picker)

    attempt-Settled :
        (i : ℕ) (req : Request) (s : Trip S)
        → Holding (some i) s.picker
        → Settled (attempt p w o k i req s)
    unfolding attempt fail
    attempt-Settled i req s h =
        let raw = o.reply k w.transport req in
        let checked = checked_reply raw.resp raw.err in
        let sent = request_was_sent w.transport raw.wrote checked.0 checked.1 in
        let es =
          log_attempt p w o k i req raw (is_rejected p w o k raw checked.0) checked.0 s.events in
        let logged : Trip S = record s { events = es } in
        let (resp, t) = settle_deadline p w o k checked.0 checked.1 logged in
        let held : Holding (some i) t.picker =
          subst (Holding (some i)) (sym (settle_deadline-picker checked.0 checked.1 logged)) h in
        after_attempt_rule p w o k Settled i sent checked.1 resp t
          (λ e c q r. (neutral-Holding i t held).balance)
          (
            λ r.
                release-Holding (decide_attempt w.policy w.request.method resp checked.1 sent) i t
                  held,
            λ r.
                (release-Holding (decide_attempt w.policy w.request.method resp checked.1 sent) i t
                  held).balance,
          )

module _ {S : Type 0} (p : NeutralPicker S) (w : Route) (o : Outside S) (a : IsAccountable p o)
    (base : ℕ → ℤ) where
  abbrev pub Balanced : S → Type 0
  Balanced m = (j : ℕ) → a.conns m j ≡ base j +ℤ pos 0

  -- The head of the loop.
  pub record IsIdle (s : Trip S) : Type 0 where
    pub inv : a.Inv s.picker
    pub balance : Balanced s.picker

  give_up-picker :
      (k : ℕ) (s : Trip S) (I : Trip S → Type 0)
      → Balanced s.picker
      → Leads (λ e. Balanced e.picker) I (give_up p w o k s)
  unfolding give_up fail
  give_up-picker k s I b =
      if_intro (Leads (λ e. Balanced e.picker) I) (is_some s.last_resp || is_some s.last_err) b b

  Holding-Leads :
      (k : ℕ) (s : Trip S) (n : Next S)
      → Settled p w o a base (a.left s.picker) k n
      → Leads (λ e. Balanced e.picker) (λ t. IsIdle t × (a.left t.picker < a.left s.picker)) n
  Holding-Leads k s (stop e) h = h
  Holding-Leads k s (go t) h = (record { inv = h.inv; balance = h.balance }, h.fewer)

  pub round-IsIdle :
      (k : ℕ) (s : Trip S)
      → IsIdle s
      → Leads
          (λ e. Balanced e.picker)
          (λ t. IsIdle t × (a.left t.picker < a.left s.picker))
          (round p w o k s)
  unfolding fail close_last
  round-IsIdle k s v =
      let before = o.before_pick k s.picker in
      let quiet = a.before_pick_quiet k in
      let inv = quiet.keeps s.picker v.inv in
      let r = p.base.pick (o.clock k) before in
      let kept : Balanced before =
        λ j. quiet.closes s.picker j v.inv ∙ (minus_zero (a.conns s.picker j) ∙ v.balance j) in
      let opens : (j : ℕ) → a.conns r.1 j ≡ base j +ℤ pos (if hits r.0 j then 1 else 0) = λ j.
        a.pick_opens (o.clock k) before j inv
        ∙ (ap (λ x. x +ℤ pos (if hits r.0 j then 1 else 0)) (kept j)
            ∙ plus_zero (base j) (if hits r.0 j then 1 else 0)) in
      let held : (i : ℕ) (m : S)
          → r ≡ (some i, m)
          → Holding p w o a base (a.left s.picker) (some i) m =
        λ i m e. record {
          inv = subst (λ x. a.Inv x.1) e (a.pick_keeps (o.clock k) before inv);
          fewer =
              subst (λ x. a.left x.1 < a.left s.picker) e
                (omega (
                  arith,
                  a.pick_less (o.clock k) before i inv (ap (λ x. x.0) e),
                  quiet.no_more s.picker v.inv,
                ));
          balance = λ j.
              subst (λ x. a.conns x.1 j ≡ base j +ℤ pos (if hits x.0 j then 1 else 0)) e (opens j);
        } in
      round_rule p w o k
        (Leads (λ e. Balanced e.picker) (λ t. IsIdle t × (a.left t.picker < a.left s.picker))) s
        (λ c q. v.balance)
        (λ m e.
          give_up-picker k (record s { picker = m; events = picked none ∷ s.events }) _
            (λ j.
              subst (λ x. a.conns x.1 j ≡ base j +ℤ pos (if hits x.0 j then 1 else 0)) e (opens j)))
        (λ i m e q.
          (neutral-Holding p w o a base (a.left s.picker) k i (found p w o k i s m)
            (held i m e)).balance)
        (λ i m f e q.
          (neutral-Holding p w o a base (a.left s.picker) k i (opened p w o k i s m)
            (held i m e)).balance)
        (λ i m b e q. Holding-Leads k s _ (
          attempt-Settled p w o a base (a.left s.picker) k i (attempt_request w.request b)
            (opened p w o k i s m) (held i m e)))
