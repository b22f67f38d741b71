-- ===== src/Trip/Total.antt =====
-- The loop of RoundTrip ends, and gives back every connection.
use cslb.Prelude.{ℕ, suc, ◌≡◌, sym, ◌∙◌, +ℤ-zero, arith}
use cslb.Trip.{
  NeutralPicker, Route, Outside, Trip, TripEnd, Next, stop, go, round, trip_loop, start_trip,
}
use cslb.Trip.Rule.{Leads, Leads-pair, Finishes, trip_loop-Finishes}
use cslb.Trip.Connections.{IsAccountable, Balanced, IsIdle, round-IsIdle}

Leads-map :
    {S : Type 0} {Q R : TripEnd S → Type 0} {I J : Trip S → Type 0} (n : Next S)
    → ((e : TripEnd S) → Q e → R e)
    → ((t : Trip S) → I t → J t)
    → Leads Q I n
    → Leads R J n
Leads-map (stop e) f g l = f e l
Leads-map (go t) f g l = g t l

Leads-anything :
    {S : Type 0} (n : Next S) → Leads (λ (e : TripEnd S). Unit {0}) (λ (t : Trip S). Unit {0}) n
Leads-anything (stop e) = tt
Leads-anything (go t) = tt

module _ {S : Type 0} (p : NeutralPicker S) (w : Route) (o : Outside S)
    (a : IsAccountable p o) where
  module _ (I : Trip S → Type 0) (Q : TripEnd S → Type 0)
      (keep : (k : ℕ) (s : Trip S) → I s → Leads Q I (round p w o k s)) where
    -- What each round keeps, the loop keeps, with the connections.
    pub trip_loop-keeps :
        (m : S)
        → a.Inv m
        → I (start_trip m)
        → Finishes p w o
            (λ e. Balanced p w o a (a.conns m) e.picker × Q e)
            (trip_loop p w o (suc (a.left m)) 0 (start_trip m))
    unfolding start_trip
    trip_loop-keeps m v i =
        trip_loop-Finishes p w o (λ s. IsIdle p w o a (a.conns m) s × I s)
          (λ e. Balanced p w o a (a.conns m) e.picker × Q e) (λ s. a.left s.picker)
          (λ k s h.
            Leads-map (round p w o k s) (λ e q. q) (λ t j. ((j.0.0, j.1), j.0.1))
              (Leads-pair _ Q _ I (round p w o k s) (round-IsIdle p w o a (a.conns m) k s h.0)
                (keep k s h.1)))
          (suc (a.left m)) 0 (start_trip m) (omega arith)
          (record { inv = v; balance = λ j. sym (+ℤ-zero (a.conns m j)) }, i)

-- The loop of RoundTrip ends within one round more than the picks that its picker has left, and every
-- peer has as many connections as before, whatever the round tripper answers, whenever the caller
-- cancels, and on every way out; the other requests close what they open.
pub trip_loop-connections :
    {S : Type 0} (p : NeutralPicker S) (w : Route) (o : Outside S) (a : IsAccountable p o) (m : S)
    → a.Inv m
    → Finishes p w o
        (λ e. (j : ℕ) → a.conns e.picker j ≡ a.conns m j)
        (trip_loop p w o (suc (a.left m)) 0 (start_trip m))
trip_loop-connections p w o a m v =
    let (e, q, b) =
      trip_loop-keeps p w o a (λ s. Unit {0}) (λ e. Unit {0})
        (λ k s i. Leads-anything (round p w o k s)) m v tt in
    (e, q, λ j. b.0 j ∙ +ℤ-zero (a.conns m j))
