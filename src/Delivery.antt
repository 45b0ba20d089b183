-- ===== src/Delivery.antt =====
-- What the services that send something out have in common (app/domain/reports.py and
-- app/domain/meeting_minutes.py): calls that change a state, a number of deliveries in each call, and
-- a record of what has been delivered. An instance is one thing to deliver, as a tenant's report.
use office_mult_agent.Base.{ℕ, ◌+◌, ◌≤◌, List, [], ◌∷◌, arith}

module _ {S C : Type 0} (after : C → S → S) where
  -- The state that calls lead to.
  abbrev pub after_all : List C → S → S
  after_all [] s = s
  after_all (c ∷ cs) s = after_all cs (after c s)

  pub after_all-Invariant :
      (P : S → Type 0)
      → ((c : C) (s : S) → P s → P (after c s))
      → (calls : List C) (s : S) → P s
      → P (after_all calls s)
  after_all-Invariant P step [] s h = h
  after_all-Invariant P step (c ∷ cs) s h = after_all-Invariant P step cs (after c s) (step c s h)

pub record Ledger : Type 1 where
  pub State : Type 0
  pub Call : Type 0
  pub after : Call → State → State
  pub sent : Call → State → ℕ
  pub recorded : State → ℕ
  pub recorded_at_most : (s : State) → recorded s ≤ 1
  pub records : (c : Call) (s : State) → sent c s + recorded s ≤ recorded (after c s)

module _ (l : Ledger) where
  -- The deliveries on the way.
  abbrev pub sends : List l.Call → l.State → ℕ
  sends [] s = 0
  sends (c ∷ cs) s = l.sent c s + sends cs (l.after c s)

  -- Every delivery leaves a record, so there is at most one.
  pub sends-le-one : (calls : List l.Call) (s : l.State) → sends calls s + l.recorded s ≤ 1
  sends-le-one [] s = omega (arith, l.recorded_at_most s)
  sends-le-one (c ∷ cs) s = omega (arith, l.records c s, sends-le-one cs (l.after c s))
