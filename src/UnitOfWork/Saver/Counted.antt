-- ===== src/UnitOfWork/Saver/Counted.antt =====
-- What a save returns is the count of its plan, and a row count that differs from the expected
-- one fails it.
use entitykit.Common.{ℕ, ◌≡◌, ◌≢◌, false, List, [], ◌∷◌, nat_eq}
use entitykit.UnitOfWork.Session.{PlanEntry, Environment, Session, Event, ◌>>=◌}
use entitykit.UnitOfWork.Executor.{counted, or_one}

-- The sum that `affectedEntities` is after the plan.
abbrev pub affected_by : List PlanEntry → ℕ → ℕ
affected_by [] n = n
affected_by (e ∷ plan) n = affected_by plan (counted e n)

abbrev Anything : Session → Type 0
Anything s = Unit {0}

module _ (env : Environment) where
  abbrev pub IsMismatched : PlanEntry → Type 0
  IsMismatched e =
      (e.skip_affected_rows_check ≡ false)
      × ((log : List Event) → env.row_count log e.number ≢ or_one e.expected_affected_rows)
