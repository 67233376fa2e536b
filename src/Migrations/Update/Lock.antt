-- ===== src/Migrations/Update/Lock.antt =====
-- An update holds the lock while it runs, and runs the plan's statements and no others.
use entitykit.Common.{
  not, not, ◌≡◌, Bool, true, false, List, [], ◌∷◌, ◌++◌, Outcome, returned, All, ◌⊎◌,
}
use entitykit.Migrations.Range.{MigrationFailure}
use entitykit.Migrations.Plan.{HistoryRow, Plan}
use entitykit.Migrations.Executor.{DatabaseCall, lock_acquire, lock_release, UpdateFailure, Answer}
use entitykit.Migrations.Executor.Batches.{flatten, IsAllowed}
use entitykit.Migrations.Update.{Dialect, UpdateResult, Updated}
use entitykit.Migrations.Update.Steps.{all_statements}

module _ (answer : Answer) (dialect : Dialect) where
  -- What is done under the lock, from `calls`. If it returns, then the history was read and a plan
  -- made that may run, and exactly the statements of the plan's steps were submitted.
  pub record IsLockedRun (history : Outcome UpdateFailure (List HistoryRow))
      (make_plan : List HistoryRow → Outcome MigrationFailure Plan) (allow_data_loss : Bool)
      (calls : List DatabaseCall) (done : List DatabaseCall × Outcome UpdateFailure UpdateResult)
      : Type 0 where
    pub made : List DatabaseCall
    pub extends : done.0 ≡ calls ++ made
    pub allowed : All IsAllowed made
    pub finished :
        (r : UpdateResult)
        → done.1 ≡ returned r
        → (rows : List HistoryRow) × (plan : Plan) × (history ≡ returned rows)
          × (make_plan rows ≡ returned plan)
          × ((plan.warnings ≡ []) ⊎ (allow_data_loss ≡ true))
          × (flatten made ≡ all_statements dialect plan.steps)
          × (r.applied_migrations ≡ plan.steps)

  -- The calls of an update: no lock is taken, or taking it fails and nothing more is done, or it
  -- is taken first, all else is done, and last, if the dialect can, it is released.
  pub data IsGuarded (work : List DatabaseCall) : List DatabaseCall → Type 0 where
    unguarded : dialect.acquires ≡ false → IsGuarded work work
    refused : dialect.acquires ≡ true → work ≡ [] → IsGuarded work (lock_acquire ∷ [])
    held : dialect.acquires ≡ true → dialect.releases ≡ false → IsGuarded work (lock_acquire ∷ work)
    freed :
        dialect.acquires ≡ true
        → dialect.releases ≡ true
        → IsGuarded work (lock_acquire ∷ work ++ lock_release ∷ [])

  -- The whole of an update, from what the history gives and how the plan is made of it.
  pub record IsUpdate (history : Outcome UpdateFailure (List HistoryRow))
      (make_plan : List HistoryRow → Outcome MigrationFailure Plan) (allow_data_loss : Bool)
      (u : Updated) : Type 0 where
    pub work : List DatabaseCall
    pub allowed : All IsAllowed work
    pub guarded : IsGuarded work u.calls
    pub finished :
        (r : UpdateResult)
        → u.outcome ≡ returned r
        → (rows : List HistoryRow) × (plan : Plan) × (history ≡ returned rows)
          × (make_plan rows ≡ returned plan)
          × ((plan.warnings ≡ []) ⊎ (allow_data_loss ≡ true))
          × (flatten work ≡ all_statements dialect plan.steps)
          × (r.applied_migrations ≡ plan.steps)
