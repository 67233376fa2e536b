-- ===== src/Migrations/Executor.antt =====
-- packages/core/src/migrations/runner/migration-executor.ts. The database answers each call from
-- the calls made before it; a call that runs a batch in one transaction is one call. Diagnostics
-- and timings are left out.
pub mod Batches
use entitykit.Common.{
  ℕ, Bool, true, false, Option, none, some, List, [], ◌∷◌, ◌++◌, if◌then◌else◌, Text, Outcome,
  returned, thrown,
}
use entitykit.Migrations.Range.{Migration, Direction, Step, MigrationFailure}

pub record Statement : Type 0 where
  pub text : ℕ
  pub suppress_transaction : Bool

pub data DatabaseCall : Type 0 where
  lock_acquire lock_release : DatabaseCall
  in_transaction : List Statement → DatabaseCall
  outside : Statement → DatabaseCall

pub data UpdateFailure : Type 0 where
  database_failed : ℕ → UpdateFailure
  canceled : UpdateFailure
  plan_failed : MigrationFailure → UpdateFailure
  data_loss : List Text → UpdateFailure
  execution_failed : Step → UpdateFailure → UpdateFailure
  release_failed : UpdateFailure → UpdateFailure → UpdateFailure

abbrev pub Answer : Type 0
Answer = List DatabaseCall → DatabaseCall → Outcome UpdateFailure (Unit {0})

-- The calls made, and how it went.
abbrev pub Done : Type 0
Done = List DatabaseCall × Outcome UpdateFailure (Unit {0})

-- `await` of a call that may throw.
abbrev pub then_do : Done → (List DatabaseCall → Done) → Done
then_do (calls, returned u) next = next calls
then_do (calls, thrown e) next = (calls, thrown e)

module _ (answer : Answer) where
  unfoldable pub submit : DatabaseCall → List DatabaseCall → Done
  submit call calls = (calls ++ call ∷ [], answer calls call)

  unfoldable pub flush_batch : List Statement → List DatabaseCall → Done
  unfolding submit
  flush_batch [] calls = (calls, returned tt)
  flush_batch (s ∷ ss) calls = submit (in_transaction (s ∷ ss)) calls

  -- The loop of `run`, with its batch.
  unfoldable pub run_statements : List Statement → List Statement → List DatabaseCall → Done
  unfolding submit flush_batch
  run_statements batch [] calls = flush_batch batch calls
  run_statements batch (s ∷ ss) calls =
      let suppressed =
        then_do (flush_batch batch calls)
          (λ flushed. then_do (submit (outside s) flushed) (λ done. run_statements [] ss done)) in
      let later = run_statements (batch ++ s ∷ []) ss calls in
      if s.suppress_transaction then suppressed else later

  abbrev pub wrap : Step → Outcome UpdateFailure (Unit {0}) → Outcome UpdateFailure (Unit {0})
  wrap step (returned u) = returned u
  wrap step (thrown canceled) = thrown canceled
  wrap step (thrown e) = thrown (execution_failed step e)

  unfoldable pub run_migration : Step → List Statement → List DatabaseCall → Done
  unfolding run_statements
  run_migration step statements calls =
      let (after, result) = run_statements [] statements calls in (after, wrap step result)
