-- ===== src/Migrations/Update.antt =====
-- packages/core/src/migrations/runner/migration-update-runner.ts and migration-update-lock.ts: an
-- update in its session. The rows that the database has, the statements that the generator builds
-- and the database's answers are arguments. A failure of the lock's own check of the answer is a
-- failure of the call; diagnostics are left out.
pub mod Steps
pub mod Lock
use Prim.Native.Nat.{Ordering}
use entitykit.Common.{
  ℕ, Bool, true, false, not, ◌&&◌, ◌||◌, Option, none, some, List, [], ◌∷◌, ◌++◌, map,
  if◌then◌else◌, ◌==◌, nat_eq, Text, Outcome, returned, thrown,
}
use entitykit.Migrations.Range.{
  by_id, sort_by, Migration, Direction, up, down, Step, MigrationFailure,
}
use entitykit.Migrations.Plan.{HistoryRow, Plan, create_update_plan}
use entitykit.Migrations.Executor.{
  Statement, DatabaseCall, lock_acquire, lock_release, UpdateFailure, plan_failed, data_loss,
  release_failed, Answer, submit, run_migration,
}

pub record Dialect : Type 0 where
  -- Whether the dialect has a statement to acquire the lock, and one to release it.
  pub acquires : Bool
  pub releases : Bool
  -- The text of the statement that creates the history table.
  pub create_history : ℕ
  pub build_up_statements : Migration → List Statement
  pub build_down_statements : Migration → List Statement

pub record UpdateResult : Type 0 where
  pub applied_migrations : List Step
  pub used_migration_lock : Bool

-- The calls made, whether the lock is acquired, and how it went.
pub record Updated : Type 0 where
  pub calls : List DatabaseCall
  pub acquired : Bool
  pub outcome : Outcome UpdateFailure UpdateResult

unfoldable pub without_text : ℕ → List Statement → List Statement
without_text text [] = []
without_text text (s ∷ ss) =
    let rest = without_text text ss in if s.text == text then rest else s ∷ rest

unfoldable pub build_statements : Dialect → Step → List Statement
unfolding without_text
build_statements dialect step = elim step.direction [
  | up ↦ without_text dialect.create_history (dialect.build_up_statements step.migration)
  | down ↦ dialect.build_down_statements step.migration
]

abbrev pub is_nothing : List Text → Bool
is_nothing [] = true
is_nothing (w ∷ ws) = false

module _ (answer : Answer) (dialect : Dialect) where
  -- A call that throws ends the loop.
  abbrev pub stop_or :
      List DatabaseCall
      → Outcome UpdateFailure (Unit {0})
      → List DatabaseCall × Outcome UpdateFailure UpdateResult
      → List DatabaseCall × Outcome UpdateFailure UpdateResult
  stop_or calls (returned u) rest = rest
  stop_or calls (thrown e) rest = (calls, thrown e)

  -- The loop over the plan's steps; `applied` has those that are done.
  unfoldable pub run_steps :
      List Step
      → List Step
      → List DatabaseCall
      → List DatabaseCall × Outcome UpdateFailure UpdateResult
  unfolding run_migration build_statements
  run_steps applied [] calls = (
    calls,
    returned (record { applied_migrations = applied; used_migration_lock = dialect.acquires }),
  )
  run_steps applied (step ∷ steps) calls =
      let (after, result) = run_migration answer step (build_statements dialect step) calls in
      let rest = run_steps (applied ++ step ∷ []) steps after in stop_or after result rest

  -- What comes after the plan is made.
  unfoldable pub run_plan :
      Plan → Bool → List DatabaseCall → List DatabaseCall × Outcome UpdateFailure UpdateResult
  unfolding run_steps
  run_plan plan allow_data_loss calls =
      if not (is_nothing plan.warnings) && not allow_data_loss
      then (calls, thrown (data_loss plan.warnings))
      else run_steps [] plan.steps calls

  abbrev pub plan_failure : Outcome MigrationFailure Plan → Outcome UpdateFailure Plan
  plan_failure (returned plan) = returned plan
  plan_failure (thrown e) = thrown (plan_failed e)

  -- What comes after the lock is acquired: `history` is what reading the history gives.
  unfoldable pub run_locked :
      Outcome UpdateFailure (List HistoryRow)
      → (List HistoryRow → Outcome MigrationFailure Plan)
      → Bool
      → List DatabaseCall
      → List DatabaseCall × Outcome UpdateFailure UpdateResult
  unfolding run_plan
  run_locked (thrown e) make_plan allow_data_loss calls = (calls, thrown e)
  run_locked (returned applied) make_plan allow_data_loss calls =
      elim (plan_failure (make_plan applied)) [
        | thrown e ↦ (calls, thrown e)
        | returned plan ↦ run_plan plan allow_data_loss calls
      ]

  -- The `try` block: the lock is acquired if the dialect has one.
  unfoldable pub try_update :
      Outcome UpdateFailure (List HistoryRow)
      → (List HistoryRow → Outcome MigrationFailure Plan)
      → Bool
      → Updated
  unfolding run_locked submit
  try_update history make_plan allow_data_loss =
      let (calls, acquired) = submit answer lock_acquire [] in
      let (unlocked, plain) = run_locked history make_plan allow_data_loss [] in
      let (locked, result) = run_locked history make_plan allow_data_loss calls in
      if dialect.acquires
      then elim acquired [
        | thrown e ↦ record { calls = calls; acquired = false; outcome = thrown e }
        | returned u ↦ record { calls = locked; acquired = true; outcome = result }
      ]
      else record { calls = unlocked; acquired = false; outcome = plain }

  abbrev pub released :
      Outcome UpdateFailure (Unit {0})
      → Outcome UpdateFailure UpdateResult
      → Outcome UpdateFailure UpdateResult
  released (returned u) outcome = outcome
  released (thrown e) (returned r) = thrown e
  released (thrown e) (thrown primary) = thrown (release_failed e primary)

  -- The `finally` block.
  unfoldable pub release : Updated → Updated
  unfolding submit
  release t =
      let (calls, result) = submit answer lock_release t.calls in
      if t.acquired && dialect.releases
      then record {
        calls = calls;
        acquired = elim result [ returned u ↦ false | thrown e ↦ true ];
        outcome = released result t.outcome;
      }
      else t

  unfoldable pub update_in_session :
      (Text → Text → Ordering)
      → (Migration → Text)
      → (Migration → List Text)
      → List Migration
      → Outcome UpdateFailure (List HistoryRow)
      → Option Text
      → Bool
      → Updated
  unfolding try_update release
  update_in_session locale_compare checksum warnings migrations history target allow_data_loss =
      release (
        try_update history
          (λ applied.
            create_update_plan locale_compare checksum warnings
              (sort_by (by_id locale_compare) migrations) applied target)
          allow_data_loss)
