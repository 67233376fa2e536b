-- ===== src/UnitOfWork/Saver.antt =====
-- `UnitOfWorkSaver` of packages/core/src/core/unit-of-work-saver.ts, with `TrackedSaveState.accept`,
-- `acceptSaveState` and `SaveLifecycle.afterCommitted` of unit-of-work/.
pub mod Undoing
pub mod Accepting
pub mod Executing
pub mod Preparing
pub mod Settling
pub mod AllOrNothing
pub mod Counted
mod Tests
use entitykit.Common.{
  Outcome, Option, none, some, false, false, some, Option, ℕ, Bool, true, List, [], ◌∷◌,
  if◌then◌else◌, nat_eq, map, ltb, returned, thrown,
}
use entitykit.Restoration.{new_scope}
use entitykit.UnitOfWork.Coordinator.{enqueue_after_commit_callback}
use entitykit.UnitOfWork.Outbox.{OutboxEventBatch, batches_for, defer, release}
use entitykit.UnitOfWork.Session.{
  nothing_standing, save_running, stand, planned, PlanEntry, Part, validated, accepted,
  settled_acceptance, scanned, not_accepted, Environment, Session, M, ◌>>=◌, ◌>>◌, pure, throw,
  try_catch, modify, call, accept, undo, attempted, attempted_all, run_restoration_actions,
  run_actions,
}
use entitykit.UnitOfWork.Lifecycle.{
  capture, rethrow_first, throw_failures, notify_saving, notify_failed, notify_saved,
  clear_outbox_events,
}
use entitykit.UnitOfWork.Executor.{execute, accept_generated_values, restore_generated_values}

module _ (env : Environment) where
  abbrev pub undo_if : Bool → Part → M (Unit {0})
  undo_if b part = if b then undo env part else pure tt

  -- `TrackedSaveState.accept` and `acceptSaveState`.
  unfoldable pub accept_state : M (Unit {0})
  unfolding accept undo attempted_all call
  accept_state = do
    _ ← accept env Part.versions
    try_catch
        (do _ ← accept env Part.tracker; _ ← call env (accepted Part.writes); accept env Part.links)
        (λ e.
          capture e
          >> (λ (s : Session).
              attempted_all env
                (call env scanned
                  ∷ undo_if s.standing.tracker Part.tracker
                  ∷ undo env Part.versions
                  ∷ undo env Part.writes
                  ∷ undo_if s.standing.links Part.links
                  ∷ [])
                s)
          >> throw e)

  -- `rollback` of what `acceptSaveState` returns.
  unfoldable pub roll_back_tracked : M (Unit {0})
  unfolding undo run_actions call
  roll_back_tracked = run_restoration_actions env (
      call env scanned
      ∷ undo env Part.tracker
      ∷ undo env Part.versions
      ∷ undo env Part.writes
      ∷ undo env Part.links
      ∷ [])

  unfoldable pub roll_back_acceptance : M (Unit {0})
  unfolding roll_back_tracked undo run_actions
  roll_back_acceptance = run_restoration_actions env (roll_back_tracked ∷ undo env Part.values ∷ [])

  -- The callback that the saver gives to the executor.
  unfoldable pub before_commit : M (Unit {0})
  before_commit = do
    _ ← accept_generated_values env
    try_catch (accept_state >> modify (λ s. record s { acceptance = true }))
        (λ e. capture e >> attempted env (undo env Part.values) >> throw e)

  -- The callback of `afterCommitted`, and its cleanup.
  unfoldable pub settle : List OutboxEventBatch → M (Unit {0})
  unfolding clear_outbox_events notify_saved call
  settle batches = do
    _ ← call env settled_acceptance
    _ ← if env.has_outbox then clear_outbox_events env batches else pure tt
    notify_saved env env.interceptors

  unfoldable pub abandon : List OutboxEventBatch → M (Unit {0})
  unfolding roll_back_acceptance
  abandon batches =
      modify (λ s. record s { outbox = release s.outbox batches }) >> roll_back_acceptance

  unfoldable pub after_committed : List PlanEntry → M (Unit {0})
  unfolding settle
  after_committed plan s =
      let batches = batches_for s.outbox (map (λ (e : PlanEntry). e.number) plan) in
      let t = record s { outbox = defer s.outbox batches } in
      if ltb 0 t.coordinator.depth
      then (
        returned tt,
        record t { coordinator = enqueue_after_commit_callback t.coordinator env.callback },
      )
      else settle batches t

  -- The `catch` after the executor.
  unfoldable pub fail_save : {A : Type 0} → ℕ → M A
  unfolding attempted_all roll_back_acceptance restore_generated_values undo notify_failed
      rethrow_first
  fail_save error = do
    _ ← capture (env.mapped error)
    _ ← λ (s : Session).
        attempted_all env
          ((if s.acceptance then roll_back_acceptance else pure tt)
            ∷ restore_generated_values env
            ∷ undo env Part.writes
            ∷ [])
          s
    _ ← notify_failed env env.interceptors
    rethrow_first env

  -- The first `try` of `run`.
  unfoldable pub prepare : List PlanEntry → M (List PlanEntry)
  prepare preview =
      try_catch
        (do plan ← notify_saving env env.interceptors preview; _ ← call env validated; pure plan)
        (λ e. capture e >> attempted_all env (undo env Part.writes ∷ []) >> rethrow_first env)

  unfoldable pub run_prepared : List PlanEntry → M ℕ
  run_prepared [] = do
    _ ← attempted_all env (undo env Part.writes ∷ [])
    _ ← throw_failures env
    pure 0
  run_prepared (e ∷ plan) = do
    n ← try_catch (execute env (e ∷ plan) before_commit) fail_save
    _ ← λ (s : Session).
        if s.acceptance then (returned tt, s) else (thrown (env.made not_accepted), s)
    _ ← after_committed (e ∷ plan)
    pure n

  -- `UnitOfWorkSaver.run`
  unfoldable pub run_save : List PlanEntry → M ℕ
  run_save preview = do plan ← prepare preview; run_prepared plan

  -- `saveChanges` of db-context-unit-of-work.ts, after the plan is built, and from there. A plan
  -- that fails to build leaves no writes.
  unfoldable pub save_plan : List PlanEntry → M ℕ
  save_plan [] = do _ ← attempted env (undo env Part.writes); _ ← throw_failures env; pure 0
  save_plan (e ∷ rest) = do
    _ ← modify (λ s. record s { save_in_progress = true })
    n ← run_save (e ∷ rest)
    _ ← throw_failures env
    pure n

  unfoldable pub attempt_save : M ℕ
  attempt_save = do
    _ ← call env planned
    plan ← λ (s : Session).
        (returned (env.built_plan s.log), record s { standing = stand Part.writes true s.standing })
    save_plan plan

  -- What stands is of this save.
  abbrev pub begun : Session → Session
  begun s = record s {
    restoration = new_scope;
    acceptance = false;
    standing = nothing_standing;
    committed = false;
  }

  -- The test of `saveInProgress`, and the `finally` block.
  abbrev pub unless_running : Bool → Session → Outcome ℕ ℕ × Session → Outcome ℕ ℕ × Session
  unless_running true s (r, t) = (thrown (env.made save_running), s)
  unless_running false s (r, t) = (r, record t { save_in_progress = false })

  -- The argument is what `assertContextUsable` or the abort signal throws, if they do.
  unfoldable pub save_changes : Option ℕ → M ℕ
  save_changes (some error) s = (thrown error, s)
  save_changes none s =
      unless_running s.save_in_progress s
        (try_catch attempt_save (λ e. capture e >> rethrow_first env) (begun s))
