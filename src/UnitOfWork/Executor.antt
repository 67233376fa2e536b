-- ===== src/UnitOfWork/Executor.antt =====
-- `SavePlanExecutor` of packages/core/src/core/unit-of-work/save-plan-executor.ts.
use entitykit.Common.{
  ℕ, ◌+◌, true, false, Option, none, some, List, [], ◌∷◌, ◌++◌, if◌then◌else◌, ◌==◌, nat_eq,
  Outcome, returned, thrown,
}
use entitykit.UnitOfWork.Session.{
  PlanEntry, Part, began_save, released_save, began_transaction, committed_transaction, rolled_back,
  reconciled, propagated, built, queried, hydrated, accepted, no_snapshot, concurrency, Environment,
  stand, Session, M, ◌>>=◌, ◌>>◌, pure, throw, try_catch, modify, note, call, undo,
}

abbrev pub or_one : Option ℕ → ℕ
or_one none = 1
or_one (some n) = n

-- `affectedEntities` after the entry.
abbrev pub counted : PlanEntry → ℕ → ℕ
counted e n = if e.is_system_generated then n else n + or_one e.affected_entity_count

-- `finally { releaseSaveLock(); }`
abbrev pub then_released : {A : Type 0} → Outcome ℕ A × Session → Outcome ℕ A × Session
then_released (r, s) = (r, record s { log = s.log ++ released_save ∷ [] })

module _ (env : Environment) where
  -- One entry in `runPlan`.
  unfoldable pub propagate : PlanEntry → M (Unit {0})
  unfolding call
  propagate e =
      if e.propagates_keys
      then if e.has_persisted
        then call env (propagated e.number)
        else throw (env.made (no_snapshot e.number))
      else pure tt

  unfoldable pub query : PlanEntry → M ℕ
  unfolding call
  query e = do
    _ ← call env (queried e.number)
    λ (s : Session). (returned (env.row_count s.log e.number), s)

  unfoldable pub ensure_affected_rows : PlanEntry → ℕ → M (Unit {0})
  ensure_affected_rows e rows =
      if e.skip_affected_rows_check
      then pure tt
      else if rows == or_one e.expected_affected_rows
      then pure tt
      else throw (env.made (concurrency e.number rows))

  -- Generated values are written to the entity, and stand until they are restored.
  unfoldable pub hydrate : PlanEntry → M (Unit {0})
  unfolding call
  hydrate e =
      modify (λ s. record s { standing = stand Part.values true s.standing })
      >> call env (hydrated e.number)

  unfoldable pub run_entry : PlanEntry → M (Unit {0})
  unfolding propagate query ensure_affected_rows hydrate call
  run_entry e = do
    _ ← propagate e
    _ ← call env (built e.number)
    rows ← query e
    _ ← ensure_affected_rows e rows
    hydrate e

  unfoldable pub run_plan : List PlanEntry → ℕ → M ℕ
  unfolding run_entry
  run_plan [] affected = pure affected
  run_plan (e ∷ plan) affected = run_entry e >> run_plan plan (counted e affected)

  -- The provider's `transaction`.
  unfoldable pub transaction : {A : Type 0} → M A → M A
  unfolding call
  transaction work = do
    _ ← call env began_transaction
    r ←
        try_catch work
          (λ e. note rolled_back >> λ (s : Session). (thrown (env.rethrown s.log e), s))
    _ ← call env committed_transaction
    _ ← modify (λ s. record s { committed = true })
    pure r

  -- `SavePlanExecutor.run`
  unfoldable pub execute : List PlanEntry → M (Unit {0}) → M ℕ
  execute plan before_commit s =
      (do
        _ ← modify (λ s. record s { hydrator = true })
        _ ← call env began_save
        λ (s : Session). then_released (
            (do
              n ← transaction (do n ← run_plan plan 0; _ ← before_commit; pure n)
              _ ← note reconciled
              pure n)
              s))
        s

  unfoldable pub accept_generated_values : M (Unit {0})
  unfolding call
  accept_generated_values s =
      if s.hydrator
      then (call env (accepted Part.values) >> modify (λ s. record s { hydrator = false })) s
      else (returned tt, s)

  unfoldable pub restore_generated_values : M (Unit {0})
  unfolding undo
  restore_generated_values s =
      if s.hydrator
      then (modify (λ s. record s { hydrator = false }) >> undo env Part.values) s
      else (returned tt, s)
