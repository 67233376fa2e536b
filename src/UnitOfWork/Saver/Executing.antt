-- ===== src/UnitOfWork/Saver/Executing.antt =====
-- The execution of a plan in the provider's transaction keeps its changes or leaves them to undo.
use entitykit.Common.{
  ℕ, refl, arith, true, List, [], ◌∷◌, if◌then◌else◌, ◌==◌, nat_eq, Outcome, returned, thrown,
}
use entitykit.UnitOfWork.Session.{
  PlanEntry, Environment, Session, M, ◌>>=◌, ◌>>◌, pure, throw, try_catch, note, call, built,
  queried, propagated, began_transaction, committed_transaction, rolled_back, began_save,
  reconciled,
}
use entitykit.UnitOfWork.Session.Rules.{
  Ends, Ends-continue, Ends-recover, Ends-weaken, Ends-state, Ends-if,
}
use entitykit.UnitOfWork.Executor.{
  counted, then_released, propagate, query, ensure_affected_rows, hydrate, run_entry, run_plan,
  transaction, execute,
}
use entitykit.UnitOfWork.Saver.{before_commit}
use entitykit.UnitOfWork.Saver.Undoing.{IsReady, IsKept, IsOpen}
use entitykit.UnitOfWork.Saver.Accepting.{
  IsRunning, IsPrepared, Running-Open, call-Ends, before_commit-Ends,
}

module _ (env : Environment) where
  propagate-Running :
      (e : PlanEntry) (s : Session)
      → IsRunning s
      → Ends (λ a. IsRunning) IsRunning (propagate env e s)
  unfolding propagate call
  propagate-Running e s h =
      Ends-if (λ a. IsRunning) IsRunning e.propagates_keys
        (if e.has_persisted then call env (propagated e.number) else throw _) (pure tt) s
        (Ends-if (λ a. IsRunning) IsRunning e.has_persisted (call env (propagated e.number))
          (throw _) s
          (call-Ends env IsRunning IsRunning (propagated e.number) s (λ l. h) (λ t k. k)) h)
        h

  ensure-Running :
      (e : PlanEntry) (rows : ℕ) (s : Session)
      → IsRunning s
      → Ends (λ a. IsRunning) IsRunning (ensure_affected_rows env e rows s)
  unfolding ensure_affected_rows
  ensure-Running e rows s h =
      Ends-if (λ a. IsRunning) IsRunning e.skip_affected_rows_check (pure tt) _ s h
        (Ends-if (λ a. IsRunning) IsRunning (rows == _) (pure tt) (throw _) s h h)

  query-Running :
      (e : PlanEntry) (s : Session) → IsRunning s → Ends (λ a. IsRunning) IsRunning (query env e s)
  unfolding query call
  query-Running e s h =
      Ends-continue (λ a. IsRunning) (λ a. IsRunning) IsRunning (call env (queried e.number) s) _
        (call-Ends env IsRunning IsRunning (queried e.number) s (λ l. h) (λ t k. k)) (λ a t k. k)

  hydrate-Running :
      (e : PlanEntry) (s : Session)
      → IsRunning s
      → Ends (λ a. IsRunning) IsRunning (hydrate env e s)
  unfolding hydrate call
  hydrate-Running e s h = Ends-state IsRunning (hydrate env e s) h

  run_entry-Running :
      (e : PlanEntry) (s : Session)
      → IsRunning s
      → Ends (λ a. IsRunning) IsRunning (run_entry env e s)
  unfolding run_entry call
  run_entry-Running e s h =
      Ends-continue (λ a. IsRunning) (λ a. IsRunning) IsRunning (propagate env e s) _
        (propagate-Running e s h)
        λ _ s1 h1.
          Ends-continue (λ a. IsRunning) (λ a. IsRunning) IsRunning (call env (built e.number) s1) _
            (call-Ends env IsRunning IsRunning (built e.number) s1 (λ l. h1) (λ t k. k))
            λ _ s2 h2.
              Ends-continue (λ a. IsRunning) (λ a. IsRunning) IsRunning (query env e s2) _
                (query-Running e s2 h2)
                λ rows s3 h3.
                  Ends-continue (λ a. IsRunning) (λ a. IsRunning) IsRunning
                    (ensure_affected_rows env e rows s3) _ (ensure-Running e rows s3 h3)
                    λ _ s4 h4. hydrate-Running e s4 h4

  run_plan-Running :
      (plan : List PlanEntry) (n : ℕ) (s : Session)
      → IsRunning s
      → Ends (λ a. IsRunning) IsRunning (run_plan env plan n s)
  unfolding run_plan
  run_plan-Running [] n s h = h
  run_plan-Running (e ∷ plan) n s h =
      Ends-continue (λ a. IsRunning) (λ a. IsRunning) IsRunning (run_entry env e s) _
        (run_entry-Running e s h) λ _ t k. run_plan-Running plan (counted e n) t k

  work-Ends :
      (plan : List PlanEntry) (s : Session)
      → IsRunning s
      → Ends
          (λ n. IsPrepared)
          IsOpen
          ((do n ← run_plan env plan 0; _ ← before_commit env; pure n) s)
  work-Ends plan s h =
      Ends-continue (λ n. IsRunning) (λ n. IsPrepared) IsOpen (run_plan env plan 0 s)
        (λ n. before_commit env >> pure n)
        (Ends-weaken (λ n. IsRunning) (λ n. IsRunning) IsRunning IsOpen (run_plan env plan 0 s)
          (run_plan-Running plan 0 s h) (λ n t k. k) Running-Open)
        λ n t k.
          Ends-continue (λ _. IsPrepared) (λ n. IsPrepared) IsOpen (before_commit env t)
            (λ _. pure n) (before_commit-Ends env t k) (λ _ u l. l)

  Prepared-Open : (s : Session) → IsPrepared s → IsOpen s
  Prepared-Open s h = ground (arith, h)

  transaction-Ends :
      (work : M ℕ) (s : Session)
      → IsRunning s
      → ((t : Session) → IsRunning t → Ends (λ n. IsPrepared) IsOpen (work t))
      → Ends (λ n. IsKept) IsOpen (transaction env work s)
  unfolding transaction
  transaction-Ends work s h w =
      Ends-continue (λ a. IsRunning) (λ n. IsKept) IsOpen (call env began_transaction s) _
        (call-Ends env IsRunning IsOpen began_transaction s (λ l. h) Running-Open)
        λ _ s1 h1.
          Ends-continue (λ n. IsPrepared) (λ n. IsKept) IsOpen
            (try_catch work
              (λ e. note rolled_back >> λ (s : Session). (thrown (env.rethrown s.log e), s)) s1)
            _ (Ends-recover (λ n. IsPrepared) IsOpen IsOpen (work s1) _ (w s1 h1) (λ e t k. k))
            λ n s2 h2.
              Ends-continue (λ a. IsPrepared) (λ n. IsKept) IsOpen
                (call env committed_transaction s2) _
                (call-Ends env IsPrepared IsOpen committed_transaction s2 (λ l. h2) Prepared-Open)
                λ _ s3 h3. (refl, h3.1)

  released-Ends :
      (r : Outcome ℕ ℕ × Session)
      → Ends (λ n. IsKept) IsOpen r
      → Ends (λ n. IsKept) IsOpen (then_released r)
  released-Ends (returned n, s) h = h
  released-Ends (thrown e, s) h = h

  pub execute-Ends :
      (plan : List PlanEntry) (s : Session)
      → IsReady s
      → Ends (λ n. IsKept) IsOpen (execute env plan (before_commit env) s)
  unfolding execute
  execute-Ends plan s h =
      let s0 = record s { hydrator = true } in
      Ends-continue (λ a. IsRunning) (λ n. IsKept) IsOpen (call env began_save s0) _
        (call-Ends env IsRunning IsOpen began_save s0 (λ l. (refl, h)) Running-Open)
        λ _ s1 h1. released-Ends _ (
          Ends-continue (λ n. IsKept) (λ n. IsKept) IsOpen
            (transaction env (do n ← run_plan env plan 0; _ ← before_commit env; pure n) s1)
            (λ n. note reconciled >> pure n)
            (transaction-Ends (do n ← run_plan env plan 0; _ ← before_commit env; pure n) s1 h1
              (work-Ends plan))
            (λ n t k. k))
