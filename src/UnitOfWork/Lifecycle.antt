-- ===== src/UnitOfWork/Lifecycle.antt =====
-- The observers of a save: `SaveLifecycle` of packages/core/src/core/unit-of-work/save-lifecycle.ts
-- up to `afterCommitted`, and what the restoration scope throws.
use entitykit.Common.{ℕ, List, [], ◌∷◌, if◌then◌else◌, nat_eq, Outcome, returned, thrown}
use entitykit.Restoration.{
  capture_primary, rethrow_primary, ScopeFailure, no_primary, primary_error, restoration,
  throw_if_failed,
}
use entitykit.UnitOfWork.Outbox.{OutboxEventBatch, release}
use entitykit.UnitOfWork.Session.{
  PlanEntry, Interceptor, saving, saved, failed, rebuilt, cleared, no_primary_captured, Environment,
  Session, M, ◌>>=◌, ◌>>◌, pure, try_catch, modify, call,
}

abbrev pub swallow : M (Unit {0}) → M (Unit {0})
swallow m = try_catch m (λ e. pure tt)

abbrev pub capture : ℕ → M (Unit {0})
capture error = modify (λ s. record s { restoration = capture_primary s.restoration error })

module _ (env : Environment) where
  -- The object that `rethrowPrimary` or `throwIfFailed` throws.
  abbrev pub scope_error : ScopeFailure → ℕ
  scope_error no_primary = env.made no_primary_captured
  scope_error (primary_error p) = p
  scope_error (restoration e) = env.reference e

  unfoldable pub rethrow_first : {A : Type 0} → M A
  rethrow_first s =
      let (scope, failure) = rethrow_primary s.restoration in
      (thrown (scope_error failure), record s { restoration = scope })

  abbrev pub thrown_if : Outcome ScopeFailure (Unit {0}) → Outcome ℕ (Unit {0})
  thrown_if (returned t) = returned t
  thrown_if (thrown f) = thrown (scope_error f)

  unfoldable pub throw_failures : M (Unit {0})
  throw_failures s =
      let (scope, result) = throw_if_failed s.restoration in
      (thrown_if result, record s { restoration = scope })

  -- One interceptor in `SaveLifecycle.notifySaving`.
  unfoldable pub observe_saving : ℕ → M (List PlanEntry)
  unfolding call
  observe_saving interceptor = do
    _ ← call env (saving interceptor)
    _ ← call env rebuilt
    λ (s : Session). (returned (env.rebuilt_plan s.log), s)

  unfoldable pub notify_saving : List Interceptor → List PlanEntry → M (List PlanEntry)
  unfolding observe_saving
  notify_saving [] plan = pure plan
  notify_saving (i ∷ is) plan =
      (if i.has_saving then observe_saving i.number else pure plan) >>= notify_saving is

  unfoldable pub notify_failed : List Interceptor → M (Unit {0})
  unfolding call
  notify_failed [] = pure tt
  notify_failed (i ∷ is) =
      (if i.has_failed then swallow (call env (failed i.number)) else pure tt) >> notify_failed is

  unfoldable pub notify_saved : List Interceptor → M (Unit {0})
  unfolding call
  notify_saved [] = pure tt
  notify_saved (i ∷ is) =
      (if i.has_saved then swallow (call env (saved i.number)) else pure tt) >> notify_saved is

  unfoldable pub clear_outbox_events : List OutboxEventBatch → M (Unit {0})
  unfolding call
  clear_outbox_events [] = pure tt
  clear_outbox_events (b ∷ batches) =
      swallow (
        call env (cleared b.entity)
        >> modify (λ s. record s { outbox = release s.outbox (b ∷ []) }))
      >> clear_outbox_events batches
