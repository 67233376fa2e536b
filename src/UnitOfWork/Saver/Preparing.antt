-- ===== src/UnitOfWork/Saver/Preparing.antt =====
-- The save up to its plan: nothing is accepted yet.
use entitykit.Common.{ℕ, ◌≡◌, arith, false, List, [], ◌∷◌, if◌then◌else◌, nat_eq}
use entitykit.Restoration.{capture_primary}
use entitykit.UnitOfWork.Session.{
  rebuilt, saving, PlanEntry, Interceptor, Part, Environment, Session, ◌>>◌, pure, call, undo,
  attempted, attempted_all,
}
use entitykit.UnitOfWork.Session.Rules.{Ends, Ends-continue, Ends-recover, Ends-state, Ends-if}
use entitykit.UnitOfWork.Lifecycle.{
  rethrow_first, observe_saving, notify_saving, throw_failures, capture,
}
use entitykit.UnitOfWork.Saver.{validated}
use entitykit.UnitOfWork.Saver.Undoing.{IsReady, IsUndone, attempted_keeps}
use entitykit.UnitOfWork.Saver.{prepare}
use entitykit.UnitOfWork.Saver.Accepting.{call-Ends}

module _ (env : Environment) where
  -- Calls, the outbox and the coordinator are no part of these predicates.
  pub undo_one-IsUndone :
      (s : Session)
      → IsReady s
      → s.standing.values ≡ false
      → IsUndone ((attempted env (undo env Part.writes) s).1)
  unfolding undo call
  undo_one-IsUndone s h v =
      attempted_keeps env IsUndone (undo env Part.writes) s (λ s r k. k) (ground (arith, h, v))

  pub undo_writes-IsUndone :
      (s : Session)
      → IsReady s
      → s.standing.values ≡ false
      → IsUndone ((attempted_all env (undo env Part.writes ∷ []) s).1)
  unfolding attempted_all
  undo_writes-IsUndone s h v = undo_one-IsUndone s h v

  pub throw_failures-IsUndone :
      (s : Session) → IsUndone s → Ends (λ a. IsUndone) IsUndone (throw_failures env s)
  unfolding throw_failures
  throw_failures-IsUndone s h = Ends-state IsUndone (throw_failures env s) h

  pub rethrow_first-IsUndone :
      {A : Type 0} (Q : A → Session → Type 0) (s : Session)
      → IsUndone s
      → Ends Q IsUndone (rethrow_first env s)
  unfolding rethrow_first
  rethrow_first-IsUndone Q s h = h

  abbrev pub IsReadyClean : Session → Type 0
  IsReadyClean s = IsReady s × (s.standing.values ≡ false)

  pub observe_saving-Ready :
      (i : ℕ) (s : Session)
      → IsReadyClean s
      → Ends (λ p. IsReadyClean) IsReadyClean (observe_saving env i s)
  unfolding observe_saving
  observe_saving-Ready i s h =
      Ends-continue (λ a. IsReadyClean) (λ p. IsReadyClean) IsReadyClean (call env (saving i) s) _
        (call-Ends env IsReadyClean IsReadyClean (saving i) s (λ l. h) (λ t k. k))
        λ _ s1 h1.
          Ends-continue (λ a. IsReadyClean) (λ p. IsReadyClean) IsReadyClean (call env rebuilt s1) _
            (call-Ends env IsReadyClean IsReadyClean rebuilt s1 (λ l. h1) (λ t k. k)) (λ _ t k. k)

  pub notify_saving-Ready :
      (is : List Interceptor) (plan : List PlanEntry) (s : Session)
      → IsReadyClean s
      → Ends (λ p. IsReadyClean) IsReadyClean (notify_saving env is plan s)
  unfolding notify_saving
  notify_saving-Ready [] plan s h = h
  notify_saving-Ready (i ∷ is) plan s h =
      Ends-continue (λ p. IsReadyClean) (λ p. IsReadyClean) IsReadyClean
        ((if i.has_saving then observe_saving env i.number else pure plan) s) (notify_saving env is)
        (Ends-if (λ p. IsReadyClean) IsReadyClean i.has_saving (observe_saving env i.number)
          (pure plan) s (observe_saving-Ready i.number s h) h)
        (λ p t k. notify_saving-Ready is p t k)

  pub refused-IsUndone :
      (e : ℕ) (s : Session)
      → IsReadyClean s
      → Ends {A = List PlanEntry}
          (λ p. IsReadyClean)
          IsUndone
          ((capture e >> attempted_all env (undo env Part.writes ∷ []) >> rethrow_first env) s)
  refused-IsUndone e s h =
      let c = record s { restoration = capture_primary s.restoration e } in
      Ends-continue {A = Unit {0}} {B = List PlanEntry} (λ a. IsUndone) (λ p. IsReadyClean) IsUndone
        (attempted_all env (undo env Part.writes ∷ []) c) (λ _. rethrow_first env)
        (Ends-state {A = Unit {0}} IsUndone (attempted_all env (undo env Part.writes ∷ []) c)
          (undo_writes-IsUndone c (h.0) (h.1)))
        (λ a t k. rethrow_first-IsUndone (λ p. IsReadyClean) t k)

  pub prepare-Ends :
      (preview : List PlanEntry) (s : Session)
      → IsReadyClean s
      → Ends (λ p. IsReadyClean) IsUndone (prepare env preview s)
  unfolding prepare
  prepare-Ends preview s h =
      Ends-recover (λ p. IsReadyClean) IsReadyClean IsUndone _ _
        (Ends-continue (λ p. IsReadyClean) (λ p. IsReadyClean) IsReadyClean
          (notify_saving env env.interceptors preview s) _
          (notify_saving-Ready env.interceptors preview s h)
          λ plan s1 h1.
            Ends-continue (λ a. IsReadyClean) (λ p. IsReadyClean) IsReadyClean
              (call env validated s1) (λ _. pure plan)
              (call-Ends env IsReadyClean IsReadyClean validated s1 (λ l. h1) (λ t k. k))
              (λ _ t k. k))
        refused-IsUndone
