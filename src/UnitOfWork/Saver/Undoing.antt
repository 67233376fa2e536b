-- ===== src/UnitOfWork/Saver/Undoing.antt =====
-- What a failed save undoes: every part whose changes stand, before the failure is thrown.
use entitykit.Common.{
  ◌⊎◌, ℕ, ◌≡◌, refl, arith, Bool, true, false, not, ◌&&◌, ◌||◌, List, [], ◌∷◌, if◌then◌else◌,
  Outcome, returned, thrown,
}
use entitykit.Restoration.{capture_primary, RestorationScope, record_failure}
use entitykit.UnitOfWork.Saver.{
  rethrow_first, notify_failed, restore_generated_values, roll_back_acceptance, fail_save,
}
use entitykit.UnitOfWork.Session.{
  failed, Interceptor, Part, Environment, Session, M, pure, call, undo, attempted, recorded,
  attempted_all,
}
use entitykit.UnitOfWork.Lifecycle.{swallow, notify_failed, rethrow_first}
use entitykit.UnitOfWork.Executor.{restore_generated_values}
use entitykit.UnitOfWork.Session.Rules.{Ends-if, Ends, Ends-continue, Ends-recover, Ends-state}

-- Nothing of the save is accepted, and its writes stand.
abbrev pub IsReady : Session → Type 0
IsReady s =
    (s.committed ≡ false)
    × (s.acceptance ≡ false)
    × (s.standing.versions ≡ false)
    × (s.standing.tracker ≡ false)
    × (s.standing.writes ≡ true)
    × (s.standing.links ≡ false)

-- No part has changes of the save, and the provider has not reported a commit.
abbrev pub IsUndone : Session → Type 0
IsUndone s =
    (s.committed ≡ false)
    × (s.standing.versions ≡ false)
    × (s.standing.tracker ≡ false)
    × (s.standing.writes ≡ false)
    × (s.standing.links ≡ false)
    × (s.standing.values ≡ false)

abbrev pub IsAccepted : Session → Type 0
IsAccepted s =
    (s.acceptance ≡ true)
    × (s.standing.versions ≡ true)
    × (s.standing.tracker ≡ true)
    × (s.standing.writes ≡ true)
    × (s.standing.links ≡ true)

-- The provider has reported its commit, and every part is accepted.
abbrev pub IsKept : Session → Type 0
IsKept s = (s.committed ≡ true) × IsAccepted s

-- What the `catch` after the executor undoes.
abbrev pub IsOpen : Session → Type 0
IsOpen s =
    (s.committed ≡ false)
    × ((s.acceptance
          || (not s.standing.versions
              && not s.standing.tracker
              && not s.standing.links
              && (s.hydrator || not s.standing.values)))
        ≡ true)

-- What an action's failure changes is no part of these predicates.
abbrev IgnoresScope : (Session → Type 0) → Type 0
IgnoresScope P = (s : Session) (r : RestorationScope) → P s → P (record s { restoration = r })

-- Kept with everything, or undone with nothing.
abbrev pub IsSettled : Session → Type 0
IsSettled s = IsKept s ⊎ IsUndone s

module _ (env : Environment) where
  recorded_keeps :
      (P : Session → Type 0) (r : Outcome ℕ (Unit {0}) × Session)
      → IgnoresScope P
      → P (r.1)
      → P ((recorded env r).1)
  recorded_keeps P (returned a, s) c h = h
  recorded_keeps P (thrown e, s) c h = c s (record_failure env.inspect env.fuel s.restoration e) h

  pub attempted_keeps :
      (P : Session → Type 0) (a : M (Unit {0})) (s : Session)
      → IgnoresScope P
      → P ((a s).1)
      → P ((attempted env a s).1)
  unfolding attempted
  attempted_keeps P a s c h = recorded_keeps P (a s) c h

  -- What stands when the acceptance is rolled back, or there is none.
  abbrev IsRolledBack : Session → Type 0
  IsRolledBack s =
      (s.committed ≡ false)
      × (s.standing.versions ≡ false)
      × (s.standing.tracker ≡ false)
      × (s.standing.links ≡ false)
      × ((s.hydrator || not s.standing.values) ≡ true)

  roll_back_acceptance-RolledBack :
      (s : Session) → s.committed ≡ false → IsRolledBack ((roll_back_acceptance env s).1)
  unfolding roll_back_acceptance undo call
  roll_back_acceptance-RolledBack s h = ground (arith, h)

  first_action-RolledBack :
      (b : Bool) (s : Session)
      → s.acceptance ≡ b
      → IsOpen s
      → IsRolledBack (((if b then roll_back_acceptance env else pure tt) s).1)
  first_action-RolledBack true s q (c, o) = roll_back_acceptance-RolledBack s c
  first_action-RolledBack false s q (c, o) = ground (arith, c, o, q)

  -- As `IsUndone`, but for the writes.
  abbrev IsAlmostUndone : Session → Type 0
  IsAlmostUndone s =
      (s.committed ≡ false)
      × (s.standing.versions ≡ false)
      × (s.standing.tracker ≡ false)
      × (s.standing.links ≡ false)
      × (s.standing.values ≡ false)

  second_action-AlmostUndone :
      (s : Session) → IsRolledBack s → IsAlmostUndone ((restore_generated_values env s).1)
  unfolding restore_generated_values undo call
  second_action-AlmostUndone s h = ground (arith, h)

  third_action-IsUndone : (s : Session) → IsAlmostUndone s → IsUndone ((undo env Part.writes s).1)
  unfolding undo call
  third_action-IsUndone s h = ground (arith, h)

  pub swallowed :
      (P : Session → Type 0) (m : M (Unit {0})) (s : Session)
      → P ((m s).1)
      → Ends (λ a. P) P (swallow m s)
  swallowed P m s h =
      Ends-recover (λ a. P) P P (m s) (λ e. pure tt) (Ends-state P (m s) h) (λ e t k. k)

  notify_failed-IsUndone :
      (is : List Interceptor) (s : Session)
      → IsUndone s
      → Ends (λ a. IsUndone) IsUndone (notify_failed env is s)
  unfolding notify_failed call
  notify_failed-IsUndone [] s h = h
  notify_failed-IsUndone (i ∷ is) s h =
      Ends-continue (λ a. IsUndone) (λ a. IsUndone) IsUndone
        ((if i.has_failed then swallow (call env (failed i.number)) else pure tt) s)
        (λ _. notify_failed env is)
        (Ends-if (λ a. IsUndone) IsUndone i.has_failed (swallow (call env (failed i.number)))
          (pure tt) s (swallowed IsUndone (call env (failed i.number)) s h) h)
        (λ a t k. notify_failed-IsUndone is t k)

  rethrow_first-throws :
      (s : Session) → IsUndone s → Ends {A = ℕ} (λ a t. ⊥) IsUndone (rethrow_first env s)
  unfolding rethrow_first
  rethrow_first-throws s h = h

  pub fail_save-IsUndone :
      (e : ℕ) (s : Session) → IsOpen s → Ends {A = ℕ} (λ a t. ⊥) IsUndone (fail_save env e s)
  unfolding fail_save attempted_all
  fail_save-IsUndone e s h =
      let t1 =
        (attempted env (if s.acceptance then roll_back_acceptance env else pure tt)
          (record s { restoration = capture_primary s.restoration (env.mapped e) })).1 in
      let h1 : IsRolledBack t1 =
        attempted_keeps IsRolledBack (if s.acceptance then roll_back_acceptance env else pure tt)
          (record s { restoration = capture_primary s.restoration (env.mapped e) }) (λ s r k. k)
          (first_action-RolledBack s.acceptance
            (record s { restoration = capture_primary s.restoration (env.mapped e) }) refl h) in
      let t2 = (attempted env (restore_generated_values env) t1).1 in
      let h2 : IsAlmostUndone t2 =
        attempted_keeps IsAlmostUndone (restore_generated_values env) t1 (λ s r k. k)
          (second_action-AlmostUndone t1 h1) in
      let t3 = (attempted env (undo env Part.writes) t2).1 in
      let h3 : IsUndone t3 =
        attempted_keeps IsUndone (undo env Part.writes) t2 (λ s r k. k)
          (third_action-IsUndone t2 h2) in
      Ends-continue (λ a. IsUndone) (λ a t. ⊥) IsUndone (notify_failed env env.interceptors t3)
        (λ _. rethrow_first env) (notify_failed-IsUndone env.interceptors t3 h3)
        (λ a t k. rethrow_first-throws t k)
