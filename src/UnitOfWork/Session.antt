-- ===== src/UnitOfWork/Session.antt =====
-- What the save of packages/core/src/core/unit-of-work-saver.ts and of unit-of-work/ works on: the
-- entries of its plan, the parts of the tracked state that a save changes, what it calls, and the
-- answers of its environment, each of which is given by the calls made before it. A thrown error
-- is its reference.
pub mod Rules
use entitykit.Common.{
  ℕ, Bool, true, false, Option, none, some, List, [], ◌∷◌, ◌++◌, Outcome, returned, thrown,
}
use entitykit.Restoration.{
  Inspected, Recorded, append_restoration_failure, RestorationError, restoration_failure_from,
  RestorationScope, record_failure,
}
use entitykit.UnitOfWork.Coordinator.{Coordinator}
use entitykit.UnitOfWork.Outbox.{Tracker}

-- `SavePlanEntry`, with what `savePlanExecution` has for it.
pub record PlanEntry : Type 0 where
  pub number : ℕ
  pub propagates_keys : Bool
  pub has_persisted : Bool
  pub skip_affected_rows_check : Bool
  pub expected_affected_rows : Option ℕ
  pub is_system_generated : Bool
  pub affected_entity_count : Option ℕ

pub record Interceptor : Type 0 where
  pub number : ℕ
  pub has_saving : Bool
  pub has_saved : Bool
  pub has_failed : Bool

pub data Part : Type 0 where
  versions tracker writes links values : Part

pub data Event : Type 0 where
  saving saved failed : ℕ → Event
  rebuilt validated : Event
  began_save released_save began_transaction committed_transaction rolled_back reconciled : Event
  propagated built queried hydrated : ℕ → Event
  accepted undone : Part → Event
  scanned planned settled_acceptance : Event
  cleared : ℕ → Event

-- The errors that the save itself makes.
pub data SaveError : Type 0 where
  no_snapshot : ℕ → SaveError
  concurrency : ℕ → ℕ → SaveError
  not_accepted no_primary_captured save_running : SaveError

pub record Environment : Type 0 where
  pub inspect : ℕ → Inspected
  pub fuel : ℕ
  -- The objects that are made for errors.
  pub reference : RestorationError → ℕ
  pub made : SaveError → ℕ
  -- `mapDatabaseProviderError`
  pub mapped : ℕ → ℕ
  -- What a call throws, if it does.
  pub raises : List Event → Event → Option ℕ
  -- What the provider throws after work that threw.
  pub rethrown : List Event → ℕ → ℕ
  pub row_count : List Event → ℕ → ℕ
  pub rebuilt_plan : List Event → List PlanEntry
  pub built_plan : List Event → List PlanEntry
  -- The number of the save's callback at the transaction coordinator.
  pub callback : ℕ
  pub interceptors : List Interceptor
  pub has_outbox : Bool

-- Which parts have changes of this save that nothing has asked them to undo.
pub record Standing : Type 0 where
  pub versions : Bool
  pub tracker : Bool
  pub writes : Bool
  pub links : Bool
  pub values : Bool

abbrev pub nothing_standing : Standing
nothing_standing = record {
  versions = false;
  tracker = false;
  writes = false;
  links = false;
  values = false;
}

abbrev pub stand : Part → Bool → Standing → Standing
stand Part.versions b p = record p { versions = b }
stand Part.tracker b p = record p { tracker = b }
stand Part.writes b p = record p { writes = b }
stand Part.links b p = record p { links = b }
stand Part.values b p = record p { values = b }

pub record Session : Type 0 where
  pub save_in_progress : Bool
  pub restoration : RestorationScope
  -- The executor's `generatedValues` is set.
  pub hydrator : Bool
  -- The saver's `acceptance` is set.
  pub acceptance : Bool
  pub standing : Standing
  -- The provider has reported its commit.
  pub committed : Bool
  pub outbox : Tracker
  pub coordinator : Coordinator
  pub log : List Event

-- A computation that may throw, and leaves a state either way.
abbrev pub M : Type 0 → Type 0
M A = Session → Outcome ℕ A × Session

abbrev pub continue_with :
    {A B : Type 0} → Outcome ℕ A × Session → (A → M B) → Outcome ℕ B × Session
continue_with (returned a, s) f = f a s
continue_with (thrown e, s) f = (thrown e, s)

infixl 5 ◌>>=◌ ◌>>◌
abbrev pub ◌>>=◌ : {A B : Type 0} → M A → (A → M B) → M B
◌>>=◌ m f s = continue_with (m s) f

abbrev pub ◌>>◌ : {B : Type 0} → M (Unit {0}) → M B → M B
◌>>◌ m k s = continue_with (m s) (λ _. k)

abbrev pub pure : {A : Type 0} → A → M A
pure a s = (returned a, s)

abbrev pub throw : {A : Type 0} → ℕ → M A
throw e s = (thrown e, s)

abbrev pub recover : {A : Type 0} → Outcome ℕ A × Session → (ℕ → M A) → Outcome ℕ A × Session
recover (returned a, s) handler = (returned a, s)
recover (thrown e, s) handler = handler e s

-- `try { … } catch (error) { … }`
abbrev pub try_catch : {A : Type 0} → M A → (ℕ → M A) → M A
try_catch m handler s = recover (m s) handler

abbrev pub modify : (Session → Session) → M (Unit {0})
modify f s = (returned tt, f s)

-- A call that cannot throw.
abbrev pub note : Event → M (Unit {0})
note event = modify (λ s. record s { log = s.log ++ event ∷ [] })

abbrev pub outcome_of : Option ℕ → Outcome ℕ (Unit {0})
outcome_of none = returned tt
outcome_of (some e) = thrown e

module _ (env : Environment) where
  unfoldable pub call : Event → M (Unit {0})
  call event s = (outcome_of (env.raises s.log event), record s { log = s.log ++ event ∷ [] })

  -- A part that throws while it accepts has no changes.
  unfoldable pub accept : Part → M (Unit {0})
  unfolding call
  accept part =
      call (accepted part) >> modify (λ s. record s { standing = stand part true s.standing })

  unfoldable pub undo : Part → M (Unit {0})
  unfolding call
  undo part =
      modify (λ s. record s { standing = stand part false s.standing }) >> call (undone part)

  abbrev pub recorded : Outcome ℕ (Unit {0}) × Session → Outcome ℕ (Unit {0}) × Session
  recorded (returned a, s) = (returned tt, s)
  recorded (thrown e, s) =
      (returned tt, record s { restoration = record_failure env.inspect env.fuel s.restoration e })

  -- `RestorationScope.attempt`
  unfoldable pub attempted : M (Unit {0}) → M (Unit {0})
  attempted action s = recorded (action s)

  unfoldable pub attempted_all : List (M (Unit {0})) → M (Unit {0})
  unfolding attempted
  attempted_all [] s = (returned tt, s)
  attempted_all (a ∷ actions) s = attempted_all actions ((attempted a s).1)

  abbrev pub gathered : List Recorded → Outcome ℕ (Unit {0}) × Session → List Recorded
  gathered failures (returned a, s) = failures
  gathered failures (thrown e, s) = append_restoration_failure env.inspect env.fuel failures e

  abbrev pub failing : Option RestorationError → Outcome ℕ (Unit {0})
  failing none = returned tt
  failing (some error) = thrown (env.reference error)

  -- `runRestorationActions`, with the failures so far.
  unfoldable pub run_actions : List (M (Unit {0})) → List Recorded → M (Unit {0})
  unfolding restoration_failure_from
  run_actions [] failures s = (failing (restoration_failure_from failures), s)
  run_actions (a ∷ actions) failures s = run_actions actions (gathered failures (a s)) ((a s).1)

  abbrev pub run_restoration_actions : List (M (Unit {0})) → M (Unit {0})
  run_restoration_actions actions = run_actions actions []
