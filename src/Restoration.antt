-- ===== src/Restoration.antt =====
-- packages/core/src/restoration-failure-inspection.ts, restoration-actions.ts and
-- restoration-scope.ts. A failure is its reference, and `inspect` is what reading it as an
-- `AggregateError` gives. Flattening has fuel in place of the stack; running out of it is the
-- failure that `appendRestorationFailure` catches.
pub mod Flatten
pub mod Scope
mod Tests
use entitykit.Common.{
  ℕ, zero, suc, Bool, true, false, Option, none, some, List, [], ◌∷◌, ◌++◌, if◌then◌else◌, ◌==◌,
  nat_eq, has, length, Outcome, returned, thrown,
}

pub data Inspected : Type 0 where
  inspection_throws not_aggregate : Inspected
  members_of : List ℕ → Inspected

pub data Shape : Type 0 where
  plain opaque : Shape
  aggregate : List ℕ → Shape

unfoldable pub inspect_failure : Inspected → Shape
inspect_failure inspection_throws = opaque
inspect_failure not_aggregate = plain
inspect_failure (members_of []) = plain
inspect_failure (members_of (m ∷ ms)) = aggregate (m ∷ ms)

-- A failure as it is recorded.
pub data Recorded : Type 0 where
  failure uninspectable : ℕ → Recorded

-- What is pushed, and whether the walk ends before the stack does.
abbrev pub Pushed : Type 0
Pushed = List Recorded × Bool

abbrev pub both : Pushed → Pushed → Pushed
both (xs, false) rest = (xs, false)
both (xs, true) (ys, ended) = (xs ++ ys, ended)

unfoldable pub append_each : (ℕ → Pushed) → List ℕ → Pushed
append_each flatten [] = ([], true)
append_each flatten (m ∷ ms) = both (flatten m) (append_each flatten ms)

module _ (inspect : ℕ → Inspected) where
  unfoldable pub append_flattened : ℕ → List ℕ → ℕ → Pushed
  unfolding append_each inspect_failure
  append_flattened zero visited f = ([], false)
  append_flattened (suc fuel) visited f =
      let nested = append_flattened fuel (f ∷ visited) in
      elim (inspect_failure (inspect f)) [
        | opaque ↦ (uninspectable f ∷ [], true)
        | plain ↦ (failure f ∷ [], true)
        | aggregate members ↦
            if has visited f then (failure f ∷ [], true) else append_each nested members
      ]

  abbrev pub or_uninspectable : Pushed → ℕ → List Recorded
  or_uninspectable (recorded, false) f = recorded ++ uninspectable f ∷ []
  or_uninspectable (recorded, true) f = recorded

  unfoldable pub append_restoration_failure : ℕ → List Recorded → ℕ → List Recorded
  unfolding append_flattened
  append_restoration_failure fuel target f =
      target ++ or_uninspectable (append_flattened fuel [] f) f

-- The error that stands for the recorded failures: one of them, or an `AggregateError` of all.
pub data RestorationError : Type 0 where
  one : Recorded → RestorationError
  many : List Recorded → RestorationError

unfoldable pub restoration_failure_from : List Recorded → Option RestorationError
restoration_failure_from [] = none
restoration_failure_from (r ∷ []) = some (one r)
restoration_failure_from (r ∷ s ∷ rs) = some (many (r ∷ s ∷ rs))

pub record RestorationScope : Type 0 where
  pub failures : List Recorded
  pub primary : Option ℕ
  pub poisoned : Bool
  -- The calls of `markRestorationFailure`.
  pub marked : List RestorationError

abbrev pub new_scope : RestorationScope
new_scope = record { failures = []; primary = none; poisoned = false; marked = [] }

unfoldable pub capture_primary : RestorationScope → ℕ → RestorationScope
capture_primary s error = elim s.primary [ none ↦ record s { primary = some error } | some p ↦ s ]

-- An action is what it throws, if it does.
abbrev pub Action : Type 0
Action = Option ℕ

module _ (inspect : ℕ → Inspected) (fuel : ℕ) where
  unfoldable pub record_failure : RestorationScope → ℕ → RestorationScope
  record_failure s error = record s {
    failures = append_restoration_failure inspect fuel s.failures error;
  }

  unfoldable pub attempt : RestorationScope → Action → RestorationScope
  unfolding record_failure
  attempt s none = s
  attempt s (some error) = record_failure s error

  unfoldable pub attempt_all : RestorationScope → List Action → RestorationScope
  unfolding attempt
  attempt_all s [] = s
  attempt_all s (a ∷ actions) = attempt_all (attempt s a) actions

unfoldable pub mark : RestorationScope → RestorationError → RestorationScope
mark s error = if s.poisoned then s else record {
  failures = s.failures;
  primary = s.primary;
  poisoned = true;
  marked = s.marked ++ error ∷ [];
}

-- `poisonIfNeeded`: the scope that it leaves, and the failure.
unfoldable pub poison_if_needed : RestorationScope → RestorationScope × Option RestorationError
unfolding mark restoration_failure_from
poison_if_needed s = elim (restoration_failure_from s.failures) [
  | none ↦ (s, none)
  | some error ↦ (mark s error, some error)
]

pub data ScopeFailure : Type 0 where
  no_primary : ScopeFailure
  primary_error : ℕ → ScopeFailure
  restoration : RestorationError → ScopeFailure

unfoldable pub rethrow_primary : RestorationScope → RestorationScope × ScopeFailure
unfolding poison_if_needed
rethrow_primary s = elim s.primary [
  | none ↦ (s, no_primary)
  | some p ↦ ((poison_if_needed s).0, primary_error p)
]

unfoldable pub throw_if_failed :
    RestorationScope → RestorationScope × Outcome ScopeFailure (Unit {0})
unfolding poison_if_needed
throw_if_failed s =
    let (t, error) = poison_if_needed s in
    elim error [ none ↦ (t, returned tt) | some e ↦ (t, thrown (restoration e)) ]
