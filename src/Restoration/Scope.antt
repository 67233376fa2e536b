-- ===== src/Restoration/Scope.antt =====
-- A restoration scope runs every action, throws the first failure, and marks its context once.
use entitykit.Common.{
  ℕ, ◌≡◌, ◌∙◌, refl, Bool, true, false, Option, none, some, List, [], ◌∷◌, ◌++◌, append-nil,
  append_assoc,
}
use entitykit.Restoration.{
  Inspected, Recorded, append_flattened, or_uninspectable, append_restoration_failure,
  restoration_failure_from, RestorationScope, RestorationError, capture_primary, Action,
  record_failure, attempt, attempt_all, mark, poison_if_needed, primary_error, rethrow_primary,
}

rethrown :
    (fs : List Recorded) (primary : Option ℕ) (poisoned : Bool) (marked : List RestorationError)
    (p : ℕ)
    → primary ≡ some p
    → ((rethrow_primary
          (record { failures = fs; primary = primary; poisoned = poisoned; marked = marked })).1
        ≡ primary_error p)
      × (rethrow_primary
            (rethrow_primary
              (record { failures = fs; primary = primary; poisoned = poisoned; marked = marked })).0
          ≡ rethrow_primary
              (record { failures = fs; primary = primary; poisoned = poisoned; marked = marked }))
unfolding rethrow_primary poison_if_needed restoration_failure_from mark
rethrown fs none poisoned marked p h = cc
rethrown [] (some q) poisoned marked p h = (cc, refl)
rethrown (r ∷ []) (some q) true marked p h = (cc, refl)
rethrown (r ∷ []) (some q) false marked p h = (cc, refl)
rethrown (r ∷ t ∷ rs) (some q) true marked p h = (cc, refl)
rethrown (r ∷ t ∷ rs) (some q) false marked p h = (cc, refl)

captured : (s : RestorationScope) (p q : ℕ) → s.primary ≡ some p → capture_primary s q ≡ s
unfolding capture_primary
captured s p q h = rw h refl

module _ (inspect : ℕ → Inspected) (fuel : ℕ) where
  -- What the actions throw, flattened, in their order.
  abbrev pub thrown_by : List Action → List Recorded
  thrown_by [] = []
  thrown_by (none ∷ actions) = thrown_by actions
  thrown_by (some e ∷ actions) =
      or_uninspectable inspect (append_flattened inspect fuel [] e) e ++ thrown_by actions

  -- Every action runs: the scope has what each of them throws, and is otherwise as it was.
  pub attempt_all-failures :
      (s : RestorationScope) (actions : List Action)
      → attempt_all inspect fuel s actions ≡ record s { failures = s.failures ++ thrown_by actions }
  unfolding attempt_all attempt record_failure append_restoration_failure
  attempt_all-failures s [] = rw (append-nil s.failures) refl
  attempt_all-failures s (none ∷ actions) = attempt_all-failures s actions
  attempt_all-failures s (some e ∷ actions) =
      let recorded = or_uninspectable inspect (append_flattened inspect fuel [] e) e in
      attempt_all-failures (record s { failures = s.failures ++ recorded }) actions
      ∙ rw (append_assoc s.failures recorded (thrown_by actions)) refl

  -- Whatever actions run after a primary failure is captured, and whatever is captured later, that
  -- failure is the one rethrown; rethrowing it again marks nothing more.
  pub rethrow_primary-first :
      (s : RestorationScope) (p q : ℕ) (actions : List Action)
      → s.primary ≡ some p
      → ((rethrow_primary (attempt_all inspect fuel (capture_primary s q) actions)).1
          ≡ primary_error p)
        × ((rethrow_primary
              (rethrow_primary (attempt_all inspect fuel (capture_primary s q) actions)).0)
            ≡ rethrow_primary (attempt_all inspect fuel (capture_primary s q) actions))
  rethrow_primary-first s p q actions h =
      rw (captured s p q h, attempt_all-failures s actions)
        (rethrown (s.failures ++ thrown_by actions) s.primary s.poisoned s.marked p h)
