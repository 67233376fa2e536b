-- ===== src/Restoration/Tests.antt =====
-- The restoration on an aggregate that contains itself.
use entitykit.Common.{
  ℕ, ◌≡◌, refl, arith, true, false, none, some, List, [], ◌∷◌, if◌then◌else◌, ◌==◌, nat_eq, has,
  ==_iff,
}
use entitykit.Restoration.{
  Inspected, members_of, not_aggregate, aggregate, inspect_failure, Recorded, failure,
  append_flattened, RestorationScope, Action, attempt_all, rethrow_primary, primary_error,
  capture_primary,
}
use entitykit.Restoration.Flatten.{append_flattened_ends}
use entitykit.Restoration.Scope.{rethrow_primary-first}

-- Failure 0 is an aggregate of itself and of 1.
abbrev knot : ℕ → Inspected
knot f = if f == 0 then members_of (0 ∷ 1 ∷ []) else not_aggregate

knot-listed :
    (f : ℕ) (ms : List ℕ) → inspect_failure (knot f) ≡ aggregate ms → has (0 ∷ []) f ≡ true
unfolding inspect_failure has
knot-listed f ms h = ground (arith, h, ==_iff f 0)

flattened : append_flattened knot 2 [] 0 ≡ (failure 0 ∷ failure 1 ∷ [], true)
unfolding append_flattened has
flattened = refl

append_flattened_ends_example : (r : List Recorded) × (append_flattened knot 2 [] 0 ≡ (r, true))
unfolding has
append_flattened_ends_example = append_flattened_ends knot (0 ∷ []) knot-listed 2 [] 0 (omega arith)

abbrev actions : List Action
actions = some 1 ∷ none ∷ some 0 ∷ []

abbrev captured : RestorationScope
captured = record { failures = []; primary = some 5; poisoned = false; marked = [] }

rethrow_primary-first_example :
    ((rethrow_primary (attempt_all knot 2 (capture_primary captured 6) actions)).1
      ≡ primary_error 5)
    × ((rethrow_primary
          (rethrow_primary (attempt_all knot 2 (capture_primary captured 6) actions)).0)
        ≡ rethrow_primary (attempt_all knot 2 (capture_primary captured 6) actions))
rethrow_primary-first_example = rethrow_primary-first knot 2 captured 5 6 actions refl
