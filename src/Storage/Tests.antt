-- ===== src/Storage/Tests.antt =====
-- The storage layer on small inputs.
use entitykit.Common.{
  ℕ, suc, zero, ◌+◌, ◌≡◌, ◌≤◌, ◌<◌, inl, inr, refl, arith, Bool, true, false, if◌then◌else◌, nat_eq,
  none, some, [], ◌∷◌, In, Outcome, returned, thrown, pos, leb,
}
use entitykit.Storage.Errors.{
  DatabaseError, other_error, savepoint_failed, is_transaction_outcome_unknown,
}
use entitykit.Storage.Enclosing.{
  EnclosingState, Thrown, same, nested_failure, recovered, replay, run_root_work,
  run_root_work-unusable,
}
use entitykit.Storage.Retry.{
  whole, RetryPolicyOptions, ResolvedRetryPolicy, resolve_retry_policy, execute_with_retry,
}
use entitykit.Storage.Retry.Attempts.{numbers_from, IsRetried, execute_with_retry-reaches}
use entitykit.Storage.DataSource.{in_use, create_connection}
use entitykit.Storage.DataSource.Lifetime.{
  World, Reachable, initial, then_step, connect, IsCounted, start, Reachable-IsCounted,
}

abbrev objects : ℕ → DatabaseError
objects n = savepoint_failed n

abbrev broken : EnclosingState
broken = record { failure = some 7; recovered_failures = [] }

abbrev five : Outcome Thrown ℕ
five = returned 5

not_recovered : In (recovered 7) (nested_failure 8 ∷ []) → ⊥
not_recovered (inl e) = cc
not_recovered (inr i) = i

run_root_work-unusable_example :
    run_root_work objects (replay objects broken (nested_failure 8 ∷ [])) five ≡ thrown (same 7)
run_root_work-unusable_example =
    run_root_work-unusable objects broken (nested_failure 8 ∷ []) 7 five refl not_recovered

abbrev three_attempts : RetryPolicyOptions
three_attempts = record {
  max_attempts = whole (pos 3);
  initial_delay_ms = none;
  max_delay_ms = some (whole (pos 250));
  backoff_factor = none;
  jitter = some false;
  should_retry = none;
}

abbrev always : DatabaseError → Bool
always e = true

abbrev three : ResolvedRetryPolicy
three = record {
  max_attempts = 3;
  initial_delay_ms = 100;
  max_delay_ms = 250;
  backoff_factor = whole (pos 2);
  jitter = false;
  should_retry = always;
}

resolved : resolve_retry_policy (some three_attempts) (some always) ≡ returned three
unfolding resolve_retry_policy
resolved = refl

abbrev never : ℕ → Bool
never n = false

-- The first attempt fails, and the later ones return their number.
abbrev second_returns : ℕ → Outcome DatabaseError ℕ
second_returns n = if leb n 1 then thrown (other_error n) else returned n

ran : execute_with_retry 3 always second_returns never never ≡ (1 ∷ 2 ∷ [], returned 2)
unfolding execute_with_retry is_transaction_outcome_unknown
ran = refl

first-IsRetried : (i : ℕ) → 1 ≤ i → i < 1 + 1 → IsRetried 3 always second_returns never never i
unfolding is_transaction_outcome_unknown
first-IsRetried zero p q = absurd (omega (arith, p))
first-IsRetried (suc zero) p q = record {
  error = other_error 1;
  fails = refl;
  known = refl;
  wanted = refl;
  before = refl;
  delayed = refl;
}
first-IsRetried (suc (suc i)) p q = absurd (omega (arith, q))

execute_with_retry-reaches_example :
    execute_with_retry 3 always second_returns never never ≡ (numbers_from 1 2, returned 2)
execute_with_retry-reaches_example =
    execute_with_retry-reaches 3 always second_returns never never 1 2 (omega arith) first-IsRetried
      refl refl

abbrev one_lease : World
one_lease = record {
  source = record {
    active_leases = 1;
    active_operations = 0;
    disposed = false;
    dispose_started = false;
  };
  leases = in_use ∷ [];
  running = 0;
}

connected : Reachable one_lease
unfolding create_connection
connected = then_step initial (connect start (returned tt) one_lease.source refl)

Reachable-IsCounted_example : IsCounted one_lease
Reachable-IsCounted_example = Reachable-IsCounted connected
