-- ===== src/Storage/Retry.antt =====
-- packages/core/src/storage/data-source-retry.ts, and the loop of `executeWithRetry` in
-- entity-kit-data-source.ts. A number of the options is an integer, lies strictly between two
-- integers, or is not finite. A backoff delay is computed for an integral factor.
pub mod Policy
pub mod Attempts
use mathlib.Core.List.{reverse}
use entitykit.Common.{
  ℕ, zero, suc, ◌+◌, ◌*◌, ◌^◌, ◌-◌, ◌≤◌, ◌<◌, min, Bool, true, false, not, ◌&&◌, ◌||◌, Option, none,
  some, List, [], ◌∷◌, if◌then◌else◌, ◌==◌, nat_eq, ltb, or_default, ℤ, pos, negsuc, Outcome,
  returned, thrown, ◌>>=◌, ◌>>◌, ◌≡◌, ◌⊎◌, inl, inr, refl, ap, arith, Bool-cases, length,
}
use entitykit.Storage.Errors.{DatabaseError, canceled, no_result, is_transaction_outcome_unknown}

pub data Number : Type 0 where
  whole : ℤ → Number
  -- Above the integer, and below the next one.
  above_whole : ℤ → Number
  not_finite : Number

pub record RetryPolicyOptions : Type 0 where
  pub max_attempts : Number
  pub initial_delay_ms : Option Number
  pub max_delay_ms : Option Number
  pub backoff_factor : Option Number
  pub jitter : Option Bool
  pub should_retry : Option (DatabaseError → Bool)

pub record ResolvedRetryPolicy : Type 0 where
  pub max_attempts : ℕ
  pub initial_delay_ms : ℕ
  pub max_delay_ms : ℕ
  pub backoff_factor : Number
  pub jitter : Bool
  pub should_retry : DatabaseError → Bool

pub data PolicyFailure : Type 0 where
  not_positive not_natural factor_below_one maximum_below_initial : PolicyFailure

unfoldable pub assert_positive_integer : Number → Outcome PolicyFailure ℕ
assert_positive_integer (Number.whole (pos (suc n))) = returned (suc n)
assert_positive_integer _ = thrown PolicyFailure.not_positive

unfoldable pub assert_non_negative_integer : Number → Outcome PolicyFailure ℕ
assert_non_negative_integer (Number.whole (pos n)) = returned n
assert_non_negative_integer _ = thrown PolicyFailure.not_natural

-- `!Number.isFinite(backoffFactor) || backoffFactor < 1`
unfoldable pub is_bad_factor : Number → Bool
is_bad_factor (Number.whole (pos n)) = ltb n 1
is_bad_factor (Number.whole (negsuc n)) = true
is_bad_factor (Number.above_whole (pos n)) = ltb n 1
is_bad_factor (Number.above_whole (negsuc n)) = true
is_bad_factor Number.not_finite = true

abbrev pub default_options : RetryPolicyOptions
default_options = record {
  max_attempts = Number.whole (pos 1);
  initial_delay_ms = none;
  max_delay_ms = none;
  backoff_factor = none;
  jitter = none;
  should_retry = none;
}

unfoldable pub resolve_retry_policy :
    Option RetryPolicyOptions
    → Option (DatabaseError → Bool)
    → Outcome PolicyFailure ResolvedRetryPolicy
unfolding assert_positive_integer assert_non_negative_integer is_bad_factor
resolve_retry_policy configured provider_classifier =
    let policy = or_default configured default_options in
    let factor = or_default policy.backoff_factor (Number.whole (pos 2)) in
    do
      attempts ← assert_positive_integer policy.max_attempts
      initial ←
          assert_non_negative_integer (or_default policy.initial_delay_ms (Number.whole (pos 100)))
      maximum ←
          assert_non_negative_integer (or_default policy.max_delay_ms (Number.whole (pos 5000)))
      if is_bad_factor factor
          then thrown PolicyFailure.factor_below_one
          else if ltb maximum initial
          then thrown PolicyFailure.maximum_below_initial
          else returned (record {
            max_attempts = attempts;
            initial_delay_ms = initial;
            max_delay_ms = maximum;
            backoff_factor = factor;
            jitter = or_default policy.jitter true;
            should_retry =
                or_default policy.should_retry (or_default provider_classifier (λ _. false));
          })

-- `draw n` is `Math.floor(Math.random() * n)`.
unfoldable pub retry_delay_ms : (ℕ → ℕ) → ResolvedRetryPolicy → ℕ → ℕ → ℕ
retry_delay_ms draw policy factor failed_attempt =
    let exponential =
      min policy.max_delay_ms (policy.initial_delay_ms * factor ^ (failed_attempt - 1)) in
    if policy.jitter then draw (exponential + 1) else exponential

module _ {R : Type 0} (max_attempts : ℕ) (should_retry : DatabaseError → Bool)
    (operation : ℕ → Outcome DatabaseError R) (aborted_before aborted_in_delay : ℕ → Bool) where
  -- Whether the loop throws the error of an attempt, in place of a delay.
  unfoldable pub gives_up : ℕ → DatabaseError → Bool
  gives_up attempt error =
      is_transaction_outcome_unknown error || (attempt == max_attempts || not (should_retry error))

  -- The loop from `attempt` on, with `left` attempts up to `max_attempts`: the attempts that ran,
  -- and the outcome.
  unfoldable pub attempts_from : ℕ → ℕ → List ℕ × Outcome DatabaseError R
  unfolding gives_up
  attempts_from attempt zero = ([], thrown DatabaseError.no_result)
  attempts_from attempt (suc left) =
      let (ran, result) = attempts_from (suc attempt) left in
      if aborted_before attempt
      then ([], thrown DatabaseError.canceled)
      else elim (operation attempt) [
        | returned r ↦ (attempt ∷ [], returned r)
        | thrown error ↦
            if gives_up attempt error
            then (attempt ∷ [], thrown error)
            else if aborted_in_delay attempt
            then (attempt ∷ [], thrown DatabaseError.canceled)
            else (attempt ∷ ran, result)
      ]

  unfoldable pub execute_with_retry : List ℕ × Outcome DatabaseError R
  unfolding attempts_from
  execute_with_retry = attempts_from 1 max_attempts
