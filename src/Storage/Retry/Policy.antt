-- ===== src/Storage/Retry/Policy.antt =====
-- The policy that is resolved, and its delays.
use entitykit.Common.{
  if◌then◌else◌, ◌*◌, ◌^◌, ◌-◌, inl, inr, inr, inl, ℕ, suc, zero, ◌+◌, ◌≤◌, Bool, false, Option,
  ltb, or_default, pos, negsuc, returned, thrown, ◌≡◌, arith, min, Bool-cases, >>=-eq-returned,
}
use entitykit.Storage.Errors.{DatabaseError}
use entitykit.Storage.Retry.{
  Number, whole, above_whole, not_finite, RetryPolicyOptions, ResolvedRetryPolicy, PolicyFailure,
  resolve_retry_policy, assert_positive_integer, assert_non_negative_integer, is_bad_factor,
  retry_delay_ms, default_options,
}

positive : (n : Number) (k : ℕ) → assert_positive_integer n ≡ returned k → 1 ≤ k
unfolding assert_positive_integer
positive (whole (pos zero)) k h = cc
positive (whole (pos (suc n))) k h = ground (arith, h)
positive (whole (negsuc n)) k h = cc
positive (above_whole z) k h = cc
positive not_finite k h = cc

built :
    (factor : Number) (initial maximum : ℕ) (built_policy policy : ResolvedRetryPolicy)
    → (if is_bad_factor factor
        then thrown PolicyFailure.factor_below_one
        else if ltb maximum initial
        then thrown PolicyFailure.maximum_below_initial
        else returned built_policy)
      ≡ returned policy
    → (is_bad_factor factor ≡ false) × (initial ≤ maximum) × (policy ≡ built_policy)
built factor initial maximum built_policy policy h = ground arith

-- A policy that is resolved makes an attempt, has a delay of at most its maximal one, and a
-- finite factor of at least one.
pub resolve_retry_policy-bounds :
    (configured : Option RetryPolicyOptions) (classifier : Option (DatabaseError → Bool))
    (policy : ResolvedRetryPolicy)
    → resolve_retry_policy configured classifier ≡ returned policy
    → (1 ≤ policy.max_attempts)
      × (policy.initial_delay_ms ≤ policy.max_delay_ms)
      × (is_bad_factor policy.backoff_factor ≡ false)
unfolding resolve_retry_policy
resolve_retry_policy-bounds configured classifier policy h =
    let options = or_default configured default_options in
    let (k, a, h1) = >>=-eq-returned (assert_positive_integer options.max_attempts) _ h in
    let (i, b, h2) =
      >>=-eq-returned
        (assert_non_negative_integer (or_default options.initial_delay_ms (whole (pos 100)))) _
        h1 in
    let (m, c, h3) =
      >>=-eq-returned
        (assert_non_negative_integer (or_default options.max_delay_ms (whole (pos 5000)))) _ h2 in
    let (q, r, e) = built (or_default options.backoff_factor (whole (pos 2))) i m _ policy h3 in
    (rw e (positive options.max_attempts k a, r, q))

-- If a draw below a positive bound stays below it, then a delay is at most the maximal one.
pub retry_delay_ms-bound :
    (draw : ℕ → ℕ) (policy : ResolvedRetryPolicy) (factor failed_attempt : ℕ)
    → ((n : ℕ) → draw (n + 1) ≤ n)
    → retry_delay_ms draw policy factor failed_attempt ≤ policy.max_delay_ms
unfolding retry_delay_ms
retry_delay_ms-bound draw policy factor failed_attempt h =
    let exponential =
      min policy.max_delay_ms (policy.initial_delay_ms * factor ^ (failed_attempt - 1)) in
    let d = h exponential in
    elim (Bool-cases policy.jitter) [ inl j ↦ rw j (omega (arith, d)) | inr j ↦ rw j (omega arith) ]
