-- ===== src/Storage/Retry/Attempts.antt =====
-- The attempts that `executeWithRetry` makes.
use entitykit.Common.{
  ℕ, suc, zero, ◌+◌, ◌≤◌, ◌<◌, Bool, true, false, Outcome, returned, thrown, ◌≡◌, refl, arith, List,
  [], ◌∷◌, nat_eq, ==_iff,
}
use entitykit.Storage.Errors.{canceled, DatabaseError, is_transaction_outcome_unknown}
use entitykit.Storage.Retry.{gives_up, attempts_from, execute_with_retry}

abbrev pub numbers_from : ℕ → ℕ → List ℕ
numbers_from n zero = []
numbers_from n (suc k) = n ∷ numbers_from (suc n) k

module _ {R : Type 0} (max_attempts : ℕ) (should_retry : DatabaseError → Bool)
    (operation : ℕ → Outcome DatabaseError R) (aborted_before aborted_in_delay : ℕ → Bool) where
  abbrev from : ℕ → ℕ → List ℕ × Outcome DatabaseError R
  from = attempts_from max_attempts should_retry operation aborted_before aborted_in_delay

  abbrev given_up : ℕ → DatabaseError → Bool
  given_up = gives_up max_attempts should_retry operation aborted_before aborted_in_delay

  -- What the loop does at an attempt.
  data Step (a left : ℕ) : Type 0 where
    not_made : from a (suc left) ≡ ([], thrown canceled) → aborted_before a ≡ true → Step a left
    final : from a (suc left) ≡ (a ∷ [], operation a) → aborted_before a ≡ false → Step a left
    in_delay :
        (e : DatabaseError)
        → from a (suc left) ≡ (a ∷ [], thrown canceled)
        → operation a ≡ thrown e
        → given_up a e ≡ false
        → aborted_in_delay a ≡ true
        → Step a left
    next :
        (e : DatabaseError)
        → from a (suc left) ≡ (a ∷ (from (suc a) left).0, (from (suc a) left).1)
        → operation a ≡ thrown e
        → given_up a e ≡ false
        → Step a left

  -- The attempt is made and fails, and the policy retries it.
  pub record IsRetried (attempt : ℕ) : Type 0 where
    pub error : DatabaseError
    pub fails : operation attempt ≡ thrown error
    pub known : is_transaction_outcome_unknown error ≡ false
    pub wanted : should_retry error ≡ true
    pub before : aborted_before attempt ≡ false
    pub delayed : aborted_in_delay attempt ≡ false

  from-reaches :
      (a left n t : ℕ) (r : R)
      → a + n ≡ t
      → a + left ≡ suc max_attempts
      → n < left
      → ((i : ℕ) → a ≤ i → i < t → IsRetried i)
      → aborted_before t ≡ false
      → operation t ≡ returned r
      → from a left ≡ (numbers_from a (suc n), returned r)
  unfolding attempts_from gives_up
  from-reaches a zero n t r q s l h b o = absurd (omega (arith, l))
  from-reaches a (suc left) zero t r q s l h b o =
      let same : (a ≡ t) = omega (arith, q) in rw ((rw (← same) at b), (rw (← same) at o)) refl
  from-reaches a (suc left) (suc n) t r q s l h b o =
      let now = h a (omega arith) (omega (arith, q)) in
      let more =
        from-reaches (suc a) left n t r (omega (arith, q)) (omega (arith, s)) (omega (arith, l))
          (λ i p. h i (omega (arith, p))) b o in
      let go : (given_up a now.error ≡ false) =
        ground (arith, now.known, now.wanted, ==_iff a max_attempts, s, l) in
      rw (now.before, now.fails, go, now.delayed, more) refl

  -- If the attempts before the n-th, of those allowed, fail and are retried, and the n-th returns,
  -- then exactly those attempts are made and the value is returned.
  pub execute_with_retry-reaches :
      (n : ℕ) (r : R)
      → suc n ≤ max_attempts
      → ((i : ℕ) → 1 ≤ i → i < 1 + n → IsRetried i)
      → aborted_before (1 + n) ≡ false
      → operation (1 + n) ≡ returned r
      → execute_with_retry max_attempts should_retry operation aborted_before aborted_in_delay
        ≡ (numbers_from 1 (suc n), returned r)
  unfolding execute_with_retry
  execute_with_retry-reaches n r l h b o =
      from-reaches 1 max_attempts n (1 + n) r refl (omega arith) (omega (arith, l)) h b o
