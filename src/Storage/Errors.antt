-- ===== src/Storage/Errors.antt =====
-- packages/core/src/storage/transaction-outcome.ts, and the errors of database-errors.ts that
-- the storage layer tells apart. A number stands for the object's identity.
use entitykit.Common.{ℕ, Bool, true, false, Option, none, some, nat_eq}

pub data DatabaseError : Type 0 where
  outcome_unknown : ℕ → DatabaseError
  cleanup_failed : ℕ → DatabaseError → DatabaseError
  savepoint_failed : ℕ → DatabaseError
  provider_failed : ℕ → DatabaseError
  canceled : DatabaseError
  other_error : ℕ → DatabaseError
  -- A thrown value that is not an `Error`.
  thrown_value : ℕ → DatabaseError
  source_disposed : DatabaseError
  still_active : ℕ → ℕ → DatabaseError
  no_result : DatabaseError
  concurrent uninitialized no_streaming : DatabaseError

unfoldable pub find_transaction_outcome_unknown : DatabaseError → Option ℕ
find_transaction_outcome_unknown (DatabaseError.outcome_unknown n) = some n
find_transaction_outcome_unknown (DatabaseError.cleanup_failed n primary) =
    find_transaction_outcome_unknown primary
find_transaction_outcome_unknown _ = none

unfoldable pub is_transaction_outcome_unknown : DatabaseError → Bool
unfolding find_transaction_outcome_unknown
is_transaction_outcome_unknown error = elim (find_transaction_outcome_unknown error) [
  | none ↦ false
  | some n ↦ true
]

-- `compromisesEnclosingTransaction`
unfoldable pub compromises_enclosing_transaction : DatabaseError → Bool
compromises_enclosing_transaction (DatabaseError.cleanup_failed n primary) = true
compromises_enclosing_transaction (DatabaseError.savepoint_failed n) = true
compromises_enclosing_transaction _ = false
