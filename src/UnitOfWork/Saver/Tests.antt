-- ===== src/UnitOfWork/Saver/Tests.antt =====
-- Saves of two entries, in an environment whose calls throw by choice.
use entitykit.Common.{
  ℕ, ◌≡◌, refl, true, false, Option, none, some, List, [], ◌∷◌, returned, thrown,
}
use entitykit.Restoration.{
  not_aggregate, new_scope, throw_if_failed, rethrow_primary, capture_primary,
}
use entitykit.UnitOfWork.Session.{
  PlanEntry, Event, committed_transaction, Environment, Session, nothing_standing, stand, Part,
}
use entitykit.UnitOfWork.Lifecycle.{
  rethrow_first, throw_failures, notify_saving, notify_failed, notify_saved,
}
use entitykit.UnitOfWork.Executor.{
  execute, run_plan, run_entry, transaction, accept_generated_values, restore_generated_values,
}
use entitykit.UnitOfWork.Saver.{
  save_changes, attempt_save, save_plan, run_save, prepare, run_prepared, after_committed, settle,
  fail_save, before_commit, accept_state, roll_back_acceptance,
}

abbrev entry_of : ℕ → Option ℕ → PlanEntry
entry_of n expected = record {
  number = n;
  propagates_keys = false;
  has_persisted = true;
  skip_affected_rows_check = false;
  expected_affected_rows = expected;
  is_system_generated = false;
  affected_entity_count = none;
}

abbrev two_entries : List PlanEntry
two_entries = entry_of 1 none ∷ entry_of 2 none ∷ []

abbrev fails_at_commit : List Event → Event → Option ℕ
fails_at_commit log committed_transaction = some 7
fails_at_commit log event = none

abbrev succeeds : List Event → Event → Option ℕ
succeeds log event = none

abbrev environment : (List Event → Event → Option ℕ) → Environment
environment raises = record {
  inspect = λ e. not_aggregate;
  fuel = 1;
  reference = λ e. 100;
  made = λ e. 200;
  mapped = λ e. e;
  raises = raises;
  rethrown = λ log e. e;
  row_count = λ log n. 1;
  rebuilt_plan = λ log. two_entries;
  built_plan = λ log. two_entries;
  callback = 1;
  interceptors = [];
  has_outbox = false;
}

abbrev idle : Session
idle = record {
  save_in_progress = false;
  restoration = new_scope;
  hydrator = false;
  acceptance = false;
  standing = nothing_standing;
  committed = false;
  outbox = record { batches_by_plan_entry = []; deferred_by_entity = [] };
  coordinator = record { depth = 0; after_commit_callbacks = []; log = [] };
  log = [];
}

abbrev ready : Session
ready = record idle { standing = stand Part.writes true nothing_standing }

saved_two : (save_changes (environment succeeds) none idle).0 ≡ returned 2
unfolding save_changes attempt_save save_plan run_save prepare run_prepared execute run_plan
    run_entry transaction before_commit accept_state after_committed settle accept_generated_values
    throw_failures notify_saving notify_saved throw_if_failed
saved_two = refl

failed_at_commit : (save_changes (environment fails_at_commit) none idle).0 ≡ thrown 7
unfolding save_changes attempt_save save_plan run_save prepare run_prepared execute run_plan
    run_entry transaction before_commit accept_state fail_save roll_back_acceptance
    accept_generated_values restore_generated_values rethrow_first notify_saving notify_failed
    rethrow_primary capture_primary
failed_at_commit = refl
