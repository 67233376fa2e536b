-- ===== src/Storage/Connection/Tests.antt =====
-- A connection whose root transaction has an unknown outcome.
use entitykit.Common.{
  ◌≡◌, refl, true, false, Option, none, some, List, [], ◌∷◌, nat_eq, get, put, remove, thrown,
}
use entitykit.Storage.Errors.{DatabaseError, outcome_unknown, find_transaction_outcome_unknown}
use entitykit.Storage.Guard.{
  find_scope, current_scope, active_parent, begin_run, end_run, begin_query, end_query,
}
use entitykit.Storage.Connection.{
  Event, checked, queried, began, committed, Driver, Connection, Work, ends, queries, transacts,
  ask, assert_usable, check_around, inner_transaction, inner_query, run, in_query, run_query, query,
  transaction, run_work,
}
use entitykit.Storage.Connection.Plain.{plain_work}
use entitykit.Storage.Connection.Transparent.{run_work-plain}

abbrev lost_at_commit : List Event → Event → Option DatabaseError
lost_at_commit log committed = some (outcome_unknown 5)
lost_at_commit log event = none

abbrev driver : Driver
driver = record {
  raises = lost_at_commit;
  rethrown = λ log e. e;
  streams = true;
  has_session = true;
  has_dispose = true;
}

abbrev connection : Connection
connection = record {
  wire = record { unknown = none; log = [] };
  guards = record { scopes = []; tokens = [] };
}

abbrev latched_connection : Connection
latched_connection = record {
  wire = record { unknown = some 5; log = [] };
  guards = record { scopes = []; tokens = [] };
}

-- A query in a transaction whose failure is caught, and a query after it.
abbrev script : Work
script = transacts (queries 1 false (ends none)) true (queries 2 false (ends none))

refused_after : (run_work driver 0 script none connection).0 ≡ thrown (outcome_unknown 5)
unfolding run_work transaction query run run_query in_query assert_usable inner_transaction
    check_around inner_query ask begin_run end_run begin_query end_query current_scope find_scope
    active_parent get put remove find_transaction_outcome_unknown
refused_after = refl

log_after :
    (((run_work driver 0 script none connection).1).wire).log
    ≡ began ∷ checked ∷ checked ∷ queried 1 ∷ checked ∷ checked ∷ committed ∷ []
unfolding run_work transaction query run run_query in_query assert_usable inner_transaction
    check_around inner_query ask begin_run end_run begin_query end_query current_scope find_scope
    active_parent get put remove find_transaction_outcome_unknown
log_after = refl

run_work-plain_example :
    ((run_work driver 0 script none connection).0 ≡ (plain_work driver script connection.wire).0)
    × (((run_work driver 0 script none connection).1).wire
        ≡ (plain_work driver script connection.wire).1)
    × (get (((run_work driver 0 script none connection).1).guards.tokens) 0 ≡ none)
unfolding get
run_work-plain_example = run_work-plain driver 0 script none connection refl
