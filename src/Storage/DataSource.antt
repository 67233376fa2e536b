-- ===== src/Storage/DataSource.antt =====
-- packages/core/src/storage/entity-kit-data-source.ts and data-source-connection-lease.ts: the
-- life of a data source, of its connection leases and of its retry operations. A call that waits
-- is two steps; what the guarded connection and the provider do is an argument.
pub mod Lifetime
use entitykit.Common.{
  ℕ, zero, suc, ◌+◌, ◌-◌, ◌≡◌, Bool, true, false, ◌||◌, Option, none, some, List, [], ◌∷◌, ◌++◌,
  if◌then◌else◌, ltb, get_elem?, set, Outcome, returned, thrown, ◌>>=◌,
}
use entitykit.Storage.Errors.{DatabaseError, source_disposed, still_active}

pub record DataSource : Type 0 where
  pub active_leases : ℕ
  pub active_operations : ℕ
  pub disposed : Bool
  -- `disposePromise` is set.
  pub dispose_started : Bool

abbrev pub new_data_source : DataSource
new_data_source = record {
  active_leases = 0;
  active_operations = 0;
  disposed = false;
  dispose_started = false;
}

unfoldable pub assert_active : DataSource → Outcome DatabaseError (Unit {0})
assert_active s = if s.disposed then thrown source_disposed else returned tt

-- `opens` tells what the provider does when it is asked for a connection.
unfoldable pub create_connection :
    DataSource → Outcome DatabaseError (Unit {0}) → Outcome DatabaseError DataSource
unfolding assert_active
create_connection s opens = do
  _ ← assert_active s
  _ ← opens
  returned (record {
    active_leases = s.active_leases + 1;
    active_operations = s.active_operations;
    disposed = s.disposed;
    dispose_started = s.dispose_started;
  })

-- The callback that a lease is given.
unfoldable pub release_lease : DataSource → DataSource
release_lease s = record {
  active_leases = s.active_leases - 1;
  active_operations = s.active_operations;
  disposed = s.disposed;
  dispose_started = s.dispose_started;
}

-- The start of `executeWithRetry`, and its `finally`.
unfoldable pub begin_operation : DataSource → Outcome DatabaseError DataSource
unfolding assert_active
begin_operation s = do
  _ ← assert_active s
  returned (record {
    active_leases = s.active_leases;
    active_operations = s.active_operations + 1;
    disposed = s.disposed;
    dispose_started = s.dispose_started;
  })

unfoldable pub end_operation : DataSource → DataSource
end_operation s = record {
  active_leases = s.active_leases;
  active_operations = s.active_operations - 1;
  disposed = s.disposed;
  dispose_started = s.dispose_started;
}

-- `dispose`, to where it waits; `starts` is false where the provider's `dispose` throws at once.
unfoldable pub dispose : DataSource → Bool → Outcome DatabaseError DataSource
dispose s starts =
    if s.dispose_started
    then returned s
    else if ltb 0 s.active_leases || ltb 0 s.active_operations
    then thrown (still_active s.active_leases s.active_operations)
    else returned (record {
      active_leases = s.active_leases;
      active_operations = s.active_operations;
      disposed = true;
      dispose_started = starts;
    })

-- A lease: in use, waiting for its connection's disposal, or released.
pub data Lease : Type 0 where
  in_use closing released : Lease

pub data LeaseFailure : Type 0 where
  lease_disposed operation_active : LeaseFailure

-- The guard of `query`, `stream`, `transaction` and `session`.
unfoldable pub assert_lease_active : Lease → Outcome LeaseFailure (Unit {0})
assert_lease_active in_use = returned tt
assert_lease_active _ = thrown lease_disposed

-- `dispose` of a lease, to where it waits.
unfoldable pub dispose_lease : Lease → Bool → Outcome LeaseFailure Lease
dispose_lease in_use operation_in_progress =
    if operation_in_progress then thrown operation_active else returned closing
dispose_lease closing operation_in_progress = returned closing
dispose_lease released operation_in_progress = returned released
