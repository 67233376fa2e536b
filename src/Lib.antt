-- ===== src/Lib.antt =====
-- Verification of EntityKit's core, packages/core/src: an object-relational mapper that tracks
-- entities, saves them in an order that their relationships allow, inside transactions of a
-- connection that a data source leases, and updates databases by migrations.
--
-- SavePlan is the order of a save. Heap is `BinaryMinHeap` (push and pop) and Topology is
-- `stableTopologicalOrder` and `takeRemaining` of core/save-plan/stable-topological-order.ts;
-- Entries is `orderSaveEntries` of core/save-plan/order-entries.ts with
-- `addOneToOneDisplacementEdges` of core/save-plan/one-to-one-ordering.ts, which builds the graph
-- that Topology orders. Entries are numbers; a comparison is the sign of a callback's result.
--
-- Tracking.Identity is `TrackedIdentityMap` of tracking/tracked-identity-map.ts and the assertions
-- of tracking/tracked-identity-invariants.ts. Its state is the map from keys to entries and the
-- map from entries to keys. Where an operation changes the maps before it can throw, it gives the
-- maps that it leaves beside its outcome.
--
-- UnitOfWork.Coordinator is `TransactionCoordinator` of core/transaction-coordinator.ts. The work
-- of a transaction is a script of enqueued callbacks and nested transactions, each of which the
-- provider may fail to commit; Scopes describes its effect without the coordinator's state.
--
-- UnitOfWork.Saver is `UnitOfWorkSaver.run` of core/unit-of-work-saver.ts with `saveChanges` of
-- core/db-context-unit-of-work.ts, `TrackedSaveState.accept` and `acceptSaveState` of
-- core/unit-of-work/tracked-save-state.ts and save-state-acceptor.ts; UnitOfWork.Executor is
-- core/unit-of-work/save-plan-executor.ts and UnitOfWork.Lifecycle
-- core/unit-of-work/save-lifecycle.ts. They are computations on the state of UnitOfWork.Session,
-- which may throw. What they call (the provider, the interceptors, the tracker and the other parts
-- of the tracked state) answers from the log of the calls made before, and may throw anywhere.
-- `standing` and `committed` record what the calls have done and no code reads them but for
-- `tracker` and `links`, which stand for the variables that `acceptSaveState` sets. A part that
-- throws while it accepts has no changes; the capture of generated relationships, the
-- reconciliation and diagnostics do not throw.
--
-- Storage.Guard is storage/exclusive-operation-guard.ts. A scope is its place in the list of all
-- scopes, tokens are places, and the store of a call is an argument, so that the steps of any
-- number of guards may be interleaved in any order. Tasks has these steps. Storage.Connection is
-- storage/guarded-database-connection.ts, which uses the guard: its methods run scripts of awaited
-- calls, and Plain has the same methods without the guard.
--
-- Storage.Enclosing is storage/enclosing-transaction-state.ts, Storage.Errors is
-- storage/transaction-outcome.ts, Storage.Retry is storage/data-source-retry.ts with the loop of
-- `executeWithRetry`, and Storage.DataSource is storage/entity-kit-data-source.ts with
-- storage/data-source-connection-lease.ts, whose calls are the steps of a relation on the data
-- source, its leases and its running operations.
--
-- Migrations.Range is migrations/migration-range.ts; Migrations.Plan is
-- migrations/runner/history-validation.ts and migrations/runner/migration-update-plan.ts, which
-- uses the range; Migrations.Executor is migrations/runner/migration-executor.ts;
-- Migrations.Update is migrations/runner/migration-update-runner.ts and
-- migrations/runner/migration-update-lock.ts, which make the plan and execute it. A database
-- answers a call from the calls made before it.
--
-- Migrations.Inverse is migrations/model-diff-operation-inverse.ts with
-- migrations/model-diff-reverse-column.ts and `reverseRebuild` of
-- migrations/model-diff-sqlite-rebuild.ts. Migrations.Inlining is
-- migrations/model-diff-foreign-key-inlining.ts on the operations of Inverse.
-- Migrations.TableOrder is migrations/migration-table-order.ts, for tables given by their physical
-- keys. UnitOfWork.Outbox is `OutboxEventTracker` of core/outbox-event-tracker.ts.
--
-- Restoration is restoration-failure-inspection.ts, `restorationFailureFrom` of
-- restoration-actions.ts (its `runRestorationActions` is in UnitOfWork.Session) and
-- `RestorationScope` of restoration-scope.ts: what is thrown while the state of a context is
-- restored, flattened and recorded beside the failure that comes first.
--
-- Sql.Placeholders is sql/sql-placeholder-scanner.ts and sql/sql-placeholder-context.ts.
--
-- Common has what the parts share: Boolean tests and equality as an instance (Tests), lists over
-- native numbers (Lists), maps and sets in insertion order (Maps), strings as UTF-16 units
-- (Texts), signed counters (Int), and calls that return or throw (Outcomes).
--
-- Fuel. The loops of the heap move to a parent or a child, so the length of the array is enough;
-- the walk of the topological order deletes an entry in each round, so one more than the number of
-- entries is enough, and that it never runs out is proved. The main loop of the placeholder scan
-- moves forward in each turn, so the length of the text is enough, which is proved too. Tables are
-- ordered one in each round, so their number is enough. The flattening of failures descends into
-- each aggregate once on a path, so one more than the number of aggregates is enough; a finite
-- stack, on which the source records the failure as uninspectable after what it has pushed, is
-- less fuel. The search for the current scope visits each scope at most once, so one more than
-- their number is enough, as is proved. All other loops are structural.
--
-- Not modelled: the building of SQL, queries, metadata, materialization, introspection, the
-- command line, diagnostics and the drivers. The collation `localeCompare`, the checksum of a
-- migration, the detection of destructive operations, the resolution of a relationship's
-- principal, the Unicode classes of regular expressions and the answers of databases are
-- arguments. What reading a failure gives and what an action throws are arguments. Error texts are
-- constructors. A retry delay is computed for integral factors only.
pub mod Common
pub mod Migrations
pub mod SavePlan
pub mod Sql
pub mod Storage
pub mod Tracking
pub mod UnitOfWork
pub mod Restoration
