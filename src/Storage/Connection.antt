-- ===== src/Storage/Connection.antt =====
-- `GuardedDatabaseConnection` of packages/core/src/storage/guarded-database-connection.ts, whose
-- methods run in an operation of its guard. The connection that it wraps answers a call from the
-- calls made before it. The work of a transaction or a session is a script of further calls, each
-- of which is awaited, and whose failure the script may catch. What a call returns is not read.
pub mod Plain
pub mod Agreement
pub mod Guarding
pub mod Transparent
pub mod Latch
mod Tests
use entitykit.Common.{
  ℕ, Bool, true, false, Option, none, some, List, [], ◌∷◌, ◌++◌, if◌then◌else◌, nat_eq, Outcome,
  returned, thrown,
}
use entitykit.Storage.Errors.{
  DatabaseError, outcome_unknown, concurrent, uninitialized, no_streaming,
  find_transaction_outcome_unknown,
}
use entitykit.Storage.Guard.{
  Guards, joins, refused, starts, current_scope, begin_run, end_run, begin_query, end_query,
  begin_stream, end_stream,
}

pub data Event : Type 0 where
  checked validated : Event
  queried streamed : ℕ → Event
  began committed rolled_back : Event
  opened closed disposed : Event

-- The wrapped connection, with the signals of the operations.
pub record Driver : Type 0 where
  pub raises : List Event → Event → Option DatabaseError
  -- What its `transaction` throws after work that threw.
  pub rethrown : List Event → DatabaseError → DatabaseError
  pub streams : Bool
  pub has_session : Bool
  pub has_dispose : Bool

pub record Wire : Type 0 where
  pub unknown : Option ℕ
  pub log : List Event

pub record Connection : Type 0 where
  pub wire : Wire
  pub guards : Guards

abbrev pub Result : Type 0 → Type 0
Result S = Outcome DatabaseError (Unit {0}) × S

abbrev pub next : {S : Type 0} → Result S → (S → Result S) → Result S
next (returned t, s) k = k s
next (thrown e, s) k = (thrown e, s)

abbrev pub failing : Option DatabaseError → Outcome DatabaseError (Unit {0})
failing none = returned tt
failing (some e) = thrown e

-- A script goes on after a failure that it catches.
abbrev pub after : {S : Type 0} → Bool → Result S → (S → Result S) → Result S
after caught (returned t, s) k = k s
after true (thrown e, s) k = k s
after false (thrown e, s) k = (thrown e, s)

-- The parts that use no guard, on any state with a wire.
module _ {S : Type 0} (wire_of : S → Wire) (rewire : S → Wire → S) (driver : Driver) where
  unfoldable pub ask : Event → S → Result S
  ask event s = (
    failing (driver.raises (wire_of s).log event),
    rewire s (record { unknown = (wire_of s).unknown; log = (wire_of s).log ++ event ∷ [] }),
  )

  abbrev pub usable : Option ℕ → Outcome DatabaseError (Unit {0})
  usable none = returned tt
  usable (some n) = thrown (outcome_unknown n)

  unfoldable pub assert_usable : S → Result S
  assert_usable s = (usable (wire_of s).unknown, s)

  -- Work between two checks of the signal.
  unfoldable pub check_around : (S → Result S) → S → Result S
  check_around work s = next (next (ask checked s) work) (ask checked)

  -- The `catch` of `transaction`.
  abbrev pub latched : Result S → Result S
  latched (returned t, s) = (returned t, s)
  latched (thrown e, s) = (
    thrown e,
    rewire s (record { unknown = find_transaction_outcome_unknown e; log = (wire_of s).log }),
  )

  abbrev pub decided : Result S → Result S
  decided (returned t, s) = ask committed s
  decided (thrown e, s) = (
    thrown (driver.rethrown (wire_of s).log e),
    rewire s (record { unknown = (wire_of s).unknown; log = (wire_of s).log ++ rolled_back ∷ [] }),
  )

  -- `inner.transaction`
  unfoldable pub inner_transaction : (S → Result S) → S → Result S
  inner_transaction work s = next (ask began s) (λ s. decided (work s))

  abbrev pub closing : Result S → Result S
  closing (r, s) =
      (r, rewire s (record { unknown = (wire_of s).unknown; log = (wire_of s).log ++ closed ∷ [] }))

  -- `inner.session?.(work) ?? work()`
  unfoldable pub inner_session : (S → Result S) → S → Result S
  inner_session work s =
      if driver.has_session then next (ask opened s) (λ s. closing (work s)) else work s

  unfoldable pub inner_query : ℕ → S → Result S
  unfolding check_around ask
  inner_query n = check_around (ask (queried n))

  -- `createInnerStream`, once its rows are asked for.
  unfoldable pub inner_stream : ℕ → S → Result S
  inner_stream n s =
      next (assert_usable s)
        (λ s. if driver.streams then ask (streamed n) s else (thrown no_streaming, s))

  unfoldable pub inner_dispose : S → Result S
  inner_dispose s = if driver.has_dispose then ask disposed s else (returned tt, s)

abbrev pub connection_wire : Connection → Wire
connection_wire s = s.wire

abbrev pub with_wire : Connection → Wire → Connection
with_wire s w = record s { wire = w }

abbrev pub with_guards : Connection → Guards → Connection
with_guards s g = record s { guards = g }

-- A script of calls.
pub data Work : Type 0 where
  ends : Option DatabaseError → Work
  queries streams : ℕ → Bool → Work → Work
  transacts sessions : Work → Bool → Work → Work
  disposes : Bool → Work → Work

module _ (driver : Driver) (guard : ℕ) where
  abbrev pub run_ended : ℕ → Result Connection → Result Connection
  run_ended c (r, s) = (r, with_guards s (end_run s.guards guard c))

  abbrev pub query_ended : ℕ → Result Connection → Result Connection
  query_ended c (r, s) = (r, with_guards s (end_query s.guards c))

  abbrev pub stream_ended : ℕ → Result Connection → Result Connection
  stream_ended c (r, s) = (r, with_guards s (end_stream s.guards guard c))

  -- `run` of the guard: work gets the store that it runs in.
  unfoldable pub run :
      (Option ℕ → Connection → Result Connection) → Option ℕ → Connection → Result Connection
  run work store s = elim (begin_run s.guards guard store) [
    | joins c ↦ work store s
    | refused ↦ (thrown concurrent, s)
    | starts g c ↦ run_ended c (work (some c) (with_guards s g))
  ]

  unfoldable pub in_query : ℕ → (Connection → Result Connection) → Connection → Result Connection
  in_query c work s = elim (begin_query s.guards c) [
    | none ↦ (thrown concurrent, s)
    | some g ↦ query_ended c (work (with_guards s g))
  ]

  -- `runQuery` of the guard.
  unfoldable pub run_query :
      (Connection → Result Connection) → Option ℕ → Connection → Result Connection
  unfolding run in_query
  run_query work = run (λ store s. elim (current_scope s.guards guard store) [
    | none ↦ (thrown uninitialized, s)
    | some c ↦ in_query c work s
  ])

  -- `stream` of the guard, whose rows are all read. `begin_stream` joins no operation.
  unfoldable pub run_stream :
      (Connection → Result Connection) → Option ℕ → Connection → Result Connection
  unfolding in_query
  run_stream work store s = elim (current_scope s.guards guard store) [
    | some c ↦ in_query c work s
    | none ↦ elim (begin_stream s.guards guard) [
      | joins c ↦ work s
      | refused ↦ (thrown concurrent, s)
      | starts g c ↦ stream_ended c (work (with_guards s g))
    ]
  ]

  unfoldable pub query : ℕ → Option ℕ → Connection → Result Connection
  unfolding run_query
  query n store s =
      next (assert_usable connection_wire with_wire driver s)
        (run_query (inner_query connection_wire with_wire driver n) store)

  unfoldable pub stream : ℕ → Option ℕ → Connection → Result Connection
  unfolding run_stream
  stream n store s = next (assert_usable connection_wire with_wire driver s) (λ s.
      if driver.streams
      then next (ask connection_wire with_wire driver validated s)
          (run_stream (inner_stream connection_wire with_wire driver n) store)
      else (thrown no_streaming, s))

  unfoldable pub transaction :
      (Option ℕ → Connection → Result Connection) → Option ℕ → Connection → Result Connection
  unfolding run
  transaction work store s = next (assert_usable connection_wire with_wire driver s) (λ s.
      latched connection_wire with_wire driver (
        run
          (λ store.
            inner_transaction connection_wire with_wire driver
              (check_around connection_wire with_wire driver (work store)))
          store s))

  unfoldable pub session :
      (Option ℕ → Connection → Result Connection) → Option ℕ → Connection → Result Connection
  unfolding run
  session work store s = next (assert_usable connection_wire with_wire driver s) (
      run
        (λ store s.
          next (ask connection_wire with_wire driver checked s)
            (inner_session connection_wire with_wire driver (work store)))
        store)

  unfoldable pub dispose : Option ℕ → Connection → Result Connection
  unfolding run
  dispose = run (λ store. inner_dispose connection_wire with_wire driver)

  unfoldable pub run_work : Work → Option ℕ → Connection → Result Connection
  unfolding query stream transaction session dispose
  run_work (ends o) store s = (failing o, s)
  run_work (queries n caught w) store s = after caught (query n store s) (run_work w store)
  run_work (streams n caught w) store s = after caught (stream n store s) (run_work w store)
  run_work (transacts v caught w) store s =
      after caught (transaction (run_work v) store s) (run_work w store)
  run_work (sessions v caught w) store s =
      after caught (session (run_work v) store s) (run_work w store)
  run_work (disposes caught w) store s = after caught (dispose store s) (run_work w store)
