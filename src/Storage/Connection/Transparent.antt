-- ===== src/Storage/Connection/Transparent.antt =====
-- Awaited work on a guarded connection does as on one without a guard.
use entitykit.Common.{ap, ℕ, ◌≡◌, refl, Option, none, some, nat_eq, get, returned, thrown}
use entitykit.Storage.Guard.{Guards}
use entitykit.Storage.Connection.{
  checked, validated, Driver, Connection, Wire, Result, failing, Work, ends, queries, streams,
  transacts, sessions, disposes, inner_dispose, query, stream, transaction, session, dispose,
  run_work,
}
use entitykit.Storage.Connection.Plain.{
  itself, replaced_by, plain_query, plain_stream, plain_transaction, plain_session, plain_work,
}
use entitykit.Storage.Connection.Agreement.{
  Agrees, Agrees-refl, Agrees-next, Agrees-after, Agrees-if, ask-Mirrors, assert_usable-Mirrors,
  check_around-Mirrors, inner_transaction-Mirrors, latched-Agrees, inner_session-Mirrors,
  inner_query-Mirrors, inner_stream-Mirrors, inner_dispose-Mirrors,
}
use entitykit.Storage.Connection.Guarding.{At, Works, run-Works, run_query-Works, run_stream-Works}

module _ (driver : Driver) (guard : ℕ) where
  query-Works : (n : ℕ) → Works driver guard (query driver guard n) (plain_query driver n)
  unfolding query plain_query
  query-Works n mode store s h =
      let P = At driver guard mode store in
      Agrees-next P P _ _ _ _ (assert_usable-Mirrors P driver s h)
        (run_query-Works driver guard _ _ (λ Q. inner_query-Mirrors Q driver n) mode store)

  stream-Works : (n : ℕ) → Works driver guard (stream driver guard n) (plain_stream driver n)
  unfolding stream plain_stream
  stream-Works n mode store s h =
      let P = At driver guard mode store in
      Agrees-next P P _ _ _ _ (assert_usable-Mirrors P driver s h) (λ t i.
        Agrees-if P driver driver.streams _ _ _ _
          (Agrees-next P P _ _ _ _ (ask-Mirrors P driver validated t i)
            (run_stream-Works driver guard _ _ (λ Q. inner_stream-Mirrors Q driver n) mode store))
          (Agrees-refl P P _ t i))

  transaction-Works :
      (f : Option ℕ → Connection → Result Connection) (k : Wire → Result Wire)
      → Works driver guard f k
      → Works driver guard (transaction driver guard f) (plain_transaction driver k)
  unfolding transaction plain_transaction
  transaction-Works f k m mode store s h =
      let P = At driver guard mode store in
      Agrees-next P P _ _ _ _ (assert_usable-Mirrors P driver s h) (λ t i.
        latched-Agrees P driver _ _ (
          run-Works driver guard _ _
            (λ c inner.
              inner_transaction-Mirrors (At driver guard (some c) inner) driver _ _ (
                check_around-Mirrors (At driver guard (some c) inner) driver _ _
                  (m (some c) inner)))
            mode store t i))

  session-Works :
      (f : Option ℕ → Connection → Result Connection) (k : Wire → Result Wire)
      → Works driver guard f k
      → Works driver guard (session driver guard f) (plain_session driver k)
  unfolding session plain_session
  session-Works f k m mode store s h =
      let P = At driver guard mode store in
      Agrees-next P P _ _ _ _ (assert_usable-Mirrors P driver s h) (
        run-Works driver guard _ _
          (λ c inner t i.
            let Q = At driver guard (some c) inner in
            Agrees-next Q Q _ _ _ _ (ask-Mirrors Q driver checked t i)
              (inner_session-Mirrors Q driver _ _ (m (some c) inner)))
          mode store)

  dispose-Works :
      Works driver guard (dispose driver guard) (inner_dispose itself replaced_by driver)
  unfolding dispose
  dispose-Works =
      run-Works driver guard _ _
        (λ c inner. inner_dispose-Mirrors (At driver guard (some c) inner) driver)

  work-Works : (w : Work) → Works driver guard (run_work driver guard w) (plain_work driver w)
  unfolding run_work plain_work
  work-Works (ends o) mode store s h =
      Agrees-refl (At driver guard mode store) (At driver guard mode store) (failing o) s h
  work-Works (queries n caught w) mode store s h =
      let P = At driver guard mode store in
      Agrees-after P P caught _ _ _ _ (query-Works n mode store s h) (work-Works w mode store)
  work-Works (streams n caught w) mode store s h =
      let P = At driver guard mode store in
      Agrees-after P P caught _ _ _ _ (stream-Works n mode store s h) (work-Works w mode store)
  work-Works (transacts v caught w) mode store s h =
      let P = At driver guard mode store in
      Agrees-after P P caught _ _ _ _
        (transaction-Works (run_work driver guard v) (plain_work driver v) (work-Works v) mode store
          s h)
        (work-Works w mode store)
  work-Works (sessions v caught w) mode store s h =
      let P = At driver guard mode store in
      Agrees-after P P caught _ _ _ _
        (session-Works (run_work driver guard v) (plain_work driver v) (work-Works v) mode store s
          h)
        (work-Works w mode store)
  work-Works (disposes caught w) mode store s h =
      let P = At driver guard mode store in
      Agrees-after P P caught _ _ _ _ (dispose-Works mode store s h) (work-Works w mode store)

  read_off :
      (P : Guards → Type 0) (r : Result Connection) (q : Result Wire)
      → Agrees P r q
      → (r.0 ≡ q.0) × ((r.1).wire ≡ q.1) × P (r.1).guards
  unfolding Agrees
  read_off P (returned t, s) (returned u, w) (p, h) = (refl, p, h)
  read_off P (returned t, s) (thrown f, w) h = absurd h
  read_off P (thrown e, s) (returned u, w) h = absurd h
  read_off P (thrown e, s) (thrown f, w) (p, q, h) = (ap thrown p, q, h)

  -- If no operation holds the guard, then a script of awaited queries, streams, transactions,
  -- sessions and disposals, nested in any way and with its failures caught or not, ends on the
  -- guarded connection as it does on the wrapped one behind the latch of an unknown outcome: the
  -- same is thrown and the wrapped connection is called in the same order. Afterwards no operation
  -- holds the guard.
  pub run_work-plain :
      (w : Work) (store : Option ℕ) (s : Connection)
      → get s.guards.tokens guard ≡ none
      → ((run_work driver guard w store s).0 ≡ (plain_work driver w s.wire).0)
        × (((run_work driver guard w store s).1).wire ≡ (plain_work driver w s.wire).1)
        × (get (((run_work driver guard w store s).1).guards.tokens) guard ≡ none)
  run_work-plain w store s h =
      read_off (At driver guard none store) _ _ (work-Works w none store s h)
