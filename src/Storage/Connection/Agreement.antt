-- ===== src/Storage/Connection/Agreement.antt =====
-- When two computations, one on a connection and one on its wire, do the same.
use mathlib.Core.Path.{subst}
use entitykit.Common.{
  ℕ, ◌≡◌, refl, Bool, true, false, none, some, [], ◌∷◌, ◌++◌, if◌then◌else◌, nat_eq, Outcome,
  returned, thrown,
}
use entitykit.Storage.Errors.{DatabaseError}
use entitykit.Storage.Guard.{Guards}
use entitykit.Storage.Connection.{
  checked, Driver, Wire, Connection, Result, next, failing, after, ask, assert_usable, check_around,
  latched, inner_transaction, inner_session, inner_query, inner_stream, inner_dispose,
  connection_wire, with_wire, with_guards, Event,
}
use entitykit.Storage.Connection.Plain.{itself, replaced_by}
use entitykit.Storage.Connection.{
  decided, closing, connection_wire, with_wire, committed, began, opened, queried, streamed,
  disposed,
}

-- One outcome and one wire, with guards that satisfy a predicate.
unfoldable pub Agrees : (Guards → Type 0) → Result Connection → Result Wire → Type 0
Agrees P (returned t, s) (returned u, w) = (s.wire ≡ w) × P s.guards
Agrees P (returned t, s) (thrown f, w) = ⊥
Agrees P (thrown e, s) (returned u, w) = ⊥
Agrees P (thrown e, s) (thrown f, w) = (e ≡ f) × (s.wire ≡ w) × P s.guards

-- Work that does as `k`, from guards that satisfy a predicate.
abbrev pub Mirrors :
    (P Q : Guards → Type 0) → (Connection → Result Connection) → (Wire → Result Wire) → Type 0
Mirrors P Q f k = (s : Connection) → P s.guards → Agrees Q (f s) (k s.wire)

module _ (P Q : Guards → Type 0) where
  pub Agrees-refl :
      (o : Outcome DatabaseError (Unit {0})) (s : Connection)
      → P s.guards
      → Agrees P (o, s) (o, s.wire)
  unfolding Agrees
  Agrees-refl (returned t) s h = (refl, h)
  Agrees-refl (thrown e) s h = (refl, refl, h)

  pub Agrees-next :
      (r : Result Connection) (q : Result Wire) (f : Connection → Result Connection)
      (k : Wire → Result Wire)
      → Agrees P r q
      → Mirrors P P f k
      → Agrees P (next r f) (next q k)
  unfolding Agrees
  Agrees-next (returned t, s) (returned u, w) f k (e, h) m =
      subst (λ x. Agrees P (f s) (k x)) e (m s h)
  Agrees-next (returned t, s) (thrown g, w) f k h m = absurd h
  Agrees-next (thrown e, s) (returned u, w) f k h m = absurd h
  Agrees-next (thrown e, s) (thrown g, w) f k h m = h

  pub Agrees-after :
      (caught : Bool) (r : Result Connection) (q : Result Wire) (f : Connection → Result Connection)
      (k : Wire → Result Wire)
      → Agrees P r q
      → Mirrors P P f k
      → Agrees P (after caught r f) (after caught q k)
  unfolding Agrees
  Agrees-after caught (returned t, s) (returned u, w) f k (e, h) m =
      subst (λ x. Agrees P (f s) (k x)) e (m s h)
  Agrees-after caught (returned t, s) (thrown g, w) f k h m = absurd h
  Agrees-after caught (thrown e, s) (returned u, w) f k h m = absurd h
  Agrees-after true (thrown e, s) (thrown g, w) f k (p, q, h) m =
      subst (λ x. Agrees P (f s) (k x)) q (m s h)
  Agrees-after false (thrown e, s) (thrown g, w) f k h m = h

  -- What is done to the guards at the end.
  pub Agrees-finished :
      (r : Result Connection) (q : Result Wire) (change : Guards → Guards)
      → Agrees P r q
      → ((g : Guards) → P g → Q (change g))
      → Agrees Q (r.0, with_guards r.1 (change (r.1).guards)) q
  unfolding Agrees
  Agrees-finished (returned t, s) (returned u, w) change (e, h) m = (e, m s.guards h)
  Agrees-finished (returned t, s) (thrown g, w) change h m = absurd h
  Agrees-finished (thrown e, s) (returned u, w) change h m = absurd h
  Agrees-finished (thrown e, s) (thrown g, w) change (p, q, h) m = (p, q, m s.guards h)

-- The calls that use no guard.
module _ (P : Guards → Type 0) (driver : Driver) where
  pub ask-Mirrors :
      (event : Event)
      → Mirrors P P
          (ask connection_wire with_wire driver event)
          (ask itself replaced_by driver event)
  unfolding ask Agrees
  ask-Mirrors event s h =
      elim (driver.raises (s.wire).log event)
        as (λ o.
          Agrees P
            (
              failing o,
              with_wire s (record { unknown = (s.wire).unknown; log = (s.wire).log ++ event ∷ [] }),
            )
            (failing o, record { unknown = (s.wire).unknown; log = (s.wire).log ++ event ∷ [] })) [
              | none ↦ (refl, h)
              | some e ↦ (refl, refl, h)
            ]

  pub assert_usable-Mirrors :
      Mirrors P P
        (assert_usable connection_wire with_wire driver)
        (assert_usable itself replaced_by driver)
  unfolding assert_usable
  assert_usable-Mirrors s h = Agrees-refl P P _ s h

  pub check_around-Mirrors :
      (f : Connection → Result Connection) (k : Wire → Result Wire)
      → Mirrors P P f k
      → Mirrors P P
          (check_around connection_wire with_wire driver f)
          (check_around itself replaced_by driver k)
  unfolding check_around
  check_around-Mirrors f k m s h =
      Agrees-next P P _ _ _ _ (Agrees-next P P _ _ f k (ask-Mirrors checked s h) m)
        (ask-Mirrors checked)

  decided-Agrees :
      (r : Result Connection) (q : Result Wire)
      → Agrees P r q
      → Agrees P (decided connection_wire with_wire driver r) (decided itself replaced_by driver q)
  unfolding Agrees
  decided-Agrees (returned t, s) (returned u, w) (e, h) =
      subst
        (λ x.
          Agrees P (ask connection_wire with_wire driver committed s)
            (ask itself replaced_by driver committed x))
        e (ask-Mirrors committed s h)
  decided-Agrees (returned t, s) (thrown f, w) h = absurd h
  decided-Agrees (thrown e, s) (returned u, w) h = absurd h
  decided-Agrees (thrown e, s) (thrown f, w) (p, q, h) = (cc (p, q), cc q, h)

  pub inner_transaction-Mirrors :
      (f : Connection → Result Connection) (k : Wire → Result Wire)
      → Mirrors P P f k
      → Mirrors P P
          (inner_transaction connection_wire with_wire driver f)
          (inner_transaction itself replaced_by driver k)
  unfolding inner_transaction
  inner_transaction-Mirrors f k m s h =
      Agrees-next P P _ _ _ _ (ask-Mirrors began s h)
        (λ t i. decided-Agrees (f t) (k t.wire) (m t i))

  pub latched-Agrees :
      (r : Result Connection) (q : Result Wire)
      → Agrees P r q
      → Agrees P (latched connection_wire with_wire driver r) (latched itself replaced_by driver q)
  unfolding Agrees
  latched-Agrees (returned t, s) (returned u, w) h = h
  latched-Agrees (returned t, s) (thrown f, w) h = absurd h
  latched-Agrees (thrown e, s) (returned u, w) h = absurd h
  latched-Agrees (thrown e, s) (thrown f, w) (p, q, h) = (p, cc (p, q), h)

  closing-Agrees :
      (r : Result Connection) (q : Result Wire)
      → Agrees P r q
      → Agrees P (closing connection_wire with_wire driver r) (closing itself replaced_by driver q)
  unfolding Agrees
  closing-Agrees (returned t, s) (returned u, w) (q, h) = (cc q, h)
  closing-Agrees (returned t, s) (thrown f, w) h = absurd h
  closing-Agrees (thrown e, s) (returned u, w) h = absurd h
  closing-Agrees (thrown e, s) (thrown f, w) (p, q, h) = (p, cc q, h)

  pub Agrees-if :
      (b : Bool) (r t : Result Connection) (q u : Result Wire)
      → Agrees P r q
      → Agrees P t u
      → Agrees P (if b then r else t) (if b then q else u)
  Agrees-if true r t q u h i = h
  Agrees-if false r t q u h i = i

  pub inner_session-Mirrors :
      (f : Connection → Result Connection) (k : Wire → Result Wire)
      → Mirrors P P f k
      → Mirrors P P
          (inner_session connection_wire with_wire driver f)
          (inner_session itself replaced_by driver k)
  unfolding inner_session
  inner_session-Mirrors f k m s h =
      Agrees-if driver.has_session _ _ _ _
        (Agrees-next P P _ _ _ _ (ask-Mirrors opened s h)
          (λ t i. closing-Agrees (f t) (k t.wire) (m t i)))
        (m s h)

  pub inner_query-Mirrors :
      (n : ℕ)
      → Mirrors P P
          (inner_query connection_wire with_wire driver n)
          (inner_query itself replaced_by driver n)
  unfolding inner_query
  inner_query-Mirrors n = check_around-Mirrors _ _ (ask-Mirrors (queried n))

  pub inner_stream-Mirrors :
      (n : ℕ)
      → Mirrors P P
          (inner_stream connection_wire with_wire driver n)
          (inner_stream itself replaced_by driver n)
  unfolding inner_stream
  inner_stream-Mirrors n s h = Agrees-next P P _ _ _ _ (assert_usable-Mirrors s h) (λ t i.
      Agrees-if driver.streams _ _ _ _ (ask-Mirrors (streamed n) t i) (Agrees-refl P P _ t i))

  pub inner_dispose-Mirrors :
      Mirrors P P
        (inner_dispose connection_wire with_wire driver)
        (inner_dispose itself replaced_by driver)
  unfolding inner_dispose
  inner_dispose-Mirrors s h =
      Agrees-if driver.has_dispose _ _ _ _ (ask-Mirrors disposed s h) (Agrees-refl P P _ s h)
