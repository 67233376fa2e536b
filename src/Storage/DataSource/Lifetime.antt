-- ===== src/Storage/DataSource/Lifetime.antt =====
-- The data source with its leases and retry operations, and what holds in all that is reached.
use entitykit.Common.{
  inr, inl, ap, sym, ◌∙◌, ◌⊎◌, ℕ, suc, ◌+◌, ◌-◌, ◌≡◌, ◌≤◌, Bool, true, false, List, [], ◌∷◌, ◌++◌,
  arith, refl, Outcome, returned, thrown,
}
use entitykit.Storage.Errors.{DatabaseError}
use entitykit.Storage.DataSource.{
  DataSource, new_data_source, create_connection, release_lease, begin_operation, end_operation,
  dispose, Lease, in_use, closing, released, dispose_lease, assert_active,
}

-- The data source, the leases that it has given, and the retry operations that run.
pub record World : Type 0 where
  pub source : DataSource
  pub leases : List Lease
  pub running : ℕ

abbrev pub start : World
start = record { source = new_data_source; leases = []; running = 0 }

pub data Step : World → World → Type 0 where
  connect :
      (w : World) (opens : Outcome DatabaseError (Unit {0})) (s : DataSource)
      → create_connection w.source opens ≡ returned s
      → Step w (record { source = s; leases = in_use ∷ w.leases; running = w.running })
  dispose_one :
      (w : World) (before after : List Lease) (l l' : Lease) (busy : Bool)
      → w.leases ≡ before ++ l ∷ after
      → dispose_lease l busy ≡ returned l'
      → Step w (record { source = w.source; leases = before ++ l' ∷ after; running = w.running })
  release_one :
      (w : World) (before after : List Lease)
      → w.leases ≡ before ++ closing ∷ after
      → Step w (record {
        source = release_lease w.source;
        leases = before ++ released ∷ after;
        running = w.running;
      })
  begin :
      (w : World) (s : DataSource)
      → begin_operation w.source ≡ returned s
      → Step w (record { source = s; leases = w.leases; running = w.running + 1 })
  end :
      (w : World)
      → 1 ≤ w.running
      → Step w
          (record { source = end_operation w.source; leases = w.leases; running = w.running - 1 })
  dispose_source :
      (w : World) (starts : Bool) (s : DataSource)
      → dispose w.source starts ≡ returned s
      → Step w (record { source = s; leases = w.leases; running = w.running })

pub data Reachable : World → Type 0 where
  initial : Reachable start
  then_step : {w v : World} → Reachable w → Step w v → Reachable v

abbrev holds : Lease → ℕ
holds released = 0
holds _ = 1

-- The leases that are not released.
abbrev pub held : List Lease → ℕ
held [] = 0
held (l ∷ ls) = holds l + held ls

pub record IsCounted (w : World) : Type 0 where
  pub leases_counted : w.source.active_leases ≡ held w.leases
  pub operations_counted : w.source.active_operations ≡ w.running
  pub disposed_idle : w.source.disposed ≡ true → (held w.leases ≡ 0) × (w.running ≡ 0)
  pub started_disposed : w.source.dispose_started ≡ true → w.source.disposed ≡ true

held-append : (xs ys : List Lease) → held (xs ++ ys) ≡ held xs + held ys
held-append [] ys = omega arith
held-append (x ∷ xs) ys = omega (arith, held-append xs ys)

dispose_lease-holds :
    (l l' : Lease) (busy : Bool) → dispose_lease l busy ≡ returned l' → holds l' ≡ holds l
unfolding dispose_lease
dispose_lease-holds in_use l' busy h = ground (arith, h)
dispose_lease-holds closing l' busy h = ground (arith, h)
dispose_lease-holds released l' busy h = ground (arith, h)

held_same :
    (before after : List Lease) (l l' : Lease)
    → holds l' ≡ holds l
    → held (before ++ l' ∷ after) ≡ held (before ++ l ∷ after)
held_same before after l l' h =
    omega (arith, held-append before (l ∷ after), held-append before (l' ∷ after), h)

create_connection-fields :
    (d : DataSource) (opens : Outcome DatabaseError (Unit {0})) (s : DataSource)
    → create_connection d opens ≡ returned s
    → (d.disposed ≡ false)
      × (s.active_leases ≡ d.active_leases + 1)
      × (s.active_operations ≡ d.active_operations)
      × (s.disposed ≡ d.disposed)
      × (s.dispose_started ≡ d.dispose_started)
unfolding create_connection assert_active
create_connection-fields d (thrown e) s h = ground (arith, h)
create_connection-fields d (returned u) s h = ground (arith, h)

begin_operation-fields :
    (d : DataSource) (s : DataSource)
    → begin_operation d ≡ returned s
    → (d.disposed ≡ false)
      × (s.active_leases ≡ d.active_leases)
      × (s.active_operations ≡ d.active_operations + 1)
      × (s.disposed ≡ d.disposed)
      × (s.dispose_started ≡ d.dispose_started)
unfolding begin_operation assert_active
begin_operation-fields d s h = ground (arith, h)

dispose-fields :
    (d : DataSource) (starts : Bool) (s : DataSource)
    → dispose d starts ≡ returned s
    → (s.active_leases ≡ d.active_leases)
      × (s.active_operations ≡ d.active_operations)
      × (((s ≡ d) × (d.dispose_started ≡ true))
          ⊎ ((s.disposed ≡ true) × (d.active_leases ≡ 0) × (d.active_operations ≡ 0)))
unfolding dispose
dispose-fields d starts s h = ground (arith, h)

Step-IsCounted : {w v : World} → Step w v → IsCounted w → IsCounted v
unfolding end_operation release_lease
Step-IsCounted (connect w opens s h) c =
    let (d, l, o, e, f) = create_connection-fields w.source opens s h in
    record {
      leases_counted = omega (arith, l, c.leases_counted);
      operations_counted = o ∙ c.operations_counted;
      disposed_idle = λ g. cc;
      started_disposed = λ g. cc (c.started_disposed (sym f ∙ g));
    }
Step-IsCounted (dispose_one w before after l l' busy q h) c =
    let same = held_same before after l l' (dispose_lease-holds l l' busy h) ∙ sym (ap held q) in
    record {
      leases_counted = c.leases_counted ∙ sym same;
      operations_counted = c.operations_counted;
      disposed_idle = λ g. let (a, b) = c.disposed_idle g in (same ∙ a, b);
      started_disposed = c.started_disposed;
    }
Step-IsCounted (release_one w before after q) c =
    let fewer : (held w.leases ≡ suc (held (before ++ released ∷ after))) = omega (
      arith,
      held-append before (closing ∷ after),
      held-append before (released ∷ after),
      ap held q,
    ) in
    record {
      leases_counted = omega (arith, fewer, c.leases_counted);
      operations_counted = c.operations_counted;
      disposed_idle = λ g. absurd (omega (arith, fewer, (c.disposed_idle g).0));
      started_disposed = c.started_disposed;
    }
Step-IsCounted (begin w s h) c =
    let (d, l, o, e, f) = begin_operation-fields w.source s h in
    record {
      leases_counted = l ∙ c.leases_counted;
      operations_counted = omega (arith, o, c.operations_counted);
      disposed_idle = λ g. cc;
      started_disposed = λ g. cc (c.started_disposed (sym f ∙ g));
    }
Step-IsCounted (end w p) c = record {
  leases_counted = c.leases_counted;
  operations_counted = omega (arith, c.operations_counted);
  disposed_idle = λ g. absurd (omega (arith, p, (c.disposed_idle g).1));
  started_disposed = c.started_disposed;
}
Step-IsCounted (dispose_source w starts s h) c =
    let (l, o, k) = dispose-fields w.source starts s h in
    elim k [
      | inl (same, started) ↦ rw same c
      | inr (d, a, b) ↦ record {
        leases_counted = l ∙ c.leases_counted;
        operations_counted = o ∙ c.operations_counted;
        disposed_idle = λ g. (sym c.leases_counted ∙ a, sym c.operations_counted ∙ b);
        started_disposed = λ g. d;
      }
    ]

-- In every world that is reached, the data source counts exactly the leases that are not
-- released and the retry operations that run; once it is disposed there is none of either.
pub Reachable-IsCounted : {w : World} → Reachable w → IsCounted w
Reachable-IsCounted initial = record {
  leases_counted = refl;
  operations_counted = refl;
  disposed_idle = λ h. cc;
  started_disposed = λ h. cc;
}
Reachable-IsCounted (then_step r s) = Step-IsCounted s (Reachable-IsCounted r)
