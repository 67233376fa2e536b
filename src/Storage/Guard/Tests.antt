-- ===== src/Storage/Guard/Tests.antt =====
-- A guard with an operation and a query in it.
use entitykit.Common.{
  ◌≡◌, ◌≤◌, ◌↔◌, refl, arith, Bool, true, false, none, some, [], ◌∷◌, get, put, remove,
}
use entitykit.Storage.Guard.{
  Guards, begin_run, refused, joins, begin_query, current_scope, active_parent, find_scope, end_run,
  is_operation_in_progress,
}
use entitykit.Storage.Guard.Tasks.{
  operation, query, start, Reachable, initial, then_step, operation_starts, query_starts,
  IsExclusive, queries,
}
use entitykit.Storage.Guard.Exclusion.{Reachable-IsExclusive}
use entitykit.Storage.Guard.Awaited.{Reachable-queries}
use entitykit.Storage.Guard.Chains.{Chain, current_scope-Chain}

abbrev opened : Guards
opened = record {
  scopes = record { parent = none; active = true; query_in_progress = false } ∷ [];
  tokens = (1, 0) ∷ [];
}

abbrev querying : Guards
querying = record {
  scopes = record { parent = none; active = true; query_in_progress = true } ∷ [];
  tokens = (1, 0) ∷ [];
}

opened_reached :
    (awaits : Bool) → Reachable awaits (record { guards = opened; tasks = operation 1 0 ∷ [] })
unfolding begin_run current_scope active_parent get put
opened_reached awaits = then_step initial (operation_starts start 1 none opened 0 refl)

querying_reached :
    (awaits : Bool)
    → Reachable awaits (record { guards = querying; tasks = query 1 0 ∷ operation 1 0 ∷ [] })
unfolding begin_query current_scope find_scope get
querying_reached awaits = then_step (opened_reached awaits) (
    query_starts (record { guards = opened; tasks = operation 1 0 ∷ [] }) 1 0 (some 0) querying refl
      refl)

-- Work that comes from elsewhere is refused, and the guard is free again at the end.
elsewhere : begin_run querying 1 none ≡ refused
unfolding begin_run current_scope find_scope get
elsewhere = refl

within : begin_run querying 1 (some 0) ≡ joins 0
unfolding begin_run current_scope find_scope get
within = refl

ended : is_operation_in_progress (end_run querying 1 0) 1 ≡ false
unfolding is_operation_in_progress end_run get remove
ended = refl

Reachable-IsExclusive_example :
    IsExclusive (record { guards = querying; tasks = query 1 0 ∷ operation 1 0 ∷ [] })
Reachable-IsExclusive_example = Reachable-IsExclusive (querying_reached false)

Reachable-queries_example :
    (queries 1 (query 1 0 ∷ operation 1 0 ∷ []) ≤ 1)
    × (is_operation_in_progress querying 1 ≡ false → queries 1 (query 1 0 ∷ operation 1 0 ∷ []) ≡ 0)
Reachable-queries_example = Reachable-queries (querying_reached true) 1

current_scope-Chain_example :
    (current_scope querying 1 (some 0) ≡ some 0) ↔ Chain querying.scopes 0 0
unfolding get
current_scope-Chain_example = current_scope-Chain (querying_reached true) 1 0 0 refl (omega arith)
