-- ===== src/Storage/Guard/Tasks.antt =====
-- The operations, queries and streams of any number of guards, started and ended in any order.
use entitykit.Common.{
  ◌<◌, ℕ, ◌+◌, ◌≡◌, Bool, true, false, Option, none, some, List, [], ◌∷◌, ◌++◌, if◌then◌else◌, ◌==◌,
  nat_eq, get, length, get_elem?, All,
}
use entitykit.Storage.Guard.{
  Guards, in_progress_in, current_scope, begin_run, starts, end_run, begin_query, end_query,
  begin_stream, end_stream,
}

-- What is under way: an operation of a guard, a query, or a stream that joins one, in a scope that
-- an operation of the guard has opened, or a stream that has the guard for itself.
pub data Task : Type 0 where
  operation query own_stream : ℕ → ℕ → Task

pub record World : Type 0 where
  pub guards : Guards
  pub tasks : List Task

abbrev pub start : World
start = record { guards = record { scopes = []; tokens = [] }; tasks = [] }

-- The tasks that hold a guard.
abbrev pub holds : ℕ → Task → ℕ
holds guard (operation g c) = if g == guard then 1 else 0
holds guard (own_stream g c) = if g == guard then 1 else 0
holds guard (query g c) = 0

abbrev pub holders : ℕ → List Task → ℕ
holders guard [] = 0
holders guard (t ∷ ts) = holds guard t + holders guard ts

abbrev pub uses : ℕ → Task → ℕ
uses scope (operation g c) = 0
uses scope (own_stream g c) = if c == scope then 1 else 0
uses scope (query g c) = if c == scope then 1 else 0

-- The queries and streams in a scope.
abbrev pub users : ℕ → List Task → ℕ
users scope [] = 0
users scope (t ∷ ts) = uses scope t + users scope ts

abbrev pub queries_of : ℕ → Task → ℕ
queries_of guard (operation g c) = 0
queries_of guard (own_stream g c) = if g == guard then 1 else 0
queries_of guard (query g c) = if g == guard then 1 else 0

-- The queries and streams of a guard.
abbrev pub queries : ℕ → List Task → ℕ
queries guard [] = 0
queries guard (t ∷ ts) = queries_of guard t + queries guard ts

-- With `awaits` an operation ends only when no query is under way in its scope.
pub data Step (awaits : Bool) : World → World → Type 0 where
  operation_starts :
      (w : World) (guard : ℕ) (store : Option ℕ) (s : Guards) (c : ℕ)
      → begin_run w.guards guard store ≡ starts s c
      → Step awaits w (record { guards = s; tasks = operation guard c ∷ w.tasks })
  operation_ends :
      (w : World) (guard c : ℕ) (before after : List Task)
      → w.tasks ≡ before ++ operation guard c ∷ after
      → (awaits ≡ true → users c w.tasks ≡ 0)
      → Step awaits w (record { guards = end_run w.guards guard c; tasks = before ++ after })
  query_starts :
      (w : World) (guard c : ℕ) (store : Option ℕ) (s : Guards)
      → current_scope w.guards guard store ≡ some c
      → begin_query w.guards c ≡ some s
      → Step awaits w (record { guards = s; tasks = query guard c ∷ w.tasks })
  query_ends :
      (w : World) (guard c : ℕ) (before after : List Task)
      → w.tasks ≡ before ++ query guard c ∷ after
      → Step awaits w (record { guards = end_query w.guards c; tasks = before ++ after })
  stream_starts :
      (w : World) (guard : ℕ) (store : Option ℕ) (s : Guards) (c : ℕ)
      → current_scope w.guards guard store ≡ none
      → begin_stream w.guards guard ≡ starts s c
      → Step awaits w (record { guards = s; tasks = own_stream guard c ∷ w.tasks })
  stream_ends :
      (w : World) (guard c : ℕ) (before after : List Task)
      → w.tasks ≡ before ++ own_stream guard c ∷ after
      → Step awaits w (record { guards = end_stream w.guards guard c; tasks = before ++ after })

pub data Reachable (awaits : Bool) : World → Type 0 where
  initial : Reachable awaits start
  then_step : {w v : World} → Reachable awaits w → Step awaits w v → Reachable awaits v

abbrev pub count_if : Bool → ℕ
count_if true = 1
count_if false = 0

abbrev pub is_some : Option ℕ → Bool
is_some none = false
is_some (some n) = true

-- A task that holds a guard has the guard's token.
abbrev pub HasToken : Guards → Task → Type 0
HasToken s (operation g c) = get s.tokens g ≡ some c
HasToken s (own_stream g c) = get s.tokens g ≡ some c
HasToken s (query g c) = Unit

pub record IsExclusive (w : World) : Type 0 where
  pub held : (guard : ℕ) → holders guard w.tasks ≡ count_if (is_some (get w.guards.tokens guard))
  pub used :
      (scope : ℕ)
      → users scope w.tasks ≡ count_if (in_progress_in (get_elem? w.guards.scopes scope))
  pub owned : All (HasToken w.guards) w.tasks
  pub ranged : (guard c : ℕ) → get w.guards.tokens guard ≡ some c → c < length w.guards.scopes
