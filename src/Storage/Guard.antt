-- ===== src/Storage/Guard.antt =====
-- packages/core/src/storage/exclusive-operation-guard.ts. A scope is its place in the list of all
-- scopes, and the token of an operation its scope's place; a stream's scope is in no chain. The
-- value of the `AsyncLocalStorage` is an argument.
pub mod Opening
pub mod Started
pub mod Exclusion
pub mod Awaited
pub mod Unawaited
mod Tests
pub mod Tasks
pub mod Flags
pub mod Chains
use entitykit.Common.{
  ℕ, zero, suc, Bool, true, false, Option, none, some, List, [], ◌∷◌, ◌++◌, if◌then◌else◌, ◌==◌,
  nat_eq, get, put, remove, length, get_elem?, set,
}

pub record Scope : Type 0 where
  pub parent : Option ℕ
  pub active : Bool
  pub query_in_progress : Bool

-- The scopes, and the `activeToken` of each guard that has one.
pub record Guards : Type 0 where
  pub scopes : List Scope
  pub tokens : List (ℕ × ℕ)

abbrev pub parent_in : Option Scope → Option ℕ
parent_in none = none
parent_in (some s) = s.parent

abbrev pub is_active_in : Option Scope → Bool
is_active_in none = false
is_active_in (some s) = s.active

abbrev pub in_progress_in : Option Scope → Bool
in_progress_in none = false
in_progress_in (some s) = s.query_in_progress

-- The loop of `currentScope`. A parent stands before its child, so a scope's place and one more
-- is fuel enough.
unfoldable pub find_scope : ℕ → List Scope → ℕ → Option ℕ → Option ℕ
find_scope zero scopes token current = none
find_scope (suc fuel) scopes token none = none
find_scope (suc fuel) scopes token (some c) =
    let further = find_scope fuel scopes token (parent_in (get_elem? scopes c)) in
    if c == token then some c else further

unfoldable pub current_scope : Guards → ℕ → Option ℕ → Option ℕ
unfolding find_scope
current_scope s guard store = elim (get s.tokens guard) [
  | none ↦ none
  | some token ↦ find_scope (suc (length s.scopes)) s.scopes token store
]

-- The loop of `activeParentScope`.
unfoldable pub active_parent : ℕ → List Scope → Option ℕ → Option ℕ
active_parent zero scopes current = none
active_parent (suc fuel) scopes none = none
active_parent (suc fuel) scopes (some c) =
    let further = active_parent fuel scopes (parent_in (get_elem? scopes c)) in
    if is_active_in (get_elem? scopes c) then some c else further

pub data Entry : Type 0 where
  joins : ℕ → Entry
  refused : Entry
  starts : Guards → ℕ → Entry

-- `run`, up to its work.
unfoldable pub begin_run : Guards → ℕ → Option ℕ → Entry
unfolding current_scope active_parent
begin_run s guard store = elim (current_scope s guard store) [
  | some c ↦ joins c
  | none ↦ elim (get s.tokens guard) [
    | some token ↦ refused
    | none ↦
        starts
          (record {
            scopes =
                s.scopes
                ++ (record {
                  parent = active_parent (suc (length s.scopes)) s.scopes store;
                  active = true;
                  query_in_progress = false;
                })
                  ∷ [];
            tokens = put s.tokens guard (length s.scopes);
          })
          (length s.scopes)
  ]
]

abbrev pub deactivated : Option Scope → List Scope → ℕ → List Scope
deactivated none scopes c = scopes
deactivated (some x) scopes c = set scopes c (record x { active = false })

abbrev pub with_query : Option Scope → List Scope → ℕ → Bool → List Scope
with_query none scopes c b = scopes
with_query (some x) scopes c b = set scopes c (record x { query_in_progress = b })

-- The `finally` block of `run`.
unfoldable pub end_run : Guards → ℕ → ℕ → Guards
end_run s guard c = record {
  scopes = deactivated (get_elem? s.scopes c) s.scopes c;
  tokens = remove s.tokens guard;
}

-- `runQuery` in its scope, up to its work, and its `finally` block.
unfoldable pub begin_query : Guards → ℕ → Option Guards
begin_query s c =
    if in_progress_in (get_elem? s.scopes c)
    then none
    else some
        (record { scopes = with_query (get_elem? s.scopes c) s.scopes c true; tokens = s.tokens })

unfoldable pub end_query : Guards → ℕ → Guards
end_query s c = record {
  scopes = with_query (get_elem? s.scopes c) s.scopes c false;
  tokens = s.tokens;
}

-- A `stream` without a scope that it may use, and its `finally` block.
unfoldable pub begin_stream : Guards → ℕ → Entry
begin_stream s guard = elim (get s.tokens guard) [
  | some token ↦ refused
  | none ↦
      starts
        (record {
          scopes =
              s.scopes ++ (record { parent = none; active = false; query_in_progress = true }) ∷ [];
          tokens = put s.tokens guard (length s.scopes);
        })
        (length s.scopes)
]

unfoldable pub end_stream : Guards → ℕ → ℕ → Guards
unfolding end_query
end_stream s guard c = record { scopes = (end_query s c).scopes; tokens = remove s.tokens guard }

-- `isOperationInProgress`
unfoldable pub is_operation_in_progress : Guards → ℕ → Bool
is_operation_in_progress s guard = elim (get s.tokens guard) [ none ↦ false | some token ↦ true ]
