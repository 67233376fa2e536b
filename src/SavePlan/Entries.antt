-- ===== src/SavePlan/Entries.antt =====
-- `orderSaveEntries` of packages/core/src/core/save-plan/order-entries.ts and
-- `addOneToOneDisplacementEdges` of one-to-one-ordering.ts beside it. A snapshot is the number of
-- its object; `Snapshots` reads the fields that the ordering uses. The resolution of a
-- relationship's principal (find-principal-entry.ts) and the equality of snapshot values
-- (tracking/snapshot-value-equality.ts) are functions of that record.
pub mod Graphs
pub mod Ordered
use Prim.Native.Nat.{Ordering}
use Prim.Native.Nat
use entitykit.Common.{
  ℕ, suc, Bool, true, false, not, ◌&&◌, ◌||◌, Option, none, some, List, [], ◌∷◌, ◌++◌,
  if◌then◌else◌, ◌==◌, nat_eq, has, add, ℤ, increment, pos,
}
use entitykit.SavePlan.Topology.{or_else, rank_from, stable_topological_order}

pub data EntityState : Type 0 where
  detached unchanged added modified deleted : EntityState

abbrev pub is_added : EntityState → Bool
is_added EntityState.added = true
is_added _ = false

abbrev pub is_modified : EntityState → Bool
is_modified EntityState.modified = true
is_modified _ = false

abbrev pub is_deleted : EntityState → Bool
is_deleted EntityState.deleted = true
is_deleted _ = false

pub data Facts : Type 0 where
  current original : Facts

-- `RelationshipMetadata`: which relationship it is, whether it is one-to-one, and the properties
-- of its foreign key.
pub record Relationship : Type 0 where
  pub id : ℕ
  pub one_to_one : Bool
  pub foreign_key : List ℕ

pub record Snapshots : Type 0 where
  -- `snapshot.state`, and `snapshot.entry.state`
  pub state : ℕ → EntityState
  pub entry_state : ℕ → EntityState
  pub metadata : ℕ → ℕ
  pub relationships : ℕ → List Relationship
  -- `findPrincipalEntry(relationship, dependent, facts, …)`
  pub principal : Relationship → ℕ → Facts → Option ℕ
  -- `snapshotValuesEqual` on `snapshotValue` of two snapshots; `true` reads the original values.
  pub same_value : ℕ → Bool → ℕ → Bool → ℕ → Bool

-- `outgoing` and `incoming`; `none` is a snapshot without a set of edges.
pub record Graph : Type 0 where
  pub outgoing : ℕ → Option (List ℕ)
  pub incoming : ℕ → ℤ

abbrev pub edges_in : Option (List ℕ) → List ℕ
edges_in none = []
edges_in (some s) = s

abbrev pub edges : Graph → ℕ → List ℕ
edges g u = edges_in (g.outgoing u)

unfoldable pub add_edge : ℕ → ℕ → Graph → Graph
add_edge before after g = if before == after || has (edges g before) after then g else record {
  outgoing = λ u.
      if before == u
      then elim (g.outgoing before) [ none ↦ none | some s ↦ some (add s after) ]
      else g.outgoing u;
  incoming = λ v. if after == v then increment (g.incoming after) else g.incoming v;
}

-- The first `entries.forEach`.
abbrev pub start : List ℕ → Graph
start entries = record {
  outgoing = λ u. if has entries u then some [] else none;
  incoming = λ v. pos 0;
}

-- `if (principal?.state === state) addEdge(...)`
unfoldable pub edge_if :
    (EntityState → Bool) → (ℕ → EntityState) → Option ℕ → (ℕ → Graph → Graph) → Graph → Graph
edge_if test state none edge g = g
edge_if test state (some p) edge g = if test (state p) then edge p g else g

module _ (s : Snapshots) where
  unfoldable pub link : ℕ → Relationship → Graph → Graph
  unfolding edge_if
  link dependent r g =
      if is_deleted (s.entry_state dependent)
      then edge_if is_deleted s.state (s.principal r dependent Facts.original)
          (λ p. add_edge dependent p) g
      else let g' =
          edge_if is_added s.state (s.principal r dependent Facts.current)
            (λ p. add_edge p dependent) g in
        if is_modified (s.entry_state dependent)
        then edge_if is_deleted s.state (s.principal r dependent Facts.original)
            (λ p. add_edge dependent p) g'
        else g'

  unfoldable pub link_all : ℕ → List Relationship → Graph → Graph
  link_all dependent [] g = g
  link_all dependent (r ∷ rs) g = link_all dependent rs (link dependent r g)

  -- `for (const dependent of entries) for (const relationship of …)`
  unfoldable pub link_entries : List ℕ → Graph → Graph
  link_entries [] g = g
  link_entries (dependent ∷ rest) g =
      link_entries rest (link_all dependent (s.relationships dependent) g)

  abbrev every : (ℕ → Bool) → List ℕ → Bool
  every p [] = true
  every p (x ∷ xs) = p x && every p xs

  -- The occupant holds the values that the incoming entry takes, and gives them up.
  unfoldable pub displaces : ℕ → Relationship → ℕ → Bool
  displaces incoming r occupant =
      not (occupant == incoming)
      && (s.metadata occupant == s.metadata incoming
          && (every (λ p. s.same_value incoming false occupant true p) r.foreign_key
              && (is_deleted (s.state occupant)
                  || not (every (λ p. s.same_value occupant false occupant true p) r.foreign_key))))

  unfoldable pub displace : ℕ → Relationship → List ℕ → Graph → Graph
  displace incoming r [] g = g
  displace incoming r (occupant ∷ rest) g =
      displace incoming r rest
        (if displaces incoming r occupant then add_edge occupant incoming g else g)

  unfoldable pub displace_all : List ℕ → ℕ → List Relationship → Graph → Graph
  displace_all entries incoming [] g = g
  displace_all entries incoming (r ∷ rs) g =
      displace_all entries incoming rs (if r.one_to_one then displace incoming r entries g else g)

  unfoldable pub displace_entries : List ℕ → List ℕ → Graph → Graph
  displace_entries entries [] g = g
  displace_entries entries (incoming ∷ rest) g = displace_entries entries rest (
      if is_deleted (s.state incoming)
      then g
      else displace_all entries incoming (s.relationships incoming) g)

  abbrev pub state_priority : EntityState → ℕ
  state_priority EntityState.modified = 0
  state_priority EntityState.added = 1
  state_priority _ = 2

  -- `originalIndex.get(entry) ?? 0`: a `Map.set` of a repeated entry keeps the last index.
  unfoldable pub last_index : ℕ → ℕ → List ℕ → ℕ → ℕ
  last_index found index [] entry = found
  last_index found index (x ∷ xs) entry =
      last_index (if x == entry then index else found) (suc index) xs entry

  unfoldable pub compare_entries : List ℕ → ℕ → ℕ → Ordering
  compare_entries entries left right =
      or_else (Nat.compare (state_priority (s.state left)) (state_priority (s.state right)))
        (Nat.compare (last_index 0 0 entries left) (last_index 0 0 entries right))

  unfoldable pub build : List ℕ → Graph
  build entries = displace_entries entries entries (link_entries entries (start entries))

  unfoldable pub order_save_entries : List ℕ → Option (List ℕ)
  order_save_entries entries =
      let g = build entries in
      stable_topological_order entries (edges g) g.incoming (compare_entries entries)
