-- ===== src/SavePlan/Entries/Ordered.antt =====
-- The order of a save honours the relationships: principals are inserted first, and deleted last.
use entitykit.Common.{ℕ, ◌<◌, ◌≡◌, some, List, true, false, ◌==◌, nat_eq, has, In}
use entitykit.SavePlan.Entries.{
  Relationship, Snapshots, Facts, Graph, edges, build, is_added, is_deleted, is_modified,
}
use entitykit.SavePlan.Entries.Graphs.{IsGraph}

-- The entry `before` has to be written before `after`, on account of one relationship.
pub data Needs (s : Snapshots) (before after : ℕ) : Type 0 where
  -- A dependent that is not deleted refers to an added principal.
  insert_after :
      (r : Relationship)
      → In r (s.relationships after)
      → is_deleted (s.entry_state after) ≡ false
      → s.principal r after Facts.current ≡ some before
      → is_added (s.state before) ≡ true
      → Needs s before after
  -- A deleted dependent referred to a deleted principal.
  delete_before :
      (r : Relationship)
      → In r (s.relationships before)
      → is_deleted (s.entry_state before) ≡ true
      → s.principal r before Facts.original ≡ some after
      → is_deleted (s.state after) ≡ true
      → Needs s before after
  -- A modified dependent referred to a principal that is deleted.
  leave_before :
      (r : Relationship)
      → In r (s.relationships before)
      → is_modified (s.entry_state before) ≡ true
      → s.principal r before Facts.original ≡ some after
      → is_deleted (s.state after) ≡ true
      → Needs s before after

-- The principals that the relationships resolve to are among the entries of the save.
abbrev pub IsClosed : Snapshots → List ℕ → Type 0
IsClosed s entries =
    (r : Relationship) (d p : ℕ) (f : Facts) → s.principal r d f ≡ some p → has entries p ≡ true

module _ (s : Snapshots) (entries : List ℕ) (b a : ℕ) (closed : IsClosed s entries)
    (apart : (b == a) ≡ false) where
  abbrev HasEdge : Graph → Type 0
  HasEdge g = IsGraph entries g × (has (edges g b) a ≡ true)

-- The rank of an entry is below that of the entries with an edge from it: there is no cycle.
abbrev pub HasNoCycle : Snapshots → List ℕ → (ℕ → ℕ) → Type 0
HasNoCycle s entries rank =
    (u v : ℕ)
    → has entries u ≡ true
    → has entries v ≡ true
    → has (edges (build s entries) u) v ≡ true
    → rank u < rank v
