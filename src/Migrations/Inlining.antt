-- ===== src/Migrations/Inlining.antt =====
-- packages/core/src/migrations/model-diff-foreign-key-inlining.ts. The content of a table or of a
-- foreign key has a physical table key, and an operation is its place in the list.
pub mod Constraints
use entitykit.Common.{
  ℕ, suc, Bool, true, false, Option, none, some, List, [], ◌∷◌, ◌++◌, if◌then◌else◌, nat_eq, get,
  put, has, add,
}
use entitykit.Migrations.Range.{Direction}
use entitykit.Migrations.Inverse.{
  ModelDiffOperation, create_table, drop_table, add_foreign_key, drop_foreign_key,
}

abbrev pub is_create_table : ModelDiffOperation → Option ℕ
is_create_table (create_table t) = some t
is_create_table _ = none

abbrev pub is_drop_table : ModelDiffOperation → Option ℕ
is_drop_table (drop_table t) = some t
is_drop_table _ = none

abbrev pub is_add_foreign_key : ModelDiffOperation → Option ℕ
is_add_foreign_key (add_foreign_key f) = some f
is_add_foreign_key _ = none

abbrev pub is_drop_foreign_key : ModelDiffOperation → Option ℕ
is_drop_foreign_key (drop_foreign_key f) = some f
is_drop_foreign_key _ = none

-- `createTableKind`, `dropTableKind`, `addForeignKeyKind` and `dropForeignKeyKind`.
abbrev pub of_create_kind : Direction → ModelDiffOperation → Option ℕ
of_create_kind Direction.up operation = is_create_table operation
of_create_kind Direction.down operation = is_drop_table operation

abbrev pub of_drop_kind : Direction → ModelDiffOperation → Option ℕ
of_drop_kind Direction.up operation = is_drop_table operation
of_drop_kind Direction.down operation = is_create_table operation

abbrev pub of_add_kind : Direction → ModelDiffOperation → Option ℕ
of_add_kind Direction.up operation = is_add_foreign_key operation
of_add_kind Direction.down operation = is_drop_foreign_key operation

abbrev pub of_remove_kind : Direction → ModelDiffOperation → Option ℕ
of_remove_kind Direction.up operation = is_drop_foreign_key operation
of_remove_kind Direction.down operation = is_add_foreign_key operation

-- The constraints that each created table takes on, and the places of the absorbed operations.
pub record InlinedForeignKeys : Type 0 where
  pub by_table : List (ℕ × List ℕ)
  pub absorbed : List ℕ

abbrev pub nothing_inlined : InlinedForeignKeys
nothing_inlined = record { by_table = []; absorbed = [] }

-- `?? []`
abbrev pub listed : Option (List ℕ) → List ℕ
listed none = []
listed (some keys) = keys

module _ (table_key constraint_key : ℕ → ℕ) where
  abbrev pub key_added : Option ℕ → List ℕ → List ℕ
  key_added none keys = keys
  key_added (some t) keys = add keys (table_key t)

  -- `tableKeys` after the keys so far.
  unfoldable pub table_keys :
      (ModelDiffOperation → Option ℕ) → List ModelDiffOperation → List ℕ → List ℕ
  table_keys kind [] keys = keys
  table_keys kind (o ∷ operations) keys = table_keys kind operations (key_added (kind o) keys)

  module _ (created dropped : List ℕ) where
    -- The last test of the loop.
    abbrev pub absorb_removed : Option ℕ → ℕ → InlinedForeignKeys → InlinedForeignKeys
    absorb_removed none place s = s
    absorb_removed (some f) place s =
        if has dropped (constraint_key f) then record s { absorbed = add s.absorbed place } else s

    -- One operation, as one that adds and as one that removes a foreign key.
    abbrev pub inline_one : Option ℕ → Option ℕ → ℕ → InlinedForeignKeys → InlinedForeignKeys
    inline_one none removed place s = absorb_removed removed place s
    inline_one (some f) removed place s =
        if has created (constraint_key f)
        then record {
          by_table =
              put s.by_table (constraint_key f)
                (listed (get s.by_table (constraint_key f)) ++ f ∷ []);
          absorbed = add s.absorbed place;
        }
        else absorb_removed removed place s

    unfoldable pub inline_from :
        Direction → ℕ → List ModelDiffOperation → InlinedForeignKeys → InlinedForeignKeys
    inline_from direction place [] s = s
    inline_from direction place (o ∷ operations) s =
        inline_from direction (suc place) operations
          (inline_one (of_add_kind direction o) (of_remove_kind direction o) place s)

  unfoldable pub plan_foreign_key_inlining :
      List ModelDiffOperation → Direction → InlinedForeignKeys
  unfolding inline_from table_keys
  plan_foreign_key_inlining operations direction =
      inline_from (table_keys (of_create_kind direction) operations [])
        (table_keys (of_drop_kind direction) operations []) direction 0 operations nothing_inlined

  -- `inlineForeignKeys`, by whether the builder can alter the constraints of a table.
  unfoldable pub inline_foreign_keys :
      Bool → List ModelDiffOperation → Direction → InlinedForeignKeys
  unfolding plan_foreign_key_inlining
  inline_foreign_keys can_alter operations direction =
      if can_alter then nothing_inlined else plan_foreign_key_inlining operations direction
