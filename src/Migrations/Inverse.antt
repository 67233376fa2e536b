-- ===== src/Migrations/Inverse.antt =====
-- packages/core/src/migrations/model-diff-operation-inverse.ts, model-diff-reverse-column.ts and
-- `reverseRebuild` of model-diff-sqlite-rebuild.ts. Fields that no reversal reads are one number,
-- and a value that may be `undefined`, but is never tested, is a number too.
pub mod Involution
use entitykit.Common.{ℕ, Option, none, some, List, [], ◌∷◌, Text}

-- The definition of a column, with what `...column` copies as `content`.
pub record AlteredColumn : Type 0 where
  pub content : ℕ
  pub name : Text
  pub old_name : Option Text
  pub column_type : Text
  pub old_type : Option Text
  pub nullable : ℕ
  pub old_nullable : ℕ
  pub default_sql : ℕ
  pub old_default_sql : ℕ
  pub computed_sql : ℕ
  pub old_computed_sql : ℕ
  pub computed_stored : ℕ
  pub old_computed_stored : ℕ
  pub collation : ℕ
  pub old_collation : ℕ
  pub store_generation : ℕ
  pub old_store_generation : ℕ

-- `old ?? now`
abbrev pub or_now : Option Text → Text → Text
or_now none now = now
or_now (some old) now = old

-- `old ? name : old`; an empty string is false.
abbrev pub renamed_from : Option Text → Text → Option Text
renamed_from none name = none
renamed_from (some []) name = some []
renamed_from (some (c ∷ cs)) name = some name

unfoldable pub reverse_alter_column : AlteredColumn → AlteredColumn
reverse_alter_column c = record {
  content = c.content;
  name = or_now c.old_name c.name;
  old_name = renamed_from c.old_name c.name;
  column_type = or_now c.old_type c.column_type;
  old_type = some c.column_type;
  nullable = c.old_nullable;
  old_nullable = c.nullable;
  default_sql = c.old_default_sql;
  old_default_sql = c.default_sql;
  computed_sql = c.old_computed_sql;
  old_computed_sql = c.computed_sql;
  computed_stored = c.old_computed_stored;
  old_computed_stored = c.computed_stored;
  collation = c.old_collation;
  old_collation = c.collation;
  store_generation = c.old_store_generation;
  old_store_generation = c.store_generation;
}

pub record ColumnDefinition : Type 0 where
  pub name : Text
  pub content : ℕ

pub record TableName : Type 0 where
  pub entity_name : Text
  pub table_name : Text
  pub schema_name : Option Text

pub record RenameTable : Type 0 where
  pub table : TableName
  pub new_table_name : Text

pub record AddColumn : Type 0 where
  pub table : TableName
  pub column : ColumnDefinition

pub record DropColumn : Type 0 where
  pub table : TableName
  pub column_name : Text
  pub column : ColumnDefinition

pub record AlterColumn : Type 0 where
  pub table : TableName
  pub column : AlteredColumn

pub record AlterSequence : Type 0 where
  pub sequence : ℕ
  pub previous : ℕ

pub record RebuildTable : Type 0 where
  pub table : TableName
  pub previous : ℕ
  pub current : ℕ
  pub copy_columns : ℕ
  pub reverse_copy_columns : ℕ

pub data ModelDiffOperation : Type 0 where
  create_table drop_table create_index drop_index add_foreign_key drop_foreign_key
        add_check_constraint drop_check_constraint create_sequence drop_sequence create_join_table
        drop_join_table :
      ℕ → ModelDiffOperation
  rename_table : RenameTable → ModelDiffOperation
  add_column : AddColumn → ModelDiffOperation
  drop_column : DropColumn → ModelDiffOperation
  alter_column : AlterColumn → ModelDiffOperation
  alter_sequence : AlterSequence → ModelDiffOperation
  rebuild_table : RebuildTable → ModelDiffOperation

unfoldable pub reverse_rebuild : RebuildTable → RebuildTable
reverse_rebuild r = record {
  table = r.table;
  previous = r.current;
  current = r.previous;
  copy_columns = r.reverse_copy_columns;
  reverse_copy_columns = r.copy_columns;
}

unfoldable pub reverse_model_diff_operation : ModelDiffOperation → ModelDiffOperation
unfolding reverse_alter_column reverse_rebuild
reverse_model_diff_operation (create_table t) = drop_table t
reverse_model_diff_operation (drop_table t) = create_table t
reverse_model_diff_operation (rename_table r) = rename_table (record {
  table = record r.table { table_name = r.new_table_name };
  new_table_name = r.table.table_name;
})
reverse_model_diff_operation (add_column a) =
    drop_column (record { table = a.table; column_name = a.column.name; column = a.column })
reverse_model_diff_operation (drop_column d) =
    add_column (record { table = d.table; column = d.column })
reverse_model_diff_operation (alter_column a) =
    alter_column (record a { column = reverse_alter_column a.column })
reverse_model_diff_operation (create_index i) = drop_index i
reverse_model_diff_operation (drop_index i) = create_index i
reverse_model_diff_operation (add_foreign_key f) = drop_foreign_key f
reverse_model_diff_operation (drop_foreign_key f) = add_foreign_key f
reverse_model_diff_operation (add_check_constraint c) = drop_check_constraint c
reverse_model_diff_operation (drop_check_constraint c) = add_check_constraint c
reverse_model_diff_operation (create_sequence s) = drop_sequence s
reverse_model_diff_operation (drop_sequence s) = create_sequence s
reverse_model_diff_operation (alter_sequence s) =
    alter_sequence (record { sequence = s.previous; previous = s.sequence })
reverse_model_diff_operation (rebuild_table r) = rebuild_table (reverse_rebuild r)
reverse_model_diff_operation (create_join_table t) = drop_join_table t
reverse_model_diff_operation (drop_join_table t) = create_join_table t
