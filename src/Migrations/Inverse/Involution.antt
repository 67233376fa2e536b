-- ===== src/Migrations/Inverse/Involution.antt =====
-- The reversal of an operation, reversed again.
use entitykit.Common.{◌≡◌, ◌≢◌, none, some, []}
use entitykit.Migrations.Inverse.{ModelDiffOperation, drop_column, alter_column}

-- A dropped column is named as its definition is; an altered one has its former type, and neither
-- an empty name nor an empty former one.
abbrev pub IsReversible : ModelDiffOperation → Type 0
IsReversible (drop_column d) = d.column_name ≡ d.column.name
IsReversible (alter_column a) =
    (a.column.name ≢ []) × (a.column.old_name ≢ some []) × (a.column.old_type ≢ none)
IsReversible op = Unit
