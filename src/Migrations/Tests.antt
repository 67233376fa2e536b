-- ===== src/Migrations/Tests.antt =====
-- Migrations on small inputs.
use entitykit.Migrations.Inverse.{create_table, add_foreign_key, drop_foreign_key}
use entitykit.Migrations.Inlining.{plan_foreign_key_inlining, inline_from, table_keys}
use Prim.Native.Nat.{Ordering}
use entitykit.SavePlan.Heap.Content.{total}
use entitykit.Migrations.TableOrder.{
  Table, ForeignKey, order_tables, order_from, collect, pull, none_of,
}
use entitykit.Migrations.TableOrder.Dependencies.{order_tables-total}
use entitykit.Common.{
  ==_iff, ℕ, ◌+◌, ◌≡◌, ◌≢◌, refl, arith, true, false, if◌then◌else◌, ◌==◌, ◌&&◌, nat_eq, text_eq,
  none, some, List, [], ◌∷◌, Outcome, returned, leb, map, take, Text, units, less, text_beq, has,
  add, get, put,
}
use entitykit.Migrations.Inverse.{ModelDiffOperation, alter_column}
use entitykit.Migrations.Range.{Direction, Migration, step_of, up, range_between, names}
use entitykit.Migrations.Range.Moves.{apply_steps, range_between-moves}
use entitykit.Migrations.Plan.{HistoryRow, Plan, create_update_plan}
use entitykit.Migrations.Plan.Skipped.{IsMisordered, create_update_plan-misses}
use entitykit.Migrations.Executor.{Statement, Answer, UpdateFailure}
use entitykit.Migrations.Update.{Dialect}

abbrev first : Migration
first = record { id = units "1_a"; name = units "a"; content = 0 }

abbrev second : Migration
second = record { id = units "2_b"; name = units "b"; content = 0 }

range_between-moves_example :
    apply_steps (range_between (first ∷ second ∷ []) 2 1) (take 2 (first ∷ second ∷ []))
    ≡ some (take 1 (first ∷ second ∷ []))
range_between-moves_example = range_between-moves (first ∷ second ∷ []) 2 1

abbrev by_units : Text → Text → Ordering
by_units a b = if less a b then Ordering.lt else if less b a then Ordering.gt else Ordering.eq

abbrev no_checksum : Migration → Text
no_checksum m = []

abbrev no_warnings : Migration → List Text
no_warnings m = []

abbrev first_row : HistoryRow
first_row = record { id = units "1_a"; checksum = [] }

abbrev to_second : Plan
to_second = record {
  from = units "1_a";
  target = units "Latest";
  steps = step_of up second ∷ [];
  warnings = [];
}

apart : (a b : Text) → (a == b) ≡ false → a ≢ b
apart a b h = λ e. ground (arith, ==_iff a b)

abbrev lower : ℕ → ℕ
lower c = if leb b'A' c && leb c b'Z' then c + 32 else c

-- A collation that ignores case.
abbrev by_letters : Text → Text → Ordering
by_letters a b = by_units (map lower a) (map lower b)

abbrev early : Migration
early = record { id = units "1_add"; name = units "add"; content = 0 }

abbrev late : Migration
late = record { id = units "1_Base"; name = units "Base"; content = 0 }

cases_apart : IsMisordered by_letters early late
unfolding less names text_beq
cases_apart = record {
  collated = refl;
  not_less = refl;
  apart = refl;
  unnamed = refl;
  not_empty = refl;
  not_start = refl;
  not_latest = refl;
}

create_update_plan-misses_example :
    create_update_plan by_letters no_checksum no_warnings
      (early ∷ late ∷ [])
      (record { id = late.id; checksum = [] } ∷ [])
      none
    ≡ returned (record { from = late.id; target = units "Latest"; steps = []; warnings = [] })
create_update_plan-misses_example =
    create_update_plan-misses by_letters no_checksum no_warnings early late cases_apart

abbrev always : Answer
always calls call = returned tt

abbrev mixed : List Statement
mixed =
    record { text = 1; suppress_transaction = false }
    ∷ record { text = 2; suppress_transaction = true }
    ∷ record { text = 3; suppress_transaction = false }
    ∷ []

abbrev dialect : Dialect
dialect = record {
  acquires = true;
  releases = true;
  create_history = 9;
  build_up_statements = λ m. mixed;
  build_down_statements = λ m. [];
}

abbrev read : Outcome UpdateFailure (List HistoryRow)
read = returned (first_row ∷ [])

abbrev table_at : ℕ → Table
table_at key = record { key = key; content = 0 }

-- Table 2 refers to 1, and 3 to 2 and to itself.
abbrev chain : List ForeignKey
chain =
    record { dependent = 2; principal = 1 }
    ∷ record { dependent = 3; principal = 2 }
    ∷ record { dependent = 3; principal = 3 }
    ∷ []

abbrev backwards : List Table
backwards = table_at 3 ∷ table_at 2 ∷ table_at 1 ∷ []

created_in_order : order_tables backwards chain false ≡ table_at 1 ∷ table_at 2 ∷ table_at 3 ∷ []
unfolding order_tables order_from collect pull none_of has get put add
created_in_order = refl

dropped_in_order : order_tables (table_at 1 ∷ table_at 2 ∷ table_at 3 ∷ []) chain true ≡ backwards
unfolding order_tables order_from collect pull none_of has get put add
dropped_in_order = refl

order_tables-total_example :
    total (λ (t : Table). t.key) (order_tables backwards chain false)
    ≡ total (λ (t : Table). t.key) backwards
order_tables-total_example = order_tables-total (λ (t : Table). t.key) backwards chain false

-- A column renamed from old to new, of a changed type.
abbrev renamed : ModelDiffOperation
renamed = alter_column (record {
  table = record { entity_name = units "E"; table_name = units "e"; schema_name = none };
  column = record {
    content = 0;
    name = units "new";
    old_name = some (units "old");
    column_type = units "text";
    old_type = some (units "int");
    nullable = 1;
    old_nullable = 2;
    default_sql = 0;
    old_default_sql = 3;
    computed_sql = 0;
    old_computed_sql = 0;
    computed_stored = 0;
    old_computed_stored = 0;
    collation = 0;
    old_collation = 0;
    store_generation = 0;
    old_store_generation = 0;
  };
})

-- Table 1 is created with the foreign key 10, and loses the foreign key 20 of table 2.
abbrev table_of_foreign_key : ℕ → ℕ
table_of_foreign_key f = if f == 10 then 1 else 2

abbrev one_created : List ModelDiffOperation
one_created = create_table 1 ∷ add_foreign_key 10 ∷ drop_foreign_key 20 ∷ []

inlined_up :
    plan_foreign_key_inlining (λ t. t) table_of_foreign_key one_created Direction.up
    ≡ record { by_table = (1, 10 ∷ []) ∷ []; absorbed = 1 ∷ [] }
unfolding plan_foreign_key_inlining inline_from table_keys get put has add
inlined_up = refl
