-- ===== src/Migrations/Plan.antt =====
-- packages/core/src/migrations/runner/history-validation.ts and migration-update-plan.ts. The
-- checksum of a migration and its destructive warnings are arguments, as the collation is; an
-- empty checksum is one that the database does not record.
pub mod History
pub mod Sorted
pub mod Prefix
pub mod Latest
pub mod Skipped
use Prim.Native.Nat.{Ordering}
use mathlib.Core.List.{filter_map}
use entitykit.Common.{
  ℕ, zero, suc, Bool, true, false, not, ◌||◌, ◌&&◌, Option, none, some, List, [], ◌∷◌, ◌++◌, map,
  if◌then◌else◌, ◌==◌, or_default, Text, text_eq, text_beq, units, less, nat_eq, has, add, get, put,
  Outcome, returned, thrown, ◌>>=◌, ◌>>◌,
}
use entitykit.Migrations.Range.{
  Migration, Direction, up, down, Step, MigrationFailure, duplicate_applied, out_of_order,
  missing_local, checksum_mismatch, skipped, sort_by, by_id, select_migration_range,
}

pub record HistoryRow : Type 0 where
  pub id : Text
  pub checksum : Text

-- `localeCompare(...) > 0`
abbrev pub above : Ordering → Bool
above Ordering.gt = true
above _ = false

abbrev pub is_empty : Text → Bool
is_empty [] = true
is_empty (c ∷ s) = false

module _ (locale_compare : Text → Text → Ordering) where
  -- The loop of `validateAppliedHistoryShape`; `previous` is empty before the first row.
  unfoldable pub validate_shape :
      List Text → Text → List HistoryRow → Outcome MigrationFailure (Unit {0})
  validate_shape seen previous [] = returned tt
  validate_shape seen previous (row ∷ rows) =
      let later = validate_shape (add seen row.id) row.id rows in
      if has seen row.id
      then thrown (duplicate_applied row.id)
      else if not (is_empty previous) && above (locale_compare previous row.id)
      then thrown (out_of_order row.id previous)
      else later

-- `new Map(migrations.map(migration => [migration.id, migration]))`
unfoldable pub index_by_id : List (Text × Migration) → List Migration → List (Text × Migration)
index_by_id m [] = m
index_by_id m (x ∷ xs) = index_by_id (put m x.id x) xs

module _ (checksum : Migration → Text) where
  unfoldable pub check_row :
      Text → HistoryRow → Option Migration → Outcome MigrationFailure (Unit {0})
  check_row id row none = thrown (missing_local id)
  check_row id row (some m) =
      if not (is_empty row.checksum) && not (row.checksum == checksum m)
      then thrown (checksum_mismatch id)
      else returned tt

  unfoldable pub check_rows :
      List (Text × Migration) → List HistoryRow → Outcome MigrationFailure (Unit {0})
  check_rows by_ids [] = returned tt
  check_rows by_ids (row ∷ rows) = do
    check_row row.id row (get by_ids row.id)
    check_rows by_ids rows

  unfoldable pub validate_applied_checksums :
      (Text → Text → Ordering)
      → List Migration
      → List HistoryRow
      → Outcome MigrationFailure (Unit {0})
  validate_applied_checksums locale_compare migrations applied = do
    validate_shape locale_compare [] [] applied
    check_rows (index_by_id [] migrations) applied

pub record Plan : Type 0 where
  pub from : Text
  pub target : Text
  pub steps : List Step
  pub warnings : List Text

-- `applied.at(-1)?.id ?? '0'`
unfoldable pub newest : List HistoryRow → Text
newest [] = units "0"
newest (row ∷ []) = row.id
newest (row ∷ later ∷ rows) = newest (later ∷ rows)

unfoldable pub skipped_before : List Text → Text → List Migration → List Migration
skipped_before applied from [] = []
skipped_before applied from (m ∷ ms) =
    let rest = skipped_before applied from ms in
    if not (has applied m.id) && less m.id from then m ∷ rest else rest

-- `if (skipped.length > 0) throw skippedMigrationError(skipped, from)`
unfoldable pub refuse_skipped : List Migration → Text → Outcome MigrationFailure (Unit {0})
refuse_skipped [] from = returned tt
refuse_skipped (m ∷ ms) from = thrown (skipped (map (λ (m : Migration). m.id) (m ∷ ms)) from)

unfoldable pub collect_warnings : (Migration → List Text) → List Step → List Text
collect_warnings warnings [] = []
collect_warnings warnings (s ∷ ss) =
    elim s.direction [ up ↦ warnings s.migration | down ↦ [] ] ++ collect_warnings warnings ss

module _ (locale_compare : Text → Text → Ordering) (checksum : Migration → Text)
    (warnings : Migration → List Text) where
  unfoldable pub create_update_plan :
      List Migration → List HistoryRow → Option Text → Outcome MigrationFailure Plan
  create_update_plan migrations applied target =
      let ordered = sort_by (by_id locale_compare) migrations in
      let from = newest applied in
      let applied_ids = map (λ (row : HistoryRow). row.id) applied in
      let resolved = or_default target (units "Latest") in
      do
        validate_applied_checksums checksum locale_compare ordered applied
        refuse_skipped (skipped_before applied_ids from ordered) from
        steps ← select_migration_range locale_compare ordered from resolved
        returned (record {
          from = from;
          target = resolved;
          steps = steps;
          warnings = collect_warnings warnings steps;
        })
