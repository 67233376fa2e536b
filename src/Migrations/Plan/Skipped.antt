-- ===== src/Migrations/Plan/Skipped.antt =====
-- Where the collation and the code units order two ids differently, a pending migration is missed.
use Prim.Native.Nat.{Ordering}
use entitykit.Common.{
  ◌≡◌, refl, none, List, [], ◌∷◌, arith, true, false, Text, less, units, returned, ◌==◌, ==_refl,
  text_eq, text_beq, has, put, get-put,
}
use entitykit.Migrations.Range.{
  Label, Migration, sort_by, insert_by, by_id, names, find_index, resolve_boundary,
  select_migration_range,
}
use entitykit.Migrations.Plan.{
  HistoryRow, create_update_plan, validate_applied_checksums, validate_shape, check_rows, check_row,
  index_by_id, newest, skipped_before, refuse_skipped, collect_warnings,
}

-- Two migrations: the collation puts `early` first, and the code units do not.
pub record IsMisordered (locale_compare : Text → Text → Ordering) (early late : Migration)
    : Type 0 where
  pub collated : locale_compare early.id late.id ≡ Ordering.lt
  pub not_less : less early.id late.id ≡ false
  pub apart : (late.id == early.id) ≡ false
  pub unnamed : names late.id early ≡ false
  pub not_empty : text_beq late.id [] ≡ false
  pub not_start : text_beq late.id (units "0") ≡ false
  pub not_latest : text_beq late.id (units "Latest") ≡ false

module _ (locale_compare : Text → Text → Ordering) (checksum : Migration → Text)
    (warnings : Migration → List Text) (early late : Migration)
    (w : IsMisordered locale_compare early late) where
  sorted_pair : sort_by (by_id locale_compare) (early ∷ late ∷ []) ≡ early ∷ late ∷ []
  unfolding sort_by by_id insert_by
  sorted_pair = ground (arith, w.collated)

  row : HistoryRow
  row = record { id = late.id; checksum = [] }

  same : (late.id == late.id) ≡ true
  same = ==_refl late.id

  valid :
      validate_applied_checksums checksum locale_compare
        (early ∷ late ∷ [])
        (record { id = late.id; checksum = [] } ∷ [])
      ≡ returned tt
  unfolding validate_applied_checksums validate_shape check_rows check_row index_by_id has
  valid = rw (get-put (put [] early.id early) late.id late.id late, same) refl

  none_skipped : skipped_before (late.id ∷ []) late.id (early ∷ late ∷ []) ≡ []
  unfolding skipped_before has
  none_skipped = ground (arith, w.not_less, same)

  from_late : resolve_boundary (early ∷ late ∷ []) late.id Label.from ≡ returned 2
  unfolding resolve_boundary find_index names
  from_late = rw (w.not_empty, w.not_start, w.not_latest, w.unnamed, same) refl

  no_steps :
      select_migration_range locale_compare (early ∷ late ∷ []) late.id (units "Latest")
      ≡ returned []
  unfolding select_migration_range
  no_steps = rw (sorted_pair, from_late) refl

  -- If `late` is applied and `early` is pending, then the update to the latest migration is
  -- planned without an error and without a step.
  pub create_update_plan-misses :
      create_update_plan locale_compare checksum warnings
        (early ∷ late ∷ [])
        (record { id = late.id; checksum = [] } ∷ [])
        none
      ≡ returned (record { from = late.id; target = units "Latest"; steps = []; warnings = [] })
  unfolding create_update_plan newest refuse_skipped collect_warnings
  create_update_plan-misses = rw (sorted_pair, valid, none_skipped, no_steps) refl
