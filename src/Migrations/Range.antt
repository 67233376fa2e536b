-- ===== src/Migrations/Range.antt =====
-- packages/core/src/migrations/migration-range.ts. A migration is read by its id and name; the
-- locale's collation, `localeCompare`, is an argument.
pub mod Moves
use Prim.Native.Nat.{Ordering}
use entitykit.Common.{
  ℕ, zero, suc, ◌-◌, Bool, true, false, ◌||◌, Option, none, some, List, [], ◌∷◌, ◌++◌, map,
  if◌then◌else◌, ◌==◌, length, take, drop, Text, text_eq, text_beq, units, ends_with, ltb, nat_eq,
  Outcome, returned, thrown, ◌>>=◌,
}
use mathlib.Core.List.{reverse}

pub record Migration : Type 0 where
  pub id : Text
  pub name : Text
  pub content : ℕ

pub data Direction : Type 0 where
  up down : Direction

pub record Step : Type 0 where
  pub migration : Migration
  pub direction : Direction

pub data Label : Type 0 where
  from to : Label

pub data MigrationFailure : Type 0 where
  unknown_boundary : Label → Text → MigrationFailure
  duplicate_applied : Text → MigrationFailure
  out_of_order : Text → Text → MigrationFailure
  missing_local : Text → MigrationFailure
  checksum_mismatch : Text → MigrationFailure
  skipped : List Text → Text → MigrationFailure

-- `Array.prototype.sort` with a callback: stable.
unfoldable pub insert_by : {A : Type 0} → (A → A → Ordering) → A → List A → List A
insert_by compare x [] = x ∷ []
insert_by compare x (y ∷ ys) =
    let later = insert_by compare x ys in
    elim (compare x y) [ Ordering.gt ↦ y ∷ later | _ ↦ x ∷ y ∷ ys ]

unfoldable pub sort_by : {A : Type 0} → (A → A → Ordering) → List A → List A
unfolding insert_by
sort_by compare [] = []
sort_by compare (x ∷ xs) = insert_by compare x (sort_by compare xs)

unfoldable pub by_id : (Text → Text → Ordering) → Migration → Migration → Ordering
by_id locale_compare left right = locale_compare left.id right.id

-- `Array.prototype.findIndex`; `none` is -1.
unfoldable pub find_index : {A : Type 0} → (A → Bool) → List A → Option ℕ
find_index p [] = none
find_index p (x ∷ xs) =
    let later = find_index p xs in
    if p x then some 0 else elim later [ none ↦ none | some i ↦ some (suc i) ]

-- The test of `resolveMigrationBoundary` on one migration.
unfoldable pub names : Text → Migration → Bool
unfolding ends_with text_beq
names boundary m = m.id == boundary || (m.name == boundary || ends_with m.id (b'_' ∷ boundary))

unfoldable pub resolve_boundary : List Migration → Text → Label → Outcome MigrationFailure ℕ
unfolding find_index names text_beq
resolve_boundary migrations boundary label =
    if boundary == [] || boundary == units "0"
    then returned 0
    else if boundary == units "Latest"
    then returned (length migrations)
    else elim (find_index (names boundary) migrations) [
      | none ↦ thrown (unknown_boundary label boundary)
      | some index ↦ returned (suc index)
    ]

abbrev pub step_of : Direction → Migration → Step
step_of d m = record { migration = m; direction = d }

-- The part of `selectMigrationRange` after its boundaries are resolved.
unfoldable pub range_between : List Migration → ℕ → ℕ → List Step
range_between ordered from_index to_index =
    if from_index == to_index
    then []
    else if ltb from_index to_index
    then map (step_of up) (take (to_index - from_index) (drop from_index ordered))
    else map (step_of down) (reverse (take (from_index - to_index) (drop to_index ordered)))

unfoldable pub select_migration_range :
    (Text → Text → Ordering) → List Migration → Text → Text → Outcome MigrationFailure (List Step)
unfolding range_between resolve_boundary sort_by by_id
select_migration_range locale_compare migrations from_boundary to_boundary =
    let ordered = sort_by (by_id locale_compare) migrations in
    do
      from_index ← resolve_boundary ordered from_boundary Label.from
      to_index ← resolve_boundary ordered to_boundary Label.to
      returned (range_between ordered from_index to_index)
