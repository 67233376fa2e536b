-- ===== src/Migrations/Inlining/Constraints.antt =====
-- Which constraints a table takes on, and which operations are left out for them.
use entitykit.Common.{
  ℕ, Bool, false, ◌||◌, Option, none, some, List, [], ◌∷◌, if◌then◌else◌, ◌==◌, nat_eq, has,
}
use entitykit.Migrations.Inverse.{ModelDiffOperation}
use entitykit.Migrations.Range.{Direction}
use entitykit.Migrations.Inlining.{of_add_kind, of_remove_kind}

module _ (constraint_key : ℕ → ℕ) where
  abbrev pub with_key : Option ℕ → ℕ → List ℕ → List ℕ
  with_key none key rest = rest
  with_key (some f) key rest = if constraint_key f == key then f ∷ rest else rest

  -- The foreign keys that the operations add to a table, in order.
  abbrev pub added_to : Direction → ℕ → List ModelDiffOperation → List ℕ
  added_to direction key [] = []
  added_to direction key (o ∷ operations) =
      with_key (of_add_kind direction o) key (added_to direction key operations)

  abbrev pub is_of : (ℕ → Bool) → Option ℕ → Bool
  is_of holds none = false
  is_of holds (some f) = holds (constraint_key f)

  -- An operation adds a foreign key to a created table or removes one from a dropped table.
  abbrev pub is_redundant : Direction → (ℕ → Bool) → (ℕ → Bool) → Option ModelDiffOperation → Bool
  is_redundant direction created dropped none = false
  is_redundant direction created dropped (some o) =
      is_of created (of_add_kind direction o) || is_of dropped (of_remove_kind direction o)

module _ (table_key constraint_key : ℕ → ℕ) (created dropped : List ℕ) where
  abbrev if_created : ℕ → List ℕ → List ℕ
  if_created key keys = if has created key then keys else []

module _ (table_key constraint_key : ℕ → ℕ) where
  abbrev pub is_keyed : Option ℕ → ℕ → Bool
  is_keyed none key = false
  is_keyed (some t) key = table_key t == key

  -- An operation of the kind is for the table.
  abbrev pub is_made : (ModelDiffOperation → Option ℕ) → List ModelDiffOperation → ℕ → Bool
  is_made kind [] key = false
  is_made kind (o ∷ operations) key = is_keyed (kind o) key || is_made kind operations key
