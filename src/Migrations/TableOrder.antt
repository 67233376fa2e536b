-- ===== src/Migrations/TableOrder.antt =====
-- packages/core/src/migrations/migration-table-order.ts. A table is read by its physical key; a
-- foreign key by those of its two tables. What else an operation holds is a number.
pub mod Dependencies
use entitykit.Common.{
  ℕ, zero, suc, Bool, true, false, not, ◌&&◌, Option, none, some, List, [], ◌∷◌, ◌++◌, map,
  if◌then◌else◌, ◌==◌, nat_eq, get, put, has, add, length,
}

pub record Table : Type 0 where
  pub key : ℕ
  pub content : ℕ

pub record ForeignKey : Type 0 where
  pub dependent : ℕ
  pub principal : ℕ

pub data Operation : Type 0 where
  create_table drop_table : Table → Operation
  add_foreign_key drop_foreign_key : ForeignKey → Operation
  other_operation : ℕ → Operation

abbrev pub keys_in : Option (List ℕ) → List ℕ
keys_in none = []
keys_in (some s) = s

-- The loop over the foreign keys.
unfoldable pub collect : Bool → List (ℕ × List ℕ) → List ForeignKey → List (ℕ × List ℕ)
collect dropping m [] = m
collect dropping m (f ∷ fs) =
    let owner = if dropping then f.principal else f.dependent in
    let prerequisite = if dropping then f.dependent else f.principal in
    collect dropping
      (if f.dependent == f.principal
        then m
        else put m owner (add (keys_in (get m owner)) prerequisite))
      fs

abbrev pub required : List (ℕ × List ℕ) → ℕ → List ℕ
required m key = keys_in (get m key)

unfoldable pub none_of : List ℕ → List ℕ → Bool
none_of unresolved [] = true
none_of unresolved (k ∷ ks) = not (has unresolved k) && none_of unresolved ks

abbrev pub keep_head : Table → Option (Table × List Table) → Option (Table × List Table)
keep_head t none = none
keep_head t (some (x, rest)) = some (x, t ∷ rest)

-- The first table that satisfies the test, and the others.
unfoldable pub pull : (Table → Bool) → List Table → Option (Table × List Table)
pull p [] = none
pull p (t ∷ ts) = let later = keep_head t (pull p ts) in if p t then some (t, ts) else later

abbrev pub table_keys : List Table → List ℕ
table_keys ts = map (λ (t : Table). t.key) ts

-- `while (pending.length > 0)`. Each round takes a table, so their number is enough fuel.
unfoldable pub order_from : ℕ → List (ℕ × List ℕ) → List Table → List Table
unfolding pull none_of
order_from zero m pending = []
order_from (suc fuel) m [] = []
order_from (suc fuel) m (t ∷ ts) =
    elim (pull (λ (x : Table). none_of (table_keys (t ∷ ts)) (required m x.key)) (t ∷ ts)) [
      | none ↦ t ∷ order_from fuel m ts
      | some (x, rest) ↦ x ∷ order_from fuel m rest
    ]

unfoldable pub order_tables : List Table → List ForeignKey → Bool → List Table
unfolding order_from collect
order_tables tables foreign_keys dropping =
    order_from (length tables) (collect dropping [] foreign_keys) tables

unfoldable pub tables_of : Bool → List Operation → List Table
tables_of creating [] = []
tables_of creating (create_table t ∷ ops) =
    if creating then t ∷ tables_of creating ops else tables_of creating ops
tables_of creating (drop_table t ∷ ops) =
    if creating then tables_of creating ops else t ∷ tables_of creating ops
tables_of creating (add_foreign_key f ∷ ops) = tables_of creating ops
tables_of creating (drop_foreign_key f ∷ ops) = tables_of creating ops
tables_of creating (other_operation n ∷ ops) = tables_of creating ops

unfoldable pub foreign_keys_of : Bool → List Operation → List ForeignKey
foreign_keys_of adding [] = []
foreign_keys_of adding (create_table t ∷ ops) = foreign_keys_of adding ops
foreign_keys_of adding (drop_table t ∷ ops) = foreign_keys_of adding ops
foreign_keys_of adding (add_foreign_key f ∷ ops) =
    if adding then f ∷ foreign_keys_of adding ops else foreign_keys_of adding ops
foreign_keys_of adding (drop_foreign_key f ∷ ops) =
    if adding then foreign_keys_of adding ops else f ∷ foreign_keys_of adding ops
foreign_keys_of adding (other_operation n ∷ ops) = foreign_keys_of adding ops

-- The tables of the two kinds, in their orders, at the places of their kinds. A place without a
-- table keeps its own; the source has as many tables as places.
unfoldable pub place : List Table → List Table → List Operation → List Operation
place creates drops [] = []
place [] drops (create_table t ∷ ops) = create_table t ∷ place [] drops ops
place (c ∷ creates) drops (create_table t ∷ ops) = create_table c ∷ place creates drops ops
place creates [] (drop_table t ∷ ops) = drop_table t ∷ place creates [] ops
place creates (d ∷ drops) (drop_table t ∷ ops) = drop_table d ∷ place creates drops ops
place creates drops (add_foreign_key f ∷ ops) = add_foreign_key f ∷ place creates drops ops
place creates drops (drop_foreign_key f ∷ ops) = drop_foreign_key f ∷ place creates drops ops
place creates drops (other_operation n ∷ ops) = other_operation n ∷ place creates drops ops

-- `up` is the direction; downwards the operations are read in reverse.
unfoldable pub order_migration_tables : Bool → List Operation → List Operation
unfolding order_tables tables_of foreign_keys_of place
order_migration_tables up operations =
    let created = order_tables (tables_of up operations) (foreign_keys_of up operations) false in
    let dropped =
      order_tables (tables_of (not up) operations) (foreign_keys_of (not up) operations) true in
    if up then place created dropped operations else place dropped created operations
