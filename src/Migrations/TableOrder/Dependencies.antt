-- ===== src/Migrations/TableOrder/Dependencies.antt =====
-- The order of tables: every table once, and after what it requires.
use entitykit.Common.{
  ◌⊎◌, ℕ, zero, suc, ◌+◌, ◌≤◌, ◌≡◌, refl, arith, Bool, true, false, Option, none, some, List, [],
  ◌∷◌, nat_eq, has, length, Bool-cases, Option-cases, inl, inr,
}
use entitykit.SavePlan.Heap.Content.{total}
use entitykit.Migrations.TableOrder.{
  Table, ForeignKey, required, none_of, keep_head, pull, table_keys, order_from, order_tables,
  collect,
}

-- No table requires one that comes after it.
abbrev pub IsOrdered : List (ℕ × List ℕ) → List Table → Type 0
IsOrdered m [] = Unit
IsOrdered m (t ∷ ts) =
    ((k : ℕ) → has (required m t.key) k ≡ true → has (table_keys ts) k ≡ false) × IsOrdered m ts

kept_some :
    (t : Table) (o : Option (Table × List Table)) (x : Table) (rest : List Table)
    → keep_head t o ≡ some (x, rest)
    → (r : List Table) × (o ≡ some (x, r)) × (rest ≡ t ∷ r)
kept_some t none x rest h = cc
kept_some t (some (y, r)) x rest h = (r, cc, cc)

first_of :
    {t x : Table} {ts rest : List Table}
    → ◌≡◌ {A = Option (Table × List Table)} (some (t, ts)) (some (x, rest))
    → t ≡ x
first_of h = cc

second_of :
    {t x : Table} {ts rest : List Table}
    → ◌≡◌ {A = Option (Table × List Table)} (some (t, ts)) (some (x, rest))
    → ts ≡ rest
second_of h = cc

nothing_pulled : (p : Table → Bool) (x : Table) (rest : List Table) → pull p [] ≡ some (x, rest) → ⊥
unfolding pull
nothing_pulled p x rest h = cc

pull-cases :
    (p : Table → Bool) (t : Table) (ts : List Table) (x : Table) (rest : List Table)
    → pull p (t ∷ ts) ≡ some (x, rest)
    → ((p t ≡ true) × (t ≡ x) × (ts ≡ rest))
      ⊎ ((r : List Table) × (pull p ts ≡ some (x, r)) × (rest ≡ t ∷ r))
unfolding pull
pull-cases p t ts x rest h = elim (Bool-cases (p t)) [
  | inl q ↦ inl (q, first_of (rw q at h), second_of (rw q at h))
  | inr q ↦ inr (kept_some t (pull p ts) x rest (rw q at h))
]

module _ (w : Table → ℕ) where
  pull-some :
      (p : Table → Bool) (ts : List Table) (x : Table) (rest : List Table)
      → pull p ts ≡ some (x, rest)
      → (p x ≡ true)
        × (total w ts ≡ w x + total w rest)
        × (length ts ≡ suc (length rest))
        × ((k : ℕ) → has (table_keys (x ∷ rest)) k ≡ true → has (table_keys ts) k ≡ true)
  unfolding total has
  pull-some p [] x rest h = absurd (nothing_pulled p x rest h)
  pull-some p (t ∷ ts) x rest h = elim (pull-cases p t ts x rest h) [
    | inl (q, e, r) ↦ rw (← e, ← r) (q, refl, refl, λ k i. ground (arith, i))
    | inr (r, q, e) ↦
        let (px, tw, l, inside) = pull-some p ts x r q in
        rw e (px, omega (arith, tw), omega (arith, l), λ k i. ground (arith, i, inside k))
  ]

  order_from-total :
      (fuel : ℕ) (m : List (ℕ × List ℕ)) (ts : List Table)
      → length ts ≤ fuel
      → total w (order_from fuel m ts) ≡ total w ts
  unfolding order_from total
  order_from-total zero m [] h = refl
  order_from-total zero m (t ∷ ts) h = absurd (omega (arith, h))
  order_from-total (suc fuel) m [] h = refl
  order_from-total (suc fuel) m (t ∷ ts) h =
      elim (Option-cases
        (pull (λ (x : Table). none_of (table_keys (t ∷ ts)) (required m x.key)) (t ∷ ts))) [
          | inl q ↦
              rw (order_from, q) (omega (arith, order_from-total fuel m ts (omega (arith, h))))
          | inr ((x, rest), q) ↦
              let (px, tw, l, inside) =
                pull-some (λ (x : Table). none_of (table_keys (t ∷ ts)) (required m x.key)) (t ∷ ts)
                  x rest q in
              rw (order_from, q)
                (omega (arith, tw, order_from-total fuel m rest (omega (arith, h, l))))
        ]

-- Ordering keeps every table, each as often as it was.
pub order_tables-total :
    (w : Table → ℕ) (tables : List Table) (foreign_keys : List ForeignKey) (dropping : Bool)
    → total w (order_tables tables foreign_keys dropping) ≡ total w tables
unfolding order_tables
order_tables-total w tables foreign_keys dropping =
    order_from-total w (length tables) (collect dropping [] foreign_keys) tables (omega arith)
