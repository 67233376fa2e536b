-- ===== src/Migrations/Plan/Sorted.antt =====
-- Sorting migrations by id: the ids ascend, and no migration is lost or added.
use Prim.Native.Nat.{Ordering}
use entitykit.Common.{
  ◌≡◌, ◌≢◌, inl, inr, List, [], ◌∷◌, arith, true, false, Text, less, less_total, All, In,
  Bool-cases, map,
}
use entitykit.Migrations.Range.{Migration, insert_by, sort_by, by_id}
use entitykit.Migrations.Plan.{above}
use entitykit.Migrations.Plan.History.{IsAscending, AgreesWithUnits, All-below}

abbrev pub ids : List Migration → List Text
ids ms = map (λ (m : Migration). m.id) ms

-- No two migrations with one id.
abbrev pub HasDistinctIds : List Migration → Type 0
HasDistinctIds [] = Unit
HasDistinctIds (m ∷ ms) = All (λ id. m.id ≢ id) (ids ms) × HasDistinctIds ms

module _ (locale_compare : Text → Text → Ordering) (x y : Migration) (ms : List Migration) where
  insert_above :
      above (locale_compare x.id y.id) ≡ true
      → insert_by (by_id locale_compare) x (y ∷ ms) ≡ y ∷ insert_by (by_id locale_compare) x ms
  unfolding insert_by by_id
  insert_above h = ground arith

  pub insert_not_above :
      above (locale_compare x.id y.id) ≡ false
      → insert_by (by_id locale_compare) x (y ∷ ms) ≡ x ∷ y ∷ ms
  unfolding insert_by by_id
  insert_not_above h = ground arith

module _ (locale_compare : Text → Text → Ordering) where
  insert-All :
      (P : Text → Type 0) (x : Migration) (ms : List Migration)
      → P x.id
      → All P (ids ms)
      → All P (ids (insert_by (by_id locale_compare) x ms))
  unfolding insert_by by_id
  insert-All P x [] p h = (p, tt)
  insert-All P x (y ∷ ms) p (q, h) = elim (Bool-cases (above (locale_compare x.id y.id))) [
    | inl e ↦ rw (insert_above locale_compare x y ms e) (q, insert-All P x ms p h)
    | inr e ↦ rw (insert_not_above locale_compare x y ms e) (p, (q, h))
  ]

  sort-All :
      (P : Text → Type 0) (ms : List Migration)
      → All P (ids ms)
      → All P (ids (sort_by (by_id locale_compare) ms))
  unfolding sort_by
  sort-All P [] h = tt
  sort-All P (m ∷ ms) (p, h) =
      insert-All P m (sort_by (by_id locale_compare) ms) p (sort-All P ms h)

  insert-In :
      (x y : Migration) (ms : List Migration)
      → (In y (insert_by (by_id locale_compare) x ms) → In y (x ∷ ms))
        × (In y (x ∷ ms) → In y (insert_by (by_id locale_compare) x ms))
  unfolding insert_by by_id
  insert-In x y [] = ((λ h. h), (λ h. h))
  insert-In x y (z ∷ ms) = elim (Bool-cases (above (locale_compare x.id z.id))) [
    | inl e ↦ rw (insert_above locale_compare x z ms e) (
        let (to, from) = insert-In x y ms in
        ((λ h. ground (arith, to)), (λ h. ground (arith, from))))
    | inr e ↦ rw (insert_not_above locale_compare x z ms e) ((λ h. h), (λ h. h))
  ]

  pub sort-In :
      (y : Migration) (ms : List Migration)
      → (In y (sort_by (by_id locale_compare) ms) → In y ms)
        × (In y ms → In y (sort_by (by_id locale_compare) ms))
  unfolding sort_by
  sort-In y [] = ((λ h. h), (λ h. h))
  sort-In y (m ∷ ms) =
      let (to, from) = sort-In y ms in
      let (to', from') = insert-In m y (sort_by (by_id locale_compare) ms) in
      ((λ h. ground (arith, to, to' h)), (λ h. from' (ground (arith, from))))

  module _ (agrees : AgreesWithUnits locale_compare) where
    insert-IsAscending :
        (x : Migration) (ms : List Migration)
        → All (λ id. x.id ≢ id) (ids ms)
        → IsAscending (ids ms)
        → IsAscending (ids (insert_by (by_id locale_compare) x ms))
    unfolding insert_by by_id
    insert-IsAscending x [] ne h = (tt, tt)
    insert-IsAscending x (y ∷ ms) (n, ne) (b, h) =
        elim (Bool-cases (above (locale_compare x.id y.id))) [
          | inl e ↦ rw (insert_above locale_compare x y ms e) (
            insert-All (λ id. less y.id id ≡ true) x ms (ground (arith, agrees x.id y.id)) b,
            insert-IsAscending x ms ne h,
          )
          | inr e ↦ rw (insert_not_above locale_compare x y ms e) (
              let lt : (less x.id y.id ≡ true) =
                ground (arith, agrees x.id y.id, less_total x.id y.id) in
              ((lt, All-below x.id y.id (ids ms) lt b), (b, h)))
        ]

    -- Where the collation agrees with the code units, sorted ids ascend.
    pub sort-IsAscending :
        (ms : List Migration)
        → HasDistinctIds ms
        → IsAscending (ids (sort_by (by_id locale_compare) ms))
    unfolding sort_by
    sort-IsAscending [] d = tt
    sort-IsAscending (m ∷ ms) (n, d) =
        insert-IsAscending m (sort_by (by_id locale_compare) ms) (sort-All (λ id. m.id ≢ id) ms n)
          (sort-IsAscending ms d)
