-- ===== src/Migrations/Plan/History.antt =====
-- What a validated history says: the applied migrations are a prefix of the local ones.
use entitykit.Common.{
  ==_refl, ◌≡◌, ◌≢◌, ◌⊎◌, refl, ap, inl, inr, some, List, [], ◌∷◌, arith, true, false, ◌==◌, ==_iff,
  has, add, has-add, get, put, get-put, Text, text_eq, less, less_trans, less_total, returned,
  >>=-eq-returned, All, In, Bool-cases, Option-cases, map,
}
use entitykit.Migrations.Range.{Migration}
use entitykit.Migrations.Plan.{
  Ordering, HistoryRow, above, is_empty, validate_shape, index_by_id, check_row, check_rows,
}

-- A row of the history with the local migration that it records.
pub record IsKnown (checksum : Migration → Text) (migrations : List Migration) (row : HistoryRow)
    : Type 0 where
  pub migration : Migration
  pub listed : In migration migrations
  pub same_id : migration.id ≡ row.id
  pub unchanged : (row.checksum ≡ []) ⊎ (row.checksum ≡ checksum migration)

index_by_id-In :
    (ms : List Migration) (m : List (Text × Migration)) (id : Text) (x : Migration)
    → get (index_by_id m ms) id ≡ some x
    → (In x ms × (x.id ≡ id)) ⊎ (get m id ≡ some x)
unfolding index_by_id
index_by_id-In [] m id x h = inr h
index_by_id-In (y ∷ ms) m id x h = elim (index_by_id-In ms (put m y.id y) id x h) [
  | inl (i, e) ↦ inl (inr i, e)
  | inr k ↦ elim (Bool-cases (y.id == id)) [
    | inl e ↦ inl (
      inl (ground (arith, get-put m y.id id y)),
      ground (arith, get-put m y.id id y, ==_iff y.id id),
    )
    | inr e ↦ inr (ground (arith, get-put m y.id id y))
  ]
]

is_empty-eq : (s : Text) → is_empty s ≡ true → s ≡ []
is_empty-eq [] h = refl
is_empty-eq (c ∷ s) h = cc

module _ (checksum : Migration → Text) (migrations : List Migration) where
  check_row-IsKnown :
      (row : HistoryRow)
      → check_row checksum row.id row (get (index_by_id [] migrations) row.id) ≡ returned tt
      → IsKnown checksum migrations row
  unfolding check_row get
  check_row-IsKnown row h = elim (Option-cases (get (index_by_id [] migrations) row.id)) [
    | inl e ↦ cc (rw (e, check_row) at h)
    | inr (x, e) ↦ elim (index_by_id-In migrations [] row.id x e) [
      | inr k ↦ absurd (ground arith)
      | inl (i, same) ↦ record {
        migration = x;
        listed = i;
        same_id = same;
        unchanged = ground (arith, e, is_empty-eq row.checksum, ==_iff row.checksum (checksum x));
      }
    ]
  ]

  pub check_rows-IsKnown :
      (rows : List HistoryRow)
      → check_rows checksum (index_by_id [] migrations) rows ≡ returned tt
      → All (IsKnown checksum migrations) rows
  unfolding check_rows
  check_rows-IsKnown [] h = tt
  check_rows-IsKnown (row ∷ rows) h =
      let (u, e, k) =
        >>=-eq-returned (check_row checksum row.id row (get (index_by_id [] migrations) row.id)) _
          h in
      (check_row-IsKnown row e, check_rows-IsKnown rows k)

not_empty : (s : Text) → s ≢ [] → is_empty s ≡ false
not_empty [] h = absurd (h refl)
not_empty (c ∷ s) h = refl

abbrev pub row_ids : List HistoryRow → List Text
row_ids rows = map (λ (row : HistoryRow). row.id) rows

-- Each element is below, by code units, all that come after it.
abbrev pub IsAscending : List Text → Type 0
IsAscending [] = Unit
IsAscending (x ∷ xs) = All (λ y. less x y ≡ true) xs × IsAscending xs

-- The collation orders ids as their code units do.
abbrev pub AgreesWithUnits : (Text → Text → Ordering) → Type 0
AgreesWithUnits locale_compare = (a b : Text) → above (locale_compare a b) ≡ less b a

pub All-below :
    (a b : Text) (xs : List Text)
    → less a b ≡ true
    → All (λ y. less b y ≡ true) xs
    → All (λ y. less a y ≡ true) xs
All-below a b [] h k = tt
All-below a b (x ∷ xs) h (k, l) = (less_trans a b x h k, All-below a b xs h l)

module _ (locale_compare : Text → Text → Ordering) (agrees : AgreesWithUnits locale_compare) where
  -- A validated history ascends: no id twice, none out of order.
  pub validate_shape-IsAscending :
      (seen : List Text) (previous : Text) (rows : List HistoryRow)
      → All (λ row. row.id ≢ []) rows
      → previous ≢ []
      → has seen previous ≡ true
      → validate_shape locale_compare seen previous rows ≡ returned tt
      → IsAscending (previous ∷ row_ids rows)
  unfolding validate_shape
  validate_shape-IsAscending seen previous [] ne p s h = (tt, tt)
  validate_shape-IsAscending seen previous (row ∷ rows) (n, ne) p s h =
      let ih =
        validate_shape-IsAscending (add seen row.id) row.id rows ne n
          (ground (arith, has-add seen row.id row.id, ==_refl row.id)) (ground arith) in
      let step : (less previous row.id ≡ true) = ground (
        arith,
        agrees previous row.id,
        less_total previous row.id,
        not_empty previous p,
        ap (λ l. has seen l) {x = previous} {y = row.id},
      ) in
      ((step, All-below previous row.id (row_ids rows) step ih.0), ih)
