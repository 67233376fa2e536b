-- ===== src/Storage/Guard/Flags.antt =====
-- What a change of one scope does to the scopes' flags.
use entitykit.Common.{
  length-set, ◌<◌, ℕ, zero, suc, ◌≡◌, refl, arith, Bool, false, Option, none, some, List, [], ◌∷◌,
  ◌++◌, if◌then◌else◌, ◌==◌, nat_eq, ==_iff, length, get_elem?, set, Option-cases, inl, inr,
}
use entitykit.Storage.Guard.{Scope, in_progress_in, deactivated, with_query}

pub flag_append :
    (xs : List Scope) (x : Scope) (c : ℕ)
    → in_progress_in (get_elem? (xs ++ x ∷ []) c)
      ≡ (if c == length xs then x.query_in_progress else in_progress_in (get_elem? xs c))
flag_append [] x zero = refl
flag_append [] x (suc c) = ground arith
flag_append (y ∷ xs) x zero = ground arith
flag_append (y ∷ xs) x (suc c) = ground (arith, flag_append xs x c)

abbrev replaced : Option Scope → Scope → Option Scope
replaced none v = none
replaced (some x) v = some v

pub get-set :
    (xs : List Scope) (i j : ℕ) (v : Scope)
    → get_elem? (set xs i v) j ≡ (if i == j then replaced (get_elem? xs i) v else get_elem? xs j)
get-set [] i j v = ground arith
get-set (x ∷ xs) zero zero v = refl
get-set (x ∷ xs) zero (suc j) v = ground arith
get-set (x ∷ xs) (suc i) zero v = ground arith
get-set (x ∷ xs) (suc i) (suc j) v = ground (arith, get-set xs i j v)

pub get_in_range :
    (xs : List Scope) (c : ℕ) → c < length xs → (x : Scope) × (get_elem? xs c ≡ some x)
get_in_range [] c h = absurd (omega (arith, h))
get_in_range (x ∷ xs) zero h = (x, refl)
get_in_range (x ∷ xs) (suc c) h = get_in_range xs c (omega (arith, h))

pub flag_set :
    (xs : List Scope) (c d : ℕ) (b : Bool)
    → c < length xs
    → in_progress_in (get_elem? (with_query (get_elem? xs c) xs c b) d)
      ≡ (if c == d then b else in_progress_in (get_elem? xs d))
flag_set xs c d b h =
    let (x, q) = get_in_range xs c h in
    rw q (ground (arith, q, get-set xs c d (record x { query_in_progress = b })))

-- A scope out of range has no flag to reset.
pub flag_reset :
    (xs : List Scope) (c d : ℕ)
    → in_progress_in (get_elem? (with_query (get_elem? xs c) xs c false) d)
      ≡ (if c == d then false else in_progress_in (get_elem? xs d))
flag_reset xs c d = elim (Option-cases (get_elem? xs c)) [
  | inl q ↦ rw q (ground (arith, q, ==_iff c d))
  | inr (x, q) ↦ rw q (ground (arith, q, get-set xs c d (record x { query_in_progress = false })))
]

pub flag_deactivated :
    (xs : List Scope) (c d : ℕ)
    → in_progress_in (get_elem? (deactivated (get_elem? xs c) xs c) d)
      ≡ in_progress_in (get_elem? xs d)
flag_deactivated xs c d = elim (Option-cases (get_elem? xs c)) [
  | inl q ↦ rw q refl
  | inr (x, q) ↦ rw q (ground (arith, q, get-set xs c d (record x { active = false }), ==_iff c d))
]

pub length-deactivated :
    (xs : List Scope) (c : ℕ) (o : Option Scope) → length (deactivated o xs c) ≡ length xs
length-deactivated xs c none = refl
length-deactivated xs c (some x) = length-set xs c (record x { active = false })

pub length-with_query :
    (xs : List Scope) (c : ℕ) (b : Bool) (o : Option Scope)
    → length (with_query o xs c b) ≡ length xs
length-with_query xs c b none = refl
length-with_query xs c b (some x) = length-set xs c (record x { query_in_progress = b })
