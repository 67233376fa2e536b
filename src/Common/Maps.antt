-- ===== src/Common/Maps.antt =====
-- `Map` as an association list in insertion order, and `Set` as the list of its elements.
-- `put` writes an existing key in place and appends a new one, as `Map.prototype.set` does.
use mathlib.Core.Path.{◌≡◌, refl}
use mathlib.Core.Bool.{Bool, false, not, ◌&&◌, ◌||◌}
use mathlib.Core.List.{List, [], ◌∷◌, ◌++◌}
use mathlib.Core.Option.{Option, none, some}
use native.Mathlib.Omega.{arith}
use mathlib.Core.Logic.{inl, inr}
use mathlib.Core.Path.{sym, ap}
use entitykit.Common.Lists.{In}
use entitykit.Common.Tests.{Bool-cases, ==_refl, Eq, ◌==◌, if◌then◌else◌, ==_iff}

module _ {ℓ κ} {K : Type ℓ} {V : Type κ} ⦃keyed : Eq K⦄ where
  unfoldable pub get : List (K × V) → K → Option V
  get [] k = none
  get ((j, v) ∷ m) k = if j == k then some v else get m k

  unfoldable pub put : List (K × V) → K → V → List (K × V)
  put [] k v = (k, v) ∷ []
  put ((j, w) ∷ m) k v = if j == k then (k, v) ∷ m else (j, w) ∷ put m k v

  unfoldable pub remove : List (K × V) → K → List (K × V)
  remove [] k = []
  remove ((j, w) ∷ m) k = let rest = remove m k in if j == k then rest else (j, w) ∷ rest

  pub get-put :
      (m : List (K × V)) (k j : K) (v : V)
      → get (put m k v) j ≡ (if k == j then some v else get m j)
  unfolding get put
  get-put [] k j v = refl
  get-put ((i, w) ∷ m) k j v = ground (arith, ==_iff k j, ==_iff i k, ==_iff i j, get-put m k j v)

  pub get-remove :
      (m : List (K × V)) (k j : K) → get (remove m k) j ≡ (if k == j then none else get m j)
  unfolding get remove
  get-remove [] k j = ground arith
  get-remove ((i, w) ∷ m) k j = ground (arith, ==_iff k j, ==_iff i k, ==_iff i j, get-remove m k j)

module _ {K : Type 0} {V : Type 0} ⦃e : Eq K⦄ where
  -- No key is listed twice.
  abbrev pub IsMap : List (K × V) → Type 0
  IsMap [] = Unit
  IsMap ((k, v) ∷ m) = (get m k ≡ none) × IsMap m

  pub put-IsMap : (m : List (K × V)) (k : K) (v : V) → IsMap m → IsMap (put m k v)
  unfolding put get
  put-IsMap [] k v h = (refl, tt)
  put-IsMap ((j, w) ∷ m) k v (n, h) = elim (Bool-cases (j == k)) [
    | inl q ↦ rw q (ground (arith, ==_iff j k), h)
    | inr q ↦ rw q (ground (arith, ==_iff j k, ==_iff k j, get-put m k j v), put-IsMap m k v h)
  ]

  pub remove-IsMap : (m : List (K × V)) (k : K) → IsMap m → IsMap (remove m k)
  unfolding remove
  remove-IsMap [] k h = tt
  remove-IsMap ((j, w) ∷ m) k (n, h) = elim (Bool-cases (j == k)) [
    | inl q ↦ rw q (remove-IsMap m k h)
    | inr q ↦ rw q (ground (arith, get-remove m k j), remove-IsMap m k h)
  ]

  pub get_of_In : (m : List (K × V)) (k : K) (v : V) → IsMap m → In (k, v) m → get m k ≡ some v
  unfolding get
  get_of_In [] k v h i = absurd i
  get_of_In ((j, w) ∷ m) k v (n, h) (inl q) =
      rw (← ap (λ (p : K × V). p.0) q, ==_refl k) (ap some (sym (ap (λ (p : K × V). p.1) q)))
  get_of_In ((j, w) ∷ m) k v (n, h) (inr i) = ground (arith, get_of_In m k v h i, ==_iff j k)

module _ {ℓ} {A : Type ℓ} ⦃keyed : Eq A⦄ where
  unfoldable pub has : List A → A → Bool
  has [] a = false
  has (x ∷ xs) a = x == a || has xs a

  -- `Set.prototype.add`
  unfoldable pub add : List A → A → List A
  unfolding has
  add s a = if has s a then s else s ++ a ∷ []

  -- `Set.prototype.delete`
  unfoldable pub delete : List A → A → List A
  delete [] a = []
  delete (x ∷ xs) a = let rest = delete xs a in if x == a then rest else x ∷ rest

  pub has-append : (xs ys : List A) (a : A) → has (xs ++ ys) a ≡ (has xs a || has ys a)
  unfolding has
  has-append [] ys a = refl
  has-append (x ∷ xs) ys a = ground (arith, has-append xs ys a)

  pub has-add : (s : List A) (a b : A) → has (add s a) b ≡ (a == b || has s b)
  unfolding has add
  has-add s a b = ground (arith, has-append s (a ∷ []) b, ==_iff a b)

  pub has-delete : (s : List A) (a b : A) → has (delete s a) b ≡ (not (a == b) && has s b)
  unfolding has delete
  has-delete [] a b = ground arith
  has-delete (x ∷ s) a b = ground (arith, has-delete s a b, ==_iff x a, ==_iff x b, ==_iff a b)
