-- ===== src/SavePlan/Topology/Membership.antt =====
-- Membership in heaps and sets, read off the weights.
use Prim.Native.Nat.{Ordering}
use entitykit.Common.{
  ℕ, suc, ◌+◌, ◌≤◌, ◌≡◌, refl, inl, inr, none, some, List, [], ◌∷◌, ◌++◌, arith, ltb, if◌then◌else◌,
  length, true, false, ◌||◌, ◌==◌, nat_eq, ==_iff, has, add, delete, has-append, has-add,
  has-delete, Bool-cases, length-append,
}
use entitykit.SavePlan.Heap.{push, pop}
use entitykit.SavePlan.Heap.Content.{total, total-push, total-pop}
use entitykit.SavePlan.Topology.{set_from}

abbrev pub is : ℕ → ℕ → ℕ
is a y = if y == a then 1 else 0

pub has-total : (xs : List ℕ) (a : ℕ) → has xs a ≡ ltb 0 (total (is a) xs)
unfolding has total
has-total [] a = refl
has-total (x ∷ xs) a = ground (arith, has-total xs a)

pub length-total : (xs : List ℕ) → total (λ _. 1) xs ≡ length xs
unfolding total
length-total [] = refl
length-total (x ∷ xs) = omega (arith, length-total xs)

module _ (compare : ℕ → ℕ → Ordering) where
  pub has-push : (xs : List ℕ) (e a : ℕ) → has (push compare xs e) a ≡ (e == a || has xs a)
  has-push xs e a =
      ground
        (arith, has-total xs a, has-total (push compare xs e) a, total-push compare (is a) xs e)

  pub has-pop :
      (xs : List ℕ) (x : ℕ) (rest : List ℕ)
      → pop compare xs ≡ some (x, rest)
      → (a : ℕ) → has xs a ≡ (x == a || has rest a)
  has-pop xs x rest h a =
      ground (arith, has-total xs a, has-total rest a, total-pop compare (is a) xs x rest h)

  pub length-pop :
      (xs : List ℕ) (x : ℕ) (rest : List ℕ)
      → pop compare xs ≡ some (x, rest)
      → length xs ≡ suc (length rest)
  length-pop xs x rest h =
      omega (arith, length-total xs, length-total rest, total-pop compare (λ _. 1) xs x rest h)

  pub pop-eq-none : (xs : List ℕ) → pop compare xs ≡ none → xs ≡ []
  unfolding pop
  pop-eq-none [] h = refl
  pop-eq-none (x ∷ xs) h = cc

-- No entry twice.
abbrev pub Distinct : List ℕ → Type 0
Distinct [] = Unit
Distinct (x ∷ xs) = (has xs x ≡ false) × Distinct xs

pub Distinct-delete : (xs : List ℕ) (a : ℕ) → Distinct xs → Distinct (delete xs a)
unfolding delete
Distinct-delete [] a h = tt
Distinct-delete (x ∷ xs) a (n, h) = elim (Bool-cases (x == a)) [
  | inl e ↦ rw e (Distinct-delete xs a h)
  | inr e ↦ rw e (ground (arith, has-delete xs a x), Distinct-delete xs a h)
]

pub delete_absent : (xs : List ℕ) (a : ℕ) → has xs a ≡ false → delete xs a ≡ xs
unfolding delete has
delete_absent [] a h = refl
delete_absent (x ∷ xs) a h = ground (arith, delete_absent xs a)

-- Deleting an element of a set takes its weight away.
pub total-delete :
    (w : ℕ → ℕ) (xs : List ℕ) (a : ℕ)
    → Distinct xs
    → has xs a ≡ true
    → total w (delete xs a) + w a ≡ total w xs
unfolding total delete has
total-delete w [] a d h = cc
total-delete w (x ∷ xs) a (n, d) h =
    ground (arith, delete_absent xs a, total-delete w xs a d, ==_iff x a)

Distinct-append : (xs : List ℕ) (a : ℕ) → Distinct xs → has xs a ≡ false → Distinct (xs ++ a ∷ [])
unfolding has
Distinct-append [] a d h = (refl, tt)
Distinct-append (x ∷ xs) a (n, d) h = (
  ground (arith, has-append xs (a ∷ []) x, ==_iff x a, ==_iff a x),
  Distinct-append xs a d (ground arith),
)

pub Distinct-add : (xs : List ℕ) (a : ℕ) → Distinct xs → Distinct (add xs a)
unfolding add
Distinct-add xs a d = elim (Bool-cases (has xs a)) [
  | inl e ↦ rw e d
  | inr e ↦ rw e (Distinct-append xs a d e)
]

pub set_from-Distinct : (s xs : List ℕ) → Distinct s → Distinct (set_from s xs)
unfolding set_from
set_from-Distinct s [] d = d
set_from-Distinct s (x ∷ xs) d = set_from-Distinct (add s x) xs (Distinct-add s x d)

pub has-set_from : (s xs : List ℕ) (a : ℕ) → has (set_from s xs) a ≡ (has s a || has xs a)
unfolding set_from has
has-set_from s [] a = ground arith
has-set_from s (x ∷ xs) a = ground (arith, has-set_from (add s x) xs a, has-add s x a)

length-add : (s : List ℕ) (a : ℕ) → length (add s a) ≤ suc (length s)
unfolding add
length-add s a = ground (arith, length-append s (a ∷ []))

pub length-set_from : (s xs : List ℕ) → length (set_from s xs) ≤ length s + length xs
unfolding set_from
length-set_from s [] = omega arith
length-set_from s (x ∷ xs) = omega (arith, length-set_from (add s x) xs, length-add s x)
