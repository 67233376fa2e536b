-- ===== src/SavePlan/Heap/Content.antt =====
-- What a heap holds: `push` adds its entry and `pop` removes the one it returns, as multisets.
use Prim.Native.Nat.{Ordering}
use entitykit.Common.{
  ℕ, zero, suc, ◌+◌, ◌<◌, ◌≡◌, ◌≢◌, refl, ap, some, List, [], ◌∷◌, ◌++◌, arith, length, get_or, set,
  length-append, length-set,
}
use entitykit.SavePlan.Heap.{
  parent_of, split_last, sift_up, push, smaller_child, sift_down, refill, pop,
}

module _ {A : Type 0} where
  -- The sum of a weight over a list: two lists are equal as multisets when all weights agree.
  unfoldable pub total : (A → ℕ) → List A → ℕ
  total w [] = 0
  total w (x ∷ xs) = w x + total w xs

  pub total-append : (w : A → ℕ) (xs ys : List A) → total w (xs ++ ys) ≡ total w xs + total w ys
  unfolding total
  total-append w [] ys = omega arith
  total-append w (x ∷ xs) ys = omega (arith, total-append w xs ys)

  pub total-set :
      (w : A → ℕ) (xs : List A) (i : ℕ) (v d : A)
      → i < length xs
      → total w (set xs i v) + w (get_or xs i d) ≡ total w xs + w v
  unfolding total
  total-set w [] i v d h = absurd (omega arith)
  total-set w (x ∷ xs) zero v d h = omega arith
  total-set w (x ∷ xs) (suc i) v d h = omega (arith, total-set w xs i v d (omega arith))

  pub get_or-set_ne :
      (xs : List A) (i j : ℕ) (v d : A) → i ≢ j → get_or (set xs i v) j d ≡ get_or xs j d
  get_or-set_ne [] i j v d h = refl
  get_or-set_ne (x ∷ xs) zero zero v d h = absurd (h refl)
  get_or-set_ne (x ∷ xs) zero (suc j) v d h = refl
  get_or-set_ne (x ∷ xs) (suc i) zero v d h = refl
  get_or-set_ne (x ∷ xs) (suc i) (suc j) v d h = get_or-set_ne xs i j v d (λ e. h (ap suc e))

  pub get_or-set_self :
      (xs : List A) (i : ℕ) (v d : A) → i < length xs → get_or (set xs i v) i d ≡ v
  get_or-set_self [] i v d h = absurd (omega arith)
  get_or-set_self (x ∷ xs) zero v d h = refl
  get_or-set_self (x ∷ xs) (suc i) v d h = get_or-set_self xs i v d (omega arith)

  pub get_or-append_length : (xs : List A) (a d : A) → get_or (xs ++ a ∷ []) (length xs) d ≡ a
  get_or-append_length [] a d = refl
  get_or-append_length (x ∷ xs) a d = get_or-append_length xs a d

  pub total-split_last :
      (w : A → ℕ) (x : A) (xs : List A)
      → total w (split_last x xs).0 + w (split_last x xs).1 ≡ w x + total w xs
  unfolding total split_last
  total-split_last w x [] = omega arith
  total-split_last w x (y ∷ ys) = omega (arith, total-split_last w y ys)

  pub length-split_last : (x : A) (xs : List A) → length (split_last x xs).0 ≡ length xs
  unfolding split_last
  length-split_last x [] = refl
  length-split_last x (y ∷ ys) = ap suc (length-split_last y ys)

pub refill_first :
    {A : Type 0} (compare : A → A → Ordering) (first : A) (init : List A) (last : A)
    → (refill compare first init last).0 ≡ first
unfolding refill
refill_first compare first [] last = refl
refill_first compare first (x ∷ xs) last = refl

module _ {A : Type 0} (compare : A → A → Ordering) (w : A → ℕ) where
  total-sift_up :
      (f : ℕ) (xs : List A) (e : A) (i : ℕ)
      → i < length xs
      → total w (sift_up compare f xs e i) + w (get_or xs i e) ≡ total w xs + w e
  unfolding sift_up
  total-sift_up zero xs e i h = total-set w xs i e e h
  total-sift_up (suc f) xs e i h =
      let above = get_or xs (parent_of i) e in
      let xs' = set xs i above in
      ground (
        arith,
        total-set w xs i e e h,
        total-set w xs i above e h,
        length-set xs i above,
        total-sift_up f xs' e (parent_of i),
        get_or-set_ne xs i (parent_of i) above e,
      )

  -- Pushing an entry adds exactly it.
  pub total-push : (xs : List A) (e : A) → total w (push compare xs e) ≡ total w xs + w e
  unfolding push total
  total-push xs e =
      let grown = xs ++ e ∷ [] in
      omega (
        arith,
        total-sift_up (length xs) grown e (length xs) (omega (arith, length-append xs (e ∷ []))),
        ap w (get_or-append_length xs e e),
        total-append w xs (e ∷ []),
      )

  total-sift_down :
      (f : ℕ) (xs : List A) (e : A) (i : ℕ)
      → i < length xs
      → total w (sift_down compare f xs e i) + w (get_or xs i e) ≡ total w xs + w e
  unfolding sift_down
  total-sift_down zero xs e i h = total-set w xs i e e h
  total-sift_down (suc f) xs e i h =
      let child = smaller_child compare xs e i in
      let value = get_or xs child e in
      ground (
        arith,
        total-set w xs i e e h,
        total-set w xs i value e h,
        length-set xs i value,
        total-sift_down f (set xs i value) e child,
        get_or-set_ne xs i child value e,
      )

  total-refill :
      (first : A) (x : A) (xs : List A) (last : A)
      → total w (refill compare first (x ∷ xs) last).1 + w x ≡ total w (x ∷ xs) + w last
  unfolding refill
  total-refill first x xs last = total-sift_down (suc (length xs)) (x ∷ xs) last 0 (omega arith)

  total-pop_pair :
      (y : A) (ys : List A)
      → total w (y ∷ ys)
        ≡ w y + total w (refill compare y (split_last y ys).0 (split_last y ys).1).1
  unfolding total split_last refill
  total-pop_pair y [] = refl
  total-pop_pair y (z ∷ zs) =
      let (init, last) = split_last z zs in
      omega (arith, total-refill y y init last, total-split_last w z zs)

  -- Popping removes exactly the item that it returns.
  pub total-pop :
      (xs : List A) (x : A) (rest : List A)
      → pop compare xs ≡ some (x, rest)
      → total w xs ≡ w x + total w rest
  unfolding pop
  total-pop [] x rest h = cc
  total-pop (y ∷ ys) x rest h =
      ground
        (arith, total-pop_pair y ys, refill_first compare y (split_last y ys).0 (split_last y ys).1)
