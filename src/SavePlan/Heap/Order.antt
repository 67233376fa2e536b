-- ===== src/SavePlan/Heap/Order.antt =====
-- The heap order: every item is at least its parent, `push` and `pop` keep it, and `pop` returns
-- a least item.
use Prim.Native.Nat.{Ordering}
use entitykit.Common.{
  ℕ, zero, suc, ◌≤◌, ◌<◌, ◌≡◌, ◌≢◌, refl, inl, inr, List, [], ◌∷◌, ◌++◌, arith, ltb, length, get_or,
  set, length-append, length-set, Bool-cases, true, false, not, ◌&&◌,
}
use entitykit.SavePlan.Heap.{at_most, below, parent_of, sift_up, push}
use entitykit.SavePlan.Heap.Content.{get_or-set_ne, get_or-set_self}

-- The laws of a comparison callback: a total preorder.
pub record IsTotalOrder {A : Type 0} (compare : A → A → Ordering) : Type 0 where
  pub turn : (a b : A) → at_most (compare a b) ≡ false → at_most (compare b a) ≡ true
  pub strict : (a b : A) → below (compare a b) ≡ not (at_most (compare b a))
  pub trans :
      (a b c : A)
      → at_most (compare a b) ≡ true
      → at_most (compare b c) ≡ true
      → at_most (compare a c) ≡ true

module _ {A : Type 0} (compare : A → A → Ordering) (d : A) where
  abbrev Le : A → A → Type 0
  Le a b = at_most (compare a b) ≡ true

  -- Items in the array, read with the default `d`.
  pub record IsHeap (xs : List A) : Type 0 where
    pub ordered :
        (i : ℕ)
        → 0 < i
        → i < length xs
        → at_most (compare (get_or xs (parent_of i) d) (get_or xs i d)) ≡ true

  -- What `sift_up` keeps: the order holds but for the hole at `k`, and `e` fits above its children.
  record IsRising (xs : List A) (e : A) (k : ℕ) : Type 0 where
    inside : k < length xs
    away :
        (i : ℕ)
        → 0 < i
        → i < length xs
        → i ≢ k
        → parent_of i ≢ k
        → at_most (compare (get_or xs (parent_of i) d) (get_or xs i d)) ≡ true
    under :
        (i : ℕ)
        → 0 < i
        → i < length xs
        → parent_of i ≡ k
        → at_most (compare e (get_or xs i d)) ≡ true
    past :
        (i : ℕ)
        → 0 < i
        → i < length xs
        → parent_of i ≡ k
        → 0 < k
        → at_most (compare (get_or xs (parent_of k) d) (get_or xs i d)) ≡ true

module _ {A : Type 0} (compare : A → A → Ordering) (o : IsTotalOrder compare) (d : A) where
  rise_settles :
      (xs : List A) (e : A) (k : ℕ)
      → IsRising compare d xs e k
      → (0 < k → at_most (compare (get_or xs (parent_of k) d) e) ≡ true)
      → IsHeap compare d (set xs k e)
  rise_settles xs e k r top = record {
    ordered = λ i p q. ground (
      arith,
      length-set xs k e,
      r.inside,
      get_or-set_self xs k e d,
      get_or-set_ne xs k i e d,
      get_or-set_ne xs k (parent_of i) e d,
      r.away i p,
      r.under i p,
      top,
    );
  }

  rise_steps :
      (xs : List A) (e : A) (k : ℕ)
      → IsRising compare d xs e k
      → 0 < k
      → at_most (compare (get_or xs (parent_of k) d) e) ≡ false
      → IsRising compare d (set xs k (get_or xs (parent_of k) d)) e (parent_of k)
  rise_steps xs e k r pos big =
      let p = parent_of k in
      let above = get_or xs p d in
      let fits = o.turn above e big in
      let pp : (0 < p → at_most (compare (get_or xs (parent_of p) d) above) ≡ true) =
        λ h. r.away p h (omega (arith, r.inside)) (omega arith) (omega arith) in
      record {
        inside = omega (arith, r.inside, length-set xs k above);
        away = λ i h1 h2 h3 h4. ground (
          arith,
          length-set xs k above,
          r.inside,
          get_or-set_self xs k above d,
          get_or-set_ne xs k i above d,
          get_or-set_ne xs k (parent_of i) above d,
          r.away i h1,
          r.past i h1,
        );
        under = λ i h1 h2 h3. ground (
          arith,
          length-set xs k above,
          r.inside,
          get_or-set_self xs k above d,
          get_or-set_ne xs k i above d,
          r.away i h1,
          o.trans e above (get_or xs i d),
          fits,
        );
        past = λ i h1 h2 h3 h4. ground (
          arith,
          length-set xs k above,
          r.inside,
          get_or-set_self xs k above d,
          get_or-set_ne xs k i above d,
          get_or-set_ne xs k (parent_of p) above d,
          pp,
          r.away i h1,
          o.trans (get_or xs (parent_of p) d) above (get_or xs i d),
        );
      }

-- `sift_up` reads with its own entry as the default.
module _ {A : Type 0} (compare : A → A → Ordering) (o : IsTotalOrder compare) where
  sift_up-IsHeap :
      (f : ℕ) (xs : List A) (e : A) (k : ℕ)
      → k ≤ f
      → IsRising compare e xs e k
      → IsHeap compare e (sift_up compare f xs e k)
  unfolding sift_up
  sift_up-IsHeap zero xs e k h r = rise_settles compare o e xs e k r (λ p. absurd (omega arith))
  sift_up-IsHeap (suc f) xs e k h r =
      elim (Bool-cases (ltb 0 k && not (at_most (compare (get_or xs (parent_of k) e) e)))) [
        | inl go ↦ rw go (
            sift_up-IsHeap f (set xs k (get_or xs (parent_of k) e)) e (parent_of k) (ground arith)
              (rise_steps compare o e xs e k r (ground arith) (ground arith)))
        | inr stop ↦ rw stop (rise_settles compare o e xs e k r (λ p. ground arith))
      ]

pub get_or-default :
    {A : Type 0} (xs : List A) (i : ℕ) (a b : A) → i < length xs → get_or xs i a ≡ get_or xs i b
get_or-default [] i a b h = absurd (omega arith)
get_or-default (x ∷ xs) zero a b h = refl
get_or-default (x ∷ xs) (suc i) a b h = get_or-default xs i a b (omega arith)

pub get_or-append :
    {A : Type 0} (xs ys : List A) (i : ℕ) (d : A)
    → i < length xs
    → get_or (xs ++ ys) i d ≡ get_or xs i d
get_or-append [] ys i d h = absurd (omega arith)
get_or-append (x ∷ xs) ys zero d h = refl
get_or-append (x ∷ xs) ys (suc i) d h = get_or-append xs ys i d (omega arith)

module _ {A : Type 0} (compare : A → A → Ordering) where
  pub IsHeap-default : (xs : List A) (a b : A) → IsHeap compare a xs → IsHeap compare b xs
  IsHeap-default xs a b h = record {
    ordered = λ i p q.
        rw (← get_or-default xs i a b q, ← get_or-default xs (parent_of i) a b (omega arith))
          (h.ordered i p q);
  }

module _ {A : Type 0} (compare : A → A → Ordering) (o : IsTotalOrder compare) where
  -- Pushing onto a heap gives a heap.
  pub push-IsHeap :
      (d : A) (xs : List A) (e : A) → IsHeap compare d xs → IsHeap compare d (push compare xs e)
  unfolding push
  push-IsHeap d xs e h =
      let n = length xs in
      let grown = xs ++ e ∷ [] in
      let h' = IsHeap-default compare xs d e h in
      IsHeap-default compare _ e d (
        sift_up-IsHeap compare o n grown e n (omega arith) (record {
          inside = omega (arith, length-append xs (e ∷ []));
          away = λ i p q ne pne. ground (
            arith,
            length-append xs (e ∷ []),
            get_or-append xs (e ∷ []) i e,
            get_or-append xs (e ∷ []) (parent_of i) e,
            h'.ordered i p,
          );
          under = λ i p q c. absurd (omega (arith, length-append xs (e ∷ [])));
          past = λ i p q c k. absurd (omega (arith, length-append xs (e ∷ [])));
        }))
