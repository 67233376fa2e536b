-- ===== src/SavePlan/Heap/Least.antt =====
-- `pop` keeps the heap order and returns a least item.
use Prim.Native.Nat.{Ordering}
use mathlib.Core.Path.{subst}
use entitykit.Common.{
  ℕ, zero, suc, ◌+◌, ◌*◌, ◌≤◌, ◌<◌, ◌≡◌, ◌≢◌, ◌⊎◌, refl, ap, inl, inr, some, List, [], ◌∷◌, ◌++◌,
  arith, leb, length, get_or, set, length-append, length-set, Bool-cases, true, false,
}
use entitykit.SavePlan.Heap.{at_most, parent_of, split_last, smaller_child, sift_down, refill, pop}
use entitykit.SavePlan.Heap.Content.{get_or-set_ne, get_or-set_self, refill_first}
use entitykit.SavePlan.Heap.Order.{IsTotalOrder, IsHeap, IsHeap-default, get_or-append}

-- What `sift_down` keeps: the order holds but for the hole at `k`, and `e` fits below its parent.
record IsSinking {A : Type 0} (compare : A → A → Ordering) (xs : List A) (e : A) (k : ℕ)
    : Type 0 where
  inside : k < length xs
  away :
      (i : ℕ)
      → 0 < i
      → i < length xs
      → i ≢ k
      → parent_of i ≢ k
      → at_most (compare (get_or xs (parent_of i) e) (get_or xs i e)) ≡ true
  past :
      (i : ℕ)
      → 0 < i
      → i < length xs
      → parent_of i ≡ k
      → 0 < k
      → at_most (compare (get_or xs (parent_of k) e) (get_or xs i e)) ≡ true
  above : 0 < k → at_most (compare (get_or xs (parent_of k) e) e) ≡ true

module _ {A : Type 0} (compare : A → A → Ordering) (o : IsTotalOrder compare) where
  at_most_refl : (a : A) → at_most (compare a a) ≡ true
  at_most_refl a = elim (Bool-cases (at_most (compare a a))) [ inl h ↦ h | inr h ↦ o.turn a a h ]

  module _ (xs : List A) (e : A) (k : ℕ) (room : k * 2 + 1 < length xs) where
    smaller_child_range :
        (k * 2 + 1 ≤ smaller_child compare xs e k)
        × (smaller_child compare xs e k ≤ k * 2 + 2)
        × (smaller_child compare xs e k < length xs)
    unfolding smaller_child
    smaller_child_range = ground arith

    -- The chosen child is at most every child.
    smaller_child_least :
        (i : ℕ)
        → 0 < i
        → i < length xs
        → parent_of i ≡ k
        → at_most (compare (get_or xs (smaller_child compare xs e k) e) (get_or xs i e)) ≡ true
    unfolding smaller_child
    smaller_child_least i p q c =
        let l = get_or xs (k * 2 + 1) e in
        let r = get_or xs (k * 2 + 1 + 1) e in
        elim (split) [
          | inl e1 ↦
              rw e1 (ground (arith, at_most_refl l, at_most_refl r, o.strict r l, o.turn l r))
          | inr e2 ↦
              rw e2 (ground (arith, at_most_refl l, at_most_refl r, o.strict r l, o.turn l r))
        ]
      where
        split : (i ≡ k * 2 + 1) ⊎ (i ≡ k * 2 + 1 + 1)
        split = grind arith

  sink_settles :
      (xs : List A) (e : A) (k : ℕ)
      → IsSinking compare xs e k
      → ((i : ℕ)
          → 0 < i
          → i < length xs
          → parent_of i ≡ k
          → at_most (compare e (get_or xs i e)) ≡ true)
      → IsHeap compare e (set xs k e)
  sink_settles xs e k r low = record {
    ordered = λ i p q. ground (
      arith,
      length-set xs k e,
      r.inside,
      get_or-set_self xs k e e,
      get_or-set_ne xs k i e e,
      get_or-set_ne xs k (parent_of i) e e,
      r.away i p,
      low i p,
      r.above,
    );
  }

  sink_steps :
      (xs : List A) (e : A) (k c : ℕ)
      → IsSinking compare xs e k
      → 0 < c
      → c < length xs
      → parent_of c ≡ k
      → ((i : ℕ)
          → 0 < i
          → i < length xs
          → parent_of i ≡ k
          → at_most (compare (get_or xs c e) (get_or xs i e)) ≡ true)
      → at_most (compare e (get_or xs c e)) ≡ false
      → IsSinking compare (set xs k (get_or xs c e)) e c
  sink_steps xs e k c r pos inside parent least big =
      let v = get_or xs c e in
      record {
        inside = omega (arith, length-set xs k v);
        away = λ i h1 h2 h3 h4. ground (
          arith,
          length-set xs k v,
          r.inside,
          get_or-set_self xs k v e,
          get_or-set_ne xs k i v e,
          get_or-set_ne xs k (parent_of i) v e,
          r.away i h1,
          r.past c pos inside parent,
          least i h1,
        );
        past = λ i h1 h2 h3 h4. ground (
          arith,
          length-set xs k v,
          r.inside,
          get_or-set_self xs k v e,
          get_or-set_ne xs k i v e,
          r.away i h1,
        );
        above = λ h. rw (parent, get_or-set_self xs k v e r.inside) (o.turn e v big);
      }

  sift_down-IsHeap :
      (f : ℕ) (xs : List A) (e : A) (k : ℕ)
      → length xs ≤ k + f
      → IsSinking compare xs e k
      → IsHeap compare e (sift_down compare f xs e k)
  unfolding sift_down
  sift_down-IsHeap zero xs e k h r = absurd (omega (arith, r.inside))
  sift_down-IsHeap (suc f) xs e k h r =
      let c = smaller_child compare xs e k in
      let v = get_or xs c e in
      elim (Bool-cases (leb (length xs) (k * 2 + 1))) [
        | inl full ↦ rw full (sink_settles xs e k r (λ i p q s. absurd (ground arith)))
        | inr room ↦
            let (low, high, within) = smaller_child_range xs e k (ground arith) in
            let least = smaller_child_least xs e k (ground arith) in
            elim (Bool-cases (at_most (compare e v))) [
              | inl rest ↦
                  rw (room, rest)
                    (sink_settles xs e k r
                      (λ i p q s. o.trans e v (get_or xs i e) rest (least i p q s)))
              | inr go ↦
                  rw (room, go)
                    (sift_down-IsHeap f (set xs k v) e c (omega (arith, length-set xs k v))
                      (sink_steps xs e k c r (omega arith) within (omega arith) least go))
            ]
      ]

  -- The root of a heap is at most every item.
  pub root-at_most :
      (d : A) (xs : List A)
      → IsHeap compare d xs
      → (fuel i : ℕ) → i ≤ fuel
      → i < length xs
      → at_most (compare (get_or xs 0 d) (get_or xs i d)) ≡ true
  root-at_most d xs h fuel zero p q = at_most_refl (get_or xs 0 d)
  root-at_most d xs h zero (suc i) p q = absurd (omega arith)
  root-at_most d xs h (suc fuel) (suc i) p q =
      o.trans (get_or xs 0 d) (get_or xs (parent_of (suc i)) d) (get_or xs (suc i) d)
        (root-at_most d xs h fuel (parent_of (suc i)) (omega arith) (omega arith))
        (h.ordered (suc i) (omega arith) q)

  split_last-append :
      (x : A) (xs : List A) → (split_last x xs).0 ++ (split_last x xs).1 ∷ [] ≡ x ∷ xs
  unfolding split_last
  split_last-append x [] = refl
  split_last-append x (y ∷ ys) = ap (λ l. x ∷ l) (split_last-append y ys)

  -- What is left after the last item is taken off is in order.
  init-IsHeap :
      (d : A) (init : List A) (l : A) → IsHeap compare d (init ++ l ∷ []) → IsHeap compare d init
  init-IsHeap d init l h = record {
    ordered = λ i p q.
        rw
          (
            ← get_or-append init (l ∷ []) i d q,
            ← get_or-append init (l ∷ []) (parent_of i) d (omega arith),
          )
          (h.ordered i p (omega (arith, length-append init (l ∷ []))));
  }

  refill-IsHeap :
      (d first : A) (init : List A) (last : A)
      → IsHeap compare d init
      → IsHeap compare d (refill compare first init last).1
  unfolding refill
  refill-IsHeap d first [] last h = record { ordered = λ i p q. absurd (omega arith) }
  refill-IsHeap d first (x ∷ xs) last h =
      let h' = IsHeap-default compare (x ∷ xs) d last h in
      IsHeap-default compare _ last d (
        sift_down-IsHeap (suc (length xs)) (x ∷ xs) last 0 (omega arith) (record {
          inside = omega arith;
          away = λ i p q ne pne. h'.ordered i p q;
          past = λ i p q c k. absurd (omega arith);
          above = λ k. absurd (omega arith);
        }))

  -- Popping a heap leaves a heap.
  pub pop-IsHeap :
      (d : A) (xs : List A) (x : A) (rest : List A)
      → IsHeap compare d xs
      → pop compare xs ≡ some (x, rest)
      → IsHeap compare d rest
  unfolding pop
  pop-IsHeap d [] x rest h e = cc
  pop-IsHeap d (y ∷ ys) x rest h e =
      let (init, last) = split_last y ys in
      let kept = refill-IsHeap d y init last (init-IsHeap d init last (rw split_last-append h)) in
      subst (λ l. IsHeap compare d l) (ground arith) kept

  -- It returns an item that is at most every item that was there.
  pub pop-least :
      (d : A) (xs : List A) (x : A) (rest : List A)
      → IsHeap compare d xs
      → pop compare xs ≡ some (x, rest)
      → (i : ℕ) → i < length xs
      → at_most (compare x (get_or xs i d)) ≡ true
  unfolding pop
  pop-least d [] x rest h e i q = cc
  pop-least d (y ∷ ys) x rest h e i q = ground (
    arith,
    root-at_most d (y ∷ ys) h i i (omega arith) q,
    refill_first compare y (split_last y ys).0 (split_last y ys).1,
  )
