-- ===== src/SavePlan/Heap.antt =====
-- `BinaryMinHeap` of packages/core/src/core/save-plan/stable-topological-order.ts. The array
-- `items` is a list; a comparison is the sign of the number that the source's callback returns.
-- Every index that the loops read or write lies in the array, so the default of `get_or`, which
-- is the entry at hand, is never the result.
pub mod Content
pub mod Order
pub mod Least
pub mod Queue
use Prim.Native.Nat.{Ordering}
use entitykit.Common.{
  ℕ, zero, suc, ◌+◌, ◌-◌, ◌*◌, ◌/◌, Bool, true, false, not, ◌&&◌, ◌||◌, Option, none, some, List,
  [], ◌∷◌, ◌++◌, ltb, leb, if◌then◌else◌, length, get_or, set,
}

-- `compare(a, b) <= 0`
abbrev pub at_most : Ordering → Bool
at_most Ordering.gt = false
at_most _ = true

-- `compare(a, b) < 0`
abbrev pub below : Ordering → Bool
below Ordering.lt = true
below _ = false

abbrev pub parent_of : ℕ → ℕ
parent_of index = (index - 1) / 2

-- `this.items.pop()` of a non-empty array: what is left, and the last item.
pub split_last : {A : Type 0} → A → List A → List A × A
split_last x [] = ([], x)
split_last x (y ∷ ys) = let (init, last) = split_last y ys in (x ∷ init, last)

module _ {A : Type 0} (compare : A → A → Ordering) where
  -- The loop of `push`. Each round moves to the parent, so `index` rounds are enough.
  pub sift_up : ℕ → List A → A → ℕ → List A
  sift_up zero items entry index = set items index entry
  sift_up (suc fuel) items entry index =
      let above = get_or items (parent_of index) entry in
      let moved = sift_up fuel (set items index above) entry (parent_of index) in
      if ltb 0 index && not (at_most (compare above entry)) then moved else set items index entry

  unfoldable pub push : List A → A → List A
  unfolding sift_up
  push items entry = sift_up (length items) (items ++ entry ∷ []) entry (length items)

  -- The smaller of the two children of `index`, the left one if there is no right one.
  unfoldable pub smaller_child : List A → A → ℕ → ℕ
  smaller_child items last index =
      let left = index * 2 + 1 in
      let right = left + 1 in
      if ltb right (length items)
        && below (compare (get_or items right last) (get_or items left last))
      then right
      else left

  -- The loop of `pop`. Each round goes down to a child, so the length of the array is enough.
  pub sift_down : ℕ → List A → A → ℕ → List A
  unfolding smaller_child
  sift_down zero items last index = set items index last
  sift_down (suc fuel) items last index =
      let child = smaller_child items last index in
      let value = get_or items child last in
      let moved = sift_down fuel (set items index value) last child in
      if leb (length items) (index * 2 + 1) || at_most (compare last value)
      then set items index last
      else moved

  -- The rest of `pop`, once the last item is taken off: `init` is what is left of the array.
  pub refill : A → List A → A → A × List A
  unfolding sift_down
  refill first [] last = (first, [])
  refill first (x ∷ xs) last = (first, sift_down (suc (length xs)) (x ∷ xs) last 0)

  -- `none` is the error on an empty heap.
  unfoldable pub pop : List A → Option (A × List A)
  unfolding refill split_last
  pop [] = none
  pop (first ∷ rest) = let (init, last) = split_last first rest in some (refill first init last)
