-- ===== src/SavePlan/Heap/Queue.antt =====
-- The heap as a priority queue: what `push` and `pop` promise to `stableTopologicalOrder`.
use Prim.Native.Nat.{Ordering}
use entitykit.Common.{ℕ, ◌+◌, ◌<◌, ◌≡◌, true, some, List, length, get_or}
use entitykit.SavePlan.Heap.{at_most, push, pop}
use entitykit.SavePlan.Heap.Content.{total, total-push, total-pop}
use entitykit.SavePlan.Heap.Order.{IsTotalOrder, IsHeap, push-IsHeap}
use entitykit.SavePlan.Heap.Least.{pop-IsHeap, pop-least}

module _ {A : Type 0} (compare : A → A → Ordering) (o : IsTotalOrder compare) where
  -- For a total order: pushing onto a heap leaves a heap that holds exactly the pushed item more.
  pub push_enqueues :
      (d : A) (xs : List A) (e : A)
      → IsHeap compare d xs
      → IsHeap compare d (push compare xs e)
        × ((w : A → ℕ) → total w (push compare xs e) ≡ total w xs + w e)
  push_enqueues d xs e h = (push-IsHeap compare o d xs e h, λ w. total-push compare w xs e)

  -- For a total order: what is popped from a heap is at most every item of it, and leaves a heap
  -- that holds exactly the others.
  pub pop_dequeues :
      (d : A) (xs : List A) (x : A) (rest : List A)
      → IsHeap compare d xs
      → pop compare xs ≡ some (x, rest)
      → IsHeap compare d rest
        × ((i : ℕ) → i < length xs → at_most (compare x (get_or xs i d)) ≡ true)
        × ((w : A → ℕ) → total w xs ≡ w x + total w rest)
  pop_dequeues d xs x rest h e = (
    pop-IsHeap compare o d xs x rest h e,
    pop-least compare o d xs x rest h e,
    λ w. total-pop compare w xs x rest e,
  )
