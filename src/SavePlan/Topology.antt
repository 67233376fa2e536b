-- ===== src/SavePlan/Topology.antt =====
-- `stableTopologicalOrder` and `takeRemaining` of
-- packages/core/src/core/save-plan/stable-topological-order.ts. An entry is the number of its
-- object; the maps `outgoing` and `incoming` are functions, whose value at a missing key is the
-- source's default (`?? []` and `?? 0`).
pub mod Membership
pub mod Complete
pub mod Release
pub mod Dependencies
use Prim.Native.Nat.{Ordering}
use Prim.Native.Nat
use entitykit.Common.{
  ℕ, zero, suc, Bool, true, false, ◌&&◌, Option, none, some, List, [], ◌∷◌, ◌++◌, if◌then◌else◌,
  ◌==◌, nat_eq, length, has, add, delete, ℤ, decrement, is_zero,
}
use entitykit.SavePlan.Heap.{push, pop}

-- JavaScript's `a || b` on the numbers that comparisons return.
abbrev pub or_else : Ordering → Ordering → Ordering
or_else Ordering.eq b = b
or_else a b = a

-- `inputRank.get(entry) ?? 0`: the index of the first occurrence.
pub rank_from : ℕ → List ℕ → ℕ → ℕ
rank_from index [] entry = 0
rank_from index (x ∷ xs) entry =
    let later = rank_from (suc index) xs entry in if x == entry then index else later

unfoldable pub stable_compare : (ℕ → ℕ → Ordering) → List ℕ → ℕ → ℕ → Ordering
unfolding rank_from
stable_compare compare entries left right =
    or_else (compare left right)
      (Nat.compare (rank_from 0 entries left) (rank_from 0 entries right))

-- `new Set(entries)`
unfoldable pub set_from : List ℕ → List ℕ → List ℕ
set_from s [] = s
set_from s (x ∷ xs) = set_from (add s x) xs

pub record Walk : Type 0 where
  pub ready : List ℕ
  pub fallback : List ℕ
  pub remaining : List ℕ
  pub incoming : ℕ → ℤ
  pub ordered : List ℕ

abbrev pub start : List ℕ → (ℕ → ℤ) → Walk
start entries incoming = record {
  ready = [];
  fallback = [];
  remaining = set_from [] entries;
  incoming = incoming;
  ordered = [];
}

abbrev pub set_count : (ℕ → ℤ) → ℕ → ℤ → ℕ → ℤ
set_count counts entry count other = if entry == other then count else counts other

module _ (compare : ℕ → ℕ → Ordering) where
  -- The loop pops one item in each round: the size of the heap is enough fuel.
  pub take_remaining : ℕ → List ℕ → List ℕ → Option ℕ × List ℕ
  take_remaining zero heap remaining = (none, heap)
  take_remaining (suc fuel) heap remaining = elim (pop compare heap) [
    | none ↦ (none, heap)
    | some (next, rest) ↦ elim (has remaining next) [
      | true ↦ (some next, rest)
      | false ↦ take_remaining fuel rest remaining
    ]
  ]

  -- `takeRemaining(ready, remaining) ?? takeRemaining(fallback, remaining)`
  pub choose : Walk → Option ℕ × Walk
  unfolding take_remaining
  choose w =
      let (next, ready) = take_remaining (length w.ready) w.ready w.remaining in
      elim next [
        | some entry ↦ (some entry, record w { ready = ready })
        | none ↦
            let (other, fallback) = take_remaining (length w.fallback) w.fallback w.remaining in
            (other, record w { ready = ready; fallback = fallback })
      ]

  -- The loop over the dependents of the entry that was taken.
  pub release : List ℕ → Walk → Walk
  release [] w = w
  release (dependent ∷ rest) w =
      let count = decrement (w.incoming dependent) in
      release rest (record w {
        incoming = set_count w.incoming dependent count;
        ready =
            if is_zero count && has w.remaining dependent
            then push compare w.ready dependent
            else w.ready;
      })

  pub advance : (ℕ → List ℕ) → ℕ → Walk → Walk
  unfolding release
  advance outgoing next w =
      release (outgoing next)
        (record w { remaining = delete w.remaining next; ordered = w.ordered ++ next ∷ [] })

  -- `while (remaining.size > 0)`. Each round deletes an entry; `none` is the error
  -- 'Save dependency graph lost a tracked entry.', or that the fuel ran out.
  pub walk : (ℕ → List ℕ) → ℕ → Walk → Option (List ℕ)
  walk outgoing zero w = none
  walk outgoing (suc fuel) w = elim w.remaining [
    | [] ↦ some w.ordered
    | _ ∷ _ ↦
        let (next, w') = choose w in
        elim next [ none ↦ none | some entry ↦ walk outgoing fuel (advance outgoing entry w') ]
  ]

  -- The loop that fills the two heaps.
  pub fill : List ℕ → Walk → Walk
  fill [] w = w
  fill (entry ∷ rest) w = fill rest (record w {
    fallback = push compare w.fallback entry;
    ready = if is_zero (w.incoming entry) then push compare w.ready entry else w.ready;
  })

unfoldable pub stable_topological_order :
    List ℕ → (ℕ → List ℕ) → (ℕ → ℤ) → (ℕ → ℕ → Ordering) → Option (List ℕ)
unfolding walk choose advance fill stable_compare
stable_topological_order entries outgoing incoming compare =
    let ordering = stable_compare compare entries in
    walk ordering outgoing (suc (length entries)) (fill ordering entries (start entries incoming))
