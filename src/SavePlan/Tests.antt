-- ===== src/SavePlan/Tests.antt =====
-- The order of a save, on small inputs.
use entitykit.SavePlan.Heap.Queue.{push_enqueues, pop_dequeues}
use Prim.Native.Nat
use Prim.Native.Nat.{Ordering}
use entitykit.Common.{
  length, ℕ, zero, suc, ◌-◌, ◌≡◌, ◌<◌, ◌⊎◌, refl, arith, true, false, none, some, List, [], ◌∷◌,
  if◌then◌else◌, ◌==◌, nat_eq, ◌+◌, add, delete, if_either, has, ℤ, pos, inl, inr, get_or,
}
use entitykit.SavePlan.Heap.{push, pop, at_most, parent_of}
use entitykit.SavePlan.Heap.Order.{IsTotalOrder, IsHeap}
use entitykit.SavePlan.Heap.Content.{total}
use entitykit.SavePlan.Topology.{stable_topological_order, set_from}
use entitykit.SavePlan.Topology.Membership.{Distinct}
use entitykit.SavePlan.Topology.Release.{indegree}
use entitykit.SavePlan.Topology.Complete.{stable_topological_order-total}
use entitykit.SavePlan.Topology.Dependencies.{
  IsAcyclic, Respects, stable_topological_order-Respects,
}
use entitykit.SavePlan.Entries.{
  Relationship, Snapshots, added, build, edges, displace_entries, displace_all, link_entries,
  link_all, link, add_edge,
}

nat_order-IsTotalOrder : IsTotalOrder Nat.compare
nat_order-IsTotalOrder = record {
  turn = λ a b h. ground (arith, h);
  strict = λ a b. ground arith;
  trans = λ a b c h k. ground (arith, h, k);
}

two_items-IsHeap : IsHeap Nat.compare 0 (1 ∷ 2 ∷ [])
two_items-IsHeap = record { ordered = λ i p q. two i p q }
  where
    two :
        (i : ℕ)
        → 0 < i
        → i < 2
        → at_most
            (Nat.compare (get_or (1 ∷ 2 ∷ []) (parent_of i) 0) (get_or {A = ℕ} (1 ∷ 2 ∷ []) i 0))
          ≡ true
    two zero p q = absurd (omega (arith, p))
    two (suc zero) p q = refl
    two (suc (suc i)) p q = absurd (omega (arith, q))

popped : pop Nat.compare (1 ∷ 2 ∷ []) ≡ some (1, 2 ∷ [])
unfolding pop
popped = refl

push_enqueues_example :
    IsHeap Nat.compare 0 (push Nat.compare (1 ∷ 2 ∷ []) 0)
    × ((w : ℕ → ℕ) → total w (push Nat.compare (1 ∷ 2 ∷ []) 0) ≡ total w (1 ∷ 2 ∷ []) + w 0)
push_enqueues_example =
    push_enqueues Nat.compare nat_order-IsTotalOrder 0 (1 ∷ 2 ∷ []) 0 two_items-IsHeap

pop_dequeues_example :
    IsHeap Nat.compare 0 (2 ∷ [])
    × ((i : ℕ)
        → i < length {A = ℕ} (1 ∷ 2 ∷ [])
        → at_most (Nat.compare 1 (get_or {A = ℕ} (1 ∷ 2 ∷ []) i 0)) ≡ true)
    × ((w : ℕ → ℕ) → total w (1 ∷ 2 ∷ []) ≡ w 1 + total w (2 ∷ []))
pop_dequeues_example =
    pop_dequeues Nat.compare nat_order-IsTotalOrder 0 (1 ∷ 2 ∷ []) 1 (2 ∷ []) two_items-IsHeap
      popped

-- The edge from 1 to 0.
abbrev one_edge : ℕ → List ℕ
one_edge u = if u == 1 then 0 ∷ [] else []

abbrev one_count : ℕ → ℤ
one_count v = if v == 0 then pos 1 else pos 0

ordered_pair :
    stable_topological_order (0 ∷ 1 ∷ []) one_edge one_count Nat.compare ≡ some (1 ∷ 0 ∷ [])
unfolding stable_topological_order set_from add push pop delete
ordered_pair = refl

stable_topological_order-total_example :
    (es : List ℕ) × (stable_topological_order (0 ∷ 1 ∷ []) one_edge one_count Nat.compare ≡ some es)
    × ((wt : ℕ → ℕ) → total wt es ≡ total wt (set_from [] (0 ∷ 1 ∷ [])))
stable_topological_order-total_example =
    stable_topological_order-total (0 ∷ 1 ∷ []) one_edge one_count Nat.compare

either_of : (u : ℕ) → has (0 ∷ 1 ∷ []) u ≡ true → (u ≡ 0) ⊎ (u ≡ 1)
unfolding has
either_of u h = ground (arith, h)

one_falls :
    (u v : ℕ) → (u ≡ 0) ⊎ (u ≡ 1) → (v ≡ 0) ⊎ (v ≡ 1) → has (one_edge u) v ≡ true → 1 - u < 1 - v
unfolding has
one_falls u v h k e = ground (arith, h, k, e)

one_edge-IsAcyclic : IsAcyclic (0 ∷ 1 ∷ []) one_edge one_count (λ n. 1 - n)
unfolding set_from add has indegree total
one_edge-IsAcyclic = record {
  sets = λ u. if_either Distinct (u == 1) (0 ∷ []) [] (λ _. (refl, tt)) (λ _. tt);
  counts = λ v h. elim (either_of v h) [ inl e ↦ rw e refl | inr e ↦ rw e refl ];
  falls = λ u v h k e. one_falls u v (either_of u h) (either_of v k) e;
}

stable_topological_order-Respects_example : Respects one_edge (1 ∷ 0 ∷ [])
stable_topological_order-Respects_example =
    stable_topological_order-Respects (0 ∷ 1 ∷ []) one_edge one_count Nat.compare (λ n. 1 - n)
      (1 ∷ 0 ∷ []) one_edge-IsAcyclic ordered_pair

abbrev parent : Relationship
parent = record { id = 0; one_to_one = false; foreign_key = 0 ∷ [] }

-- Two added snapshots; 0 refers to 1.
abbrev pair : Snapshots
pair = record {
  state = λ _. added;
  entry_state = λ _. added;
  metadata = λ n. n;
  relationships = λ n. if n == 0 then parent ∷ [] else [];
  principal = λ r d f. if d == 0 then some 1 else none;
  same_value = λ a b c d p. false;
}

none_here : false ≡ true → ⊥
none_here h = cc

zero_only : (v : ℕ) → v ≡ 1 → has (0 ∷ []) v ≡ true → ⊥
unfolding has
zero_only v q h = ground (arith, q, h)

falls :
    (u v : ℕ)
    → (u ≡ 0) ⊎ (u ≡ 1)
    → (v ≡ 0) ⊎ (v ≡ 1)
    → has (edges (build pair (0 ∷ 1 ∷ [])) u) v ≡ true
    → 1 - u < 1 - v
unfolding has build displace_entries displace_all link_entries link_all link add_edge add
falls u v (inl p) (inl q) e = absurd (none_here (rw p at e))
falls u v (inl p) (inr q) e = absurd (none_here (rw p at e))
falls u v (inr p) (inl q) e = omega (arith, p, q)
falls u v (inr p) (inr q) e = absurd (zero_only v q (rw p at e))
