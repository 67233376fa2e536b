-- ===== src/Restoration/Flatten.antt =====
-- The flattening of failures ends, also where aggregates contain themselves.
use entitykit.Common.{
  ◌⊎◌, ℕ, zero, suc, ◌≤◌, ◌<◌, ◌≡◌, refl, arith, true, false, ◌+◌, List, [], ◌∷◌, ◌++◌,
  if◌then◌else◌, nat_eq, has, ==_iff, Bool-cases, inl, inr, ap,
}
use entitykit.Restoration.{
  Pushed, Inspected, Shape, plain, opaque, aggregate, inspect_failure, Recorded, failure,
  uninspectable, append_each, append_flattened,
}

-- How many of the listed failures are not visited.
abbrev pub unvisited : List ℕ → List ℕ → ℕ
unvisited visited [] = 0
unvisited visited (x ∷ xs) = (if has visited x then 0 else 1) + unvisited visited xs

unvisited_least :
    (visited : List ℕ) (f : ℕ) (xs : List ℕ) → unvisited (f ∷ visited) xs ≤ unvisited visited xs
unfolding has
unvisited_least visited f [] = omega arith
unvisited_least visited f (x ∷ xs) = ground (arith, unvisited_least visited f xs)

unvisited_less :
    (visited : List ℕ) (f : ℕ) (xs : List ℕ)
    → has xs f ≡ true
    → has visited f ≡ false
    → unvisited (f ∷ visited) xs < unvisited visited xs
unfolding has
unvisited_less visited f [] h n = cc
unvisited_less visited f (x ∷ xs) h n = ground (
  arith,
  unvisited_less visited f xs,
  unvisited_least visited f xs,
  ==_iff x f,
  ==_iff f x,
  ap (has visited) {x = x} {y = f},
)

append_each_ends :
    (flatten : ℕ → Pushed)
    → ((m : ℕ) → (r : List Recorded) × (flatten m ≡ (r, true)))
    → (ms : List ℕ) → (r : List Recorded) × (append_each flatten ms ≡ (r, true))
unfolding append_each
append_each_ends flatten h [] = ([], refl)
append_each_ends flatten h (m ∷ ms) =
    let (r, e) = h m in let (rs, es) = append_each_ends flatten h ms in (r ++ rs, rw (e, es) refl)

Shape-cases : (s : Shape) → (s ≡ plain) ⊎ ((s ≡ opaque) ⊎ ((ms : List ℕ) × (s ≡ aggregate ms)))
Shape-cases plain = inl refl
Shape-cases opaque = inr (inl refl)
Shape-cases (aggregate ms) = inr (inr (ms, refl))

module _ (inspect : ℕ → Inspected) (aggregates : List ℕ)
    (listed : (f : ℕ) (ms : List ℕ)
      → inspect_failure (inspect f) ≡ aggregate ms
      → has aggregates f ≡ true) where
  -- If the aggregates are all listed, then flattening ends with one unit of fuel more than there
  -- are listed failures that are not visited, whatever aggregates contain.
  pub append_flattened_ends :
      (fuel : ℕ) (visited : List ℕ) (f : ℕ)
      → unvisited visited aggregates < fuel
      → (r : List Recorded) × (append_flattened inspect fuel visited f ≡ (r, true))
  unfolding append_flattened
  append_flattened_ends zero visited f h = absurd (omega (arith, h))
  append_flattened_ends (suc fuel) visited f h = elim (Shape-cases (inspect_failure (inspect f))) [
    | inl q ↦ (failure f ∷ [], rw (append_flattened, q) refl)
    | inr (inl q) ↦ (uninspectable f ∷ [], rw (append_flattened, q) refl)
    | inr (inr (ms, q)) ↦ elim (Bool-cases (has visited f)) [
      | inl v ↦ (failure f ∷ [], rw (append_flattened, q, v) refl)
      | inr v ↦
          let (r, e) =
            append_each_ends (append_flattened inspect fuel (f ∷ visited))
              (λ m.
                append_flattened_ends fuel (f ∷ visited) m
                  (omega (arith, h, unvisited_less visited f aggregates (listed f ms q) v)))
              ms in
          (r, rw (append_flattened, q, v) e)
    ]
  ]
