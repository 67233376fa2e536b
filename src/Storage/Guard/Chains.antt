-- ===== src/Storage/Guard/Chains.antt =====
-- The chains of scopes end, and the search along them finds a guard's scope if it is there.
use entitykit.Common.{
  ◌∙◌, ◌<◌, ℕ, zero, suc, ◌≡◌, refl, sym, arith, Bool, true, false, Option, none, some, List, [],
  ◌∷◌, ◌++◌, if◌then◌else◌, ◌==◌, nat_eq, ==_iff, get, length, get_elem?, Bool-cases, Option-cases,
  inl, inr,
}
use entitykit.Storage.Guard.{
  parent_in, Scope, Guards, current_scope, begin_run, starts, end_run, end_query, begin_stream,
  end_stream, deactivated, with_query,
}
use entitykit.Storage.Guard.{find_scope, active_parent}
use entitykit.Storage.Guard.Tasks.{
  World, Step, operation_starts, operation_ends, query_starts, query_ends, stream_starts,
  stream_ends, Reachable, initial, then_step,
}
use entitykit.Storage.Guard.Flags.{get-set}
use entitykit.Common.{◌↔◌}
use entitykit.Storage.Guard.{parent_in, is_active_in}
use entitykit.Storage.Guard.Exclusion.{begin_query-eq}

-- `d` is `c` or one of its ancestors.
pub data Chain (scopes : List Scope) : ℕ → ℕ → Type 0 where
  here : (c : ℕ) → Chain scopes c c
  up : {c p d : ℕ} → parent_in (get_elem? scopes c) ≡ some p → Chain scopes p d → Chain scopes c d

-- A parent stands before its child.
abbrev pub IsChained : List Scope → Type 0
IsChained scopes = (c p : ℕ) → parent_in (get_elem? scopes c) ≡ some p → p < c

active_range : (xs : List Scope) (c : ℕ) → is_active_in (get_elem? xs c) ≡ true → c < length xs
active_range [] c h = cc
active_range (x ∷ xs) zero h = omega arith
active_range (x ∷ xs) (suc c) h = omega (arith, active_range xs c h)

active_parent-range :
    (fuel : ℕ) (scopes : List Scope) (o : Option ℕ) (p : ℕ)
    → active_parent fuel scopes o ≡ some p
    → p < length scopes
unfolding active_parent
active_parent-range zero scopes o p h = cc
active_parent-range (suc fuel) scopes none p h = cc
active_parent-range (suc fuel) scopes (some c) p h = ground (
  arith,
  h,
  active_range scopes c,
  active_parent-range fuel scopes (parent_in (get_elem? scopes c)) p,
)

parent_append :
    (xs : List Scope) (x : Scope) (c : ℕ)
    → parent_in (get_elem? (xs ++ x ∷ []) c)
      ≡ (if c == length xs then x.parent else parent_in (get_elem? xs c))
parent_append [] x zero = refl
parent_append [] x (suc c) = ground arith
parent_append (y ∷ xs) x zero = ground arith
parent_append (y ∷ xs) x (suc c) = ground (arith, parent_append xs x c)

parent_deactivated :
    (xs : List Scope) (c d : ℕ)
    → parent_in (get_elem? (deactivated (get_elem? xs c) xs c) d) ≡ parent_in (get_elem? xs d)
parent_deactivated xs c d = elim (Option-cases (get_elem? xs c)) [
  | inl q ↦ rw q refl
  | inr (x, q) ↦ rw q (ground (arith, q, get-set xs c d (record x { active = false }), ==_iff c d))
]

parent_with_query :
    (xs : List Scope) (c d : ℕ) (b : Bool)
    → parent_in (get_elem? (with_query (get_elem? xs c) xs c b) d) ≡ parent_in (get_elem? xs d)
parent_with_query xs c d b = elim (Option-cases (get_elem? xs c)) [
  | inl q ↦ rw q refl
  | inr (x, q) ↦
      rw q (ground (arith, q, get-set xs c d (record x { query_in_progress = b }), ==_iff c d))
]

begin_run-parent :
    (s : Guards) (g : ℕ) (store : Option ℕ) (t : Guards) (c : ℕ)
    → begin_run s g store ≡ starts t c
    → (x : Scope) × (x.parent ≡ active_parent (suc (length s.scopes)) s.scopes store)
      × (t.scopes ≡ s.scopes ++ x ∷ [])
unfolding begin_run
begin_run-parent s g store t c h = elim (Option-cases (current_scope s g store)) [
  | inr (d, q) ↦ cc (rw (begin_run, q) at h)
  | inl q ↦ elim (Option-cases (get s.tokens g)) [
    | inr (d, r) ↦ cc (rw (begin_run, q, r) at h)
    | inl r ↦
        let i = rw (begin_run, q, r) at h in
        (
          record {
            parent = active_parent (suc (length s.scopes)) s.scopes store;
            active = true;
            query_in_progress = false;
          },
          refl,
          cc i,
        )
  ]
]

begin_stream-parent :
    (s : Guards) (g : ℕ) (t : Guards) (c : ℕ)
    → begin_stream s g ≡ starts t c
    → (x : Scope) × (x.parent ≡ none) × (t.scopes ≡ s.scopes ++ x ∷ [])
unfolding begin_stream
begin_stream-parent s g t c h = elim (Option-cases (get s.tokens g)) [
  | inr (d, r) ↦ cc (rw (begin_stream, r) at h)
  | inl r ↦
      let i = rw (begin_stream, r) at h in
      (record { parent = none; active = false; query_in_progress = true }, refl, cc i)
]

Step-Chained :
    {awaits : Bool} {w v : World}
    → Step awaits w v
    → IsChained w.guards.scopes
    → IsChained v.guards.scopes
unfolding end_run end_query end_stream
Step-Chained (operation_starts w g store s c h) inv i p q =
    let (x, e, l) = begin_run-parent w.guards g store s c h in
    ground (
      arith,
      rw l at q,
      parent_append w.guards.scopes x i,
      e,
      inv i p,
      active_parent-range (suc (length w.guards.scopes)) w.guards.scopes store p,
      ==_iff i (length w.guards.scopes),
    )
Step-Chained (stream_starts w g store s c m h) inv i p q =
    let (x, e, l) = begin_stream-parent w.guards g s c h in
    ground (arith, rw l at q, parent_append w.guards.scopes x i, e, inv i p)
Step-Chained (operation_ends w g c before after e a) inv i p q =
    inv i p (sym (parent_deactivated w.guards.scopes c i) ∙ q)
Step-Chained (stream_ends w g c before after e) inv i p q =
    inv i p (sym (parent_with_query w.guards.scopes c i false) ∙ q)
Step-Chained (query_ends w g c before after e) inv i p q =
    inv i p (sym (parent_with_query w.guards.scopes c i false) ∙ q)
Step-Chained (query_starts w g c store s n h) inv i p q =
    let (f, e) = begin_query-eq w.guards c s h in
    inv i p (sym (parent_with_query w.guards.scopes c i true) ∙ (rw e at q))

Reachable-Chained : {awaits : Bool} {w : World} → Reachable awaits w → IsChained w.guards.scopes
Reachable-Chained initial = λ c p h. cc
Reachable-Chained (then_step r s) = λ c p h. Step-Chained s (Reachable-Chained r) c p h

no_parent :
    (fuel : ℕ) (scopes : List Scope) (token : ℕ) (o : Option ℕ)
    → o ≡ none
    → find_scope fuel scopes token o ≡ some token
    → ⊥
unfolding find_scope
no_parent zero scopes token o q h = cc
no_parent (suc fuel) scopes token none q h = cc
no_parent (suc fuel) scopes token (some c) q h = cc

found-Chain :
    (fuel : ℕ) (scopes : List Scope) (token c : ℕ)
    → find_scope fuel scopes token (some c) ≡ some token
    → Chain scopes c token
unfolding find_scope
found-Chain zero scopes token c h = cc
found-Chain (suc fuel) scopes token c h = elim (Bool-cases (c == token)) [
  | inl q ↦ rw ((==_iff c token).0 q) (here token)
  | inr n ↦ elim (Option-cases (parent_in (get_elem? scopes c))) [
    | inl q ↦
        absurd
          (no_parent fuel scopes token (parent_in (get_elem? scopes c)) q (rw (find_scope, n) at h))
    | inr (p, q) ↦ up q (found-Chain fuel scopes token p (rw (find_scope, n, q) at h))
  ]
]

Chain-found :
    (fuel : ℕ) (scopes : List Scope) (token c : ℕ)
    → IsChained scopes
    → c < fuel
    → Chain scopes c token
    → find_scope fuel scopes token (some c) ≡ some token
unfolding find_scope
Chain-found zero scopes token c inv h ch = absurd (omega (arith, h))
Chain-found (suc fuel) scopes token c inv h (here _) = ground (arith, ==_iff c c)
Chain-found (suc fuel) scopes token c inv h (up {p = p} q ch) =
    ground (
      arith,
      ==_iff c token,
      q,
      Chain-found fuel scopes token p inv (omega (arith, h, inv c p q)) ch,
    )

-- In whatever is reached, work that is started from a context of a scope belongs to the operation
-- that holds the guard exactly if that operation's scope is the context's or an ancestor of it; so
-- the loop of `currentScope` ends with the right answer.
pub current_scope-Chain :
    {awaits : Bool} {w : World}
    → Reachable awaits w
    → (guard token c : ℕ) → get w.guards.tokens guard ≡ some token
    → c < length w.guards.scopes
    → (current_scope w.guards guard (some c) ≡ some token) ↔ Chain w.guards.scopes c token
unfolding current_scope
current_scope-Chain {w} r guard token c q h =
    rw (current_scope, q)
      (
        found-Chain (suc (length w.guards.scopes)) w.guards.scopes token c,
        Chain-found (suc (length w.guards.scopes)) w.guards.scopes token c (Reachable-Chained r)
            (omega (arith, h)),
      )
