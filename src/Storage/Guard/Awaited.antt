-- ===== src/Storage/Guard/Awaited.antt =====
-- Where operations await their queries, a guard has one query at a time.
use entitykit.Common.{
  ℕ, ◌≤◌, ◌≡◌, refl, sym, ap, arith, Bool, true, false, none, some, List, [], ◌∷◌, ◌++◌, nat_eq,
  ==_iff, get, put, remove, get-put, get-remove, length, get_elem?, All, Option-cases, inl, inr,
}
use entitykit.Storage.Guard.{
  Scope, Guards, end_run, end_query, end_stream, is_operation_in_progress, deactivated, with_query,
}
use entitykit.Storage.Guard.Tasks.{
  Task, operation, query, own_stream, World, holds, holders, users, queries, Step, operation_starts,
  operation_ends, query_starts, query_ends, stream_starts, stream_ends, Reachable, initial,
  then_step, IsExclusive,
}
use mathlib.Core.Path.{subst}
use entitykit.Storage.Guard.Started.{
  holders-middle, users-middle, All-middle, current_scope-token, IsStarted, begin_run-starts,
  begin_stream-starts,
}
use entitykit.Storage.Guard.Exclusion.{begin_query-eq, Reachable-IsExclusive}

-- Every task is in the scope of its guard's token.
abbrev IsCurrent : Guards → Task → Type 0
IsCurrent s (operation g c) = get s.tokens g ≡ some c
IsCurrent s (own_stream g c) = get s.tokens g ≡ some c
IsCurrent s (query g c) = get s.tokens g ≡ some c

Current_put :
    (s : Guards) (scopes : List Scope) (g c : ℕ) (ts : List Task)
    → get s.tokens g ≡ none
    → All (IsCurrent s) ts
    → All (IsCurrent (record { scopes = scopes; tokens = put s.tokens g c })) ts
Current_put s scopes g c [] n all = tt
Current_put s scopes g c (operation i d ∷ ts) n (p, all) = (
  ground (arith, p, n, get-put s.tokens g i c, ==_iff g i, ap (get s.tokens) {x = g} {y = i}),
  Current_put s scopes g c ts n all,
)
Current_put s scopes g c (own_stream i d ∷ ts) n (p, all) = (
  ground (arith, p, n, get-put s.tokens g i c, ==_iff g i, ap (get s.tokens) {x = g} {y = i}),
  Current_put s scopes g c ts n all,
)
Current_put s scopes g c (query i d ∷ ts) n (p, all) = (
  ground (arith, p, n, get-put s.tokens g i c, ==_iff g i, ap (get s.tokens) {x = g} {y = i}),
  Current_put s scopes g c ts n all,
)

Current_remove :
    (s : Guards) (scopes : List Scope) (g c : ℕ) (ts : List Task)
    → get s.tokens g ≡ some c
    → holders g ts ≡ 0
    → users c ts ≡ 0
    → All (IsCurrent s) ts
    → All (IsCurrent (record { scopes = scopes; tokens = remove s.tokens g })) ts
Current_remove s scopes g c [] h f u all = tt
Current_remove s scopes g c (operation i d ∷ ts) h f u (p, all) = (
  ground (arith, p, h, f, get-remove s.tokens g i, ==_iff g i, ==_iff i g),
  Current_remove s scopes g c ts h (omega (arith, f)) (omega (arith, u)) all,
)
Current_remove s scopes g c (own_stream i d ∷ ts) h f u (p, all) = (
  ground (arith, p, h, f, get-remove s.tokens g i, ==_iff g i, ==_iff i g),
  Current_remove s scopes g c ts h (omega (arith, f)) (omega (arith, u)) all,
)
Current_remove s scopes g c (query i d ∷ ts) h f u (p, all) = (
  ground (
    arith,
    p,
    h,
    u,
    get-remove s.tokens g i,
    ==_iff g i,
    ==_iff d c,
    ap (get s.tokens) {x = g} {y = i},
  ),
  Current_remove s scopes g c ts h (omega (arith, f)) (omega (arith, u)) all,
)

Current_same :
    (s : Guards) (scopes : List Scope) (ts : List Task)
    → All (IsCurrent s) ts
    → All (IsCurrent (record { scopes = scopes; tokens = s.tokens })) ts
Current_same s scopes [] all = tt
Current_same s scopes (operation i d ∷ ts) (p, all) = (p, Current_same s scopes ts all)
Current_same s scopes (own_stream i d ∷ ts) (p, all) = (p, Current_same s scopes ts all)
Current_same s scopes (query i d ∷ ts) (p, all) = (p, Current_same s scopes ts all)

queries-le-users :
    (s : Guards) (g c : ℕ) (ts : List Task)
    → get s.tokens g ≡ some c
    → All (IsCurrent s) ts
    → queries g ts ≤ users c ts
queries-le-users s g c [] h all = omega arith
queries-le-users s g c (operation i d ∷ ts) h (p, all) =
    omega (arith, queries-le-users s g c ts h all)
queries-le-users s g c (own_stream i d ∷ ts) h (p, all) = ground (
  arith,
  queries-le-users s g c ts h all,
  p,
  h,
  ==_iff i g,
  ==_iff d c,
  ap (get s.tokens) {x = i} {y = g},
)
queries-le-users s g c (query i d ∷ ts) h (p, all) = ground (
  arith,
  queries-le-users s g c ts h all,
  p,
  h,
  ==_iff i g,
  ==_iff d c,
  ap (get s.tokens) {x = i} {y = g},
)

no_queries :
    (s : Guards) (g : ℕ) (ts : List Task)
    → get s.tokens g ≡ none
    → All (IsCurrent s) ts
    → queries g ts ≡ 0
no_queries s g [] h all = refl
no_queries s g (operation i d ∷ ts) h (p, all) = omega (arith, no_queries s g ts h all)
no_queries s g (own_stream i d ∷ ts) h (p, all) =
    ground (arith, no_queries s g ts h all, p, h, ==_iff i g, ap (get s.tokens) {x = i} {y = g})
no_queries s g (query i d ∷ ts) h (p, all) =
    ground (arith, no_queries s g ts h all, p, h, ==_iff i g, ap (get s.tokens) {x = i} {y = g})

-- What is left when the holder of a guard goes, if its scope has no other user.
left-Current :
    (w : World) (g c : ℕ) (task : Task) (before after : List Task) (scopes : List Scope)
    → IsExclusive w
    → All (IsCurrent w.guards) w.tasks
    → w.tasks ≡ before ++ task ∷ after
    → holds g task ≡ 1
    → (IsCurrent w.guards task → get w.guards.tokens g ≡ some c)
    → users c (before ++ after) ≡ 0
    → All
        (IsCurrent (record { scopes = scopes; tokens = remove w.guards.tokens g }))
        (before ++ after)
left-Current w g c task before after scopes inv all q one token none_left =
    let current : All (IsCurrent w.guards) (before ++ task ∷ after) = rw (← q) all in
    let (p, rest) = All-middle (IsCurrent w.guards) before task after current in
    Current_remove w.guards scopes g c (before ++ after) (token p)
      (ground (arith, rw q at (inv.held g), holders-middle g before task after, one)) none_left rest

started-Current :
    (w : World) (g : ℕ) (busy : Bool) (t : Guards) (c : ℕ) (task : Task)
    → IsStarted w.guards g busy t c
    → All (IsCurrent w.guards) w.tasks
    → ((u : Guards) → get u.tokens g ≡ some c → IsCurrent u task)
    → All (IsCurrent t) (task ∷ w.tasks)
started-Current w g busy t c task (n, e, x, b, q) all token =
    let u : Guards = record {
      scopes = w.guards.scopes ++ x ∷ [];
      tokens = put w.guards.tokens g (length w.guards.scopes);
    } in
    subst (λ s. All (IsCurrent s) (task ∷ w.tasks)) (sym q)
      (
        token u
            (ground (arith, get-put w.guards.tokens g g (length w.guards.scopes), ==_iff g g, e)),
        Current_put w.guards u.scopes g (length w.guards.scopes) w.tasks n all,
      )

Step-Current :
    {w v : World}
    → Step true w v
    → IsExclusive w
    → All (IsCurrent w.guards) w.tasks
    → All (IsCurrent v.guards) v.tasks
unfolding end_run end_query end_stream
Step-Current (operation_starts w g store s c h) inv all =
    started-Current w g false s c (operation g c) (begin_run-starts w.guards g store s c h) all
      (λ u p. p)
Step-Current (stream_starts w g store s c m h) inv all =
    started-Current w g true s c (own_stream g c) (begin_stream-starts w.guards g s c h) all
      (λ u p. p)
Step-Current (operation_ends w g c before after q a) inv all =
    left-Current w g c (operation g c) before after
      (deactivated (get_elem? w.guards.scopes c) w.guards.scopes c) inv all q
      (ground (arith, ==_iff g g)) (λ p. p)
      (omega (arith, rw q at (a refl), users-middle c before (operation g c) after))
Step-Current (stream_ends w g c before after q) inv all =
    left-Current w g c (own_stream g c) before after
      (with_query (get_elem? w.guards.scopes c) w.guards.scopes c false) inv all q
      (ground (arith, ==_iff g g)) (λ p. p)
      (ground
        (arith, rw q at (inv.used c), users-middle c before (own_stream g c) after, ==_iff c c))
Step-Current (query_ends w g c before after q) inv all =
    Current_same w.guards (with_query (get_elem? w.guards.scopes c) w.guards.scopes c false)
      (before ++ after) (All-middle (IsCurrent w.guards) before (query g c) after (rw (← q) all)).1
Step-Current (query_starts w g c store s n h) inv all =
    let (f, e) = begin_query-eq w.guards c s h in
    subst (λ s. All (IsCurrent s) (query g c ∷ w.tasks)) (sym e)
      (
        current_scope-token w.guards g store c n,
        Current_same w.guards (with_query (get_elem? w.guards.scopes c) w.guards.scopes c true)
            w.tasks all,
      )

Reachable-Current : {w : World} → Reachable true w → All (IsCurrent w.guards) w.tasks
Reachable-Current initial = tt
Reachable-Current (then_step r s) = Step-Current s (Reachable-IsExclusive r) (Reachable-Current r)

-- If every operation ends only after the queries in its scope, then a guard never has two queries
-- or streams under way, and it has none when it is idle.
pub Reachable-queries :
    {w : World}
    → Reachable true w
    → (guard : ℕ)
    → (queries guard w.tasks ≤ 1)
      × (is_operation_in_progress w.guards guard ≡ false → queries guard w.tasks ≡ 0)
unfolding is_operation_in_progress
Reachable-queries {w} r guard = elim (Option-cases (get w.guards.tokens guard)) [
  | inl q ↦
      let idle = no_queries w.guards guard w.tasks q (Reachable-Current r) in
      (omega (arith, idle), λ h. idle)
  | inr (c, q) ↦
      let inv = Reachable-IsExclusive r in
      (
        ground
            (arith, queries-le-users w.guards guard c w.tasks q (Reachable-Current r), inv.used c),
        λ h. cc (rw (is_operation_in_progress, q) at h),
      )
]
