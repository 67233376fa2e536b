-- ===== src/Storage/Guard/Exclusion.antt =====
-- In whatever order work starts and ends, a guard has one holder and a scope one query.
use entitykit.Common.{
  ◌∙◌, ℕ, ◌≡◌, refl, ap, arith, Bool, true, false, ◌&&◌, none, some, List, [], ◌∷◌, ◌++◌, ◌==◌,
  nat_eq, ==_iff, get, put, remove, get-put, get-remove, length, length-append, get_elem?, All,
  Bool-cases, inl, inr,
}
use entitykit.Storage.Guard.{
  Scope, Guards, in_progress_in, end_run, begin_query, end_query, end_stream, deactivated,
  with_query,
}
use entitykit.Storage.Guard.Tasks.{
  Task, operation, query, own_stream, World, start, holds, holders, uses, users, Step,
  operation_starts, operation_ends, query_starts, query_ends, stream_starts, stream_ends, Reachable,
  initial, then_step, count_if, HasToken, IsExclusive,
}
use entitykit.Storage.Guard.Flags.{
  flag_append, flag_set, flag_reset, flag_deactivated, length-deactivated, length-with_query,
}
use entitykit.Storage.Guard.Started.{
  holders-middle, users-middle, All-middle, owned_put, owned_remove, current_scope-token, IsStarted,
  begin_run-starts, begin_stream-starts,
}

out_of_range : (xs : List Scope) → get_elem? xs (length xs) ≡ none
out_of_range [] = refl
out_of_range (x ∷ xs) = out_of_range xs

start-Exclusive : IsExclusive start
unfolding get
start-Exclusive = record { held = λ g. refl; used = λ c. refl; owned = tt; ranged = λ g c h. cc }

started-Exclusive :
    (w : World) (g : ℕ) (busy : Bool) (t : Guards) (c : ℕ) (task : Task)
    → IsExclusive w
    → IsStarted w.guards g busy t c
    → ((i : ℕ) → holds i task ≡ count_if (g == i))
    → ((i : ℕ) → uses i task ≡ count_if (busy && (c == i)))
    → ((u : Guards) → get u.tokens g ≡ some c → HasToken u task)
    → IsExclusive (record { guards = t; tasks = task ∷ w.tasks })
started-Exclusive w g busy t c task inv (n, e, x, b, q) ho us ha =
    let free : holders g w.tasks ≡ 0 = ground (arith, inv.held g, n) in
    rw q record {
      held = λ i. ground (
        arith,
        ho i,
        inv.held i,
        get-put w.guards.tokens g i (length w.guards.scopes),
        ==_iff g i,
        n,
      );
      used = λ i. ground (
        arith,
        us i,
        inv.used i,
        flag_append w.guards.scopes x i,
        b,
        e,
        ==_iff c i,
        ==_iff i (length w.guards.scopes),
        out_of_range w.guards.scopes,
      );
      owned = (
        ha
            (record {
              scopes = w.guards.scopes ++ x ∷ [];
              tokens = put w.guards.tokens g (length w.guards.scopes);
            })
            (ground (arith, get-put w.guards.tokens g g (length w.guards.scopes), ==_iff g g, e)),
        owned_put w.guards (w.guards.scopes ++ x ∷ []) g (length w.guards.scopes) w.tasks free
            inv.owned,
      );
      ranged = λ i d h. ground (
        arith,
        h,
        get-put w.guards.tokens g i (length w.guards.scopes),
        ==_iff g i,
        inv.ranged i d,
        length-append w.guards.scopes (x ∷ []),
      );
    }

ended-Exclusive :
    (w : World) (g : ℕ) (task : Task) (before after : List Task) (scopes : List Scope)
    → IsExclusive w
    → w.tasks ≡ before ++ task ∷ after
    → ((i : ℕ) → holds i task ≡ count_if (g == i))
    → ((i : ℕ) → users i (before ++ after) ≡ count_if (in_progress_in (get_elem? scopes i)))
    → length scopes ≡ length w.guards.scopes
    → IsExclusive (record {
      guards = record { scopes = scopes; tokens = remove w.guards.tokens g };
      tasks = before ++ after;
    })
ended-Exclusive w g task before after scopes inv q ho us l =
    let one = holders-middle g before task after in
    let held = rw q at (inv.held g) in
    let free : holders g (before ++ after) ≡ 0 = ground (arith, one, held, ho g, ==_iff g g) in
    let owned : All (HasToken w.guards) (before ++ task ∷ after) = rw (← q) inv.owned in
    record {
      held = λ i. ground (
        arith,
        holders-middle i before task after,
        rw q at (inv.held i),
        ho i,
        get-remove w.guards.tokens g i,
        ==_iff g i,
        free,
      );
      used = us;
      owned =
          owned_remove w.guards scopes g (before ++ after) free
            (All-middle (HasToken w.guards) before task after owned).1;
      ranged = λ i d h. ground (arith, h, get-remove w.guards.tokens g i, inv.ranged i d, l);
    }

owned_same :
    (s : Guards) (scopes : List Scope) (ts : List Task)
    → All (HasToken s) ts
    → All (HasToken (record { scopes = scopes; tokens = s.tokens })) ts
owned_same s scopes [] all = tt
owned_same s scopes (operation i d ∷ ts) (p, all) = (p, owned_same s scopes ts all)
owned_same s scopes (own_stream i d ∷ ts) (p, all) = (p, owned_same s scopes ts all)
owned_same s scopes (query i d ∷ ts) (p, all) = (tt, owned_same s scopes ts all)

-- A change of flags alone.
flagged-Exclusive :
    (w : World) (tasks : List Task) (scopes : List Scope)
    → IsExclusive w
    → ((i : ℕ) → holders i tasks ≡ holders i w.tasks)
    → All (HasToken w.guards) tasks
    → ((i : ℕ) → users i tasks ≡ count_if (in_progress_in (get_elem? scopes i)))
    → length scopes ≡ length w.guards.scopes
    → IsExclusive
        (record { guards = record { scopes = scopes; tokens = w.guards.tokens }; tasks = tasks })
flagged-Exclusive w tasks scopes inv ho all us l = record {
  held = λ i. ho i ∙ inv.held i;
  used = us;
  owned = owned_same w.guards scopes tasks all;
  ranged = λ i d h. ground (arith, h, inv.ranged i d, l);
}

pub begin_query-eq :
    (s : Guards) (c : ℕ) (t : Guards)
    → begin_query s c ≡ some t
    → (in_progress_in (get_elem? s.scopes c) ≡ false)
      × (t ≡ record {
        scopes = with_query (get_elem? s.scopes c) s.scopes c true;
        tokens = s.tokens;
      })
unfolding begin_query
begin_query-eq s c t h = elim (Bool-cases (in_progress_in (get_elem? s.scopes c))) [
  | inl q ↦ cc (rw (begin_query, q) at h)
  | inr q ↦ let i = rw (begin_query, q) at h in (q, cc i)
]

Step-Exclusive : {awaits : Bool} {w v : World} → Step awaits w v → IsExclusive w → IsExclusive v
unfolding end_run end_query end_stream
Step-Exclusive (operation_starts w g store s c h) inv =
    started-Exclusive w g false s c (operation g c) inv (begin_run-starts w.guards g store s c h)
      (λ i. ground arith) (λ i. refl) (λ u p. p)
Step-Exclusive (stream_starts w g store s c n h) inv =
    started-Exclusive w g true s c (own_stream g c) inv (begin_stream-starts w.guards g s c h)
      (λ i. ground arith) (λ i. ground arith) (λ u p. p)
Step-Exclusive (operation_ends w g c before after q a) inv =
    ended-Exclusive w g (operation g c) before after
      (deactivated (get_elem? w.guards.scopes c) w.guards.scopes c) inv q (λ i. ground arith)
      (λ i. ground (
        arith,
        flag_deactivated w.guards.scopes c i,
        rw q at (inv.used i),
        users-middle i before (operation g c) after,
      ))
      (length-deactivated w.guards.scopes c (get_elem? w.guards.scopes c))
Step-Exclusive (stream_ends w g c before after q) inv =
    ended-Exclusive w g (own_stream g c) before after
      (with_query (get_elem? w.guards.scopes c) w.guards.scopes c false) inv q (λ i. ground arith)
      (λ i. ground (
        arith,
        flag_reset w.guards.scopes c i,
        rw q at (inv.used i),
        users-middle i before (own_stream g c) after,
      ))
      (length-with_query w.guards.scopes c false (get_elem? w.guards.scopes c))
Step-Exclusive (query_ends w g c before after q) inv =
    flagged-Exclusive w (before ++ after)
      (with_query (get_elem? w.guards.scopes c) w.guards.scopes c false) inv
      (λ i. ground (arith, ap (holders i) q, holders-middle i before (query g c) after))
      (All-middle (HasToken w.guards) before (query g c) after (rw (← q) inv.owned)).1
      (λ i. ground (
        arith,
        flag_reset w.guards.scopes c i,
        rw q at (inv.used i),
        users-middle i before (query g c) after,
      ))
      (length-with_query w.guards.scopes c false (get_elem? w.guards.scopes c))
Step-Exclusive (query_starts w g c store s n h) inv =
    let (f, e) = begin_query-eq w.guards c s h in
    rw e (
      flagged-Exclusive w (query g c ∷ w.tasks)
        (with_query (get_elem? w.guards.scopes c) w.guards.scopes c true) inv (λ i. omega arith)
        (tt, inv.owned)
        (λ i. ground (
          arith,
          flag_set w.guards.scopes c i true,
          inv.ranged g c (current_scope-token w.guards g store c n),
          inv.used i,
          ==_iff c i,
          f,
        ))
        (length-with_query w.guards.scopes c true (get_elem? w.guards.scopes c)))

-- However the work of any number of guards is interleaved, and from whatever context it is
-- started: a guard that has a token has exactly one operation or stream that holds it, with that
-- token, and one without a token has none; and a scope has exactly one query or stream while its
-- flag is set, and none while it is not.
pub Reachable-IsExclusive : {awaits : Bool} {w : World} → Reachable awaits w → IsExclusive w
Reachable-IsExclusive initial = start-Exclusive
Reachable-IsExclusive (then_step r s) = Step-Exclusive s (Reachable-IsExclusive r)
