-- ===== src/Storage/Guard/Started.antt =====
-- What the start of an operation or of a stream changes, and the tasks before and after one.
use entitykit.Common.{
  ◌∙◌, ℕ, zero, suc, ◌+◌, ◌≡◌, refl, ap, arith, Bool, true, false, Option, none, some, List, [],
  ◌∷◌, ◌++◌, nat_eq, ==_iff, get, put, remove, get-put, get-remove, length, get_elem?, All,
  Option-cases, inl, inr,
}
use entitykit.Storage.Guard.{
  parent_in, Scope, Guards, current_scope, begin_run, starts, begin_stream,
}
use entitykit.Storage.Guard.{find_scope, active_parent}
use entitykit.Storage.Guard.Tasks.{
  Task, operation, query, own_stream, holds, holders, uses, users, HasToken,
}

pub holders-middle :
    (guard : ℕ) (before : List Task) (t : Task) (after : List Task)
    → holders guard (before ++ t ∷ after) ≡ holds guard t + holders guard (before ++ after)
holders-middle guard [] t after = refl
holders-middle guard (x ∷ before) t after = omega (arith, holders-middle guard before t after)

pub users-middle :
    (scope : ℕ) (before : List Task) (t : Task) (after : List Task)
    → users scope (before ++ t ∷ after) ≡ uses scope t + users scope (before ++ after)
users-middle scope [] t after = refl
users-middle scope (x ∷ before) t after = omega (arith, users-middle scope before t after)

pub All-middle :
    (P : Task → Type 0) (before : List Task) (t : Task) (after : List Task)
    → All P (before ++ t ∷ after)
    → P t × All P (before ++ after)
All-middle P [] t after (h, hs) = (h, hs)
All-middle P (x ∷ before) t after (h, hs) =
    let (p, ps) = All-middle P before t after hs in (p, (h, ps))

pub owned_put :
    (s : Guards) (scopes : List Scope) (g c : ℕ) (ts : List Task)
    → holders g ts ≡ 0
    → All (HasToken s) ts
    → All (HasToken (record { scopes = scopes; tokens = put s.tokens g c })) ts
owned_put s scopes g c [] h all = tt
owned_put s scopes g c (operation i d ∷ ts) h (p, all) = (
  ground (arith, p, h, get-put s.tokens g i c, ==_iff g i, ==_iff i g),
  owned_put s scopes g c ts (omega (arith, h)) all,
)
owned_put s scopes g c (own_stream i d ∷ ts) h (p, all) = (
  ground (arith, p, h, get-put s.tokens g i c, ==_iff g i, ==_iff i g),
  owned_put s scopes g c ts (omega (arith, h)) all,
)
owned_put s scopes g c (query i d ∷ ts) h (p, all) =
    (tt, owned_put s scopes g c ts (omega (arith, h)) all)

pub owned_remove :
    (s : Guards) (scopes : List Scope) (g : ℕ) (ts : List Task)
    → holders g ts ≡ 0
    → All (HasToken s) ts
    → All (HasToken (record { scopes = scopes; tokens = remove s.tokens g })) ts
owned_remove s scopes g [] h all = tt
owned_remove s scopes g (operation i d ∷ ts) h (p, all) = (
  ground (arith, p, h, get-remove s.tokens g i, ==_iff g i, ==_iff i g),
  owned_remove s scopes g ts (omega (arith, h)) all,
)
owned_remove s scopes g (own_stream i d ∷ ts) h (p, all) = (
  ground (arith, p, h, get-remove s.tokens g i, ==_iff g i, ==_iff i g),
  owned_remove s scopes g ts (omega (arith, h)) all,
)
owned_remove s scopes g (query i d ∷ ts) h (p, all) =
    (tt, owned_remove s scopes g ts (omega (arith, h)) all)

pub find_scope-token :
    (fuel : ℕ) (scopes : List Scope) (token : ℕ) (o : Option ℕ) (c : ℕ)
    → find_scope fuel scopes token o ≡ some c
    → token ≡ c
unfolding find_scope
find_scope-token zero scopes token o c h = cc
find_scope-token (suc fuel) scopes token none c h = cc
find_scope-token (suc fuel) scopes token (some d) c h = ground (
  arith,
  h,
  ==_iff d token,
  find_scope-token fuel scopes token (parent_in (get_elem? scopes d)) c,
)

pub current_scope-token :
    (s : Guards) (g : ℕ) (store : Option ℕ) (c : ℕ)
    → current_scope s g store ≡ some c
    → get s.tokens g ≡ some c
unfolding current_scope
current_scope-token s g store c h = elim (Option-cases (get s.tokens g)) [
  | inl q ↦ cc (rw (current_scope, q) at h)
  | inr (t, q) ↦
      q
      ∙ ap some
          (find_scope-token (suc (length s.scopes)) s.scopes t store c (rw (current_scope, q) at h))
]

-- What a call that starts something adds.
abbrev pub IsStarted : Guards → ℕ → Bool → Guards → ℕ → Type 0
IsStarted s g busy t c =
    (get s.tokens g ≡ none)
    × (c ≡ length s.scopes)
    × (x : Scope) × (x.query_in_progress ≡ busy)
    × (t ≡ record { scopes = s.scopes ++ x ∷ []; tokens = put s.tokens g (length s.scopes) })

pub begin_run-starts :
    (s : Guards) (g : ℕ) (store : Option ℕ) (t : Guards) (c : ℕ)
    → begin_run s g store ≡ starts t c
    → IsStarted s g false t c
unfolding begin_run
begin_run-starts s g store t c h = elim (Option-cases (current_scope s g store)) [
  | inr (d, q) ↦ cc (rw (begin_run, q) at h)
  | inl q ↦ elim (Option-cases (get s.tokens g)) [
    | inr (d, r) ↦ cc (rw (begin_run, q, r) at h)
    | inl r ↦
        let i = rw (begin_run, q, r) at h in
        (
          r,
          cc i,
          record {
            parent = active_parent (suc (length s.scopes)) s.scopes store;
            active = true;
            query_in_progress = false;
          },
          refl,
          cc i,
        )
  ]
]

pub begin_stream-starts :
    (s : Guards) (g : ℕ) (t : Guards) (c : ℕ)
    → begin_stream s g ≡ starts t c
    → IsStarted s g true t c
unfolding begin_stream
begin_stream-starts s g t c h = elim (Option-cases (get s.tokens g)) [
  | inr (d, r) ↦ cc (rw (begin_stream, r) at h)
  | inl r ↦
      let i = rw (begin_stream, r) at h in
      (r, cc i, record { parent = none; active = false; query_in_progress = true }, refl, cc i)
]
