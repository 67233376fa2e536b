-- ===== src/Storage/Guard/Opening.antt =====
-- The start of an operation of a guard that none holds.
use entitykit.Common.{
  ℕ, suc, ◌≡◌, refl, arith, true, false, Option, none, some, [], ◌∷◌, ◌++◌, nat_eq, ==_iff, get,
  put, get-put, length, get_elem?,
}
use entitykit.Storage.Guard.{
  Scope, Guards, in_progress_in, current_scope, begin_run, starts, begin_query, with_query,
}
use entitykit.Storage.Guard.{find_scope, active_parent}
use entitykit.Storage.Guard.Flags.{flag_append}
use entitykit.Storage.Guard.{find_scope, active_parent}

-- An operation of a free guard starts, whatever the context, in a scope at the end.
unfoldable pub opened : Guards → ℕ → Scope → Guards
opened s g x = record { scopes = s.scopes ++ x ∷ []; tokens = put s.tokens g (length s.scopes) }

abbrev pub fresh : Guards → Option ℕ → Scope
fresh s store = record {
  parent = active_parent (suc (length s.scopes)) s.scopes store;
  active = true;
  query_in_progress = false;
}

pub begin_run-free :
    (s : Guards) (g : ℕ) (store : Option ℕ)
    → get s.tokens g ≡ none
    → begin_run s g store ≡ starts (opened s g (fresh s store)) (length s.scopes)
unfolding begin_run opened
begin_run-free s g store n =
    let c : current_scope s g store ≡ none = rw (current_scope, n) refl in rw (begin_run, c, n) refl

pub current_scope-opened :
    (s : Guards) (g : ℕ) (x : Scope)
    → current_scope (opened s g x) g (some (length s.scopes)) ≡ some (length s.scopes)
unfolding current_scope find_scope opened
current_scope-opened s g x =
    let q : get (put s.tokens g (length s.scopes)) g ≡ some (length s.scopes) =
      ground (arith, get-put s.tokens g g (length s.scopes), ==_iff g g) in
    rw (current_scope, q) (ground (arith, ==_iff (length s.scopes) (length s.scopes)))

pub begin_query-opened :
    (s : Guards) (g : ℕ) (x : Scope)
    → x.query_in_progress ≡ false
    → (t : Guards) × (begin_query (opened s g x) (length s.scopes) ≡ some t)
unfolding begin_query opened
begin_query-opened s g x h =
    let f : in_progress_in (get_elem? (s.scopes ++ x ∷ []) (length s.scopes)) ≡ false = ground (
      arith,
      flag_append s.scopes x (length s.scopes),
      h,
      ==_iff (length s.scopes) (length s.scopes),
    ) in
    (
      record {
        scopes =
            with_query (get_elem? (s.scopes ++ x ∷ []) (length s.scopes)) (s.scopes ++ x ∷ [])
              (length s.scopes) true;
        tokens = put s.tokens g (length s.scopes);
      },
      rw (begin_query, f) refl,
    )
