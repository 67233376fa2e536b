-- ===== src/Storage/Connection/Guarding.antt =====
-- What the guard does to awaited calls: nothing but to its own scopes and tokens.
use mathlib.Core.Path.{subst}
use entitykit.Common.{
  ℕ, ◌<◌, ◌≡◌, refl, sym, arith, true, false, Option, none, some, [], ◌∷◌, nat_eq, ==_iff, get,
  get-put, get-remove, length, length-append, get_elem?, thrown,
}
use entitykit.Storage.Guard.{
  Guards, Scope, joins, starts, find_scope, current_scope, begin_run, end_run, begin_query,
  end_query, begin_stream, end_stream, in_progress_in, with_query,
}
use entitykit.Storage.Guard.Flags.{flag_append, flag_reset, length-with_query}
use entitykit.Storage.Guard.Opening.{opened, fresh, begin_run-free}
use entitykit.Storage.Connection.{
  Driver, Connection, Wire, Result, with_guards, run, in_query, run_query, run_stream,
}
use entitykit.Storage.Errors.{uninitialized}
use entitykit.Storage.Connection.Agreement.{Mirrors, Agrees-finished}

length-opened :
    (g : Guards) (guard : ℕ) (x : Scope) → length g.scopes < length (opened g guard x).scopes
unfolding opened
length-opened g guard x = omega (arith, length-append g.scopes (x ∷ []))

module _ (driver : Driver) (guard : ℕ) where
  pub record IsHeld (c : ℕ) (store : Option ℕ) (g : Guards) : Type 0 where
    pub current : store ≡ some c
    pub token : get g.tokens guard ≡ some c
    pub idle : in_progress_in (get_elem? g.scopes c) ≡ false
    pub ranged : c < length g.scopes

  -- No operation holds the guard, or the one that the context is in.
  abbrev pub At : Option ℕ → Option ℕ → Guards → Type 0
  At none store g = get g.tokens guard ≡ none
  At (some c) store g = IsHeld c store g

  current_scope-token :
      (c : ℕ) (g : Guards) → get g.tokens guard ≡ some c → current_scope g guard (some c) ≡ some c
  unfolding current_scope find_scope
  current_scope-token c g h = rw (current_scope, h) (ground (arith, ==_iff c c))

  current_scope-held :
      (c : ℕ) (store : Option ℕ) (g : Guards)
      → IsHeld c store g
      → current_scope g guard store ≡ some c
  current_scope-held c store g h =
      subst (λ x. current_scope g guard x ≡ some c) (sym h.current)
        (current_scope-token c g h.token)

  opened-IsHeld :
      (g : Guards) (x : Scope)
      → x.query_in_progress ≡ false
      → IsHeld (length g.scopes) (some (length g.scopes)) (opened g guard x)
  unfolding opened
  opened-IsHeld g x h = record {
    current = refl;
    token = ground (arith, get-put g.tokens guard guard (length g.scopes), ==_iff guard guard);
    idle = ground (
      arith,
      flag_append g.scopes x (length g.scopes),
      h,
      ==_iff (length g.scopes) (length g.scopes),
    );
    ranged = length-opened g guard x;
  }

  abbrev pub Works : (Option ℕ → Connection → Result Connection) → (Wire → Result Wire) → Type 0
  Works work k = (mode store : Option ℕ) → Mirrors (At mode store) (At mode store) (work store) k

  -- The same within an operation.
  abbrev pub Runs : (Option ℕ → Connection → Result Connection) → (Wire → Result Wire) → Type 0
  Runs work k =
      (c : ℕ) (store : Option ℕ) → Mirrors (IsHeld c store) (IsHeld c store) (work store) k

  begin_run-held :
      (c : ℕ) (store : Option ℕ) (g : Guards) → IsHeld c store g → begin_run g guard store ≡ joins c
  unfolding begin_run
  begin_run-held c store g h = rw (begin_run, current_scope-held c store g h) refl

  end_run-free : (g : Guards) (c : ℕ) → get (end_run g guard c).tokens guard ≡ none
  unfolding end_run
  end_run-free g c = ground (arith, get-remove g.tokens guard guard, ==_iff guard guard)

  pub run-Works :
      (work : Option ℕ → Connection → Result Connection) (k : Wire → Result Wire)
      → Runs work k
      → Works (run driver guard work) k
  unfolding run
  run-Works work k m (some c) store s h =
      rw (run, begin_run-held c store s.guards h) (m c store s h)
  run-Works work k m none store s h =
      let c = length s.guards.scopes in
      let t = with_guards s (opened s.guards guard (fresh s.guards store)) in
      rw (run, begin_run-free s.guards guard store h)
        (Agrees-finished (At (some c) (some c)) (At none store) (work (some c) t) (k s.wire)
          (λ g. end_run g guard c)
          (m c (some c) t (opened-IsHeld s.guards (fresh s.guards store) refl))
          (λ g i. end_run-free g c))

  abbrev with_flag : Guards → ℕ → Guards
  with_flag g c = record {
    scopes = with_query (get_elem? g.scopes c) g.scopes c true;
    tokens = g.tokens;
  }

  begin_query-idle :
      (g : Guards) (c : ℕ)
      → in_progress_in (get_elem? g.scopes c) ≡ false
      → begin_query g c ≡ some (with_flag g c)
  unfolding begin_query
  begin_query-idle g c h = rw (begin_query, h) refl

  end_query-IsHeld :
      (c : ℕ) (store : Option ℕ) (g : Guards)
      → IsHeld c store g
      → IsHeld c store (end_query (with_flag g c) c)
  unfolding end_query
  end_query-IsHeld c store g h = record {
    current = h.current;
    token = h.token;
    idle = ground (arith, flag_reset (with_flag g c).scopes c c, ==_iff c c);
    ranged = omega (
      arith,
      h.ranged,
      length-with_query g.scopes c true (get_elem? g.scopes c),
      length-with_query (with_flag g c).scopes c false (get_elem? (with_flag g c).scopes c),
    );
  }

  -- Work that does as `k` whatever the guards.
  abbrev pub Unguarded : (Connection → Result Connection) → (Wire → Result Wire) → Type 1
  Unguarded work k = (P : Guards → Type 0) → Mirrors P P work k

  in_query-IsHeld :
      (work : Connection → Result Connection) (k : Wire → Result Wire)
      → Unguarded work k
      → (c : ℕ) (store : Option ℕ)
      → Mirrors (IsHeld c store) (IsHeld c store) (in_query driver guard c work) k
  unfolding in_query
  in_query-IsHeld work k m c store s h =
      let t = with_guards s (with_flag s.guards c) in
      rw (in_query, begin_query-idle s.guards c h.idle)
        (Agrees-finished (λ g. g ≡ with_flag s.guards c) (IsHeld c store) (work t) (k s.wire)
          (λ g. end_query g c) (m (λ g. g ≡ with_flag s.guards c) t refl)
          (λ g i.
            subst (λ x. IsHeld c store (end_query x c)) (sym i)
              (end_query-IsHeld c store s.guards h)))

  pub run_query-Works :
      (work : Connection → Result Connection) (k : Wire → Result Wire)
      → Unguarded work k
      → Works (run_query driver guard work) k
  unfolding run_query
  run_query-Works work k m =
      run-Works
        (λ store s. elim (current_scope s.guards guard store) [
          | none ↦ (thrown uninitialized, s)
          | some c ↦ in_query driver guard c work s
        ])
        k
        (λ c store s h.
          rw (current_scope-held c store s.guards h) (in_query-IsHeld work k m c store s h))

  current_scope-none :
      (store : Option ℕ) (g : Guards)
      → get g.tokens guard ≡ none
      → current_scope g guard store ≡ none
  unfolding current_scope
  current_scope-none store g h = rw (current_scope, h) refl

  begin_stream-free :
      (g : Guards)
      → get g.tokens guard ≡ none
      → begin_stream g guard
        ≡ starts
            (opened g guard (record { parent = none; active = false; query_in_progress = true }))
            (length g.scopes)
  unfolding begin_stream opened
  begin_stream-free g h = rw (begin_stream, h) refl

  end_stream-free : (g : Guards) (c : ℕ) → get (end_stream g guard c).tokens guard ≡ none
  unfolding end_stream
  end_stream-free g c = ground (arith, get-remove g.tokens guard guard, ==_iff guard guard)

  pub run_stream-Works :
      (work : Connection → Result Connection) (k : Wire → Result Wire)
      → Unguarded work k
      → Works (run_stream driver guard work) k
  unfolding run_stream
  run_stream-Works work k m (some c) store s h =
      rw (run_stream, current_scope-held c store s.guards h) (in_query-IsHeld work k m c store s h)
  run_stream-Works work k m none store s h =
      let x : Scope = record { parent = none; active = false; query_in_progress = true } in
      let t = with_guards s (opened s.guards guard x) in
      rw (run_stream, current_scope-none store s.guards h, begin_stream-free s.guards h)
        (Agrees-finished (λ g. g ≡ opened s.guards guard x) (At none store) (work t) (k s.wire)
          (λ g. end_stream g guard (length s.guards.scopes))
          (m (λ g. g ≡ opened s.guards guard x) t refl)
          (λ g i. end_stream-free g (length s.guards.scopes)))
