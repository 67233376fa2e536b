-- ===== src/Tracking/Identity/Rekeys.antt =====
-- The first loop of `prepareAccept`: what it checks, and the rekeys it gives.
use mathlib.Core.Path.{subst}
use entitykit.Common.{
  IsMap, ℕ, ◌≡◌, ◌∙◌, sym, ap, refl, Bool, true, false, not, Option, none, some, List, [], ◌∷◌,
  arith, Text, get, put, get-put, map, In, inl, inr, nat_eq, text_eq, ◌==◌, ==_iff, Bool-cases,
  returned, All, ◌⊎◌, >>=-eq-returned,
}
use entitykit.Tracking.Identity.{
  Identities, Checkpoint, EntityEntry, Rekey, plan_rekeys, check_accept, rekey_if, drop_previous,
  drop_entry, checkpoint_of, is_other, is_deleted,
}
use entitykit.Tracking.Identity.Settled.{get-drop_entry, drop_entry-gone, drop_entry-IsMap}

In-rekey_if :
    (b : Bool) (r : Rekey) (rs : List Rekey) (c : Checkpoint)
    → In c (map checkpoint_of rs)
    → In c (map checkpoint_of (rekey_if b r rs))
unfolding rekey_if
In-rekey_if true r rs c i = inr i
In-rekey_if false r rs c i = i

not_other_of_put :
    (m : List (Text × ℕ)) (j k : Text) (d e : ℕ)
    → is_other (get m j) d ≡ false
    → is_other (get (put m j d) k) e ≡ false
    → is_other (get m k) e ≡ false
not_other_of_put m j k d e h g = elim (Bool-cases (j == k)) [
  | inl q ↦ ground (arith, get-put m j k d, ==_iff d e, ap (λ x. get m x) ((==_iff j k).0 q))
  | inr q ↦ ground (arith, get-put m j k d)
]

module _ (s : Identities) (accepted : List ℕ) (identity_key : ℕ → Text) (allow : Bool) where
  check_accept-inv :
      (e : EntityEntry) (o : Option Text) (final_keys : List (Text × ℕ)) (p : Text)
      → check_accept s accepted identity_key allow e o final_keys ≡ returned p
      → (o ≡ some p) × (is_other (get final_keys (identity_key e.ref)) e.ref ≡ false)
  unfolding check_accept
  check_accept-inv e none final_keys p h = cc
  check_accept-inv e (some q) final_keys p h = (ground arith, ground arith)

  -- One step of the loop that does not fail.
  step :
      (e : EntityEntry) (es : List EntityEntry) (final_keys : List (Text × ℕ)) (rs : List Rekey)
      → plan_rekeys s accepted identity_key allow (e ∷ es) final_keys ≡ returned rs
      → ((is_deleted e.state ≡ true)
          × (plan_rekeys s accepted identity_key allow es final_keys ≡ returned rs))
        ⊎ ((previous : Text) × (rest : List Rekey) × (get s.keys e.ref ≡ some previous)
            × (is_other (get final_keys (identity_key e.ref)) e.ref ≡ false)
            × (plan_rekeys s accepted identity_key allow es
                  (put final_keys (identity_key e.ref) e.ref)
                ≡ returned rest)
            × (rs
                ≡ rekey_if
                    (not (previous == identity_key e.ref))
                    (record { entry = e.ref; previous = previous; next = identity_key e.ref })
                    rest))
  unfolding plan_rekeys
  step e es final_keys rs h = elim (Bool-cases (is_deleted e.state)) [
    | inl d ↦ inl (d, rw d at h)
    | inr d ↦
        let (p, c, k) =
          >>=-eq-returned
            (check_accept s accepted identity_key allow e (get s.keys e.ref) final_keys) _
            (rw d at h) in
        let (rest, l, q) =
          >>=-eq-returned
            (plan_rekeys s accepted identity_key allow es
              (put final_keys (identity_key e.ref) e.ref))
            _ k in
        let (o, u) = check_accept-inv e (get s.keys e.ref) final_keys p c in
        inr (p, rest, o, u, l, cc)
  ]

  abbrev pub IsPlanned : Rekey → Type 0
  IsPlanned r = (get s.keys r.entry ≡ some r.previous) × (r.next ≡ identity_key r.entry)

  All-rekey_if :
      (b : Bool) (r : Rekey) (rs : List Rekey)
      → IsPlanned r
      → All IsPlanned rs
      → All IsPlanned (rekey_if b r rs)
  unfolding rekey_if
  All-rekey_if true r rs p a = (p, a)
  All-rekey_if false r rs p a = a

  pub plan_rekeys-IsPlanned :
      (es : List EntityEntry) (final_keys : List (Text × ℕ)) (rs : List Rekey)
      → plan_rekeys s accepted identity_key allow es final_keys ≡ returned rs
      → All IsPlanned rs
  unfolding plan_rekeys
  plan_rekeys-IsPlanned [] final_keys [] h = tt
  plan_rekeys-IsPlanned [] final_keys (r ∷ rs) h = cc
  plan_rekeys-IsPlanned (e ∷ es) final_keys rs h = elim (step e es final_keys rs h) [
    | inl (d, l) ↦ plan_rekeys-IsPlanned es final_keys rs l
    | inr (p, rest, o, u, l, q) ↦ rw q (
        All-rekey_if (not (p == identity_key e.ref)) _ rest (o, refl)
          (plan_rekeys-IsPlanned es (put final_keys (identity_key e.ref) e.ref) rest l))
  ]

  plan_rekeys-free :
      (es : List EntityEntry) (final_keys : List (Text × ℕ)) (rs : List Rekey)
      → plan_rekeys s accepted identity_key allow es final_keys ≡ returned rs
      → (e : EntityEntry) → In e es
      → is_deleted e.state ≡ false
      → is_other (get final_keys (identity_key e.ref)) e.ref ≡ false
  plan_rekeys-free [] final_keys rs h e i n = absurd i
  plan_rekeys-free (d ∷ es) final_keys rs h e (inl q) n = elim (step d es final_keys rs h) [
    | inl (g, l) ↦ cc (ap (λ (x : EntityEntry). is_deleted x.state) q)
    | inr (p, rest, o, u, l, r) ↦ rw (ap (λ (x : EntityEntry). x.ref) q) u
  ]
  plan_rekeys-free (d ∷ es) final_keys rs h e (inr i) n = elim (step d es final_keys rs h) [
    | inl (g, l) ↦ plan_rekeys-free es final_keys rs l e i n
    | inr (p, rest, o, u, l, r) ↦
        not_other_of_put final_keys (identity_key d.ref) (identity_key e.ref) d.ref e.ref u
          (plan_rekeys-free es (put final_keys (identity_key d.ref) d.ref) rest l e i n)
  ]

  -- An entry after `d` has another final key, or is `d`.
  plan_rekeys-head :
      (d : EntityEntry) (es : List EntityEntry) (final_keys : List (Text × ℕ)) (rs : List Rekey)
      → plan_rekeys s accepted identity_key allow (d ∷ es) final_keys ≡ returned rs
      → is_deleted d.state ≡ false
      → (f : EntityEntry) → In f es
      → is_deleted f.state ≡ false
      → identity_key d.ref ≡ identity_key f.ref
      → d.ref ≡ f.ref
  plan_rekeys-head d es final_keys rs h n f j m q = elim (step d es final_keys rs h) [
    | inl (g, l) ↦ absurd (cc g)
    | inr (p, rest, o, u, l, r) ↦ ground (
      arith,
      plan_rekeys-free es (put final_keys (identity_key d.ref) d.ref) rest l f j m,
      get-put final_keys (identity_key d.ref) (identity_key f.ref) d.ref,
      ==_iff (identity_key d.ref) (identity_key f.ref),
      q,
      ==_iff d.ref f.ref,
    )
  ]

  plan_rekeys-tail :
      (d : EntityEntry) (es : List EntityEntry) (final_keys : List (Text × ℕ)) (rs : List Rekey)
      → plan_rekeys s accepted identity_key allow (d ∷ es) final_keys ≡ returned rs
      → (fk : List (Text × ℕ)) × (rest : List Rekey) × (plan_rekeys s accepted identity_key allow es
            fk
          ≡ returned rest)
        × ((c : Checkpoint) → In c (map checkpoint_of rest) → In c (map checkpoint_of rs))
  plan_rekeys-tail d es final_keys rs h = elim (step d es final_keys rs h) [
    | inl (g, l) ↦ (final_keys, rs, l, λ c i. i)
    | inr (p, rest, o, u, l, r) ↦ (
      put final_keys (identity_key d.ref) d.ref,
      rest,
      l,
      λ c i. rw r (In-rekey_if (not (p == identity_key d.ref)) _ rest c i),
    )
  ]

  -- Two accepted entries that are not deleted and have one final key are one entry.
  pub plan_rekeys_unique :
      (es : List EntityEntry) (final_keys : List (Text × ℕ)) (rs : List Rekey)
      → plan_rekeys s accepted identity_key allow es final_keys ≡ returned rs
      → (e f : EntityEntry) → In e es
      → In f es
      → is_deleted e.state ≡ false
      → is_deleted f.state ≡ false
      → identity_key e.ref ≡ identity_key f.ref
      → e.ref ≡ f.ref
  plan_rekeys_unique [] final_keys rs h e f i j n m q = absurd i
  plan_rekeys_unique (d ∷ es) final_keys rs h e f (inl a) (inl b) n m q =
      ap (λ (x : EntityEntry). x.ref) (a ∙ sym b)
  plan_rekeys_unique (d ∷ es) final_keys rs h e f (inl a) (inr j) n m q =
      plan_rekeys-head e es final_keys rs
        (subst (λ x. plan_rekeys s accepted identity_key allow (x ∷ es) final_keys ≡ returned rs)
          (sym a) h)
        n f j m q
  plan_rekeys_unique (d ∷ es) final_keys rs h e f (inr i) (inl b) n m q = sym (
      plan_rekeys-head f es final_keys rs
        (subst (λ x. plan_rekeys s accepted identity_key allow (x ∷ es) final_keys ≡ returned rs)
          (sym b) h)
        m e i n (sym q))
  plan_rekeys_unique (d ∷ es) final_keys rs h e f (inr i) (inr j) n m q =
      let (fk, rest, l, w) = plan_rekeys-tail d es final_keys rs h in
      plan_rekeys_unique es fk rest l e f i j n m q

  pub plan_rekeys-keyed :
      (es : List EntityEntry) (final_keys : List (Text × ℕ)) (rs : List Rekey)
      → plan_rekeys s accepted identity_key allow es final_keys ≡ returned rs
      → (e : EntityEntry) → In e es
      → is_deleted e.state ≡ false
      → (get s.keys e.ref ≡ some (identity_key e.ref))
        ⊎ In (record { entry = e.ref; key = identity_key e.ref }) (map checkpoint_of rs)
  unfolding rekey_if
  plan_rekeys-keyed [] final_keys rs h e i n = absurd i
  plan_rekeys-keyed (d ∷ es) final_keys rs h e (inr i) n =
      let (fk, rest, l, w) = plan_rekeys-tail d es final_keys rs h in
      elim (plan_rekeys-keyed es fk rest l e i n) [ inl k ↦ inl k | inr k ↦ inr (w _ k) ]
  plan_rekeys-keyed (d ∷ es) final_keys rs h e (inl a) n =
      elim (step e es final_keys rs (
        subst (λ x. plan_rekeys s accepted identity_key allow (x ∷ es) final_keys ≡ returned rs)
          (sym a) h)) [
            | inl (g, l) ↦ absurd (cc g)
            | inr (p, rest, o, u, l, r) ↦ elim (Bool-cases (p == identity_key e.ref)) [
              | inl k ↦ inl (o ∙ ap some ((==_iff p (identity_key e.ref)).0 k))
              | inr k ↦ inr (rw (r, k) (inl refl))
            ]
          ]

-- What is dropped before the rekeys: no key leads to an entry that gets another.
dropped :
    (s : Identities) (entries : List (Text × ℕ)) (r : Rekey)
    → ((k : Text) (e : ℕ) → get entries k ≡ some e → get s.keys e ≡ some k)
    → get s.keys r.entry ≡ some r.previous
    → (k : Text) → get (drop_entry entries (some r.previous) r.entry) k ≡ some r.entry
    → ⊥
dropped s entries r h p k g =
    let own = h k r.entry (get-drop_entry entries (some r.previous) r.entry k r.entry g) in
    let same : (k ≡ r.previous) = cc (own, p) in
    drop_entry-gone entries r.previous r.entry (rw same at g)

pub drop_previous-free :
    (s : Identities) (entries : List (Text × ℕ)) (rs : List Rekey)
    → IsMap entries
    → ((k : Text) (e : ℕ) → get entries k ≡ some e → get s.keys e ≡ some k)
    → All (λ (r : Rekey). get s.keys r.entry ≡ some r.previous) rs
    → IsMap (drop_previous entries rs)
      × ((k : Text) (e : ℕ) → get (drop_previous entries rs) k ≡ some e → get entries k ≡ some e)
      × ((c : Checkpoint)
          → In c (map checkpoint_of rs)
          → (k : Text) → get (drop_previous entries rs) k ≡ some c.entry
          → ⊥)
unfolding drop_previous
drop_previous-free s entries [] m h a = (m, (λ k e g. g), λ c i. absurd i)
drop_previous-free s entries (r ∷ rs) m h (p, a) =
    let less_entries = drop_entry entries (some r.previous) r.entry in
    let (im, sub, free) =
      drop_previous-free s less_entries rs (drop_entry-IsMap entries (some r.previous) r.entry m)
        (λ k e g. h k e (get-drop_entry entries (some r.previous) r.entry k e g)) a in
    (
      im,
      (λ k e g. get-drop_entry entries (some r.previous) r.entry k e (sub k e g)),
      λ c i k g. elim i [
        | inr j ↦ free c j k g
        | inl q ↦
            dropped s entries r h p k (sub k c.entry g ∙ ap (λ (x : Checkpoint). some x.entry) q)
      ],
    )
