-- ===== src/Tracking/Identity/Restore.antt =====
-- `restoreKeys`: a restoration changes nothing, or leaves each checkpointed entry with its key.
use entitykit.Common.{
  ℕ, ◌≡◌, ap, refl, some, List, [], ◌∷◌, arith, Text, get, get-put, In, inl, inr, nat_eq, text_eq,
  ==_iff, ==_refl, All, All-In,
}
use entitykit.Tracking.Identity.{Identities, Checkpoint, register, unregister_all, register_all}
use entitykit.Tracking.Identity.Settled.{IsConsistent, register-IsConsistent}

-- No key leads to any of the entries.
abbrev IsFreeOf : Identities → List Checkpoint → Type 0
IsFreeOf s cs = (c : Checkpoint) → In c cs → (k : Text) → get s.entries k ≡ some c.entry → ⊥

module _ (key_of : ℕ → Text) where
  pub register_all-IsConsistent :
      (s : Identities) (cs : List Checkpoint)
      → IsConsistent s
      → All (λ (c : Checkpoint). c.key ≡ key_of c.entry) cs
      → ((c : Checkpoint) → In c cs → (k : Text) → get s.entries k ≡ some c.entry → k ≡ c.key)
      → IsConsistent (register_all s cs)
  unfolding register_all register
  register_all-IsConsistent s [] h a own = h
  register_all-IsConsistent s (c ∷ cs) h (e, a) own =
      register_all-IsConsistent (register s c.entry c.key) cs
        (register-IsConsistent s h c.key c.entry (own c (inl refl))) a
        (λ d i k g. ground (
          arith,
          get-put s.entries c.key k c.entry,
          own d (inr i) k,
          ==_iff c.key k,
          e,
          All-In (λ (c : Checkpoint). c.key ≡ key_of c.entry) cs d a i,
          ap key_of {x = c.entry} {y = d.entry},
        ))

  pub kept_key :
      (s : Identities) (cs : List Checkpoint) (e : ℕ)
      → All (λ (c : Checkpoint). c.key ≡ key_of c.entry) cs
      → get s.keys e ≡ some (key_of e)
      → get (register_all s cs).keys e ≡ some (key_of e)
  unfolding register_all register
  kept_key s [] e a h = h
  kept_key s (c ∷ cs) e (q, a) h = kept_key (register s c.entry c.key) cs e a (
      ground (
        arith,
        get-put s.keys c.entry e c.key,
        h,
        q,
        ==_iff c.entry e,
        ap key_of {x = c.entry} {y = e},
      ))

  pub register_all-key :
      (s : Identities) (cs : List Checkpoint) (c : Checkpoint)
      → All (λ (c : Checkpoint). c.key ≡ key_of c.entry) cs
      → In c cs
      → get (register_all s cs).keys c.entry ≡ some (key_of c.entry)
  unfolding register_all register
  register_all-key s [] c a i = absurd i
  register_all-key s (d ∷ cs) c (q, a) (inr i) =
      register_all-key (register s d.entry d.key) cs c a i
  register_all-key s (d ∷ cs) c (q, a) (inl e) =
      let first : (get (register s d.entry d.key).keys d.entry ≡ some (key_of d.entry)) =
        rw (get-put s.keys d.entry d.entry d.key, ==_refl d.entry) (ap some q) in
      rw (ap (λ (x : Checkpoint). x.entry) e)
        (kept_key (register s d.entry d.key) cs d.entry a first)

module _ (s : Identities) (h : IsConsistent s) (key_of : ℕ → Text) (cs : List Checkpoint)
    (a : All (λ (c : Checkpoint). c.key ≡ key_of c.entry) cs) where
  abbrev restored : Identities
  restored = register_all (unregister_all s cs) cs
