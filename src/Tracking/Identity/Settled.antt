-- ===== src/Tracking/Identity/Settled.antt =====
-- Consistency of the identity map: what `assertMapConsistency` tests, and what keeps it.
use entitykit.Common.{
  ◌==◌, ap, ◌⊎◌, ℕ, ◌≡◌, refl, true, Option, none, some, List, [], ◌∷◌, arith, Text, get, get-put,
  get-remove, IsMap, put-IsMap, remove-IsMap, get_of_In, In, inl, inr, nat_eq, text_eq, ==_iff,
  ==_refl, Bool-cases, returned, thrown,
}
use entitykit.Tracking.Identity.{
  Identities, is_entry, is_key, is_other, register, add, drop_entry, unregister,
  assert_map_consistency, already_tracked,
}

-- An entry that a key leads to is registered with that key.
pub record IsConsistent (s : Identities) : Type 0 where
  pub is_map : IsMap s.entries
  pub registered : (k : Text) (e : ℕ) → get s.entries k ≡ some e → get s.keys e ≡ some k

is_key-eq : (o : Option Text) (k : Text) → is_key o k ≡ true → o ≡ some k
is_key-eq none k h = cc
is_key-eq (some j) k h = ap some ((==_iff j k).0 h)

pub assert_map_consistency_sound :
    (keys : List (ℕ × Text)) (entries : List (Text × ℕ))
    → assert_map_consistency keys entries ≡ returned tt
    → (k : Text) (e : ℕ) → get entries k ≡ some e
    → get keys e ≡ some k
unfolding assert_map_consistency get
assert_map_consistency_sound keys [] h k e g = cc
assert_map_consistency_sound keys ((j, f) ∷ entries) h k e g = ground (
  arith,
  assert_map_consistency_sound keys entries (ground arith) k e,
  ==_iff j k,
  is_key-eq (get keys f) j,
)

assert_of_In :
    (keys : List (ℕ × Text)) (entries : List (Text × ℕ))
    → ((k : Text) (e : ℕ) → In (k, e) entries → get keys e ≡ some k)
    → assert_map_consistency keys entries ≡ returned tt
unfolding assert_map_consistency
assert_of_In keys [] h = refl
assert_of_In keys ((k, e) ∷ entries) h =
    rw (h k e (inl refl), ==_refl k) (assert_of_In keys entries (λ j f i. h j f (inr i)))

pub assert_map_consistency-holds :
    (s : Identities) → IsConsistent s → assert_map_consistency s.keys s.entries ≡ returned tt
assert_map_consistency-holds s c =
    assert_of_In s.keys s.entries (λ k e i. c.registered k e (get_of_In s.entries k e c.is_map i))

pub get-drop_entry :
    (entries : List (Text × ℕ)) (key : Option Text) (entry : ℕ) (k : Text) (e : ℕ)
    → get (drop_entry entries key entry) k ≡ some e
    → get entries k ≡ some e
unfolding drop_entry
get-drop_entry entries none entry k e h = h
get-drop_entry entries (some key) entry k e h =
    elim (Bool-cases (is_entry (get entries key) entry)) [
      | inl q ↦ ground (arith, q, get-remove entries key k)
      | inr q ↦ rw q at h
    ]

pub drop_entry-gone :
    (entries : List (Text × ℕ)) (key : Text) (entry : ℕ)
    → get (drop_entry entries (some key) entry) key ≡ some entry
    → ⊥
unfolding drop_entry
drop_entry-gone entries key entry h = elim (Bool-cases (is_entry (get entries key) entry)) [
  | inl q ↦ ground (arith, q, get-remove entries key key, ==_refl key)
  | inr q ↦ ground (arith, q, ==_refl entry)
]

pub drop_entry-IsMap :
    (entries : List (Text × ℕ)) (key : Option Text) (entry : ℕ)
    → IsMap entries
    → IsMap (drop_entry entries key entry)
unfolding drop_entry
drop_entry-IsMap entries none entry h = h
drop_entry-IsMap entries (some key) entry h = elim (Bool-cases (is_entry (get entries key) entry)) [
  | inl q ↦ rw q (remove-IsMap entries key h)
  | inr q ↦ rw q h
]

module _ (s : Identities) (c : IsConsistent s) where
  pub register-IsConsistent :
      (key : Text) (entry : ℕ)
      → ((k : Text) → get s.entries k ≡ some entry → k ≡ key)
      → IsConsistent (register s entry key)
  unfolding register
  register-IsConsistent key entry own = record {
    is_map = put-IsMap s.entries key entry c.is_map;
    registered = λ k e h. ground (
      arith,
      get-put s.entries key k entry,
      get-put s.keys entry e key,
      c.registered k e,
      own k,
      ==_iff key k,
      ==_iff entry e,
    );
  }

  -- If an added entry has no other registered key, then adding it is refused for another entry
  -- of its key, and otherwise leaves a consistent map in which each leads to the other.
  pub add-IsConsistent :
      (key : Text) (entry : ℕ)
      → ((k : Text) → get s.keys entry ≡ some k → k ≡ key)
      → (add s key entry ≡ thrown (already_tracked entry))
        ⊎ ((t : Identities) × (add s key entry ≡ returned t)
            × IsConsistent t
            × (get t.entries key ≡ some entry)
            × (get t.keys entry ≡ some key))
  unfolding add register
  add-IsConsistent key entry own = elim (Bool-cases (is_other (get s.entries key) entry)) [
    | inl q ↦ inl (rw q refl)
    | inr q ↦ inr (
      register s entry key,
      rw q refl,
      register-IsConsistent key entry (λ k h. own k (c.registered k entry h)),
      ground (arith, get-put s.entries key key entry, ==_refl key),
      ground (arith, get-put s.keys entry entry key, ==_refl entry),
    )
  ]

  unregister-gone : (entry : ℕ) (k : Text) → get (unregister s entry).entries k ≡ some entry → ⊥
  unfolding unregister
  unregister-gone entry k h =
      let g = get-drop_entry s.entries (get s.keys entry) entry k entry h in
      drop_entry-gone s.entries k entry (rw (c.registered k entry g) at h)

  unregister-registered :
      (entry : ℕ) (k : Text) (e : ℕ)
      → get (unregister s entry).entries k ≡ some e
      → get (unregister s entry).keys e ≡ some k
  unfolding unregister
  unregister-registered entry k e h = elim (Bool-cases (entry == e)) [
    | inl q ↦ absurd (unregister-gone entry k (rw (← (==_iff entry e).0 q) at h))
    | inr q ↦ ground (
      arith,
      get-drop_entry s.entries (get s.keys entry) entry k e h,
      get-remove s.keys entry e,
      c.registered k e,
    )
  ]

  -- Removing an entry leaves a consistent map in which no key leads to it.
  pub unregister-IsConsistent :
      (entry : ℕ)
      → IsConsistent (unregister s entry)
        × ((k : Text) → get (unregister s entry).entries k ≡ some entry → ⊥)
  unfolding unregister
  unregister-IsConsistent entry = (
    record {
      is_map = drop_entry-IsMap s.entries (get s.keys entry) entry c.is_map;
      registered = λ k e h. unregister-registered entry k e h;
    },
    unregister-gone entry,
  )
