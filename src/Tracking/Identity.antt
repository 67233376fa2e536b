-- ===== src/Tracking/Identity.antt =====
-- packages/core/src/tracking/tracked-identity-map.ts and tracked-identity-invariants.ts. An entry
-- is read by its reference and state. An operation that changes the map before it can throw
-- gives the map it leaves, beside its outcome.
pub mod Settled
pub mod Accept
pub mod Restore
pub mod Rekeys
pub mod Calls
use entitykit.Common.{
  ℕ, Bool, true, false, not, ◌||◌, ◌&&◌, Option, none, some, List, [], ◌∷◌, ◌++◌, map,
  if◌then◌else◌, ◌==◌, nat_eq, text_eq, Text, get, put, remove, has, Outcome, returned, thrown,
  ◌>>=◌, ◌>>◌,
}

pub data EntityState : Type 0 where
  detached added unchanged modified deleted : EntityState

pub record EntityEntry : Type 0 where
  pub ref : ℕ
  pub state : EntityState

abbrev pub is_deleted : EntityState → Bool
is_deleted EntityState.deleted = true
is_deleted _ = false

abbrev pub is_added : EntityState → Bool
is_added EntityState.added = true
is_added _ = false

pub record Identities : Type 0 where
  pub entries : List (Text × ℕ)
  pub keys : List (ℕ × Text)

pub data IdentityFailure : Type 0 where
  already_tracked : ℕ → IdentityFailure
  not_registered : ℕ → IdentityFailure
  key_changed : ℕ → IdentityFailure
  tracked_broken : ℕ → IdentityFailure
  retained_detached : ℕ → IdentityFailure
  map_broken : ℕ → IdentityFailure

-- `registered === entry`
abbrev pub is_entry : Option ℕ → ℕ → Bool
is_entry none e = false
is_entry (some f) e = f == e

-- `registered && registered !== entry`
abbrev pub is_other : Option ℕ → ℕ → Bool
is_other none e = false
is_other (some f) e = not (f == e)

unfoldable pub lookup : Identities → Text → Option ℕ
lookup s key = get s.entries key

unfoldable pub key_for : Identities → ℕ → Option Text
key_for s entry = get s.keys entry

unfoldable pub register : Identities → ℕ → Text → Identities
register s entry key = record { entries = put s.entries key entry; keys = put s.keys entry key }

unfoldable pub add : Identities → Text → ℕ → Outcome IdentityFailure Identities
add s key entry =
    if is_other (get s.entries key) entry
    then thrown (already_tracked entry)
    else returned (register s entry key)

-- `if (key !== undefined && this.entries.get(key) === entry) this.entries.delete(key)`
unfoldable pub drop_entry : List (Text × ℕ) → Option Text → ℕ → List (Text × ℕ)
drop_entry entries none entry = entries
drop_entry entries (some key) entry =
    if is_entry (get entries key) entry then remove entries key else entries

unfoldable pub unregister : Identities → ℕ → Identities
unfolding drop_entry
unregister s entry = record {
  entries = drop_entry s.entries (get s.keys entry) entry;
  keys = remove s.keys entry;
}

unfoldable pub clear : Identities → Identities
clear s = record { entries = []; keys = s.keys }

abbrev pub is_key : Option Text → Text → Bool
is_key none key = false
is_key (some k) key = k == key

unfoldable pub assert_map_consistency :
    List (ℕ × Text) → List (Text × ℕ) → Outcome IdentityFailure (Unit {0})
assert_map_consistency keys [] = returned tt
assert_map_consistency keys ((key, entry) ∷ entries) =
    let later = assert_map_consistency keys entries in
    if is_key (get keys entry) key then later else thrown (map_broken entry)

unfoldable pub is_registered : Identities → Option Text → ℕ → Bool
is_registered s none entry = false
is_registered s (some key) entry = is_entry (get s.entries key) entry

unfoldable pub assert_registered : Identities → List ℕ → Outcome IdentityFailure (Unit {0})
assert_registered s [] = returned tt
assert_registered s (entry ∷ tracked) =
    let later = assert_registered s tracked in
    if is_registered s (get s.keys entry) entry then later else thrown (tracked_broken entry)

unfoldable pub assert_attached : List ℕ → List (Text × ℕ) → Outcome IdentityFailure (Unit {0})
assert_attached tracked [] = returned tt
assert_attached tracked ((key, entry) ∷ entries) =
    let later = assert_attached tracked entries in
    if has tracked entry then later else thrown (retained_detached entry)

unfoldable pub assert_consistent : Identities → List ℕ → Outcome IdentityFailure (Unit {0})
assert_consistent s tracked = do
  assert_registered s tracked
  assert_attached tracked s.entries
  assert_map_consistency s.keys s.entries

pub record Checkpoint : Type 0 where
  pub entry : ℕ
  pub key : Text

-- `collision && collision !== entry && !allowed.has(collision)`
abbrev pub collides : Option ℕ → ℕ → List ℕ → Bool
collides none entry allowed = false
collides (some other) entry allowed = not (other == entry) && not (has allowed other)

unfoldable pub assert_restorable :
    List (Text × ℕ) → List ℕ → List Checkpoint → Outcome IdentityFailure (Unit {0})
assert_restorable entries restoring [] = returned tt
assert_restorable entries restoring (c ∷ cs) =
    let later = assert_restorable entries restoring cs in
    if collides (get entries c.key) c.entry restoring
    then thrown (already_tracked c.entry)
    else later

unfoldable pub unregister_all : Identities → List Checkpoint → Identities
unregister_all s [] = s
unregister_all s (c ∷ cs) = unregister_all (unregister s c.entry) cs

unfoldable pub register_all : Identities → List Checkpoint → Identities
register_all s [] = s
register_all s (c ∷ cs) = register_all (register s c.entry c.key) cs

-- A check, then changes, then the assertion on what they leave.
abbrev pub change :
    {A : Type 0}
    → Identities
    → Outcome IdentityFailure A
    → (A → Identities)
    → Identities × Outcome IdentityFailure (Unit {0})
change s (thrown e) next = (s, thrown e)
change s (returned a) next = (next a, assert_map_consistency (next a).keys (next a).entries)

unfoldable pub restore_keys :
    Identities → List Checkpoint → Identities × Outcome IdentityFailure (Unit {0})
unfolding assert_restorable register_all unregister_all
restore_keys s checkpoints =
    change s
      (assert_restorable s.entries (map (λ (c : Checkpoint). c.entry) checkpoints) checkpoints)
      (λ _. register_all (unregister_all s checkpoints) checkpoints)

pub record Rekey : Type 0 where
  pub entry : ℕ
  pub previous : Text
  pub next : Text

unfoldable pub rekey_if : Bool → Rekey → List Rekey → List Rekey
rekey_if true r rs = r ∷ rs
rekey_if false r rs = rs

module _ (s : Identities) (accepted : List ℕ) (identity_key : ℕ → Text)
    (allow_existing_rekey : Bool) where
  -- The guards of the loop of `prepareAccept` on an entry, with its registered key.
  unfoldable pub check_accept :
      EntityEntry → Option Text → List (Text × ℕ) → Outcome IdentityFailure Text
  check_accept e none final_keys = thrown (not_registered e.ref)
  check_accept e (some previous) final_keys =
      let next = identity_key e.ref in
      if not (previous == next) && (not (is_added e.state) && not allow_existing_rekey)
      then thrown (key_changed e.ref)
      else if is_other (get final_keys next) e.ref
      then thrown (already_tracked e.ref)
      else if collides (get s.entries next) e.ref accepted
      then thrown (already_tracked e.ref)
      else returned previous

  -- The loop of `prepareAccept`, which gives the rekeys.
  unfoldable pub plan_rekeys :
      List EntityEntry → List (Text × ℕ) → Outcome IdentityFailure (List Rekey)
  unfolding check_accept
  plan_rekeys [] final_keys = returned []
  plan_rekeys (e ∷ es) final_keys =
      let skip = plan_rekeys es final_keys in
      let next = identity_key e.ref in
      let later = plan_rekeys es (put final_keys next e.ref) in
      if is_deleted e.state then skip else do
        previous ← check_accept e (get s.keys e.ref) final_keys
        rekeys ← later
        returned (
            rekey_if (not (previous == next))
              (record { entry = e.ref; previous = previous; next = next }) rekeys)

unfoldable pub drop_previous : List (Text × ℕ) → List Rekey → List (Text × ℕ)
drop_previous entries [] = entries
drop_previous entries (r ∷ rs) = drop_previous (drop_entry entries (some r.previous) r.entry) rs

abbrev pub checkpoint_of : Rekey → Checkpoint
checkpoint_of r = record { entry = r.entry; key = r.next }

unfoldable pub prepare_accept :
    Identities
    → List EntityEntry
    → (ℕ → Text)
    → Bool
    → Identities × Outcome IdentityFailure (Unit {0})
prepare_accept s es identity_key allow_existing_rekey =
    change s
      (plan_rekeys s (map (λ (e : EntityEntry). e.ref) es) identity_key allow_existing_rekey es [])
      (λ rekeys.
        register_all (record { entries = drop_previous s.entries rekeys; keys = s.keys })
          (map checkpoint_of rekeys))
