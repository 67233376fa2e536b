-- ===== src/Tracking/Identity/Calls.antt =====
-- The identity map over any sequence of its calls.
use entitykit.Common.{nat_eq, text_eq, ℕ, ◌≡◌, Bool, some, List, [], Text, get, All, returned}
use entitykit.Tracking.Identity.{
  Identities, Checkpoint, EntityEntry, add, unregister, restore_keys, prepare_accept,
}

abbrev pub untracked : Identities
untracked = record { entries = []; keys = [] }

-- An entry is added with the key that it is registered with, if any; checkpoints give an entry one
-- key. A restoration and an acceptance may fail.
pub data Call : Identities → Identities → Type 0 where
  adds :
      (s t : Identities) (key : Text) (entry : ℕ)
      → ((k : Text) → get s.keys entry ≡ some k → k ≡ key)
      → add s key entry ≡ returned t
      → Call s t
  unregisters : (s : Identities) (entry : ℕ) → Call s (unregister s entry)
  restores :
      (s : Identities) (key_of : ℕ → Text) (cs : List Checkpoint)
      → All (λ (c : Checkpoint). c.key ≡ key_of c.entry) cs
      → Call s (restore_keys s cs).0
  accepts :
      (s : Identities) (es : List EntityEntry) (identity_key : ℕ → Text) (allow : Bool)
      → Call s (prepare_accept s es identity_key allow).0

pub data Reachable : Identities → Type 0 where
  initial : Reachable untracked
  then_call : {s t : Identities} → Reachable s → Call s t → Reachable t
