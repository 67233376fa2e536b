-- ===== src/Tracking/Tests.antt =====
-- The identity map on a map of one entry.
use entitykit.Common.{ℕ, List, [], ◌∷◌, Text, units, text_eq, nat_eq}
use entitykit.Tracking.Identity.{Identities, EntityEntry, added, Checkpoint, unregister}

abbrev one : Identities
one = record { entries = (units "a", 1) ∷ []; keys = (1, units "a") ∷ [] }

abbrev key_of : ℕ → Text
key_of n = units "b"

abbrev one_left : Identities
one_left = unregister one 2

abbrev back_to_b : List Checkpoint
back_to_b = record { entry = 1; key = units "b" } ∷ []

abbrev saved : List EntityEntry
saved = record { ref = 1; state = added } ∷ []
