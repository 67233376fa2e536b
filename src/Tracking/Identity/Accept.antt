-- ===== src/Tracking/Identity/Accept.antt =====
-- `prepareAccept`: an acceptance changes nothing, or leaves each accepted entry with its own final key.
use entitykit.Common.{ℕ, Bool, List, Text, map, nat_eq, text_eq}
use entitykit.Tracking.Identity.{
  Identities, EntityEntry, Rekey, register_all, drop_previous, checkpoint_of,
}
use entitykit.Tracking.Identity.Settled.{IsConsistent}

module _ (s : Identities) (h : IsConsistent s) (es : List EntityEntry) (identity_key : ℕ → Text)
    (allow : Bool) where
  abbrev refs : List ℕ
  refs = map (λ (e : EntityEntry). e.ref) es

  abbrev rekeyed : List Rekey → Identities
  rekeyed rs =
      register_all (record { entries = drop_previous s.entries rs; keys = s.keys })
        (map checkpoint_of rs)
