-- ===== src/UnitOfWork/Saver/Accepting.antt =====
-- The acceptance of a save before its commit: all parts are accepted, or what is accepted is undone.
use entitykit.Common.{
  ℕ, ◌≡◌, refl, arith, Bool, true, false, List, [], ◌∷◌, ◌++◌, if◌then◌else◌, nat_eq, returned,
}
use entitykit.Restoration.{capture_primary}
use entitykit.UnitOfWork.Session.{
  Part, Event, Environment, stand, Session, M, ◌>>=◌, ◌>>◌, throw, modify, call, accept, undo,
  attempted, attempted_all, scanned, accepted,
}
use entitykit.UnitOfWork.Session.Rules.{Ends, Ends-continue, Ends-recover, Ends-weaken, Ends-state}
use entitykit.UnitOfWork.Executor.{accept_generated_values}
use entitykit.UnitOfWork.Lifecycle.{capture}
use entitykit.UnitOfWork.Saver.{accept_state, undo_if, before_commit}
use entitykit.UnitOfWork.Saver.Undoing.{IsReady, IsAccepted, IsOpen, attempted_keeps}

-- Ready, while the hydrator is set.
abbrev pub IsRunning : Session → Type 0
IsRunning s = (s.hydrator ≡ true) × IsReady s

-- Everything is accepted, and the provider has not committed.
abbrev pub IsPrepared : Session → Type 0
IsPrepared s = (s.committed ≡ false) × IsAccepted s

-- Nothing is accepted; writes and generated values may stand.
abbrev pub IsRefused : Session → Type 0
IsRefused s =
    (s.committed ≡ false)
    × (s.acceptance ≡ false)
    × (s.standing.versions ≡ false)
    × (s.standing.tracker ≡ false)
    × (s.standing.links ≡ false)

pub Running-Open : (s : Session) → IsRunning s → IsOpen s
Running-Open s h = ground (arith, h)

module _ (env : Environment) where
  pub call-Ends :
      (P R : Session → Type 0) (event : Event) (s : Session)
      → ((l : List Event) → P (record s { log = l }))
      → ((t : Session) → P t → R t)
      → Ends (λ a. P) R (call env event s)
  unfolding call
  call-Ends P R event s h k =
      Ends-weaken (λ a. P) (λ a. P) P R (call env event s)
        (Ends-state P (call env event s) (h (s.log ++ event ∷ []))) (λ a t i. i) k

  -- What stands while the `catch` of `acceptSaveState` undoes the parts, the versions last.
  abbrev IsUndoing : Bool → Bool → Session → Type 0
  IsUndoing t l s =
      (s.committed ≡ false)
      × (s.acceptance ≡ false)
      × (s.standing.tracker ≡ t)
      × (s.standing.links ≡ l)

  abbrev IsUndoingTracker : Bool → Session → Type 0
  IsUndoingTracker l s = IsUndoing false l s

  undo_if-tracker :
      (t l : Bool) (s : Session)
      → IsUndoing t l s
      → IsUndoing false l ((undo_if env t Part.tracker s).1)
  unfolding undo call
  undo_if-tracker true l s h = ground (arith, h)
  undo_if-tracker false l s h = h

  undo_if-links :
      (l : Bool) (s : Session)
      → IsUndoing false l s
      → s.standing.versions ≡ false
      → IsRefused ((undo_if env l Part.links s).1)
  unfolding undo call
  undo_if-links true s h v = ground (arith, h, v)
  undo_if-links false s h v = ground (arith, h, v)

  abbrev undoing : Bool → Bool → List (M (Unit {0}))
  undoing t l =
      call env scanned
      ∷ undo_if env t Part.tracker
      ∷ undo env Part.versions
      ∷ undo env Part.writes
      ∷ undo_if env l Part.links
      ∷ []

  undoing-Refused :
      (t l : Bool) (s : Session)
      → IsUndoing t l s
      → IsRefused ((attempted_all env (undoing t l) s).1)
  unfolding attempted_all undo call
  undoing-Refused t l s h =
      let s1 = (attempted env (call env scanned) s).1 in
      let h1 : IsUndoing t l s1 =
        attempted_keeps env (IsUndoing t l) (call env scanned) s (λ s r k. k) h in
      let s2 = (attempted env (undo_if env t Part.tracker) s1).1 in
      let h2 : IsUndoing false l s2 =
        attempted_keeps env (IsUndoing false l) (undo_if env t Part.tracker) s1 (λ s r k. k)
          (undo_if-tracker t l s1 h1) in
      let s3 = (attempted env (undo env Part.versions) s2).1 in
      let h3 : IsUndoing false l s3 × (s3.standing.versions ≡ false) =
        attempted_keeps env (λ s. IsUndoing false l s × (s.standing.versions ≡ false))
          (undo env Part.versions) s2 (λ s r k. k) (h2, refl) in
      let s4 = (attempted env (undo env Part.writes) s3).1 in
      let h4 : IsUndoing false l s4 × (s4.standing.versions ≡ false) =
        attempted_keeps env (λ s. IsUndoing false l s × (s.standing.versions ≡ false))
          (undo env Part.writes) s3 (λ s r k. k) h3 in
      attempted_keeps env IsRefused (undo_if env l Part.links) s4 (λ s r k. k)
        (undo_if-links l s4 h4.0 h4.1)

  accept-part :
      (P Q : Session → Type 0) (part : Part) (s : Session)
      → ((l : List Event) → P (record s { log = l }))
      → ((t : Session) → P t → Q (record t { standing = stand part true t.standing }))
      → Ends (λ a. Q) P (accept env part s)
  unfolding accept
  accept-part P Q part s h k =
      Ends-continue (λ a. P) (λ a. Q) P (call env (accepted part) s) _
        (call-Ends P P (accepted part) s h (λ t k. k)) (λ a t i. k t i)

  -- The states between the acceptances of the parts.
  abbrev IsAccepting : Bool → Bool → Session → Type 0
  IsAccepting t l s =
      (s.committed ≡ false)
      × (s.acceptance ≡ false)
      × (s.standing.versions ≡ true)
      × (s.standing.tracker ≡ t)
      × (s.standing.writes ≡ true)
      × (s.standing.links ≡ l)

  abbrev IsHalfAccepted : Session → Type 0
  IsHalfAccepted s = (s.committed ≡ false) × (s.acceptance ≡ false)

  accepting-half : (t l : Bool) (s : Session) → IsAccepting t l s → IsHalfAccepted s
  accepting-half t l s h = (h.0, h.1)

  accept_parts-Accepting :
      (s : Session)
      → IsAccepting false false s
      → Ends
          (λ a. IsAccepting true true)
          IsHalfAccepted
          ((do
            _ ← accept env Part.tracker
            _ ← call env (accepted Part.writes)
            accept env Part.links)
            s)
  unfolding call
  accept_parts-Accepting s h =
      Ends-continue (λ a. IsAccepting true false) (λ a. IsAccepting true true) IsHalfAccepted
        (accept env Part.tracker s) _
        (Ends-weaken (λ a. IsAccepting true false) (λ a. IsAccepting true false)
          (IsAccepting false false) IsHalfAccepted (accept env Part.tracker s)
          (accept-part (IsAccepting false false) (IsAccepting true false) Part.tracker s (λ l. h)
            (λ t k. ground (arith, k)))
          (λ a t k. k) (accepting-half false false))
        λ _ s1 h1.
          Ends-continue (λ a. IsAccepting true false) (λ a. IsAccepting true true) IsHalfAccepted
            (call env (accepted Part.writes) s1) _
            (call-Ends (IsAccepting true false) IsHalfAccepted (accepted Part.writes) s1 (λ l. h1)
              (accepting-half true false))
            λ _ s2 h2.
              Ends-weaken (λ a. IsAccepting true true) (λ a. IsAccepting true true)
                (IsAccepting true false) IsHalfAccepted (accept env Part.links s2)
                (accept-part (IsAccepting true false) (IsAccepting true true) Part.links s2
                  (λ l. h2) (λ t k. ground (arith, k)))
                (λ a t k. k) (accepting-half true false)

  refuse-Ends :
      (e : ℕ) (s : Session)
      → IsHalfAccepted s
      → Ends
          (λ (a : Unit {0}). IsAccepting true true)
          IsRefused
          ((capture e
              >> (λ (s : Session).
                  attempted_all env (undoing s.standing.tracker s.standing.links) s)
              >> throw e)
            s)
  refuse-Ends e s h =
      let c = record s { restoration = capture_primary s.restoration e } in
      Ends-continue {A = Unit {0}} {B = Unit {0}} (λ a. IsRefused) (λ a. IsAccepting true true)
        IsRefused (attempted_all env (undoing s.standing.tracker s.standing.links) c) (λ _. throw e)
        (Ends-state {A = Unit {0}} IsRefused
          (attempted_all env (undoing s.standing.tracker s.standing.links) c)
          (undoing-Refused s.standing.tracker s.standing.links c (h.0, h.1, refl, refl)))
        (λ a t k. k)

  taken-Ends :
      (b : Bool) (s : Session)
      → s.hydrator ≡ b
      → IsRunning s
      → Ends
          (λ a. IsReady)
          IsOpen
          (if b
            then (call env (accepted Part.values) >> modify (λ s. record s { hydrator = false })) s
            else (returned tt, s))
  taken-Ends false s q h = h.1
  taken-Ends true s q h =
      Ends-continue (λ a. IsRunning) (λ a. IsReady) IsOpen (call env (accepted Part.values) s)
        (λ _. modify (λ s. record s { hydrator = false }))
        (call-Ends IsRunning IsOpen (accepted Part.values) s (λ l. h) Running-Open) (λ _ t k. k.1)

  accept_generated_values-Ends :
      (s : Session) → IsRunning s → Ends (λ a. IsReady) IsOpen (accept_generated_values env s)
  unfolding accept_generated_values
  accept_generated_values-Ends s h = taken-Ends s.hydrator s refl h

  undo_values-Open :
      (s : Session) (e : ℕ)
      → IsRefused s
      → IsOpen
          ((undo env Part.values (record s { restoration = capture_primary s.restoration e })).1)
  unfolding undo call
  undo_values-Open s e h = ground (arith, h)

  accept_state-Ends :
      (s : Session) → IsReady s → Ends (λ a. IsAccepting true true) IsRefused (accept_state env s)
  unfolding accept_state call
  accept_state-Ends s h =
      Ends-continue (λ a. IsAccepting false false) (λ a. IsAccepting true true) IsRefused
        (accept env Part.versions s) _
        (Ends-weaken (λ a. IsAccepting false false) (λ a. IsAccepting false false) IsReady IsRefused
          (accept env Part.versions s)
          (accept-part IsReady (IsAccepting false false) Part.versions s (λ l. h)
            (λ t k. ground (arith, k)))
          (λ a t k. k) (λ t k. ground (arith, k)))
        λ _ s1 h1.
          Ends-recover (λ a. IsAccepting true true) IsHalfAccepted IsRefused
            ((do
              _ ← accept env Part.tracker
              _ ← call env (accepted Part.writes)
              accept env Part.links)
              s1)
            _ (accept_parts-Accepting s1 h1) λ e s2 h2. refuse-Ends e s2 h2

  pub before_commit-Ends :
      (s : Session) → IsRunning s → Ends (λ a. IsPrepared) IsOpen (before_commit env s)
  unfolding before_commit
  before_commit-Ends s h =
      Ends-continue (λ a. IsReady) (λ a. IsPrepared) IsOpen (accept_generated_values env s) _
        (accept_generated_values-Ends s h)
        λ _ s1 h1.
          Ends-recover (λ a. IsPrepared) IsRefused IsOpen
            ((accept_state env >> modify (λ s. record s { acceptance = true })) s1) _
            (Ends-continue (λ a. IsAccepting true true) (λ a. IsPrepared) IsRefused
              (accept_state env s1) (λ _. modify (λ s. record s { acceptance = true }))
              (accept_state-Ends s1 h1) (λ _ t k. ground (arith, k)))
            λ e s2 h2.
              Ends-continue {A = Unit {0}} {B = Unit {0}} (λ a. IsOpen) (λ a. IsPrepared) IsOpen
                (attempted env (undo env Part.values)
                  (record s2 { restoration = capture_primary s2.restoration e }))
                (λ _. throw e)
                (Ends-state {A = Unit {0}} IsOpen
                  (attempted env (undo env Part.values)
                    (record s2 { restoration = capture_primary s2.restoration e }))
                  (attempted_keeps env IsOpen (undo env Part.values)
                    (record s2 { restoration = capture_primary s2.restoration e }) (λ s r k. k)
                    (undo_values-Open s2 e h2)))
                (λ a t k. k)
