-- ===== src/UnitOfWork/Saver/Settling.antt =====
-- The save after its commit: observers undo nothing.
use entitykit.Common.{
  ltb, map, inl, Bool, true, false, List, [], ◌∷◌, if◌then◌else◌, nat_eq, returned, thrown,
}
use entitykit.UnitOfWork.Session.{
  saved, cleared, PlanEntry, Interceptor, Environment, Session, ◌>>◌, pure, modify, call,
}
use entitykit.UnitOfWork.Session.Rules.{Ends, Ends-continue, Ends-both, Ends-if}
use entitykit.UnitOfWork.Lifecycle.{swallow, clear_outbox_events, notify_saved}
use entitykit.UnitOfWork.Saver.{
  defer, not_accepted, batches_for, enqueue_after_commit_callback, release, settled_acceptance,
  OutboxEventBatch,
}
use entitykit.UnitOfWork.Saver.Undoing.{IsKept}
use entitykit.UnitOfWork.Saver.{after_committed, settle}
use entitykit.UnitOfWork.Saver.Accepting.{call-Ends}
use entitykit.UnitOfWork.Saver.Undoing.{swallowed, IsSettled}

module _ (env : Environment) where
  pub clear_outbox_events-Kept :
      (batches : List OutboxEventBatch) (s : Session)
      → IsKept s
      → Ends (λ a. IsKept) IsKept (clear_outbox_events env batches s)
  unfolding clear_outbox_events
  clear_outbox_events-Kept [] s h = h
  clear_outbox_events-Kept (b ∷ batches) s h =
      Ends-continue (λ a. IsKept) (λ a. IsKept) IsKept
        (swallow
          (call env (cleared b.entity)
            >> modify (λ s. record s { outbox = release s.outbox (b ∷ []) }))
          s)
        (λ _. clear_outbox_events env batches)
        (swallowed env IsKept
          (call env (cleared b.entity)
            >> modify (λ s. record s { outbox = release s.outbox (b ∷ []) }))
          s
          (Ends-both IsKept _ (
            Ends-continue (λ a. IsKept) (λ a. IsKept) IsKept (call env (cleared b.entity) s) _
              (call-Ends env IsKept IsKept (cleared b.entity) s (λ l. h) (λ t k. k)) (λ _ t k. k))))
        (λ _ t k. clear_outbox_events-Kept batches t k)

  pub notify_saved-Kept :
      (is : List Interceptor) (s : Session)
      → IsKept s
      → Ends (λ a. IsKept) IsKept (notify_saved env is s)
  unfolding notify_saved
  notify_saved-Kept [] s h = h
  notify_saved-Kept (i ∷ is) s h =
      Ends-continue (λ a. IsKept) (λ a. IsKept) IsKept
        ((if i.has_saved then swallow (call env (saved i.number)) else pure tt) s)
        (λ _. notify_saved env is)
        (Ends-if (λ a. IsKept) IsKept i.has_saved (swallow (call env (saved i.number))) (pure tt) s
          (swallowed env IsKept (call env (saved i.number)) s (
            Ends-both IsKept _
              (call-Ends env IsKept IsKept (saved i.number) s (λ l. h) (λ t k. k))))
          h)
        (λ _ t k. notify_saved-Kept is t k)

  pub settle-Kept :
      (batches : List OutboxEventBatch) (s : Session)
      → IsKept s
      → Ends (λ a. IsKept) IsKept (settle env batches s)
  unfolding settle
  settle-Kept batches s h =
      Ends-continue (λ a. IsKept) (λ a. IsKept) IsKept (call env settled_acceptance s) _
        (call-Ends env IsKept IsKept settled_acceptance s (λ l. h) (λ t k. k))
        λ _ s1 h1.
          Ends-continue (λ a. IsKept) (λ a. IsKept) IsKept
            ((if env.has_outbox then clear_outbox_events env batches else pure tt) s1) _
            (Ends-if (λ a. IsKept) IsKept env.has_outbox (clear_outbox_events env batches) (pure tt)
              s1 (clear_outbox_events-Kept batches s1 h1) h1)
            λ _ s2 h2. notify_saved-Kept env.interceptors s2 h2

  pub deferred-Kept :
      (b : Bool) (batches : List OutboxEventBatch) (s : Session)
      → IsKept s
      → Ends
          (λ a. IsKept)
          IsKept
          (if b
            then (
              returned tt,
              record s { coordinator = enqueue_after_commit_callback s.coordinator env.callback },
            )
            else settle env batches s)
  deferred-Kept true batches s h = h
  deferred-Kept false batches s h = settle-Kept batches s h

  pub accepted-Kept :
      (b : Bool) (s : Session)
      → IsKept s
      → Ends {A = Unit {0}}
          (λ a. IsKept)
          IsSettled
          (if b then (returned tt, s) else (thrown (env.made not_accepted), s))
  accepted-Kept true s h = h
  accepted-Kept false s h = inl h

  pub after_committed-Kept :
      (plan : List PlanEntry) (s : Session)
      → IsKept s
      → Ends (λ a. IsKept) IsKept (after_committed env plan s)
  unfolding after_committed
  after_committed-Kept plan s h =
      let batches = batches_for s.outbox (map (λ (e : PlanEntry). e.number) plan) in
      deferred-Kept (ltb 0 s.coordinator.depth) batches
        (record s { outbox = defer s.outbox batches }) h
