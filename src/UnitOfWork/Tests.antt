-- ===== src/UnitOfWork/Tests.antt =====
-- The coordinator on a transaction with a nested one that fails and is caught.
use entitykit.Common.{ℕ, List, has, not, ◌||◌, ◌≡◌, refl, true, false, ◌&&◌, [], ◌∷◌, nat_eq}
use entitykit.UnitOfWork.Outbox.{OutboxEventBatch, Tracker, pending, defer, release}
use entitykit.UnitOfWork.Outbox.Pending.{is_in, pending-defer}
use entitykit.UnitOfWork.Coordinator.{
  Coordinator, Work, ends, enqueues, nests, run, after_commit, after_rollback,
}
use entitykit.UnitOfWork.Coordinator.Scopes.{effect, finished, root, run-root}
use entitykit.UnitOfWork.Coordinator.Once.{settled, enqueued, times, run-once}

abbrev caught : Work
caught =
    enqueues 1 (nests (enqueues 2 (enqueues 3 (ends false))) true true (enqueues 4 (ends true)))

abbrev inside : Coordinator
inside = record { depth = 1; after_commit_callbacks = 9 ∷ []; log = [] }

ran :
    (run caught true root).0.log
    ≡ after_rollback 3 ∷ after_rollback 2 ∷ after_commit 1 ∷ after_commit 4 ∷ []
unfolding run
ran = refl

run-root_example :
    run caught true root
    ≡ (finished (effect caught) ((effect caught).returns && true), (effect caught).returns && true)
run-root_example = run-root caught true

run-once_example : settled 2 (run caught true root).0.log ≡ times 2 (enqueued caught)
run-once_example = run-once caught true 2

abbrev batch : List OutboxEventBatch
batch = record { entity = 1; events = 7 ∷ [] } ∷ []

abbrev empty : Tracker
empty = record { batches_by_plan_entry = []; deferred_by_entity = [] }

pending-defer_example :
    (has {A = ℕ} (pending (defer empty batch) 1 (7 ∷ 8 ∷ [])) 7
      ≡ (has {A = ℕ} (pending empty 1 (7 ∷ 8 ∷ [])) 7 && not (is_in batch 1 7)))
    × (has (pending (release (defer empty batch) batch) 1 (7 ∷ 8 ∷ [])) 7 ≡ (
        has {A = ℕ} (pending empty 1 (7 ∷ 8 ∷ [])) 7
        || (has {A = ℕ} (7 ∷ 8 ∷ []) 7 && is_in batch 1 7)))
pending-defer_example = pending-defer empty batch 1 (7 ∷ 8 ∷ []) 7
