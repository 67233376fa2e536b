-- ===== src/UnitOfWork/Outbox.antt =====
-- packages/core/src/core/outbox-event-tracker.ts. Entities, events and entries of a plan are
-- numbers; the weak maps are maps.
pub mod Pending
use entitykit.Common.{
  ℕ, Bool, true, false, not, ◌&&◌, ◌||◌, Option, none, some, List, [], ◌∷◌, ◌++◌, if◌then◌else◌,
  ◌==◌, nat_eq, get, put, remove, has, add, delete,
}

pub record OutboxEventBatch : Type 0 where
  pub entity : ℕ
  pub events : List ℕ

pub record Tracker : Type 0 where
  pub batches_by_plan_entry : List (ℕ × List OutboxEventBatch)
  pub deferred_by_entity : List (ℕ × List ℕ)

unfoldable pub filter_not : (ℕ → Bool) → List ℕ → List ℕ
filter_not p [] = []
filter_not p (x ∷ xs) = let rest = filter_not p xs in if p x then rest else x ∷ rest

unfoldable pub pending : Tracker → ℕ → List ℕ → List ℕ
unfolding filter_not
pending t entity events = elim (get t.deferred_by_entity entity) [
  | none ↦ events
  | some deferred ↦ filter_not (has deferred) events
]

unfoldable pub associate : Tracker → ℕ → List OutboxEventBatch → Tracker
associate t entry batches = record t {
  batches_by_plan_entry = put t.batches_by_plan_entry entry batches;
}

abbrev pub batches_in : Option (List OutboxEventBatch) → List OutboxEventBatch
batches_in none = []
batches_in (some batches) = batches

unfoldable pub batches_for : Tracker → List ℕ → List OutboxEventBatch
batches_for t [] = []
batches_for t (entry ∷ plan) = batches_in (get t.batches_by_plan_entry entry) ++ batches_for t plan

abbrev pub events_in : Option (List ℕ) → List ℕ
events_in none = []
events_in (some events) = events

unfoldable pub add_all : List ℕ → List ℕ → List ℕ
add_all s [] = s
add_all s (e ∷ es) = add_all (add s e) es

unfoldable pub delete_all : List ℕ → List ℕ → List ℕ
delete_all s [] = s
delete_all s (e ∷ es) = delete_all (delete s e) es

unfoldable pub defer : Tracker → List OutboxEventBatch → Tracker
unfolding add_all
defer t [] = t
defer t (batch ∷ batches) =
    defer
      (record t {
        deferred_by_entity =
            put t.deferred_by_entity batch.entity
              (add_all (events_in (get t.deferred_by_entity batch.entity)) batch.events);
      })
      batches

-- An entity with no deferred event left is forgotten.
unfoldable pub keep_or_forget : List (ℕ × List ℕ) → ℕ → List ℕ → List (ℕ × List ℕ)
keep_or_forget deferred entity [] = remove deferred entity
keep_or_forget deferred entity (e ∷ es) = put deferred entity (e ∷ es)

unfoldable pub release_batch :
    List (ℕ × List ℕ) → OutboxEventBatch → Option (List ℕ) → List (ℕ × List ℕ)
unfolding keep_or_forget delete_all
release_batch deferred batch none = deferred
release_batch deferred batch (some s) =
    keep_or_forget deferred batch.entity (delete_all s batch.events)

unfoldable pub release : Tracker → List OutboxEventBatch → Tracker
unfolding release_batch
release t [] = t
release t (batch ∷ batches) =
    release
      (record t {
        deferred_by_entity =
            release_batch t.deferred_by_entity batch (get t.deferred_by_entity batch.entity);
      })
      batches
