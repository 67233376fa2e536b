-- ===== src/UnitOfWork/Outbox/Pending.antt =====
-- Which events are pending: those that no deferred batch of their entity has.
use entitykit.Common.{
  ℕ, ◌≡◌, refl, ap, arith, Bool, false, not, ◌&&◌, ◌||◌, Option, none, some, List, [], ◌∷◌,
  if◌then◌else◌, ◌==◌, nat_eq, ==_iff, get, put, has, add, delete, get-put, get-remove, has-add,
  has-delete, Option-cases, inl, inr,
}
use entitykit.UnitOfWork.Outbox.{
  OutboxEventBatch, Tracker, filter_not, pending, events_in, add_all, delete_all, defer,
  keep_or_forget, release_batch, release,
}

-- The event is deferred for the entity.
abbrev pub is_deferred : Tracker → ℕ → ℕ → Bool
is_deferred t entity event = has (events_in (get t.deferred_by_entity entity)) event

-- Some batch of the entity has the event.
abbrev pub is_in : List OutboxEventBatch → ℕ → ℕ → Bool
is_in [] entity event = false
is_in (b ∷ bs) entity event = (b.entity == entity && has b.events event) || is_in bs entity event

has-add_all : (s es : List ℕ) (e : ℕ) → has (add_all s es) e ≡ (has es e || has s e)
unfolding add_all has
has-add_all s [] e = refl
has-add_all s (x ∷ es) e = ground (arith, has-add_all (add s x) es e, has-add s x e)

has-delete_all : (s es : List ℕ) (e : ℕ) → has (delete_all s es) e ≡ (not (has es e) && has s e)
unfolding delete_all has
has-delete_all s [] e = refl
has-delete_all s (x ∷ es) e = ground (arith, has-delete_all (delete s x) es e, has-delete s x e)

has-filter_not :
    (p : ℕ → Bool) (xs : List ℕ) (e : ℕ) → has (filter_not p xs) e ≡ (has xs e && not (p e))
unfolding filter_not has
has-filter_not p [] e = refl
has-filter_not p (x ∷ xs) e =
    ground (arith, has-filter_not p xs e, ==_iff x e, ap p {x = x} {y = e})

has-pending :
    (t : Tracker) (entity : ℕ) (events : List ℕ) (e : ℕ)
    → has (pending t entity events) e ≡ (has events e && not (is_deferred t entity e))
unfolding pending has
has-pending t entity events e = elim (Option-cases (get t.deferred_by_entity entity)) [
  | inl q ↦ ground (arith, q)
  | inr (s, q) ↦ ground (arith, q, has-filter_not (has s) events e)
]

is_deferred-defer :
    (t : Tracker) (bs : List OutboxEventBatch) (entity e : ℕ)
    → is_deferred (defer t bs) entity e ≡ (is_in bs entity e || is_deferred t entity e)
unfolding defer
is_deferred-defer t [] entity e = refl
is_deferred-defer t (b ∷ bs) entity e =
    let events = add_all (events_in (get t.deferred_by_entity b.entity)) b.events in
    let rest =
      is_deferred-defer (record t { deferred_by_entity = put t.deferred_by_entity b.entity events })
        bs entity e in
    ground (
      arith,
      rest,
      get-put t.deferred_by_entity b.entity entity events,
      ==_iff b.entity entity,
      has-add_all (events_in (get t.deferred_by_entity b.entity)) b.events e,
      ap (get t.deferred_by_entity) {x = b.entity} {y = entity},
    )

kept :
    (m : List (ℕ × List ℕ)) (entity : ℕ) (s : List ℕ) (x e : ℕ)
    → has (events_in (get (keep_or_forget m entity s) x)) e
      ≡ (if entity == x then has s e else has (events_in (get m x)) e)
unfolding keep_or_forget has
kept m entity [] x e = ground (arith, get-remove m entity x)
kept m entity (y ∷ s) x e = ground (arith, get-put m entity x (y ∷ s))

released_batch :
    (m : List (ℕ × List ℕ)) (b : OutboxEventBatch) (o : Option (List ℕ)) (x e : ℕ)
    → get m b.entity ≡ o
    → has (events_in (get (release_batch m b o) x)) e
      ≡ (has (events_in (get m x)) e && not (b.entity == x && has b.events e))
unfolding release_batch has
released_batch m b none x e q =
    ground (arith, q, ==_iff b.entity x, ap (get m) {x = b.entity} {y = x})
released_batch m b (some s) x e q = ground (
  arith,
  q,
  kept m b.entity (delete_all s b.events) x e,
  has-delete_all s b.events e,
  ==_iff b.entity x,
  ap (get m) {x = b.entity} {y = x},
)

is_deferred-release :
    (t : Tracker) (bs : List OutboxEventBatch) (entity e : ℕ)
    → is_deferred (release t bs) entity e ≡ (is_deferred t entity e && not (is_in bs entity e))
unfolding release
is_deferred-release t [] entity e = ground arith
is_deferred-release t (b ∷ bs) entity e =
    let next = release_batch t.deferred_by_entity b (get t.deferred_by_entity b.entity) in
    ground (
      arith,
      is_deferred-release (record t { deferred_by_entity = next }) bs entity e,
      released_batch t.deferred_by_entity b (get t.deferred_by_entity b.entity) entity e refl,
    )

-- After batches are deferred, an event of the entity is pending exactly if it was pending and no
-- batch of the entity has it; after they are released as well, exactly if it was pending or a
-- batch of the entity has it.
pub pending-defer :
    (t : Tracker) (bs : List OutboxEventBatch) (entity : ℕ) (events : List ℕ) (e : ℕ)
    → (has (pending (defer t bs) entity events) e
        ≡ (has (pending t entity events) e && not (is_in bs entity e)))
      × (has (pending (release (defer t bs) bs) entity events) e
          ≡ (has (pending t entity events) e || (has events e && is_in bs entity e)))
pending-defer t bs entity events e = ground (
  arith,
  has-pending (defer t bs) entity events e,
  has-pending t entity events e,
  has-pending (release (defer t bs) bs) entity events e,
  is_deferred-defer t bs entity e,
  is_deferred-release (defer t bs) bs entity e,
)
