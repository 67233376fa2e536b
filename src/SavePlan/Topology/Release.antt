-- ===== src/SavePlan/Topology/Release.antt =====
-- What one round of the loop does to the counts and to the heap of ready entries.
use Prim.Native.Nat.{Ordering}
use entitykit.Common.{
  ℕ, ◌+◌, ◌≡◌, refl, inl, inr, some, List, [], ◌∷◌, arith, if◌then◌else◌, length, true, ◌&&◌, ◌||◌,
  ◌==◌, nat_eq, ==_iff, has, delete, Option-cases, pos, decrement, is_zero, ◌∙◌,
}
use entitykit.SavePlan.Heap.Content.{total}
use entitykit.SavePlan.Topology.{Walk, take_remaining, choose, release, fill}
use entitykit.SavePlan.Topology.Membership.{has-push, Distinct, total-delete}
use entitykit.SavePlan.Topology.Complete.{take_remaining-IsTaken}

-- How many of the listed entries must be written before `v`.
unfoldable pub indegree : (ℕ → List ℕ) → List ℕ → ℕ → ℕ
indegree outgoing s v = total (λ u. if has (outgoing u) v then 1 else 0) s

module _ (compare : ℕ → ℕ → Ordering) where
  pub release-incoming :
      (ds : List ℕ) (w : Walk) (v : ℕ)
      → Distinct ds
      → (release compare ds w).incoming v
        ≡ (if has ds v then decrement (w.incoming v) else w.incoming v)
  unfolding release has
  release-incoming [] w v d = refl
  release-incoming (x ∷ ds) w v (n, d) = release-incoming ds _ v d ∙ ground (arith, ==_iff x v)

  pub release-ready :
      (ds : List ℕ) (w : Walk) (v : ℕ)
      → Distinct ds
      → has (release compare ds w).ready v
        ≡ (has w.ready v || (has ds v && (is_zero (decrement (w.incoming v)) && has w.remaining v)))
  unfolding release has
  release-ready [] w v d = ground arith
  release-ready (x ∷ ds) w v (n, d) =
      release-ready ds _ v d ∙ ground (arith, ==_iff x v, has-push compare w.ready x v)

  pub fill-ready :
      (xs : List ℕ) (w : Walk) (v : ℕ)
      → has (fill compare xs w).ready v ≡ (has w.ready v || (has xs v && is_zero (w.incoming v)))
  unfolding fill has
  fill-ready [] w v = ground arith
  fill-ready (x ∷ xs) w v =
      fill-ready xs _ v ∙ ground (arith, ==_iff x v, has-push compare w.ready x v)

module _ (outgoing : ℕ → List ℕ) where
  -- The counts are the indegrees among what remains, and `ready` holds the sources.
  pub record IsExact (w : Walk) : Type 0 where
    pub counted :
        (v : ℕ) → has w.remaining v ≡ true → w.incoming v ≡ pos (indegree outgoing w.remaining v)
    pub readied :
        (v : ℕ)
        → has w.remaining v ≡ true
        → indegree outgoing w.remaining v ≡ 0
        → has w.ready v ≡ true
    pub sound :
        (v : ℕ)
        → has w.remaining v ≡ true
        → has w.ready v ≡ true
        → indegree outgoing w.remaining v ≡ 0

  pub indegree-delete :
      (s : List ℕ) (n v : ℕ)
      → Distinct s
      → has s n ≡ true
      → indegree outgoing (delete s n) v + (if has (outgoing n) v then 1 else 0)
        ≡ indegree outgoing s v
  unfolding indegree
  indegree-delete s n v d h = total-delete (λ u. if has (outgoing u) v then 1 else 0) s n d h

  -- If some remaining entry is a source, then the choice is a source from `ready`.
  pub record IsReadyChoice (compare : ℕ → ℕ → Ordering) (w : Walk) (n : ℕ) : Type 0 where
    pub listed : has w.ready n ≡ true
    pub kept :
        (a : ℕ)
        → has w.remaining a ≡ true
        → has w.ready a ≡ true
        → (n == a || has (choose compare w).1.ready a) ≡ true
    pub shrunk : (a : ℕ) → has (choose compare w).1.ready a ≡ true → has w.ready a ≡ true
    pub same : (choose compare w).1.incoming ≡ w.incoming
    pub rest : (choose compare w).1.remaining ≡ w.remaining

  pub choose-IsReadyChoice :
      (compare : ℕ → ℕ → Ordering) (w : Walk) (n b : ℕ)
      → has w.remaining b ≡ true
      → has w.ready b ≡ true
      → (choose compare w).0 ≡ some n
      → IsReadyChoice compare w n
  unfolding choose
  choose-IsReadyChoice compare w n b h k q =
      let r = take_remaining-IsTaken compare w.remaining (length w.ready) w.ready (omega arith) in
      elim (Option-cases (take_remaining compare (length w.ready) w.ready w.remaining).0) [
        | inl e ↦ absurd (ground (arith, r.exhausted b e k))
        | inr (m, e) ↦
            let same : (m ≡ n) = ground arith in
            record {
              listed = ground (arith, r.chosen m e);
              kept = λ a p l. rw (e, choose) (ground (arith, r.kept a m e p l));
              shrunk = λ a p. r.shrunk a (ground arith);
              same = rw (e, choose) refl;
              rest = rw (e, choose) refl;
            }
      ]
