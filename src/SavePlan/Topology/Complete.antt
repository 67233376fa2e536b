-- ===== src/SavePlan/Topology/Complete.antt =====
-- Every entry is written once: the order is total, and holds what the input set holds.
use Prim.Native.Nat.{Ordering}
use entitykit.Common.{
  ℕ, zero, suc, ◌≤◌, ◌<◌, ◌≡◌, refl, ap, inl, inr, Option, none, some, List, [], ◌∷◌, ◌++◌, arith,
  length, true, false, ◌||◌, ◌==◌, nat_eq, ==_iff, has, delete, has-delete, Bool-cases,
  Option-cases, ℤ, ◌∙◌, append-nil, append_assoc, List-cases,
}
use entitykit.SavePlan.Heap.{pop}
use entitykit.SavePlan.Heap.Content.{total}
use entitykit.SavePlan.Topology.{
  Walk, take_remaining, choose, release, advance, walk, fill, start, set_from,
  stable_topological_order, stable_compare,
}
use entitykit.SavePlan.Topology.Membership.{
  has-push, has-pop, length-pop, pop-eq-none, Distinct, Distinct-delete, total-delete,
  set_from-Distinct, has-set_from, length-set_from, length-total,
}

module _ (compare : ℕ → ℕ → Ordering) (rem : List ℕ) where
  -- What `take_remaining` did with a heap.
  pub record IsTaken (heap : List ℕ) (r : Option ℕ × List ℕ) : Type 0 where
    pub chosen : (n : ℕ) → r.0 ≡ some n → (has rem n ≡ true) × (has heap n ≡ true)
    pub exhausted : (a : ℕ) → r.0 ≡ none → has heap a ≡ true → has rem a ≡ false
    pub kept :
        (a n : ℕ)
        → r.0 ≡ some n
        → has rem a ≡ true
        → has heap a ≡ true
        → (n == a || has r.1 a) ≡ true
    pub shrunk : (a : ℕ) → has r.1 a ≡ true → has heap a ≡ true

  pub take_remaining-IsTaken :
      (f : ℕ) (heap : List ℕ) → length heap ≤ f → IsTaken heap (take_remaining compare f heap rem)
  unfolding take_remaining has
  take_remaining-IsTaken zero [] h = record {
    chosen = λ n e. cc;
    exhausted = λ a e k. cc;
    kept = λ a n e k l. cc;
    shrunk = λ a k. k;
  }
  take_remaining-IsTaken zero (x ∷ xs) h = absurd (omega arith)
  take_remaining-IsTaken (suc f) heap h = elim (Option-cases (pop compare heap)) [
    | inl e ↦
        rw (e, take_remaining)
          (record {
            chosen = λ n q. cc;
            exhausted = λ a q k. cc (k, ap (λ l. has l a) (pop-eq-none compare heap e));
            kept = λ a n q k l. cc;
            shrunk = λ a k. k;
          })
    | inr ((x, rest), e) ↦ elim (Bool-cases (has rem x)) [
      | inl t ↦
          rw (e, t, take_remaining)
            (record {
              chosen = λ n q. ground (arith, has-pop compare heap x rest e n, ==_iff x n);
              exhausted = λ a q k. cc;
              kept = λ a n q k l. ground (arith, has-pop compare heap x rest e a);
              shrunk = λ a k. ground (arith, has-pop compare heap x rest e a);
            })
      | inr t ↦
          let r = take_remaining-IsTaken f rest (omega (arith, length-pop compare heap x rest e)) in
          rw (e, t, take_remaining)
            (record {
              chosen = λ n q. ground (arith, has-pop compare heap x rest e n, r.chosen n q);
              exhausted = λ a q k.
                  ground (arith, has-pop compare heap x rest e a, r.exhausted a q, ==_iff x a);
              kept = λ a n q k l.
                  ground (arith, has-pop compare heap x rest e a, r.kept a n q k, ==_iff x a);
              shrunk = λ a k. ground (arith, has-pop compare heap x rest e a, r.shrunk a k);
            })
    ]
  ]

module _ (compare : ℕ → ℕ → Ordering) where
  -- The fallback heap holds whatever remains.
  abbrev pub IsCovered : Walk → Type 0
  IsCovered w = (a : ℕ) → has w.remaining a ≡ true → has w.fallback a ≡ true

  pub release-same :
      (ds : List ℕ) (w : Walk)
      → ((release compare ds w).remaining ≡ w.remaining)
        × ((release compare ds w).fallback ≡ w.fallback)
        × ((release compare ds w).ordered ≡ w.ordered)
  unfolding release
  release-same [] w = (refl, refl, refl)
  release-same (d ∷ ds) w = release-same ds _

  choose-same :
      (w : Walk)
      → ((choose compare w).1.remaining ≡ w.remaining)
        × ((choose compare w).1.ordered ≡ w.ordered)
        × ((choose compare w).1.incoming ≡ w.incoming)
  unfolding choose
  choose-same w =
      let r = take_remaining compare (length w.ready) w.ready w.remaining in
      elim (Option-cases r.0) [
        | inl e ↦ rw (e, choose) (refl, refl, refl)
        | inr (n, e) ↦ rw (e, choose) (refl, refl, refl)
      ]

  record IsChoice (w : Walk) : Type 0 where
    next : ℕ
    found : (choose compare w).0 ≡ some next
    member : has w.remaining next ≡ true
    covers :
        (a : ℕ)
        → has w.remaining a ≡ true
        → (next == a || has (choose compare w).1.fallback a) ≡ true

  choose-IsChoice : (w : Walk) (a : ℕ) → has w.remaining a ≡ true → IsCovered w → IsChoice w
  unfolding choose
  choose-IsChoice w a h c =
      let r = take_remaining-IsTaken compare w.remaining (length w.ready) w.ready (omega arith) in
      let s =
        take_remaining-IsTaken compare w.remaining (length w.fallback) w.fallback (omega arith) in
      elim (Option-cases (take_remaining compare (length w.ready) w.ready w.remaining).0) [
        | inr (n, e) ↦ record {
          next = n;
          found = rw (e, choose) refl;
          member = (r.chosen n e).0;
          covers = λ b k. rw (e, choose) (ground (arith, c b k));
        }
        | inl e ↦
            elim (Option-cases
              (take_remaining compare (length w.fallback) w.fallback w.remaining).0) [
                | inl none_left ↦ absurd (ground (arith, s.exhausted a none_left (c a h)))
                | inr (n, q) ↦ record {
                  next = n;
                  found = rw (e, choose) q;
                  member = (s.chosen n q).0;
                  covers = λ b k. rw (e, choose) (s.kept b n q k (c b k));
                }
              ]
      ]

module _ (compare : ℕ → ℕ → Ordering) (outgoing : ℕ → List ℕ) where
  -- The entries that the loop writes from a state on, in order.
  pub data Emits : Walk → List ℕ → Type 0 where
    done : {w : Walk} → w.remaining ≡ [] → Emits w []
    more :
        {w : Walk} (n : ℕ) (es : List ℕ)
        → (choose compare w).0 ≡ some n
        → has w.remaining n ≡ true
        → Emits (advance compare outgoing n (choose compare w).1) es
        → Emits w (n ∷ es)

  pub advance-same :
      (w : Walk) (n : ℕ)
      → let w' = advance compare outgoing n (choose compare w).1 in
        (w'.remaining ≡ delete w.remaining n)
        × (w'.ordered ≡ w.ordered ++ n ∷ [])
        × (w'.fallback ≡ (choose compare w).1.fallback)
  unfolding advance
  advance-same w n =
      let v = (choose compare w).1 in
      let (a, b, c) =
        release-same compare (outgoing n)
          (record v { remaining = delete v.remaining n; ordered = v.ordered ++ n ∷ [] }) in
      let (p, q, _) = choose-same compare w in
      (a ∙ ap (λ l. delete l n) p, c ∙ ap (λ l. l ++ n ∷ []) q, b)

  walk_step :
      (f : ℕ) (w : Walk) (n : ℕ) {x : ℕ} {xs : List ℕ}
      → w.remaining ≡ x ∷ xs
      → (choose compare w).0 ≡ some n
      → walk compare outgoing (suc f) w
        ≡ walk compare outgoing f (advance compare outgoing n (choose compare w).1)
  unfolding walk
  walk_step f w n e q = ground arith

  pub walk-Emits :
      (f : ℕ) (w : Walk)
      → length w.remaining < f
      → Distinct w.remaining
      → IsCovered compare w
      → (es : List ℕ) × (walk compare outgoing f w ≡ some (w.ordered ++ es)) × Emits w es
  unfolding walk has
  walk-Emits zero w h d c = absurd (omega arith)
  walk-Emits (suc f) w h d c = elim (List-cases w.remaining) [
    | inl e ↦ ([], rw (e, walk, append-nil), done e)
    | inr (x, xs, e) ↦
        let ch = choose-IsChoice compare w x (rw e (ground (arith, ==_iff x x))) c in
        let n = ch.next in
        let w' = advance compare outgoing n (choose compare w).1 in
        let (sr, so, sf) = advance-same w n in
        let (es, q, em) =
          walk-Emits f w'
            (rw sr (
              omega (
                arith,
                length-total (delete w.remaining n),
                length-total w.remaining,
                total-delete (λ _. 1) w.remaining n d ch.member,
              )))
            (rw sr (Distinct-delete w.remaining n d))
            (λ a k.
              rw sf
                (ground (arith, ch.covers a, has-delete w.remaining n a, ap (λ l. has l a) sr))) in
        (
          n ∷ es,
          walk_step f w n e ch.found
              ∙ q
              ∙ ap (λ l. some (l ++ es)) so
              ∙ ap some (append_assoc w.ordered (n ∷ []) es),
          more n es ch.found ch.member em,
        )
  ]

  -- The entries written are those that remained, as multisets.
  pub Emits-total :
      (wt : ℕ → ℕ) {w : Walk} {es : List ℕ}
      → Emits w es
      → Distinct w.remaining
      → total wt es ≡ total wt w.remaining
  unfolding total
  Emits-total wt (done e) d = rw e
  Emits-total wt {w} (more n es f m em) d =
      let (sr, so, sf) = advance-same w n in
      omega (
        arith,
        total-delete wt w.remaining n d m,
        ap (total wt) sr,
        Emits-total wt em (rw sr (Distinct-delete w.remaining n d)),
      )

-- Filling the heaps.
module _ (compare : ℕ → ℕ → Ordering) where
  pub fill-same :
      (xs : List ℕ) (w : Walk)
      → ((fill compare xs w).remaining ≡ w.remaining)
        × ((fill compare xs w).ordered ≡ w.ordered)
        × ((fill compare xs w).incoming ≡ w.incoming)
  unfolding fill
  fill-same [] w = (refl, refl, refl)
  fill-same (x ∷ xs) w = fill-same xs _

  pub fill-fallback :
      (xs : List ℕ) (w : Walk) (a : ℕ)
      → has (fill compare xs w).fallback a ≡ (has w.fallback a || has xs a)
  unfolding fill has
  fill-fallback [] w a = ground arith
  fill-fallback (x ∷ xs) w a =
      fill-fallback xs _ a ∙ ground (arith, has-push compare w.fallback x a)

-- The ordering never fails, whatever the graph: its result is the input set, each entry once.
pub stable_topological_order-total :
    (entries : List ℕ) (outgoing : ℕ → List ℕ) (incoming : ℕ → ℤ) (compare : ℕ → ℕ → Ordering)
    → (es : List ℕ) × (stable_topological_order entries outgoing incoming compare ≡ some es)
      × ((wt : ℕ → ℕ) → total wt es ≡ total wt (set_from [] entries))
unfolding stable_topological_order
stable_topological_order-total entries outgoing incoming compare =
    let ordering = stable_compare compare entries in
    let w = start entries incoming in
    let (sr, so, _) = fill-same ordering entries w in
    let d = set_from-Distinct [] entries tt in
    let d' : Distinct (fill ordering entries w).remaining = rw sr d in
    let (es, q, em) =
      walk-Emits ordering outgoing (suc (length entries)) (fill ordering entries w)
        (rw sr (omega (arith, length-set_from [] entries))) d'
        (λ a h.
          unfold has in
          ground (
            arith,
            fill-fallback ordering entries w a,
            has-set_from [] entries a,
            ap (λ l. has l a) sr,
          )) in
    (
      es,
      q ∙ ap (λ l. some (l ++ es)) so,
      λ wt. Emits-total ordering outgoing wt em d' ∙ ap (total wt) sr,
    )
