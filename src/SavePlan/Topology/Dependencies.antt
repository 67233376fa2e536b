-- ===== src/SavePlan/Topology/Dependencies.antt =====
-- In an acyclic graph no entry is written before one that it depends on.
use Prim.Native.Nat.{Ordering}
use mathlib.Core.Path.{ap₂}
use entitykit.Common.{
  ℕ, zero, suc, ◌<◌, ◌≡◌, ap, inl, inr, some, List, [], ◌∷◌, arith, ltb, if◌then◌else◌, length,
  true, false, ◌&&◌, ◌||◌, nat_eq, ==_iff, has, delete, has-delete, Bool-cases, ℤ, pos, decrement,
  is_zero, ◌∙◌,
}
use entitykit.SavePlan.Heap.Content.{total}
use entitykit.SavePlan.Topology.{
  Walk, choose, advance, fill, start, set_from, stable_compare, stable_topological_order,
}
use entitykit.SavePlan.Topology.Membership.{
  Distinct, Distinct-delete, is, has-total, set_from-Distinct, has-set_from, length-set_from,
}
use entitykit.SavePlan.Topology.Complete.{
  fill-same, fill-fallback, advance-same, Emits, done, more, Emits-total, walk-Emits,
}
use entitykit.SavePlan.Topology.Release.{
  indegree, release-incoming, release-ready, fill-ready, IsExact, indegree-delete, IsReadyChoice,
  choose-IsReadyChoice,
}

-- No entry has an edge to one that stands before it.
abbrev pub Respects : (ℕ → List ℕ) → List ℕ → Type 0
Respects outgoing [] = Unit
Respects outgoing (x ∷ xs) =
    ((u : ℕ) → has xs u ≡ true → has (outgoing u) x ≡ false) × Respects outgoing xs

module _ (outgoing : ℕ → List ℕ) (sets : (u : ℕ) → Distinct (outgoing u)) where
  indegree_witness :
      (s : List ℕ) (v : ℕ)
      → 0 < indegree outgoing s v
      → (u : ℕ) × (has s u ≡ true) × (has (outgoing u) v ≡ true)
  unfolding indegree total has
  indegree_witness [] v h = absurd (omega arith)
  indegree_witness (x ∷ s) v h = elim (Bool-cases (has (outgoing x) v)) [
    | inl e ↦ (x, ground (arith, ==_iff x x), e)
    | inr e ↦ let (u, k, l) = indegree_witness s v (ground arith) in (u, ground arith, l)
  ]

  indegree_absent :
      (s : List ℕ) (v u : ℕ)
      → indegree outgoing s v ≡ 0
      → has s u ≡ true
      → has (outgoing u) v ≡ false
  unfolding indegree total has
  indegree_absent [] v u h k = cc
  indegree_absent (x ∷ s) v u h k = ground (arith, indegree_absent s v u, ==_iff x u)

  module _ (s : List ℕ) (rank : ℕ → ℕ)
      (falls : (u v : ℕ)
        → has s u ≡ true
        → has s v ≡ true
        → has (outgoing u) v ≡ true
        → rank u < rank v) where
    -- Some remaining entry is a source.
    source :
        (f a : ℕ)
        → rank a < f
        → has s a ≡ true
        → (b : ℕ) × (has s b ≡ true) × (indegree outgoing s b ≡ 0)
    source zero a h k = absurd (omega arith)
    source (suc f) a h k = elim (Bool-cases (ltb 0 (indegree outgoing s a))) [
      | inr e ↦ (a, k, ground arith)
      | inl e ↦
          let (u, l, m) = indegree_witness s a (ground arith) in
          source f u (omega (arith, falls u a l k m)) l
    ]

  module _ (compare : ℕ → ℕ → Ordering) where
    module _ (w : Walk) (n : ℕ) where
      advance-incoming :
          (a : ℕ)
          → (choose compare w).1.incoming ≡ w.incoming
          → (advance compare outgoing n (choose compare w).1).incoming a
            ≡ (if has (outgoing n) a then decrement (w.incoming a) else w.incoming a)
      unfolding advance
      advance-incoming a e =
          release-incoming compare (outgoing n) _ a (sets n)
          ∙ ap (λ (f : ℕ → ℤ). if has (outgoing n) a then decrement (f a) else f a) e

      advance-ready :
          (a : ℕ)
          → (choose compare w).1.incoming ≡ w.incoming
          → (choose compare w).1.remaining ≡ w.remaining
          → has (advance compare outgoing n (choose compare w).1).ready a ≡ (
              has (choose compare w).1.ready a
              || (has (outgoing n) a
                  && (is_zero (decrement (w.incoming a)) && has (delete w.remaining n) a)))
      unfolding advance
      advance-ready a e r =
          release-ready compare (outgoing n) _ a (sets n)
          ∙ ap₂
              (λ (f : ℕ → ℤ) (l : List ℕ).
                has (choose compare w).1.ready a
                || (has (outgoing n) a && (is_zero (decrement (f a)) && has (delete l n) a)))
              e r

      module _ (d : Distinct w.remaining) (m : has w.remaining n ≡ true) (x : IsExact outgoing w)
          (c : IsReadyChoice outgoing compare w n) where
        advance-IsExact : IsExact outgoing (advance compare outgoing n (choose compare w).1)
        advance-IsExact =
            let sr = (advance-same compare outgoing w n).0 in
            record {
              counted = λ a k.
                  advance-incoming a c.same
                  ∙ ground (
                    arith,
                    x.counted a,
                    indegree-delete outgoing w.remaining n a d m,
                    has-delete w.remaining n a,
                    ap (λ l. has l a) sr,
                    ap (λ l. indegree outgoing l a) sr,
                  );
              readied = λ a k z. ground (
                arith,
                x.counted a,
                x.readied a,
                indegree-delete outgoing w.remaining n a d m,
                has-delete w.remaining n a,
                ap (λ l. has l a) sr,
                ap (λ l. indegree outgoing l a) sr,
                advance-ready a c.same c.rest,
                c.kept a,
              );
              sound = λ a k z. ground (
                arith,
                x.counted a,
                x.sound a,
                indegree-delete outgoing w.remaining n a d m,
                has-delete w.remaining n a,
                ap (λ l. has l a) sr,
                ap (λ l. indegree outgoing l a) sr,
                advance-ready a c.same c.rest,
                c.shrunk a,
              );
            }

    -- The rank of an entry is below that of each entry that depends on it.
    abbrev Falls : (ℕ → ℕ) → List ℕ → Type 0
    Falls rank s =
        (u v : ℕ) → has s u ≡ true → has s v ≡ true → has (outgoing u) v ≡ true → rank u < rank v

    Emits-Respects :
        (rank : ℕ → ℕ) {w : Walk} {es : List ℕ}
        → Emits compare outgoing w es
        → Distinct w.remaining
        → IsExact outgoing w
        → Falls rank w.remaining
        → Respects outgoing es
    Emits-Respects rank (done e) d x falls = tt
    Emits-Respects rank {w} (more n es q m em) d x falls =
        let (b, k, z) = source w.remaining rank falls (suc (rank n)) n (omega arith) m in
        let c = choose-IsReadyChoice outgoing compare w n b k (x.readied b k z) q in
        let w' = advance compare outgoing n (choose compare w).1 in
        let sr = (advance-same compare outgoing w n).0 in
        let d' : Distinct w'.remaining = rw sr (Distinct-delete w.remaining n d) in
        let inside : ((a : ℕ) → has w'.remaining a ≡ true → has w.remaining a ≡ true) =
          λ a h. ground (arith, has-delete w.remaining n a, ap (λ l. has l a) sr) in
        (
          λ u h. indegree_absent w.remaining n u (x.sound n m c.listed) (
              inside u (
                ground (
                  arith,
                  has-total es u,
                  has-total w'.remaining u,
                  Emits-total compare outgoing (is u) em d',
                ))),
          Emits-Respects rank em d' (advance-IsExact w n d m x c)
              (λ u v hu hv. falls u v (inside u hu) (inside v hv)),
        )

-- What the ordering needs of its input: `outgoing` holds sets, `incoming` counts the edges among
-- the entries, and some rank grows along every edge.
pub record IsAcyclic (entries : List ℕ) (outgoing : ℕ → List ℕ) (incoming : ℕ → ℤ) (rank : ℕ → ℕ)
    : Type 0 where
  pub sets : (u : ℕ) → Distinct (outgoing u)
  pub counts :
      (v : ℕ)
      → has (set_from [] entries) v ≡ true
      → incoming v ≡ pos (indegree outgoing (set_from [] entries) v)
  pub falls :
      (u v : ℕ)
      → has (set_from [] entries) u ≡ true
      → has (set_from [] entries) v ≡ true
      → has (outgoing u) v ≡ true
      → rank u < rank v

start-IsExact :
    (compare : ℕ → ℕ → Ordering) (entries : List ℕ) (outgoing : ℕ → List ℕ) (incoming : ℕ → ℤ)
    (rank : ℕ → ℕ)
    → IsAcyclic entries outgoing incoming rank
    → IsExact outgoing (fill compare entries (start entries incoming))
unfolding has
start-IsExact compare entries outgoing incoming rank g =
    let s = set_from [] entries in
    let (sr, so, si) = fill-same compare entries (start entries incoming) in
    record {
      counted = λ v k. ground (
        arith,
        g.counts v,
        ap (λ l. has l v) sr,
        ap (λ l. indegree outgoing l v) sr,
        ap (λ (f : ℕ → ℤ). f v) si,
      );
      readied = λ v k z. ground (
        arith,
        g.counts v,
        ap (λ l. has l v) sr,
        ap (λ l. indegree outgoing l v) sr,
        fill-ready compare entries (start entries incoming) v,
        has-set_from [] entries v,
      );
      sound = λ v k z. ground (
        arith,
        g.counts v,
        ap (λ l. has l v) sr,
        ap (λ l. indegree outgoing l v) sr,
        fill-ready compare entries (start entries incoming) v,
        has-set_from [] entries v,
      );
    }

-- For an acyclic graph the order respects every edge, whatever the comparison.
pub stable_topological_order-Respects :
    (entries : List ℕ) (outgoing : ℕ → List ℕ) (incoming : ℕ → ℤ) (compare : ℕ → ℕ → Ordering)
    (rank : ℕ → ℕ) (es : List ℕ)
    → IsAcyclic entries outgoing incoming rank
    → stable_topological_order entries outgoing incoming compare ≡ some es
    → Respects outgoing es
unfolding stable_topological_order has
stable_topological_order-Respects entries outgoing incoming compare rank es g e =
    let ordering = stable_compare compare entries in
    let w = start entries incoming in
    let (sr, so, _) = fill-same ordering entries w in
    let d' : Distinct (fill ordering entries w).remaining =
      rw sr (set_from-Distinct [] entries tt) in
    let inside : ((a : ℕ)
        → has (fill ordering entries w).remaining a ≡ true
        → has (set_from [] entries) a ≡ true) =
      λ a h. ground (arith, ap (λ l. has l a) sr) in
    let (es', q, em) =
      walk-Emits ordering outgoing (suc (length entries)) (fill ordering entries w)
        (rw sr (omega (arith, length-set_from [] entries))) d'
        (λ a h.
          ground
            (arith, fill-fallback ordering entries w a, has-set_from [] entries a, inside a h)) in
    let same : (es' ≡ es) = ground (arith, so) in
    rw (← same) (
      Emits-Respects outgoing g.sets ordering rank em d'
        (start-IsExact ordering entries outgoing incoming rank g)
        (λ u v hu hv. g.falls u v (inside u hu) (inside v hv)))
