-- ===== src/SavePlan/Entries/Graphs.antt =====
-- The graph that `orderSaveEntries` builds: what each call of `addEdge` keeps.
use mathlib.Core.Path.{subst}
use entitykit.Common.{
  ℕ, ◌+◌, ◌≡◌, refl, ap, inl, inr, Option, none, some, List, [], ◌∷◌, arith, if◌then◌else◌, Bool,
  true, false, not, ◌&&◌, ◌||◌, ◌==◌, nat_eq, ==_iff, has, add, has-add, Bool-cases, pos, increment,
  sym, ◌∙◌,
}
use entitykit.SavePlan.Heap.Content.{total}
use entitykit.SavePlan.Topology.{set_from}
use entitykit.SavePlan.Topology.Membership.{Distinct, Distinct-add, set_from-Distinct, has-set_from}
use entitykit.SavePlan.Topology.Release.{indegree}
use entitykit.SavePlan.Entries.{
  Relationship, Snapshots, Facts, Graph, edges, edges_in, add_edge, start, edge_if, link, link_all,
  link_entries, displace, displaces, displace_all, displace_entries, build, is_added, is_deleted,
  is_modified,
}

if_either :
    {A : Type 0} (c : Bool) (P : A → Type 0) {x y : A}
    → (c ≡ true → P x)
    → (c ≡ false → P y)
    → P (if c then x else y)
if_either true P h k = h refl
if_either false P h k = k refl

-- A weight that changes at one element of a set changes the total by as much.
total_change :
    (w w' : ℕ → ℕ) (b k : ℕ)
    → ((u : ℕ) → w' u ≡ (if b == u then w u + k else w u))
    → (s : List ℕ) → Distinct s
    → total w' s ≡ (if has s b then total w s + k else total w s)
unfolding total has
total_change w w' b k h [] d = refl
total_change w w' b k h (x ∷ s) (n, d) =
    ground (arith, h x, total_change w w' b k h s d, ==_iff x b, ==_iff b x)

pub record IsGraph (entries : List ℕ) (g : Graph) : Type 0 where
  pub keyed : (u : ℕ) → has entries u ≡ true → (s : List ℕ) × (g.outgoing u ≡ some s)
  pub sets : (u : ℕ) → Distinct (edges g u)
  pub counts : (v : ℕ) → g.incoming v ≡ pos (indegree (edges g) (set_from [] entries) v)

module _ (entries : List ℕ) (b a : ℕ) (g : Graph) (inside : has entries b ≡ true) where
  pub add_edge-edges :
      (u v : ℕ)
      → IsGraph entries g
      → has (edges (add_edge b a g) u) v
        ≡ (has (edges g u) v || (b == u && (a == v && not (b == a))))
  unfolding add_edge
  add_edge-edges u v x =
      let (s, e) = x.keyed b inside in
      ground (arith, e, has-add s a v, ==_iff b u, ==_iff a v, ==_iff b a)

  -- The branch of `addEdge` that adds.
  abbrev grown : Graph
  grown = record {
    outgoing = λ u.
        if b == u
        then elim (g.outgoing b) [ none ↦ none | some s ↦ some (add s a) ]
        else g.outgoing u;
    incoming = λ v. if a == v then increment (g.incoming a) else g.incoming v;
  }

  grown-edges :
      (u v : ℕ)
      → IsGraph entries g
      → has (edges grown u) v ≡ (has (edges g u) v || (b == u && a == v))
  grown-edges u v x =
      let (s, e) = x.keyed b inside in ground (arith, e, has-add s a v, ==_iff b u, ==_iff a v)

  grown-indegree :
      (v : ℕ)
      → IsGraph entries g
      → has (edges g b) a ≡ false
      → indegree (edges grown) (set_from [] entries) v
        ≡ indegree (edges g) (set_from [] entries) v + (if a == v then 1 else 0)
  unfolding indegree has
  grown-indegree v x new =
      total_change (λ u. if has (edges g u) v then 1 else 0)
        (λ u. if has (edges grown u) v then 1 else 0) b (if a == v then 1 else 0)
        (λ u. ground (arith, grown-edges u v x, ==_iff b u, ==_iff a v)) (set_from [] entries)
        (set_from-Distinct [] entries tt)
      ∙ ground (arith, has-set_from [] entries b)

  edges_if :
      (u : ℕ) (s : List ℕ)
      → g.outgoing b ≡ some s
      → (if b == u then add s a else edges g u) ≡ edges grown u
  edges_if u s e = ground (arith, e)

  grown-IsGraph : IsGraph entries g → has (edges g b) a ≡ false → IsGraph entries grown
  grown-IsGraph x new =
      let (s, e) = x.keyed b inside in
      record {
        keyed = λ u k. elim (Bool-cases (b == u)) [
          | inl q ↦ rw (q, e) (add s a, refl)
          | inr q ↦ rw q (x.keyed u k)
        ];
        sets = λ u. subst Distinct (edges_if u s e) (
            if_either (b == u) Distinct
              (λ _. Distinct-add s a (subst (λ o. Distinct (edges_in o)) e (x.sets b)))
              (λ _. x.sets u));
        counts = λ v. ground (arith, grown-indegree v x new, x.counts v, x.counts a, ==_iff a v);
      }

  pub add_edge-IsGraph : IsGraph entries g → IsGraph entries (add_edge b a g)
  unfolding add_edge
  add_edge-IsGraph x = elim (Bool-cases (b == a || has (edges g b) a)) [
    | inl q ↦ rw q x
    | inr q ↦ rw q (grown-IsGraph x (ground arith))
  ]

-- Whatever holds of the first graph and is kept by every added edge holds of the whole graph.
module _ (s : Snapshots) (P : Graph → Type 0) (entries : List ℕ)
    (step : (b a : ℕ) (g : Graph) → has entries b ≡ true → P g → P (add_edge b a g))
    (closed : (r : Relationship) (d p : ℕ) (f : Facts)
      → s.principal r d f ≡ some p
      → has entries p ≡ true) where
  pub edge_if_keeps :
      (test : _) (o : Option ℕ) (edge : ℕ → Graph → Graph) (g : Graph)
      → ((p : ℕ) → o ≡ some p → P g → P (edge p g))
      → P g
      → P (edge_if test s.state o edge g)
  unfolding edge_if
  edge_if_keeps test none edge g h x = x
  edge_if_keeps test (some p) edge g h x = elim (Bool-cases (test (s.state p))) [
    | inl q ↦ rw q (h p refl x)
    | inr q ↦ rw q x
  ]

  pub link_keeps :
      (d : ℕ) (r : Relationship) (g : Graph) → has entries d ≡ true → P g → P (link s d r g)
  unfolding link
  link_keeps d r g k x = elim (Bool-cases (is_deleted (s.entry_state d))) [
    | inl q ↦
        rw q (
          edge_if_keeps is_deleted (s.principal r d Facts.original) _ g (λ p e y. step d p g k y) x)
    | inr q ↦
        let x' =
          edge_if_keeps is_added (s.principal r d Facts.current) (λ p. add_edge p d) g
            (λ p e y. step p d g (closed r d p Facts.current e) y) x in
        elim (Bool-cases (is_modified (s.entry_state d))) [
          | inl m ↦
              rw (q, m)
                (edge_if_keeps is_deleted (s.principal r d Facts.original) _ _
                  (λ p e y. step d p _ k y) x')
          | inr m ↦ rw (q, m) x'
        ]
  ]

  pub link_all_keeps :
      (d : ℕ) (rs : List Relationship) (g : Graph)
      → has entries d ≡ true
      → P g
      → P (link_all s d rs g)
  unfolding link_all
  link_all_keeps d [] g k x = x
  link_all_keeps d (r ∷ rs) g k x = link_all_keeps d rs _ k (link_keeps d r g k x)

  pub link_entries_keeps :
      (ds : List ℕ) (g : Graph)
      → ((d : ℕ) → has ds d ≡ true → has entries d ≡ true)
      → P g
      → P (link_entries s ds g)
  unfolding link_entries has
  link_entries_keeps [] g h x = x
  link_entries_keeps (d ∷ ds) g h x =
      link_entries_keeps ds _ (λ e k. h e (ground arith))
        (link_all_keeps d (s.relationships d) g (h d (ground (arith, ==_iff d d))) x)

  displace_keeps :
      (i : ℕ) (r : Relationship) (os : List ℕ) (g : Graph)
      → ((d : ℕ) → has os d ≡ true → has entries d ≡ true)
      → P g
      → P (displace s i r os g)
  unfolding displace has
  displace_keeps i r [] g h x = x
  displace_keeps i r (o ∷ os) g h x =
      displace_keeps i r os _ (λ e k. h e (ground arith))
        (elim (Bool-cases (displaces s i r o)) [
          | inl q ↦ rw q (step o i g (h o (ground (arith, ==_iff o o))) x)
          | inr q ↦ rw q x
        ])

  displace_all_keeps :
      (i : ℕ) (rs : List Relationship) (g : Graph) → P g → P (displace_all s entries i rs g)
  unfolding displace_all
  displace_all_keeps i [] g x = x
  displace_all_keeps i (r ∷ rs) g x =
      displace_all_keeps i rs _
        (if_either r.one_to_one P (λ _. displace_keeps i r entries g (λ d k. k) x) (λ _. x))

  pub displace_entries_keeps : (is : List ℕ) (g : Graph) → P g → P (displace_entries s entries is g)
  unfolding displace_entries
  displace_entries_keeps [] g x = x
  displace_entries_keeps (i ∷ is) g x =
      displace_entries_keeps is _ (elim (Bool-cases (is_deleted (s.state i))) [
        | inl q ↦ rw q x
        | inr q ↦ rw q (displace_all_keeps i (s.relationships i) g x)
      ])

  pub build_keeps : P (start entries) → P (build s entries)
  unfolding build
  build_keeps x = displace_entries_keeps entries _ (link_entries_keeps entries _ (λ d k. k) x)

total_zero : (w : ℕ → ℕ) → ((u : ℕ) → w u ≡ 0) → (s : List ℕ) → total w s ≡ 0
unfolding total
total_zero w h [] = refl
total_zero w h (x ∷ s) = omega (arith, h x, total_zero w h s)

no_edge :
    (entries : List ℕ) (u v : ℕ) → ◌≡◌ {A = ℕ} (if has (edges (start entries) u) v then 1 else 0) 0
unfolding has
no_edge entries u v = ground arith

pub start-IsGraph : (entries : List ℕ) → IsGraph entries (start entries)
unfolding indegree
start-IsGraph entries = record {
  keyed = λ u k. rw k ([], refl);
  sets = λ u. if_either (has entries u) (λ o. Distinct (edges_in o)) (λ _. tt) (λ _. tt);
  counts = λ v. ap pos (sym (total_zero _ (λ u. no_edge entries u v) (set_from [] entries)));
}
