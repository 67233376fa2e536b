-- ===== src/Migrations/Executor/Batches.antt =====
-- The batches that the executor submits: nothing lost, nothing reordered, and no statement in a
-- transaction that must not be in one.
use mathlib.Core.Path.{subst}
use entitykit.Common.{
  if_either, ◌≡◌, ◌≢◌, ◌∙◌, sym, ap, refl, true, false, List, [], ◌∷◌, ◌++◌, append-nil,
  append_assoc, Outcome, returned, thrown, All, All-append,
}
use entitykit.Migrations.Range.{Step}
use entitykit.Migrations.Executor.{
  run_migration, wrap, Statement, DatabaseCall, lock_acquire, lock_release, in_transaction, outside,
  UpdateFailure, Answer, Done, then_do, submit, flush_batch, run_statements,
}

abbrev pub statements_of : DatabaseCall → List Statement
statements_of lock_acquire = []
statements_of lock_release = []
statements_of (in_transaction ss) = ss
statements_of (outside s) = s ∷ []

abbrev pub flatten : List DatabaseCall → List Statement
flatten [] = []
flatten (c ∷ cs) = statements_of c ++ flatten cs

-- No call of the lock. A transaction is not empty and has no statement that suppresses it; a
-- statement outside of one suppresses it.
abbrev pub IsAllowed : DatabaseCall → Type 0
IsAllowed lock_acquire = ⊥
IsAllowed lock_release = ⊥
IsAllowed (in_transaction ss) =
    (ss ≢ []) × All (λ (s : Statement). s.suppress_transaction ≡ false) ss
IsAllowed (outside s) = s.suppress_transaction ≡ true

-- What a run from `calls` made, of the statements it had to run.
pub record IsRun (calls : List DatabaseCall) (statements : List Statement) (done : Done)
    : Type 0 where
  pub made : List DatabaseCall
  pub left : List Statement
  pub extends : done.0 ≡ calls ++ made
  pub in_order : flatten made ++ left ≡ statements
  pub allowed : All IsAllowed made
  pub finished : done.1 ≡ returned tt → left ≡ []

pub flatten-append : (xs ys : List DatabaseCall) → flatten (xs ++ ys) ≡ flatten xs ++ flatten ys
flatten-append [] ys = refl
flatten-append (x ∷ xs) ys =
    rw (flatten-append xs ys) (sym (append_assoc (statements_of x) (flatten xs) (flatten ys)))

-- A call and then what follows it, which is made only if the call returns.
followed :
    (calls : List DatabaseCall) (call : DatabaseCall) (rest : List Statement)
    (o : Outcome UpdateFailure (Unit {0})) (next : List DatabaseCall → Done)
    → IsAllowed call
    → IsRun (calls ++ call ∷ []) rest (next (calls ++ call ∷ []))
    → IsRun calls (statements_of call ++ rest) (then_do (calls ++ call ∷ [], o) next)
followed calls call rest (returned u) next a r = record {
  made = call ∷ r.made;
  left = r.left;
  extends = r.extends ∙ append_assoc calls (call ∷ []) r.made;
  in_order =
      append_assoc (statements_of call) (flatten r.made) r.left
      ∙ ap (λ l. statements_of call ++ l) r.in_order;
  allowed = (a, r.allowed);
  finished = r.finished;
}
followed calls call rest (thrown e) next a r = record {
  made = call ∷ [];
  left = rest;
  extends = refl;
  in_order = rw (append-nil (statements_of call)) refl;
  allowed = (a, tt);
  finished = λ h. cc;
}

nothing_left : (calls : List DatabaseCall) → IsRun calls [] (calls, returned tt)
nothing_left calls = record {
  made = [];
  left = [];
  extends = sym (append-nil calls);
  in_order = refl;
  allowed = tt;
  finished = λ h. refl;
}

then_do_last : (d : Done) → then_do d (λ calls. (calls, returned tt)) ≡ d
then_do_last (calls, returned u) = refl
then_do_last (calls, thrown e) = refl

unwrapped :
    (answer : Answer) (step : Step) (o : Outcome UpdateFailure (Unit {0}))
    → wrap answer step o ≡ returned tt
    → o ≡ returned tt
unwrapped answer step (returned u) h = refl
unwrapped answer step (thrown e) h =
    elim e as (λ k. wrap answer step (thrown k) ≡ returned tt → thrown k ≡ returned tt) [
      | UpdateFailure.canceled ↦ λ q. cc
      | _ ↦ λ q. cc
    ]
      h

module _ (answer : Answer) where
  flushed :
      (batch : List Statement) (calls : List DatabaseCall) (rest : List Statement)
      (next : List DatabaseCall → Done)
      → All (λ (s : Statement). s.suppress_transaction ≡ false) batch
      → ((c : List DatabaseCall) → IsRun c rest (next c))
      → IsRun calls (batch ++ rest) (then_do (flush_batch answer batch calls) next)
  unfolding flush_batch submit
  flushed [] calls rest next a r = r calls
  flushed (s ∷ ss) calls rest next a r =
      followed calls (in_transaction (s ∷ ss)) rest (answer calls (in_transaction (s ∷ ss))) next
        ((λ q. cc), a) (r (calls ++ in_transaction (s ∷ ss) ∷ []))

  run_statements-IsRun :
      (batch : List Statement) (ss : List Statement) (calls : List DatabaseCall)
      → All (λ (s : Statement). s.suppress_transaction ≡ false) batch
      → IsRun calls (batch ++ ss) (run_statements answer batch ss calls)
  unfolding run_statements submit
  run_statements-IsRun batch [] calls a =
      subst (IsRun calls (batch ++ [])) (then_do_last (flush_batch answer batch calls))
        (flushed batch calls [] (λ c. (c, returned tt)) a nothing_left)
  run_statements-IsRun batch (s ∷ ss) calls a =
      if_either (IsRun calls (batch ++ s ∷ ss)) s.suppress_transaction _ _
        (λ h. flushed batch calls (s ∷ ss) _ a (λ c.
          followed c (outside s) ss (answer c (outside s))
            (λ done. run_statements answer [] ss done) h
            (run_statements-IsRun [] ss (c ++ outside s ∷ []) tt)))
        (λ h.
          subst (λ l. IsRun calls l (run_statements answer (batch ++ s ∷ []) ss calls))
            (append_assoc batch (s ∷ []) ss)
            (run_statements-IsRun (batch ++ s ∷ []) ss calls (
              All-append (λ (s : Statement). s.suppress_transaction ≡ false) batch (s ∷ []) a
                (h, tt))))

  pub run_migration-IsRun :
      (step : Step) (statements : List Statement) (calls : List DatabaseCall)
      → IsRun calls statements (run_migration answer step statements calls)
  unfolding run_migration
  run_migration-IsRun step statements calls =
      let r = run_statements-IsRun [] statements calls tt in
      record {
        made = r.made;
        left = r.left;
        extends = r.extends;
        in_order = r.in_order;
        allowed = r.allowed;
        finished =
            λ h. r.finished (unwrapped answer step (run_statements answer [] statements calls).1 h);
      }
