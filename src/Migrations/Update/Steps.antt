-- ===== src/Migrations/Update/Steps.antt =====
-- The steps of a plan: the statements that they submit, and the result.
use entitykit.Common.{
  ◌&&◌, not, not, ◌≡◌, ◌∙◌, sym, ap, refl, arith, Bool, true, false, List, [], ◌∷◌, ◌++◌,
  append-nil, append_assoc, Text, Outcome, returned, thrown, All, All-append, inl, inr, ◌⊎◌,
}
use entitykit.Migrations.Range.{Step}
use entitykit.Migrations.Executor.{Statement, DatabaseCall, UpdateFailure, Answer, run_migration}
use entitykit.Migrations.Executor.Batches.{
  flatten, flatten-append, IsAllowed, IsRun, run_migration-IsRun,
}
use entitykit.Migrations.Update.{
  stop_or, Dialect, UpdateResult, build_statements, run_steps, is_nothing,
}

abbrev pub all_statements : Dialect → List Step → List Statement
all_statements dialect [] = []
all_statements dialect (s ∷ ss) = build_statements dialect s ++ all_statements dialect ss

-- What the steps of a plan made, from `calls`.
pub record IsUpdateRun (dialect : Dialect) (applied steps : List Step) (calls : List DatabaseCall)
    (done : List DatabaseCall × Outcome UpdateFailure UpdateResult) : Type 0 where
  pub made : List DatabaseCall
  pub left : List Statement
  pub extends : done.0 ≡ calls ++ made
  pub in_order : flatten made ++ left ≡ all_statements dialect steps
  pub allowed : All IsAllowed made
  pub finished :
      (r : UpdateResult)
      → done.1 ≡ returned r
      → (left ≡ []) × (r.applied_migrations ≡ applied ++ steps)

taken :
    (applied : List Step) (x r : UpdateResult)
    → x.applied_migrations ≡ applied
    → ◌≡◌ {A = Outcome UpdateFailure UpdateResult} (returned x) (returned r)
    → r.applied_migrations ≡ applied ++ []
taken applied x r e h = cc (append-nil applied)

pub may_run :
    (warnings : List Text) (allow_data_loss : Bool)
    → not (is_nothing warnings) && not allow_data_loss ≡ false
    → (warnings ≡ []) ⊎ (allow_data_loss ≡ true)
may_run [] allow_data_loss h = inl refl
may_run (w ∷ ws) allow_data_loss h = inr (ground arith)

module _ (answer : Answer) (dialect : Dialect) where
  joined :
      (applied : List Step) (step : Step) (steps : List Step) (calls : List DatabaseCall)
      (after : List DatabaseCall) (result : Outcome UpdateFailure (Unit {0}))
      (rest : List DatabaseCall × Outcome UpdateFailure UpdateResult)
      → IsRun calls (build_statements dialect step) (after, result)
      → IsUpdateRun dialect (applied ++ step ∷ []) steps after rest
      → IsUpdateRun dialect applied (step ∷ steps) calls (stop_or answer dialect after result rest)
  joined applied step steps calls after (returned u) rest a b = record {
    made = a.made ++ b.made;
    left = b.left;
    extends = b.extends ∙ ap (λ c. c ++ b.made) a.extends ∙ append_assoc calls a.made b.made;
    in_order =
        let all_of_step : (flatten a.made ≡ build_statements dialect step) =
          sym (append-nil (flatten a.made))
          ∙ ap (λ l. flatten a.made ++ l) (sym (a.finished refl))
          ∙ a.in_order in
        rw
          (
            flatten-append a.made b.made,
            append_assoc (flatten a.made) (flatten b.made) b.left,
            b.in_order,
            all_of_step,
          )
          refl;
    allowed = All-append IsAllowed a.made b.made a.allowed b.allowed;
    finished =
        λ r h. let (l, p) = b.finished r h in (l, p ∙ append_assoc applied (step ∷ []) steps);
  }
  joined applied step steps calls after (thrown e) rest a b = record {
    made = a.made;
    left = a.left ++ all_statements dialect steps;
    extends = a.extends;
    in_order =
        sym (append_assoc (flatten a.made) a.left (all_statements dialect steps))
        ∙ ap (λ l. l ++ all_statements dialect steps) a.in_order;
    allowed = a.allowed;
    finished = λ r h. cc;
  }

  pub run_steps-IsUpdateRun :
      (applied steps : List Step) (calls : List DatabaseCall)
      → IsUpdateRun dialect applied steps calls (run_steps answer dialect applied steps calls)
  unfolding run_steps
  run_steps-IsUpdateRun applied [] calls = record {
    made = [];
    left = [];
    extends = sym (append-nil calls);
    in_order = refl;
    allowed = tt;
    finished = λ r h. (refl, taken applied _ r refl h);
  }
  run_steps-IsUpdateRun applied (step ∷ steps) calls =
      let (after, result) = run_migration answer step (build_statements dialect step) calls in
      joined applied step steps calls after result
        (run_steps answer dialect (applied ++ step ∷ []) steps after)
        (run_migration-IsRun answer step (build_statements dialect step) calls)
        (run_steps-IsUpdateRun (applied ++ step ∷ []) steps after)
