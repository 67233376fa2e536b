-- ===== src/UnitOfWork/Coordinator/Scopes.antt =====
-- What a script of nested transactions does, described without a state, and that the coordinator does it.
use mathlib.Core.List.{reverse}
use entitykit.Common.{
  ℕ, ◌+◌, ◌-◌, ◌≡◌, ap, refl, arith, Bool, true, false, ◌&&◌, ◌||◌, List, [], ◌∷◌, ◌++◌,
  if◌then◌else◌, ◌==◌, nat_eq, map, append-nil, append_assoc, take-append, drop-append,
}
use entitykit.UnitOfWork.Coordinator.{
  Ran, after_commit, after_rollback, Coordinator, Work, ends, enqueues, nests, enter, exit, perform,
  run, enqueue_after_commit_callback, flush_after_commit_callbacks, roll_back,
}

-- The callbacks that the work leaves waiting, the cleanups that run meanwhile, and whether it returns.
pub record Effect : Type 0 where
  pub waiting : List ℕ
  pub cleaned : List Ran
  pub returns : Bool

abbrev pub cleanup : List ℕ → List Ran
cleanup callbacks = map after_rollback (reverse callbacks)

abbrev pub nested_effect : Bool → Bool → Effect → Effect → Effect
nested_effect true catches inner rest = record {
  waiting = inner.waiting ++ rest.waiting;
  cleaned = inner.cleaned ++ rest.cleaned;
  returns = rest.returns;
}
nested_effect false true inner rest = record {
  waiting = rest.waiting;
  cleaned = (inner.cleaned ++ cleanup inner.waiting) ++ rest.cleaned;
  returns = rest.returns;
}
nested_effect false false inner rest = record {
  waiting = [];
  cleaned = inner.cleaned ++ cleanup inner.waiting;
  returns = false;
}

unfoldable pub effect : Work → Effect
effect (ends returns) = record { waiting = []; cleaned = []; returns = returns }
effect (enqueues callback work) =
    let e = effect work in
    record { waiting = callback ∷ e.waiting; cleaned = e.cleaned; returns = e.returns }
effect (nests inner commits catches work) =
    let e = effect inner in
    let rest = effect work in nested_effect (e.returns && commits) catches e rest

-- The coordinator after an effect.
abbrev pub apply : Coordinator → Effect → Coordinator
apply s e = record {
  depth = s.depth;
  after_commit_callbacks = s.after_commit_callbacks ++ e.waiting;
  log = s.log ++ e.cleaned;
}

-- The coordinator after an effect whose transaction rolled back.
abbrev pub rolled : Coordinator → Effect → Coordinator
rolled s e = record {
  depth = s.depth;
  after_commit_callbacks = s.after_commit_callbacks;
  log = s.log ++ (e.cleaned ++ cleanup e.waiting);
}

back : (s : Coordinator) → s.depth + 1 - 1 ≡ s.depth
back s = omega arith

exit-commits :
    (s : Coordinator) (e : Effect)
    → (s.depth == 0) ≡ false
    → exit s true (apply (enter s) e) ≡ apply s e
unfolding exit enter
exit-commits s e h = rw (h, back s) refl

exit-rolls : (s : Coordinator) (e : Effect) → exit s false (apply (enter s) e) ≡ rolled s e
unfolding exit enter roll_back
exit-rolls s e =
    rw
      (
        back s,
        take-append s.after_commit_callbacks e.waiting,
        drop-append s.after_commit_callbacks e.waiting,
        append_assoc s.log e.cleaned (cleanup e.waiting),
      )
      refl

apply-apply :
    (s : Coordinator) (e f : Effect)
    → apply (apply s e) f
      ≡ apply s (record {
        waiting = e.waiting ++ f.waiting;
        cleaned = e.cleaned ++ f.cleaned;
        returns = f.returns;
      })
apply-apply s e f =
    rw
      (
        append_assoc s.after_commit_callbacks e.waiting f.waiting,
        append_assoc s.log e.cleaned f.cleaned,
      )
      refl

apply-rolled :
    (s : Coordinator) (e f : Effect)
    → apply (rolled s e) f
      ≡ apply s (record {
        waiting = f.waiting;
        cleaned = (e.cleaned ++ cleanup e.waiting) ++ f.cleaned;
        returns = f.returns;
      })
apply-rolled s e f = rw (append_assoc s.log (e.cleaned ++ cleanup e.waiting) f.cleaned) refl

abbrev performs : Coordinator → Effect → Coordinator × Bool
performs s e = (apply s e, e.returns)

after_nested :
    (s : Coordinator) (e : Effect) (b catches : Bool) (work : Work)
    → (s.depth == 0) ≡ false
    → ((t : Coordinator) → (t.depth == 0) ≡ false → perform work t ≡ performs t (effect work))
    → (if b || catches
        then perform work (exit s b (apply (enter s) e))
        else (exit s b (apply (enter s) e), false))
      ≡ performs s (nested_effect b catches e (effect work))
after_nested s e true catches work h rest =
    rw (exit-commits s e h, rest (apply s e) h, apply-apply s e (effect work)) refl
after_nested s e false true work h rest =
    rw (exit-rolls s e, rest (rolled s e) h, apply-rolled s e (effect work)) refl
after_nested s e false false work h rest =
    rw (exit-rolls s e, append-nil s.after_commit_callbacks) refl

entered : (s : Coordinator) → ((enter s).depth == 0) ≡ false
unfolding enter
entered s = ground arith

-- At a positive depth, the coordinator does to its state what the script's effect says.
pub perform-effect :
    (work : Work) (s : Coordinator)
    → (s.depth == 0) ≡ false
    → perform work s ≡ (apply s (effect work), (effect work).returns)
unfolding perform effect enqueue_after_commit_callback
perform-effect (ends returns) s h = rw (append-nil s.after_commit_callbacks, append-nil s.log) refl
perform-effect (enqueues callback work) s h =
    rw
      (
        perform-effect work (enqueue_after_commit_callback s callback) h,
        append_assoc s.after_commit_callbacks (callback ∷ []) (effect work).waiting,
      )
      refl
perform-effect (nests inner commits catches work) s h =
    rw (perform-effect inner (enter s) (entered s)) (
      after_nested s (effect inner) ((effect inner).returns && commits) catches work h
        (λ t k. perform-effect work t k))

abbrev pub ended : Coordinator → Effect → Bool → Coordinator
ended s e b = if b then apply s e else rolled s e

exit-either :
    (s : Coordinator) (e : Effect) (b : Bool)
    → (s.depth == 0) ≡ false
    → exit s b (apply (enter s) e) ≡ ended s e b
exit-either s e true h = exit-commits s e h
exit-either s e false h = exit-rolls s e

abbrev pub root : Coordinator
root = record { depth = 0; after_commit_callbacks = []; log = [] }

abbrev pub finished : Effect → Bool → Coordinator
finished e b = record {
  depth = 0;
  after_commit_callbacks = [];
  log = e.cleaned ++ (if b then map after_commit e.waiting else cleanup e.waiting);
}

exit-root : (e : Effect) (b : Bool) → exit root b (apply (enter root) e) ≡ finished e b
unfolding exit enter flush_after_commit_callbacks
exit-root e true = refl
exit-root e false = exit-rolls root e

-- A nested transaction keeps its callbacks waiting if it commits, and otherwise takes them back
-- and runs their cleanups from the last to the first; the depth is restored.
pub run-nested :
    (work : Work) (commits : Bool) (s : Coordinator)
    → (s.depth == 0) ≡ false
    → run work commits s
      ≡ (ended s (effect work) ((effect work).returns && commits), (effect work).returns && commits)
unfolding run
run-nested work commits s h = rw (perform-effect work (enter s) (entered s)) (
    ap (λ t. (t, (effect work).returns && commits))
      (exit-either s (effect work) ((effect work).returns && commits) h))

-- A root transaction ends at depth 0 with no callback waiting. If it commits, then exactly the
-- callbacks that no rolled back scope enqueued run, in order; otherwise only cleanups run.
pub run-root :
    (work : Work) (commits : Bool)
    → run work commits root ≡ (
      finished (effect work) ((effect work).returns && commits),
      (effect work).returns && commits,
    )
unfolding run
run-root work commits = rw (perform-effect work (enter root) (entered root)) (
    ap (λ t. (t, (effect work).returns && commits))
      (exit-root (effect work) ((effect work).returns && commits)))
