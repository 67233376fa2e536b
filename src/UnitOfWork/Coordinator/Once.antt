-- ===== src/UnitOfWork/Coordinator/Once.antt =====
-- Every callback that a root transaction takes is run once, as commit work or as cleanup.
use mathlib.Core.List.{reverse, reverse_aux}
use entitykit.Common.{
  ℕ, ◌+◌, ◌≡◌, refl, arith, Bool, true, false, ◌&&◌, ◌||◌, List, [], ◌∷◌, ◌++◌, if◌then◌else◌, ◌==◌,
  nat_eq, map,
}
use entitykit.UnitOfWork.Coordinator.{
  Ran, after_commit, after_rollback, Work, ends, enqueues, nests, run,
}
use entitykit.UnitOfWork.Coordinator.Scopes.{
  Effect, effect, nested_effect, cleanup, run-root, finished, root,
}

abbrev pub times : ℕ → List ℕ → ℕ
times c [] = 0
times c (x ∷ xs) = (if x == c then 1 else 0) + times c xs

abbrev callback : Ran → ℕ
callback (after_commit c) = c
callback (after_rollback c) = c

-- How often a callback is in the log, as commit work or as cleanup.
abbrev pub settled : ℕ → List Ran → ℕ
settled c [] = 0
settled c (r ∷ rs) = (if callback r == c then 1 else 0) + settled c rs

-- The callbacks that the work enqueues as far as it runs.
abbrev pub enqueued : Work → List ℕ
enqueued (ends returns) = []
enqueued (enqueues c work) = c ∷ enqueued work
enqueued (nests inner commits catches work) =
    enqueued inner ++ (if (effect inner).returns && commits || catches then enqueued work else [])

times-append : (c : ℕ) (xs ys : List ℕ) → times c (xs ++ ys) ≡ times c xs + times c ys
times-append c [] ys = omega arith
times-append c (x ∷ xs) ys = omega (arith, times-append c xs ys)

settled-append : (c : ℕ) (xs ys : List Ran) → settled c (xs ++ ys) ≡ settled c xs + settled c ys
settled-append c [] ys = omega arith
settled-append c (x ∷ xs) ys = omega (arith, settled-append c xs ys)

times-reverse_aux : (c : ℕ) (xs ys : List ℕ) → times c (reverse_aux xs ys) ≡ times c xs + times c ys
times-reverse_aux c [] ys = omega arith
times-reverse_aux c (x ∷ xs) ys = omega (arith, times-reverse_aux c xs (x ∷ ys))

settled-rolled : (c : ℕ) (xs : List ℕ) → settled c (map after_rollback xs) ≡ times c xs
settled-rolled c [] = refl
settled-rolled c (x ∷ xs) = omega (arith, settled-rolled c xs)

settled-committed : (c : ℕ) (xs : List ℕ) → settled c (map after_commit xs) ≡ times c xs
settled-committed c [] = refl
settled-committed c (x ∷ xs) = omega (arith, settled-committed c xs)

settled-cleanup : (c : ℕ) (xs : List ℕ) → settled c (cleanup xs) ≡ times c xs
settled-cleanup c xs = omega (arith, settled-rolled c (reverse xs), times-reverse_aux c xs [])

abbrev counted : ℕ → Effect → ℕ
counted c e = times c e.waiting + settled c e.cleaned

counted-nested :
    (c : ℕ) (e f : Effect) (b catches : Bool)
    → counted c (nested_effect b catches e f)
      ≡ counted c e + (if b || catches then counted c f else 0)
counted-nested c e f true catches =
    omega (arith, times-append c e.waiting f.waiting, settled-append c e.cleaned f.cleaned)
counted-nested c e f false true = omega (
  arith,
  settled-append c (e.cleaned ++ cleanup e.waiting) f.cleaned,
  settled-append c e.cleaned (cleanup e.waiting),
  settled-cleanup c e.waiting,
)
counted-nested c e f false false =
    omega (arith, settled-append c e.cleaned (cleanup e.waiting), settled-cleanup c e.waiting)

counted-enqueued : (c : ℕ) (work : Work) → counted c (effect work) ≡ times c (enqueued work)
unfolding effect
counted-enqueued c (ends returns) = refl
counted-enqueued c (enqueues d work) = omega (arith, counted-enqueued c work)
counted-enqueued c (nests inner commits catches work) = ground (
  arith,
  counted-nested c (effect inner) (effect work) ((effect inner).returns && commits) catches,
  counted-enqueued c inner,
  counted-enqueued c work,
  times-append c (enqueued inner)
      (if (effect inner).returns && commits || catches then enqueued work else []),
)

-- After a root transaction, each callback is in the log exactly as often as its work enqueued it.
pub run-once :
    (work : Work) (commits : Bool) (c : ℕ)
    → settled c (run work commits root).0.log ≡ times c (enqueued work)
run-once work commits c = rw (run-root work commits) (last ((effect work).returns && commits))
  where
    last : (b : Bool) → settled c (finished (effect work) b).log ≡ times c (enqueued work)
    last true = omega (
      arith,
      settled-append c (effect work).cleaned (map after_commit (effect work).waiting),
      settled-committed c (effect work).waiting,
      counted-enqueued c work,
    )
    last false = omega (
      arith,
      settled-append c (effect work).cleaned (cleanup (effect work).waiting),
      settled-cleanup c (effect work).waiting,
      counted-enqueued c work,
    )
