-- ===== src/Storage/Enclosing.antt =====
-- packages/core/src/storage/enclosing-transaction-state.ts. An error is its reference, and
-- `object_of` gives the object that it refers to.
use entitykit.Common.{
  sym, ℕ, Bool, true, false, not, ◌&&◌, Option, none, some, List, [], ◌∷◌, if◌then◌else◌, ◌==◌,
  nat_eq, has, add, delete, Outcome, returned, thrown, ◌≡◌, ◌≢◌, ◌⊎◌, inl, inr, refl, ap, arith,
  ==_iff, Bool-cases, In,
}
use entitykit.Storage.Errors.{DatabaseError, compromises_enclosing_transaction}

pub record EnclosingState : Type 0 where
  pub failure : Option ℕ
  pub recovered_failures : List ℕ

-- What is thrown: an object, or a new error with a cause.
pub data Thrown : Type 0 where
  same : ℕ → Thrown
  unusable_with_cause : ℕ → Thrown

unfoldable pub reset : EnclosingState
reset = record { failure = none; recovered_failures = [] }

abbrev pub first_of : Option ℕ → ℕ → Option ℕ
first_of none error = some error
first_of (some f) error = some f

unfoldable pub mark_unusable : EnclosingState → ℕ → EnclosingState
mark_unusable s error = record {
  failure = first_of s.failure error;
  recovered_failures = s.recovered_failures;
}

abbrev pub without : Option ℕ → ℕ → Option ℕ
without none error = none
without (some f) error = if f == error then none else some f

unfoldable pub mark_recovered : EnclosingState → ℕ → EnclosingState
mark_recovered s error = record {
  failure = without s.failure error;
  recovered_failures = add s.recovered_failures error;
}

-- `instanceof Error`
abbrev pub is_error : DatabaseError → Bool
is_error (DatabaseError.thrown_value n) = false
is_error _ = true

-- The calls that a nested transaction makes.
pub data NestedCall : Type 0 where
  unusable recovered nested_failure : ℕ → NestedCall

module _ (object_of : ℕ → DatabaseError) where
  unfoldable pub observe_nested_failure : EnclosingState → ℕ → EnclosingState
  observe_nested_failure s error = record {
    failure =
        if not (has s.recovered_failures error)
          && compromises_enclosing_transaction (object_of error)
        then first_of s.failure error
        else s.failure;
    recovered_failures = delete s.recovered_failures error;
  }

  unfoldable pub throw_if_unusable : EnclosingState → Outcome Thrown (Unit {0})
  throw_if_unusable s = elim s.failure [
    | none ↦ returned tt
    | some f ↦ if is_error (object_of f) then thrown (same f) else thrown (unusable_with_cause f)
  ]

  -- `runRootWork`, from the state that the work leaves and the work's own outcome.
  unfoldable pub run_root_work : {A : Type 0} → EnclosingState → Outcome Thrown A → Outcome Thrown A
  unfolding throw_if_unusable
  run_root_work s (returned result) = elim (throw_if_unusable s) [
    | thrown e ↦ thrown e
    | returned u ↦ returned result
  ]
  run_root_work s (thrown error) = elim (throw_if_unusable s) [
    | thrown e ↦ thrown e
    | returned u ↦ thrown error
  ]

  abbrev pub call : EnclosingState → NestedCall → EnclosingState
  call s (unusable error) = mark_unusable s error
  call s (recovered error) = mark_recovered s error
  call s (nested_failure error) = observe_nested_failure s error

  abbrev pub replay : EnclosingState → List NestedCall → EnclosingState
  replay s [] = s
  replay s (c ∷ cs) = replay (call s c) cs

  call-stays :
      (s : EnclosingState) (c : NestedCall) (error : ℕ)
      → s.failure ≡ some error
      → c ≢ recovered error
      → (call s c).failure ≡ some error
  unfolding mark_unusable mark_recovered observe_nested_failure
  call-stays s (unusable f) error h n = ground (arith, h)
  call-stays s (recovered f) error h n = elim (Bool-cases (error == f)) [
    | inl q ↦ absurd (n (ap recovered (sym ((==_iff error f).0 q))))
    | inr q ↦ rw (h, q) refl
  ]
  call-stays s (nested_failure f) error h n = ground (arith, h)

  replay-stays :
      (s : EnclosingState) (cs : List NestedCall) (error : ℕ)
      → s.failure ≡ some error
      → (In (recovered error) cs → ⊥)
      → (replay s cs).failure ≡ some error
  replay-stays s [] error h n = h
  replay-stays s (c ∷ cs) error h n =
      replay-stays (call s c) cs error (call-stays s c error h (λ q. n (inl (sym q))))
        (λ i. n (inr i))

  -- Once a failure has made the enclosing transaction unusable, and until that failure is marked
  -- as recovered, the root work throws whatever the work itself does.
  pub run_root_work-unusable :
      (s : EnclosingState) (cs : List NestedCall) (error : ℕ) {A : Type 0} (work : Outcome Thrown A)
      → s.failure ≡ some error
      → (In (recovered error) cs → ⊥)
      → run_root_work (replay s cs) work ≡ (
          if is_error (object_of error)
          then thrown (same error)
          else thrown (unusable_with_cause error))
  unfolding run_root_work throw_if_unusable
  run_root_work-unusable s cs error (returned a) h n =
      let q = replay-stays s cs error h n in ground (arith, q)
  run_root_work-unusable s cs error (thrown e) h n =
      let q = replay-stays s cs error h n in ground (arith, q)

  -- Every failure that compromises the transaction is marked as recovered before it is observed.
  abbrev pub IsRecovered : List ℕ → List NestedCall → Type 0
  IsRecovered marked [] = Unit
  IsRecovered marked (unusable error ∷ cs) = ⊥
  IsRecovered marked (recovered error ∷ cs) = IsRecovered (add marked error) cs
  IsRecovered marked (nested_failure error ∷ cs) =
      ((has marked error ≡ true) ⊎ (compromises_enclosing_transaction (object_of error) ≡ false))
      × IsRecovered (delete marked error) cs

  replay-recovered :
      (s : EnclosingState) (cs : List NestedCall)
      → s.failure ≡ none
      → IsRecovered s.recovered_failures cs
      → (replay s cs).failure ≡ none
  unfolding mark_recovered observe_nested_failure
  replay-recovered s [] h r = h
  replay-recovered s (unusable error ∷ cs) h r = absurd r
  replay-recovered s (recovered error ∷ cs) h r =
      replay-recovered (mark_recovered s error) cs (rw h refl) r
  replay-recovered s (nested_failure error ∷ cs) h (o, r) =
      replay-recovered (observe_nested_failure s error) cs (ground (arith, h, o)) r

  -- If every compromising failure of a nested transaction is marked as recovered before it is
  -- observed, then the root work has the work's own outcome.
  pub run_root_work-recovered :
      {A : Type 0} (cs : List NestedCall) (work : Outcome Thrown A)
      → IsRecovered [] cs
      → run_root_work (replay reset cs) work ≡ work
  unfolding run_root_work throw_if_unusable reset
  run_root_work-recovered cs (returned a) r =
      let q = replay-recovered reset cs refl r in ground (arith, q)
  run_root_work-recovered cs (thrown e) r =
      let q = replay-recovered reset cs refl r in ground (arith, q)
