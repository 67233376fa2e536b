-- ===== src/Migrations/Range/Moves.antt =====
-- What a range does to a database whose history is a prefix of the ordered migrations.
use mathlib.Core.List.{reverse, reverse-cons, map-append}
use native.Mathlib.Decide.{dec_lt}
use native.Mathlib.Nat.{zero-add}
use entitykit.Common.{
  le→ltb, lt→ltb, text_eq, ==_refl, append-nil, none, ◌≢◌, Option, some, ℕ, zero, suc, ◌+◌, ◌-◌,
  ◌≡◌, refl, ap, inl, inr, List, [], ◌∷◌, ◌++◌, arith, if◌then◌else◌, false, nat_eq, ==_iff,
  Bool-cases, take, drop, map, ◌==◌, append_assoc, ◌∙◌, sym,
}
use entitykit.Migrations.Range.{Migration, Direction, up, down, Step, range_between, step_of}

-- The migration history as the list of applied migrations, the newest last. An `up` step adds its
-- migration; a `down` step takes off the newest one, which must be its own.
abbrev pub undo : Migration → List Migration → Option (List Migration)
undo m [] = none
undo m (x ∷ []) = if x.id == m.id then some [] else none
undo m (x ∷ y ∷ h) = elim (undo m (y ∷ h)) [ none ↦ none | some h' ↦ some (x ∷ h') ]

abbrev pub apply_step : Direction → Migration → List Migration → Option (List Migration)
apply_step up m h = some (h ++ m ∷ [])
apply_step down m h = undo m h

abbrev pub and_then :
    Option (List Migration) → (List Migration → Option (List Migration)) → Option (List Migration)
and_then none k = none
and_then (some h) k = k h

unfoldable pub apply_steps : List Step → List Migration → Option (List Migration)
apply_steps [] h = some h
apply_steps (s ∷ ss) h = and_then (apply_step s.direction s.migration h) (apply_steps ss)

and_then_assoc :
    (o : Option (List Migration)) (f g k : List Migration → Option (List Migration))
    → ((h : List Migration) → k h ≡ and_then (f h) g)
    → and_then o k ≡ and_then (and_then o f) g
and_then_assoc none f g k e = refl
and_then_assoc (some h) f g k e = e h

apply_steps-append :
    (s t : List Step) (h : List Migration)
    → apply_steps (s ++ t) h ≡ and_then (apply_steps s h) (apply_steps t)
unfolding apply_steps
apply_steps-append [] t h = refl
apply_steps-append (s ∷ ss) t h =
    and_then_assoc (apply_step s.direction s.migration h) (apply_steps ss) (apply_steps t)
      (apply_steps (ss ++ t)) (λ h'. apply_steps-append ss t h')

undo_newest : (m : Migration) (h : List Migration) → undo m (h ++ m ∷ []) ≡ some h
undo_newest m [] = rw (==_refl m.id)
undo_newest m (x ∷ []) = rw (==_refl m.id, undo)
undo_newest m (x ∷ y ∷ h) = rw (undo_newest m (y ∷ h))

apply_steps-up : (ms h : List Migration) → apply_steps (map (step_of up) ms) h ≡ some (h ++ ms)
unfolding apply_steps
apply_steps-up [] h = rw append-nil
apply_steps-up (m ∷ ms) h = apply_steps-up ms (h ++ m ∷ []) ∙ ap some (append_assoc h (m ∷ []) ms)

apply_steps-down :
    (ms h : List Migration) → apply_steps (map (step_of down) (reverse ms)) (h ++ ms) ≡ some h
unfolding apply_steps
apply_steps-down [] h = rw append-nil
apply_steps-down (m ∷ ms) h =
    rw
      (
        reverse-cons,
        map-append,
        apply_steps-append,
        ← append_assoc h (m ∷ []) ms,
        apply_steps-down ms (h ++ m ∷ []),
      )
      (rw undo_newest)

add-suc_left : (k n : ℕ) → suc k + n ≡ suc (k + n)
add-suc_left k n = omega arith

ne : (k l : ℕ) → k ≢ l → (k == l) ≡ false
ne k l h = ground (arith, ==_iff k l)

take-add : {A : Type 0} (k n : ℕ) (xs : List A) → take k xs ++ take n (drop k xs) ≡ take (k + n) xs
take-add zero n xs = rw zero-add
take-add (suc k) zero [] = rw add-suc_left
take-add (suc k) (suc n) [] = rw add-suc_left
take-add (suc k) n (x ∷ xs) = rw add-suc_left (ap (λ l. x ∷ l) (take-add k n xs))

-- Executing a range takes a history that is the prefix up to its first boundary to the prefix up
-- to its second: forward by applying, backward by reverting the newest migration each time.
pub range_between-moves :
    (ordered : List Migration) (k l : ℕ)
    → apply_steps (range_between ordered k l) (take k ordered) ≡ some (take l ordered)
unfolding range_between apply_steps
range_between-moves ordered k l = elim (dec_lt k l) [
  | yes p ↦
      rw (ne k l (omega arith), lt→ltb k l p)
        (apply_steps-up (take (l - k) (drop k ordered)) (take k ordered)
          ∙ ap some (take-add k (l - k) ordered ∙ ap (λ n. take n ordered) (omega arith)))
  | no p ↦ elim (Bool-cases (k == l)) [
    | inl e ↦ rw e (ap (λ n. some (take n ordered)) ((==_iff k l).0 e))
    | inr e ↦
        rw (e, le→ltb k l (omega arith))
          (ap (apply_steps (map (step_of down) (reverse (take (k - l) (drop l ordered)))))
              (ap (λ n. take n ordered) (omega arith) ∙ sym (take-add l (k - l) ordered))
            ∙ apply_steps-down (take (k - l) (drop l ordered)) (take l ordered))
  ]
]
