-- ===== src/UnitOfWork/Session/Rules.antt =====
-- What a computation ensures: one predicate if it returns, another if it throws.
use entitykit.Common.{ℕ, ◌≡◌, refl, Outcome, returned, thrown, Bool, true, false, if◌then◌else◌}
use entitykit.UnitOfWork.Session.{Session, M, continue_with, recover}

abbrev pub Ends :
    {A : Type 0} → (A → Session → Type 0) → (Session → Type 0) → Outcome ℕ A × Session → Type 0
Ends Q R (returned a, s) = Q a s
Ends Q R (thrown e, s) = R s

pub Ends-continue :
    {A B : Type 0} (P : A → Session → Type 0) (Q : B → Session → Type 0) (R : Session → Type 0)
    (r : Outcome ℕ A × Session) (f : A → M B)
    → Ends P R r
    → ((a : A) (s : Session) → P a s → Ends Q R (f a s))
    → Ends Q R (continue_with r f)
Ends-continue P Q R (returned a, s) f h k = k a s h
Ends-continue P Q R (thrown e, s) f h k = h

pub Ends-recover :
    {A : Type 0} (Q : A → Session → Type 0) (P R : Session → Type 0) (r : Outcome ℕ A × Session)
    (handler : ℕ → M A)
    → Ends Q P r
    → ((e : ℕ) (s : Session) → P s → Ends Q R (handler e s))
    → Ends Q R (recover r handler)
Ends-recover Q P R (returned a, s) handler h k = h
Ends-recover Q P R (thrown e, s) handler h k = k e s h

pub Ends-weaken :
    {A : Type 0} (P Q : A → Session → Type 0) (R S : Session → Type 0) (r : Outcome ℕ A × Session)
    → Ends P R r
    → ((a : A) (s : Session) → P a s → Q a s)
    → ((s : Session) → R s → S s)
    → Ends Q S r
Ends-weaken P Q R S (returned a, s) h k l = k a s h
Ends-weaken P Q R S (thrown e, s) h k l = l s h

-- A predicate that holds whatever the outcome.
pub Ends-state :
    {A : Type 0} (P : Session → Type 0) (r : Outcome ℕ A × Session) → P (r.1) → Ends (λ a. P) P r
Ends-state P (returned a, s) h = h
Ends-state P (thrown e, s) h = h

pub Ends-both :
    {A : Type 0} (P : Session → Type 0) (r : Outcome ℕ A × Session) → Ends (λ a. P) P r → P (r.1)
Ends-both P (returned a, s) h = h
Ends-both P (thrown e, s) h = h

pub Ends-if :
    {A : Type 0} (Q : A → Session → Type 0) (R : Session → Type 0) (b : Bool) (m k : M A)
    (s : Session)
    → Ends Q R (m s)
    → Ends Q R (k s)
    → Ends Q R ((if b then m else k) s)
Ends-if Q R true m k s h i = h
Ends-if Q R false m k s h i = i

pub Ends-and :
    {A : Type 0} (P Q : A → Session → Type 0) (R S : Session → Type 0) (r : Outcome ℕ A × Session)
    → Ends P R r
    → Ends Q S r
    → Ends (λ a t. P a t × Q a t) (λ t. R t × S t) r
Ends-and P Q R S (returned a, s) h k = (h, k)
Ends-and P Q R S (thrown e, s) h k = (h, k)

-- A computation that never returns throws.
pub Ends-thrown :
    {A : Type 0} (R : Session → Type 0) (r : Outcome ℕ A × Session)
    → Ends (λ a t. ⊥) R r
    → (e : ℕ) × (r.0 ≡ thrown e) × R (r.1)
Ends-thrown R (returned a, s) h = absurd h
Ends-thrown R (thrown e, s) h = (e, refl, h)

-- Nothing is required where it throws.
pub Ends-any : {A : Type 0} (r : Outcome ℕ A × Session) → Ends (λ a t. Unit {0}) (λ t. Unit {0}) r
Ends-any (returned a, s) = tt
Ends-any (thrown e, s) = tt

pub Ends-returned :
    {A : Type 0} (P : A → Type 0) (r : Outcome ℕ A × Session) (a : A)
    → Ends (λ a t. P a) (λ t. Unit {0}) r
    → r.0 ≡ returned a
    → P a
Ends-returned P (returned b, s) a h q = let e : b ≡ a = cc in rw (← e) h
Ends-returned P (thrown e, s) a h q = cc
