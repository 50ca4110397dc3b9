-- ===== src/Prelude/Settled.antt =====
-- Calls that return or yield an error, and do not panic.
use mathlib.Core.Path.{◌≡◌, refl}
use mathlib.Core.Bool.{Bool, true, false}
use maybenot.Errors.{Error}
use maybenot.Prelude.Results.{Outcome, ok, err, panic, unfinished, ◌>>=◌, reject_if}

-- The call returns a value that satisfies `P`, or yields an error.
abbrev pub Settles {ℓ} : {A : Type ℓ} → (A → Type 0) → Outcome A → Type 0
Settles P (ok a) = P a
Settles P (err e) = Unit
Settles P panic = ⊥
Settles P unfinished = ⊥

pub Settles-bind {ℓ κ} :
    {A : Type ℓ} {B : Type κ} (P : A → Type 0) (Q : B → Type 0) (m : Outcome A) (f : A → Outcome B)
    → Settles P m
    → ((a : A) → m ≡ ok a → P a → Settles Q (f a))
    → Settles Q (m >>= f)
Settles-bind P Q (ok a) f h k = k a refl h
Settles-bind P Q (err e) f h k = tt
Settles-bind P Q panic f h k = absurd h
Settles-bind P Q unfinished f h k = absurd h

pub Settles-reject {ℓ} :
    {B : Type ℓ} (Q : B → Type 0) (b : Bool) (e : Error) (f : Unit {0} → Outcome B)
    → (b ≡ false → Settles Q (f tt))
    → Settles Q (reject_if b e >>= f)
Settles-reject Q true e f k = tt
Settles-reject Q false e f k = k refl

pub Settles-mono {ℓ} :
    {A : Type ℓ} (P Q : A → Type 0) (m : Outcome A)
    → ((a : A) → P a → Q a)
    → Settles P m
    → Settles Q m
Settles-mono P Q (ok a) k h = k a h
Settles-mono P Q (err e) k h = tt
Settles-mono P Q panic k h = h
Settles-mono P Q unfinished k h = h

-- A check that has no result.
abbrev pub Passes : Outcome (Unit {0}) → Type 0
Passes m = Settles (λ u. Unit {0}) m

pub reject_if-Passes : (b : Bool) (e : Error) → Passes (reject_if b e)
reject_if-Passes true e = tt
reject_if-Passes false e = tt

pub then-Passes {ℓ} :
    {B : Type ℓ} (Q : B → Type 0) (m : Outcome (Unit {0})) (f : Unit {0} → Outcome B)
    → Passes m
    → Settles Q (f tt)
    → Settles Q (m >>= f)
then-Passes Q m f h k = Settles-bind (λ u. Unit {0}) Q m f h λ u e t. k
