-- ===== src/Prelude/Results.antt =====
-- What a call of the code may do: return, return an error, or panic. `unfinished` is a call that
-- the model cut off because its fuel ran out.
use Prim.Native.Nat.{ℕ, zero, suc, ◌<◌}
use mathlib.Core.Path.{◌≡◌, refl}
use mathlib.Core.Bool.{Bool, true, false}
use mathlib.Core.List.{List, [], ◌∷◌, map}
use mathlib.Core.Path.{ap}
use mathlib.Core.Logic.{◌≢◌}
use maybenot.Prelude.Lists.{modify, length, set, All}
use native.Mathlib.Omega.{arith}
use maybenot.Errors.{Error}

pub data Outcome {ℓ} (A : Type ℓ) : Type ℓ where
  ok : A → Outcome A
  err : Error → Outcome A
  panic : Outcome A
  unfinished : Outcome A

-- A panic, a cut or an error ends the call; a result goes to the rest of it.
infixl 5 ◌>>◌ ◌>>=◌
abbrev pub ◌>>=◌ {ℓA ℓB} : {A : Type ℓA} {B : Type ℓB} → Outcome A → (A → Outcome B) → Outcome B
panic >>= rest = panic
unfinished >>= rest = unfinished
err e >>= rest = err e
ok a >>= rest = rest a

-- `if bad { return Err(e) }`
abbrev pub reject_if : Bool → Error → Outcome (Unit {0})
reject_if true e = err e
reject_if false e = ok tt

abbrev pub ◌>>◌ {ℓB} : {B : Type ℓB} → Outcome (Unit {0}) → Outcome B → Outcome B
first >> rest = first >>= λ _. rest

module _ {ℓ} {A : Type ℓ} where
  -- `xs[i]`
  unfoldable pub index : List A → ℕ → Outcome A
  index [] i = panic
  index (x ∷ xs) zero = ok x
  index (x ∷ xs) (suc i) = index xs i

-- The call returns, and its value satisfies `P`.
abbrev pub Returns {ℓ} : {A : Type ℓ} → (A → Type 0) → Outcome A → Type 0
Returns P (ok a) = P a
Returns P (err e) = ⊥
Returns P panic = ⊥
Returns P unfinished = ⊥

pub Returns-bind {ℓ κ} :
    {A : Type ℓ} {B : Type κ} (P : A → Type 0) (Q : B → Type 0) (m : Outcome A) (f : A → Outcome B)
    → Returns P m
    → ((a : A) → m ≡ ok a → P a → Returns Q (f a))
    → Returns Q (m >>= f)
Returns-bind P Q (ok a) f h k = k a refl h
Returns-bind P Q (err e) f h k = absurd h
Returns-bind P Q panic f h k = absurd h
Returns-bind P Q unfinished f h k = absurd h

pub Returns-mono {ℓ} :
    {A : Type ℓ} (P Q : A → Type 0) (m : Outcome A)
    → ((a : A) → P a → Q a)
    → Returns P m
    → Returns Q m
Returns-mono P Q (ok a) k h = k a h
Returns-mono P Q (err e) k h = h
Returns-mono P Q panic k h = h
Returns-mono P Q unfinished k h = h

-- If a sequence of calls returned, its first call did, and so did the rest from its result.
pub >>=-eq-ok {ℓA ℓB} :
    {A : Type ℓA} {B : Type ℓB} (first : Outcome A) (rest : A → Outcome B) {done : B}
    → (first >>= rest) ≡ ok done
    → (x : A) × (first ≡ ok x) × (rest x ≡ ok done)
>>=-eq-ok panic rest h = cc
>>=-eq-ok unfinished rest h = cc
>>=-eq-ok (err e) rest h = cc
>>=-eq-ok (ok x) rest h = (x, refl, h)

-- If the call returns, its value satisfies `P`.
abbrev pub Ensures {ℓ} : {A : Type ℓ} → (A → Type 0) → Outcome A → Type 0
Ensures P (ok a) = P a
Ensures P (err e) = Unit
Ensures P panic = Unit
Ensures P unfinished = Unit

pub Ensures-bind {ℓ κ} :
    {A : Type ℓ} {B : Type κ} (P : A → Type 0) (Q : B → Type 0) (m : Outcome A) (f : A → Outcome B)
    → Ensures P m
    → ((a : A) → m ≡ ok a → P a → Ensures Q (f a))
    → Ensures Q (m >>= f)
Ensures-bind P Q (ok a) f h k = k a refl h
Ensures-bind P Q (err e) f h k = tt
Ensures-bind P Q panic f h k = tt
Ensures-bind P Q unfinished f h k = tt

-- A first step of which nothing is asked.
pub Ensures-after {ℓ κ} :
    {A : Type ℓ} {B : Type κ} (Q : B → Type 0) (m : Outcome A) (f : A → Outcome B)
    → ((a : A) → m ≡ ok a → Ensures Q (f a))
    → Ensures Q (m >>= f)
Ensures-after Q (ok a) f k = k a refl
Ensures-after Q (err e) f k = tt
Ensures-after Q panic f k = tt
Ensures-after Q unfinished f k = tt

pub Returns-Ensures-bind {ℓ κ} :
    {A : Type ℓ} {B : Type κ} (P : A → Type 0) (Q : B → Type 0) (m : Outcome A) (f : A → Outcome B)
    → Returns P m
    → ((a : A) → P a → Ensures Q (f a))
    → Ensures Q (m >>= f)
Returns-Ensures-bind P Q (ok a) f h k = k a h
Returns-Ensures-bind P Q (err e) f h k = absurd h
Returns-Ensures-bind P Q panic f h k = absurd h
Returns-Ensures-bind P Q unfinished f h k = absurd h

pub Ensures-mono {ℓ} :
    {A : Type ℓ} (P Q : A → Type 0) (m : Outcome A)
    → ((a : A) → P a → Q a)
    → Ensures P m
    → Ensures Q m
Ensures-mono P Q (ok a) k h = k a h
Ensures-mono P Q (err e) k h = tt
Ensures-mono P Q panic k h = tt
Ensures-mono P Q unfinished k h = tt

-- What a call that returns ensures, it returns.
pub Returns-Ensures {ℓ} :
    {A : Type ℓ} (P Q : A → Type 0) (m : Outcome A) → Returns P m → Ensures Q m → Returns Q m
Returns-Ensures P Q (ok a) h k = k
Returns-Ensures P Q (err e) h k = h
Returns-Ensures P Q panic h k = h
Returns-Ensures P Q unfinished h k = h

pub Returns-both {ℓ} :
    {A : Type ℓ} (P Q : A → Type 0) (m : Outcome A)
    → Returns P m
    → Returns Q m
    → Returns (λ a. P a × Q a) m
Returns-both P Q (ok a) h k = (h, k)
Returns-both P Q (err e) h k = h
Returns-both P Q panic h k = h
Returns-both P Q unfinished h k = h

pub Returns-eq {ℓ} :
    {A : Type ℓ} (P : A → Type 0) (m : Outcome A) {a : A} → m ≡ ok a → Returns P m → P a
Returns-eq P m e h = rw e at h

pub Returns-ok {ℓ} :
    {A : Type ℓ} (P : A → Type 0) (m : Outcome A) → Returns P m → (a : A) × (m ≡ ok a) × P a
Returns-ok P (ok a) h = (a, refl, h)
Returns-ok P (err e) h = absurd h
Returns-ok P panic h = absurd h
Returns-ok P unfinished h = absurd h

module _ {ℓ} {A : Type ℓ} where
  pub index_ok : (xs : List A) (i : ℕ) → i < length xs → (a : A) × (index xs i ≡ ok a)
  unfolding index
  index_ok [] i h = absurd (omega arith)
  index_ok (x ∷ xs) zero h = (x, refl)
  index_ok (x ∷ xs) (suc i) h = index_ok xs i (omega arith)

  pub index_lt : (xs : List A) (i : ℕ) {a : A} → index xs i ≡ ok a → i < length xs
  unfolding index
  index_lt [] i h = cc
  index_lt (x ∷ xs) zero h = omega arith
  index_lt (x ∷ xs) (suc i) h = omega (arith, index_lt xs i h)

  pub index-set_self :
      (xs : List A) (i : ℕ) (v : A) {a : A} → index xs i ≡ ok a → index (set xs i v) i ≡ ok v
  unfolding index
  index-set_self [] i v h = cc
  index-set_self (x ∷ xs) zero v h = refl
  index-set_self (x ∷ xs) (suc i) v h = index-set_self xs i v h

  pub index-set_ne : (xs : List A) (i j : ℕ) (v : A) → j ≢ i → index (set xs i v) j ≡ index xs j
  unfolding index
  index-set_ne [] i j v h = refl
  index-set_ne (x ∷ xs) zero zero v h = absurd (h refl)
  index-set_ne (x ∷ xs) zero (suc j) v h = refl
  index-set_ne (x ∷ xs) (suc i) zero v h = refl
  index-set_ne (x ∷ xs) (suc i) (suc j) v h = index-set_ne xs i j v (λ e. h (omega arith))

  pub All-index :
      (P : A → Type 0) (xs : List A) (i : ℕ) → All P xs → i < length xs → Returns P (index xs i)
  unfolding index
  All-index P [] i h lt = absurd (omega arith)
  All-index P (x ∷ xs) zero h lt = h.0
  All-index P (x ∷ xs) (suc i) h lt = All-index P xs i h.1 (omega arith)

-- A write that leaves an image alone leaves the list of images alone.
pub map-set_same {ℓ κ} :
    {A : Type ℓ} {B : Type κ} (f : A → B) (xs : List A) (i : ℕ) (v : A) {a : A}
    → index xs i ≡ ok a
    → f v ≡ f a
    → map f (set xs i v) ≡ map f xs
unfolding index
map-set_same f [] i v h e = refl
map-set_same f (x ∷ xs) zero v h e = ground (arith, e)
map-set_same f (x ∷ xs) (suc i) v h e = ap (λ ys. f x ∷ ys) (map-set_same f xs i v h e)

-- A write that changes an image by `g` changes the list of images at that place.
pub map-set {ℓ κ} :
    {A : Type ℓ} {B : Type κ} (f : A → B) (g : B → B) (xs : List A) (i : ℕ) (v : A) {a : A}
    → index xs i ≡ ok a
    → f v ≡ g (f a)
    → map f (set xs i v) ≡ modify i g (map f xs)
unfolding index
map-set f g [] i v h e = refl
map-set f g (x ∷ xs) zero v h e = ground (arith, e)
map-set f g (x ∷ xs) (suc i) v h e = ap (λ ys. f x ∷ ys) (map-set f g xs i v h e)
