-- ===== src/Prelude/Lists.antt =====
-- Lists measured by native numbers, and predicates on them.
use Prim.Native.Nat.{ℕ, zero, suc, ◌≤◌}
use native.Mathlib.Omega.{arith}
use mathlib.Core.Path.{◌≡◌, refl, ap}
use mathlib.Core.List.{List, [], ◌∷◌, map}

module _ {ℓ} {A : Type ℓ} where
  abbrev pub length : List A → ℕ
  length [] = 0
  length (x ∷ xs) = suc (length xs)

  -- A write out of bounds changes nothing.
  abbrev pub set : List A → ℕ → A → List A
  set [] i v = []
  set (x ∷ xs) zero v = v ∷ xs
  set (x ∷ xs) (suc i) v = x ∷ set xs i v

  abbrev pub replicate : ℕ → A → List A
  replicate zero a = []
  replicate (suc n) a = a ∷ replicate n a

  pub length-set : (xs : List A) (i : ℕ) (v : A) → length (set xs i v) ≡ length xs
  length-set [] i v = refl
  length-set (x ∷ xs) zero v = refl
  length-set (x ∷ xs) (suc i) v = ap suc (length-set xs i v)

  pub length-replicate : (n : ℕ) (a : A) → length (replicate n a) ≡ n
  length-replicate zero a = refl
  length-replicate (suc n) a = ap suc (length-replicate n a)

abbrev pub All {ℓ} : {A : Type ℓ} → (A → Type 0) → List A → Type 0
All P [] = Unit
All P (x ∷ xs) = P x × All P xs

module _ {ℓ} {A : Type ℓ} where
  -- `f` at position `i`, if there is one.
  abbrev pub modify : ℕ → (A → A) → List A → List A
  modify i f [] = []
  modify zero f (x ∷ xs) = f x ∷ xs
  modify (suc i) f (x ∷ xs) = x ∷ modify i f xs

  -- `f` from position `i` on.
  abbrev pub map_from : ℕ → (A → A) → List A → List A
  map_from i f [] = []
  map_from zero f (x ∷ xs) = f x ∷ map_from zero f xs
  map_from (suc i) f (x ∷ xs) = x ∷ map_from i f xs

  pub map_from-modify :
      (i : ℕ) (f : A → A) (xs : List A) → map_from (suc i) f (modify i f xs) ≡ map_from i f xs
  map_from-modify i f [] = refl
  map_from-modify zero f (x ∷ xs) = refl
  map_from-modify (suc i) f (x ∷ xs) = ap (λ ys. x ∷ ys) (map_from-modify i f xs)

  pub map_from-zero : (f : A → A) (xs : List A) → map_from zero f xs ≡ map f xs
  map_from-zero f [] = refl
  map_from-zero f (x ∷ xs) = ap (λ ys. f x ∷ ys) (map_from-zero f xs)

  pub map_from-length : (f : A → A) (xs : List A) → map_from (length xs) f xs ≡ xs
  map_from-length f [] = refl
  map_from-length f (x ∷ xs) = ap (λ ys. x ∷ ys) (map_from-length f xs)

  pub modify-id : (i : ℕ) (xs : List A) → modify i (λ x. x) xs ≡ xs
  modify-id i [] = refl
  modify-id zero (x ∷ xs) = refl
  modify-id (suc i) (x ∷ xs) = ap (λ ys. x ∷ ys) (modify-id i xs)

  pub map-id : (xs : List A) → map (λ x. x) xs ≡ xs
  map-id [] = refl
  map-id (x ∷ xs) = ap (λ ys. x ∷ ys) (map-id xs)

  pub modify-out : (i : ℕ) (f : A → A) (xs : List A) → length xs ≤ i → modify i f xs ≡ xs
  modify-out i f [] h = refl
  modify-out zero f (x ∷ xs) h = absurd (omega arith)
  modify-out (suc i) f (x ∷ xs) h = ap (λ ys. x ∷ ys) (modify-out i f xs (omega arith))

  pub length-modify : (i : ℕ) (f : A → A) (xs : List A) → length (modify i f xs) ≡ length xs
  length-modify i f [] = refl
  length-modify zero f (x ∷ xs) = refl
  length-modify (suc i) f (x ∷ xs) = ap suc (length-modify i f xs)

pub length-map {ℓ κ} :
    {A : Type ℓ} {B : Type κ} (f : A → B) (xs : List A) → length (map f xs) ≡ length xs
length-map f [] = refl
length-map f (x ∷ xs) = ap suc (length-map f xs)
