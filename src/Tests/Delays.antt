-- ===== src/Tests/Delays.antt =====
-- A heap of pending delays that is a list.
use maybenot.Prelude.{
  ℕ, ◌+◌, ◌≤◌, ◌≡◌, refl, ap, subst, ◌∙◌, sym, inl, inr, Option, none, some, List, [], ◌∷◌, All,
  leb, if◌then◌else◌, if-both, Bool-cases, arith,
}
use maybenot.Simulator.Network.{PendingAggregateDelay, sum_of, DelayHeap}
use maybenot.Tests.Fixture.{flat, counting}
use maybenot.Tests.Heaps.{list_heap}

-- The sooner of a delay and the soonest of the rest.
abbrev pub sooner : PendingAggregateDelay → Option PendingAggregateDelay → PendingAggregateDelay
sooner p none = p
sooner p (some q) = if leb p.time q.time then p else q

abbrev pub delay_peek : List PendingAggregateDelay → Option PendingAggregateDelay
delay_peek [] = none
delay_peek (p ∷ rest) = some (sooner p (delay_peek rest))

abbrev pub take_delay :
    PendingAggregateDelay
    → List PendingAggregateDelay
    → Option PendingAggregateDelay × List PendingAggregateDelay
    → Option PendingAggregateDelay × List PendingAggregateDelay
take_delay p rest (none, left) = (some p, rest)
take_delay p rest (some q, left) = if leb p.time q.time then (some p, rest) else (some q, p ∷ left)

abbrev pub delay_pop :
    List PendingAggregateDelay → Option PendingAggregateDelay × List PendingAggregateDelay
delay_pop [] = (none, [])
delay_pop (p ∷ rest) = take_delay p rest (delay_pop rest)

pub delay_peek-none : (h : List PendingAggregateDelay) → delay_peek h ≡ none → h ≡ []
delay_peek-none [] e = refl
delay_peek-none (p ∷ rest) e = cc

pub delay_pop-none : (h : List PendingAggregateDelay) → delay_peek h ≡ none → (delay_pop h).1 ≡ []
delay_pop-none [] e = refl
delay_pop-none (p ∷ rest) e = cc

take_delay-sooner :
    (p : PendingAggregateDelay) (rest : List PendingAggregateDelay)
    (r : Option PendingAggregateDelay × List PendingAggregateDelay)
    → (take_delay p rest r).0 ≡ some (sooner p r.0)
take_delay-sooner p rest (none, left) = refl
take_delay-sooner p rest (some q, left) = elim (Bool-cases (leb p.time q.time)) [
  | inl e ↦ rw e refl
  | inr e ↦ rw e refl
]

pub delay_pop-delay_peek : (h : List PendingAggregateDelay) → (delay_pop h).0 ≡ delay_peek h
delay_pop-delay_peek [] = refl
delay_pop-delay_peek (p ∷ rest) =
    take_delay-sooner p rest (delay_pop rest)
    ∙ ap (λ o. some (sooner p o)) (delay_pop-delay_peek rest)

abbrev pub NotBeforeAll : PendingAggregateDelay → List PendingAggregateDelay → Type 0
NotBeforeAll p xs = All (λ x. p.time ≤ x.time) xs

NotBeforeAll-earlier :
    (p q : PendingAggregateDelay) (xs : List PendingAggregateDelay)
    → p.time ≤ q.time
    → NotBeforeAll q xs
    → NotBeforeAll p xs
NotBeforeAll-earlier p q [] h k = tt
NotBeforeAll-earlier p q (x ∷ rest) h k =
    (omega (arith, h, k.0), NotBeforeAll-earlier p q rest h k.1)

sooner-NotBeforeAll :
    (p : PendingAggregateDelay) (rest : List PendingAggregateDelay)
    (o : Option PendingAggregateDelay)
    → delay_peek rest ≡ o
    → ((q : PendingAggregateDelay) → delay_peek rest ≡ some q → NotBeforeAll q rest)
    → NotBeforeAll (sooner p o) (p ∷ rest)
sooner-NotBeforeAll p rest none e h = (omega arith, rw (delay_peek-none rest e) tt)
sooner-NotBeforeAll p rest (some q) e h =
    if-both (λ x. NotBeforeAll x (p ∷ rest)) (leb p.time q.time) p q
      (λ b. (omega arith, NotBeforeAll-earlier p q rest (ground arith) (h q e)))
      (λ b. (ground arith, h q e))

some_delay : {p q : PendingAggregateDelay} → some p ≡ some q → p ≡ q
some_delay e = cc

pub delay_peek-NotBeforeAll :
    (h : List PendingAggregateDelay) (p : PendingAggregateDelay)
    → delay_peek h ≡ some p
    → NotBeforeAll p h
delay_peek-NotBeforeAll [] p e = tt
delay_peek-NotBeforeAll (x ∷ rest) p e =
    subst (λ z. NotBeforeAll z (x ∷ rest)) (some_delay e)
      (sooner-NotBeforeAll x rest (delay_peek rest) refl (delay_peek-NotBeforeAll rest))

sum_of-take_delay :
    (f : PendingAggregateDelay → ℕ) (p : PendingAggregateDelay) (rest : List PendingAggregateDelay)
    (r : Option PendingAggregateDelay × List PendingAggregateDelay)
    → ((q : PendingAggregateDelay) → r.0 ≡ some q → sum_of f rest ≡ f q + sum_of f r.1)
    → f p + sum_of f rest ≡ f (sooner p r.0) + sum_of f (take_delay p rest r).1
unfolding sum_of
sum_of-take_delay f p rest (none, left) h = refl
sum_of-take_delay f p rest (some q, left) h = elim (Bool-cases (leb p.time q.time)) [
  | inl e ↦ rw e refl
  | inr e ↦ rw e (omega (arith, h q refl))
]

pub sum_of-delay_pop :
    (h : List PendingAggregateDelay) (p : PendingAggregateDelay) (f : PendingAggregateDelay → ℕ)
    → delay_peek h ≡ some p
    → sum_of f h ≡ f p + sum_of f (delay_pop h).1
unfolding sum_of
sum_of-delay_pop [] p f e = cc
sum_of-delay_pop (x ∷ rest) p f e =
    subst (λ z. sum_of f (x ∷ rest) ≡ f z + sum_of f (delay_pop (x ∷ rest)).1)
      (ap (sooner x) (delay_pop-delay_peek rest) ∙ some_delay e)
      (sum_of-take_delay f x rest (delay_pop rest)
        (λ q at. sum_of-delay_pop rest q f (sym (delay_pop-delay_peek rest) ∙ at)))

pub sum_of-cons :
    (h : List PendingAggregateDelay) (p : PendingAggregateDelay) (f : PendingAggregateDelay → ℕ)
    → sum_of f (p ∷ h) ≡ f p + sum_of f h
unfolding sum_of
sum_of-cons h p f = refl

instance abbrev pub list_delays : DelayHeap (List PendingAggregateDelay)
list_delays = record {
  contents = λ h. h;
  empty = [];
  push = λ h p. p ∷ h;
  peek = delay_peek;
  pop = delay_pop;
  contents_empty = refl;
  peek_none = delay_peek-none;
  peek_first = delay_peek-NotBeforeAll;
  pop_peek = delay_pop-delay_peek;
  pop_empty = delay_pop-none;
  pop_sum = sum_of-delay_pop;
  push_sum = sum_of-cons;
}
