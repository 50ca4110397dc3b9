-- ===== src/State/Exact.antt =====
-- crates/maybenot/src/state.rs: what `validate` accepts, exactly, and what `sample_state` chooses.
use maybenot.Prelude.{
  ℕ, suc, ◌≡◌, ◌≢◌, ◌↔◌, refl, ◌∙◌, sym, ap, ◌⊎◌, inl, inr, true, false, Option, none, some, List,
  [], ◌∷◌, ◌++◌, ok, >>=-eq-ok, All, Bool-cases, arith,
}
use maybenot.Platform.{F32, zero32, Floats}
use maybenot.State.{
  Trans, State, is_empty, contains, bad_probability, check_vector, check_slot, check_slots,
  validate_action, validate_counter, validate, pick,
}
use maybenot.State.Targets.{IsTarget}

abbrev Distinct : List Trans → Type 0
Distinct [] = Unit
Distinct ((t, p) ∷ rest) = All (λ u. u.0 ≢ t) rest × Distinct rest

abbrev Unseen : List ℕ → List Trans → Type 0
Unseen seen v = All (λ u. contains seen u.0 ≡ false) v

Unseen-cons :
    (t : ℕ) (seen : List ℕ) (v : List Trans)
    → All (λ u. u.0 ≢ t) v
    → Unseen seen v
    → Unseen (t ∷ seen) v
Unseen-cons t seen [] h k = tt
Unseen-cons t seen (u ∷ rest) h k = (ground arith, Unseen-cons t seen rest h.1 k.1)

Unseen-tail :
    (t : ℕ) (seen : List ℕ) (v : List Trans)
    → Unseen (t ∷ seen) v
    → All (λ u. u.0 ≢ t) v × Unseen seen v
Unseen-tail t seen [] h = (tt, tt)
Unseen-tail t seen (u ∷ rest) h =
    let (p, q) = Unseen-tail t seen rest h.1 in (((λ e. ground arith), p), (ground arith, q))

Unseen-none : (v : List Trans) → Unseen [] v
Unseen-none [] = tt
Unseen-none (u ∷ rest) = (refl, Unseen-none rest)

module _ ⦃fl : Floats⦄ where
  -- The probabilities are added from the left.
  abbrev sum_from : F32 → List Trans → F32
  sum_from sum [] = sum
  sum_from sum ((t, p) ∷ rest) = sum_from (fl.add32 sum p) rest

  -- A target that the machine has, or a pseudo-state, and a probability above 0 and up to 1.
  abbrev ValidTrans : ℕ → Trans → Type 0
  ValidTrans n u = IsTarget n u.0 × (bad_probability u.1 ≡ false)

  check_vector-ok :
      (n : ℕ) (sum : F32) (seen : List ℕ) (v : List Trans) (total : F32)
      → check_vector n sum seen v ≡ ok total
      → All (ValidTrans n) v × Unseen seen v × Distinct v × (sum_from sum v ≡ total)
  unfolding check_vector
  check_vector-ok n sum seen [] total h = (tt, tt, tt, cc)
  check_vector-ok n sum seen ((t, p) ∷ rest) total h =
      let (a, b, c, d) = check_vector-ok n (fl.add32 sum p) (t ∷ seen) rest total (ground arith) in
      let (e, f) = Unseen-tail t seen rest b in
      (((ground arith, ground arith), a), (ground arith, f), (e, c), d)

  check_vector_complete :
      (n : ℕ) (sum : F32) (seen : List ℕ) (v : List Trans)
      → All (ValidTrans n) v
      → Unseen seen v
      → Distinct v
      → check_vector n sum seen v ≡ ok (sum_from sum v)
  unfolding check_vector
  check_vector_complete n sum seen [] a b c = refl
  check_vector_complete n sum seen ((t, p) ∷ rest) a b c =
      let e =
        check_vector_complete n (fl.add32 sum p) (t ∷ seen) rest a.1
          (Unseen-cons t seen rest c.0 b.1) c.1 in
      ground arith

  -- What the documentation asks of the transitions on one event.
  abbrev pub ValidSlot : ℕ → Option (List Trans) → Type 0
  ValidSlot n none = Unit
  ValidSlot n (some v) =
      All (ValidTrans n) v × Distinct v × (bad_probability (sum_from zero32 v) ≡ false)

  check_slot_iff :
      (n event : ℕ) (slot : Option (List Trans))
      → (check_slot n false event slot ≡ ok tt) ↔ ValidSlot n slot
  unfolding check_slot
  check_slot_iff n event none = (λ h. tt, λ h. refl)
  check_slot_iff n event (some v) = (
    λ h.
        let (total, e, h') = >>=-eq-ok (check_vector n zero32 [] v) _ h in
        let (a, b, c, d) = check_vector-ok n zero32 [] v total e in (a, c, rw d (ground arith)),
    λ h. rw (check_vector_complete n zero32 [] v h.0 (Unseen-none v) h.1, h.2) refl,
  )

  check_slots_iff :
      (n event : ℕ) (slots : List (Option (List Trans)))
      → (check_slots n false event slots ≡ ok tt) ↔ All (ValidSlot n) slots
  unfolding check_slots
  check_slots_iff n event [] = (λ h. tt, λ h. refl)
  check_slots_iff n event (slot ∷ rest) = (
    λ h.
        let (_, e, h') = >>=-eq-ok (check_slot n false event slot) _ h in
        ((check_slot_iff n event slot).0 e, (check_slots_iff n (suc event) rest).0 h'),
    λ h. rw ((check_slot_iff n event slot).1 h.0) ((check_slots_iff n (suc event) rest).1 h.1),
  )

  -- The test for emptiness makes no difference: it is of the whole array.
  check_slots-is_empty :
      (n : ℕ) (slots : List (Option (List Trans)))
      → check_slots n (is_empty slots) 0 slots ≡ check_slots n false 0 slots
  unfolding check_slots
  check_slots-is_empty n [] = refl
  check_slots-is_empty n (slot ∷ rest) = refl

  -- What `State::validate` is to accept.
  abbrev pub ValidState : ℕ → State → Type 0
  ValidState n s =
      All (ValidSlot n) s.transitions
      × (validate_action s.action ≡ ok tt)
      × (validate_counter s.counter.0 ≡ ok tt)
      × (validate_counter s.counter.1 ≡ ok tt)

  -- `State::validate` accepts exactly the states in which, for every event with transitions, the
  -- targets are distinct, each a state of the machine or a pseudo-state; no probability is at most 0
  -- or above 1, and neither is their sum, in f32 arithmetic from the left; and the action and the two
  -- counters, where they are present, pass their own validation.
  pub validate-ValidState : (s : State) (n : ℕ) → (validate s n ≡ ok tt) ↔ ValidState n s
  unfolding validate
  validate-ValidState s n = (
    λ h.
        let (_, e1, h1) = >>=-eq-ok (check_slots n (is_empty s.transitions) 0 s.transitions) _ h in
        let (_, e2, h2) = >>=-eq-ok (validate_action s.action) _ h1 in
        let (_, e3, h3) = >>=-eq-ok (validate_counter s.counter.0) _ h2 in
        (
          (check_slots_iff n 0 s.transitions).0 (sym (check_slots-is_empty n s.transitions) ∙ e1),
          e2,
          e3,
          h3,
        ),
    λ h.
        rw
          (
            check_slots-is_empty n s.transitions,
            (check_slots_iff n 0 s.transitions).1 h.0,
            h.1,
            h.2,
          )
          h.3,
  )

  -- No running sum is above `r`.
  abbrev pub Passed : F32 → F32 → List Trans → Type 0
  Passed r sum [] = Unit
  Passed r sum ((t, p) ∷ rest) =
      (fl.lt32 r (fl.add32 sum p) ≡ false) × Passed r (fl.add32 sum p) rest

  -- The transition at which the running sum first is above `r`.
  pub record Chosen (r sum : F32) (v : List Trans) (t : ℕ) : Type 0 where
    pub before : List Trans
    pub p : F32
    pub after : List Trans
    pub split : v ≡ before ++ (t, p) ∷ after
    pub passed : Passed r sum before
    pub above : fl.lt32 r (fl.add32 (sum_from sum before) p) ≡ true

  -- The loop of `sample_state` at a draw `r` yields the target of the first transition at which the
  -- sum of the probabilities is above `r`, and none exactly if the sum never is.
  pub pick-Chosen :
      (r sum : F32) (v : List Trans)
      → ((pick r sum v ≡ none) × Passed r sum v)
        ⊎ ((t : ℕ) × (pick r sum v ≡ some t) × Chosen r sum v t)
  unfolding pick
  pick-Chosen r sum [] = inl (refl, tt)
  pick-Chosen r sum ((t, p) ∷ rest) = elim (Bool-cases (fl.lt32 r (fl.add32 sum p))) [
    | inl e ↦ inr (
      t,
      rw e refl,
      record { before = []; p = p; after = rest; split = refl; passed = tt; above = e },
    )
    | inr e ↦ elim (pick-Chosen r (fl.add32 sum p) rest) [
      | inl (h, passed) ↦ inl (rw e h, (e, passed))
      | inr (u, h, c) ↦ inr (
        u,
        rw e h,
        record {
          before = (t, p) ∷ c.before;
          p = c.p;
          after = c.after;
          split = ap (λ xs. (t, p) ∷ xs) c.split;
          passed = (e, c.passed);
          above = c.above;
        },
      )
    ]
  ]
