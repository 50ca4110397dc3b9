-- ===== src/State/Targets.antt =====
-- crates/maybenot/src/state.rs: what a validated state can transition to, and that it can be sampled.
use maybenot.Prelude.{
  ℕ, suc, ◌<◌, ◌≡◌, ◌⊎◌, inl, inr, Bool, true, false, Option, none, some, List, [], ◌∷◌, ok,
  Returns, Returns-bind, >>=-eq-ok, index, All, All-index, arith, Bool-cases,
}
use maybenot.Constants.{state_end, state_signal}
use maybenot.Platform.{F32, zero32, Floats, Rng}
use maybenot.Event.{Event, to_usize}
use maybenot.Event.Order.{to_usize-lt}
use maybenot.Action.{Action}
use maybenot.Action.Bounds.{OptionDraws, ActionDraws, action_drawable, action-drawable}
use maybenot.Dist.Draws.{option_drawable}
use maybenot.Counter.{Counter}
use maybenot.Counter.Draws.{counter-drawable}
use maybenot.State.{
  Trans, State, HasSlots, is_empty, check_vector, check_slot, check_slots, validate_action,
  validate_counter, validate, pick, sample_slot, sample_state,
}

-- A state of the machine, or one of the two pseudo-states.
abbrev pub IsTarget : ℕ → ℕ → Type 0
IsTarget n t = (t < n) ⊎ ((t ≡ state_end) ⊎ (t ≡ state_signal))

abbrev pub OptionIsTarget : ℕ → Option ℕ → Type 0
OptionIsTarget n none = Unit
OptionIsTarget n (some t) = IsTarget n t

abbrev pub SlotTargets : ℕ → Option (List Trans) → Type 0
SlotTargets n none = Unit
SlotTargets n (some vector) = All (λ t. IsTarget n t.0) vector

module _ ⦃fl : Floats⦄ where
  abbrev pub ActionOk : Option Action → Type 0
  ActionOk none = Unit
  ActionOk (some a) = action_drawable a ≡ true

  abbrev pub CounterOk : Option Counter → Type 0
  CounterOk none = Unit
  CounterOk (some c) = option_drawable c.dist ≡ true

  pub record SoundState (n : ℕ) (s : State) : Type 0 where
    pub slots : HasSlots s
    pub targets : All (SlotTargets n) s.transitions
    pub action : ActionOk s.action
    pub counter_a : CounterOk s.counter.0
    pub counter_b : CounterOk s.counter.1

  -- What validation leaves open for the distributions of a state, and what the Rust type says.
  abbrev pub OptionActionDraws : Option Action → Type 0
  OptionActionDraws none = Unit
  OptionActionDraws (some a) = ActionDraws a

  abbrev pub OptionCounterDraws : Option Counter → Type 0
  OptionCounterDraws none = Unit
  OptionCounterDraws (some c) = OptionDraws c.dist

  pub record StateDraws (s : State) : Type 0 where
    pub slots : HasSlots s
    pub action : OptionActionDraws s.action
    pub counter_a : OptionCounterDraws s.counter.0
    pub counter_b : OptionCounterDraws s.counter.1

  check_vector-targets :
      (n : ℕ) (sum : F32) (seen : List ℕ) (v : List Trans) {total : F32}
      → check_vector n sum seen v ≡ ok total
      → All (λ t. IsTarget n t.0) v
  unfolding check_vector
  check_vector-targets n sum seen [] h = tt
  check_vector-targets n sum seen ((t, p) ∷ rest) {total} h = (
    ground arith,
    check_vector-targets n (fl.add32 sum p) (t ∷ seen) rest {total = total} (ground arith),
  )

  check_slot-targets :
      (n event : ℕ) (b : Bool) (slot : Option (List Trans))
      → check_slot n b event slot ≡ ok tt
      → SlotTargets n slot
  unfolding check_slot
  check_slot-targets n event b none h = tt
  check_slot-targets n event false (some v) h =
      let (total, e, _) = >>=-eq-ok (check_vector n zero32 [] v) _ h in
      check_vector-targets n zero32 [] v e
  check_slot-targets n event true (some v) h = absurd (ground arith)

  check_slots-targets :
      (n event : ℕ) (b : Bool) (slots : List (Option (List Trans)))
      → check_slots n b event slots ≡ ok tt
      → All (SlotTargets n) slots
  unfolding check_slots
  check_slots-targets n event b [] h = tt
  check_slots-targets n event b (slot ∷ rest) h =
      let (u, e, h') = >>=-eq-ok (check_slot n b event slot) _ h in
      (check_slot-targets n event b slot e, check_slots-targets n (suc event) b rest h')

  validate_action-ok :
      (o : Option Action) → validate_action o ≡ ok tt → OptionActionDraws o → ActionOk o
  validate_action-ok none h u = tt
  validate_action-ok (some a) h u = action-drawable a h u

  validate_counter-ok :
      (o : Option Counter) → validate_counter o ≡ ok tt → OptionCounterDraws o → CounterOk o
  validate_counter-ok none h u = tt
  validate_counter-ok (some c) h u = counter-drawable c h u

  pub validate-SoundState :
      (s : State) (n : ℕ) → validate s n ≡ ok tt → StateDraws s → SoundState n s
  unfolding validate
  validate-SoundState s n h u =
      let (_, e1, h1) = >>=-eq-ok (check_slots n (is_empty s.transitions) 0 s.transitions) _ h in
      let (_, e2, h2) = >>=-eq-ok (validate_action s.action) _ h1 in
      let (_, e3, h3) = >>=-eq-ok (validate_counter s.counter.0) _ h2 in
      record {
        slots = u.slots;
        targets = check_slots-targets n 0 (is_empty s.transitions) s.transitions e1;
        action = validate_action-ok s.action e2 u.action;
        counter_a = validate_counter-ok s.counter.0 e3 u.counter_a;
        counter_b = validate_counter-ok s.counter.1 h3 u.counter_b;
      }

  pick-IsTarget :
      (n : ℕ) (r sum : F32) (v : List Trans)
      → All (λ t. IsTarget n t.0) v
      → OptionIsTarget n (pick r sum v)
  unfolding pick
  pick-IsTarget n r sum [] h = tt
  pick-IsTarget n r sum ((t, p) ∷ rest) h = elim (Bool-cases (fl.lt32 r (fl.add32 sum p))) [
    | inl e ↦ rw e h.0
    | inr e ↦ rw e (pick-IsTarget n r (fl.add32 sum p) rest h.1)
  ]

module _ {R : Type 0} ⦃fl : Floats⦄ ⦃g : Rng R⦄ where
  sample_slot-IsTarget :
      (n : ℕ) (slot : Option (List Trans)) (rng : R)
      → SlotTargets n slot
      → OptionIsTarget n (sample_slot slot rng).0
  unfolding sample_slot
  sample_slot-IsTarget n none rng h = tt
  sample_slot-IsTarget n (some v) rng h = pick-IsTarget n (g.gen_unit rng).0 zero32 v h

  -- A sound state is sampled without a panic, and yields one of its own targets.
  pub sample_state-Returns :
      (n : ℕ) (s : State) (event : Event) (rng : R)
      → SoundState n s
      → Returns (λ r. OptionIsTarget n r.0) (sample_state s event rng)
  unfolding sample_state
  sample_state-Returns n s event rng h =
      Returns-bind (SlotTargets n) (λ r. OptionIsTarget n r.0)
        (index s.transitions (to_usize event)) _
        (All-index (SlotTargets n) s.transitions (to_usize event) h.targets
          (omega (arith, h.slots, to_usize-lt event)))
        λ slot e ok_slot. sample_slot-IsTarget n slot rng ok_slot
