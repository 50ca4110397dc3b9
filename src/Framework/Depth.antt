-- ===== src/Framework/Depth.antt =====
-- crates/maybenot/src/framework.rs: a deeper bound on the calls of `transition` changes nothing.
use maybenot.Prelude.{
  ℕ, zero, suc, ◌+◌, ◌<◌, ◌≡◌, refl, ◌∙◌, sym, ◌⊎◌, inl, inr, Bool, true, false, ◌||◌, Option, none,
  some, Outcome, ok, err, panic, unfinished, ◌>>=◌, index, length, ◌==◌, if◌then◌else◌, Returns,
  arith,
}
use maybenot.Constants.{state_end, state_signal}
use maybenot.Platform.{Floats, Rng}
use maybenot.Event.{Event}
use maybenot.State.{sample_state}
use maybenot.Framework.Limits.{below_action_limits}
use maybenot.Framework.Types.{MachineRuntime, StateChange, Framework}
use maybenot.Framework.Transition.{
  counters_zeroed, update_counter, update_counter_a, update_counter_b, enter_state, move_to, act_on,
  transition_step, nested_transition, transition,
}
use maybenot.Framework.Rows.{IsValid}
use maybenot.Framework.Local.{Local}
use maybenot.Framework.Moves.{transition-Local}

-- The first is the second, unless it was cut off.
abbrev pub Agrees {ℓ} : {A : Type ℓ} → Outcome A → Outcome A → Type ℓ
Agrees m m' = (m ≡ unfinished) ⊎ (m ≡ m')

Agrees-bind {ℓ κ} :
    {A : Type ℓ} {B : Type κ} (m m' : Outcome A) (f f' : A → Outcome B)
    → Agrees m m'
    → ((a : A) → Agrees (f a) (f' a))
    → Agrees (m >>= f) (m' >>= f')
Agrees-bind m m' f f' (inl e) k = inl (rw e)
Agrees-bind (ok a) m' f f' (inr e) k = rw (sym e) (k a)
Agrees-bind (err a) m' f f' (inr e) k = inr (rw (sym e))
Agrees-bind panic m' f f' (inr e) k = inr (rw (sym e))
Agrees-bind unfinished m' f f' (inr e) k = inl refl

Agrees-if {ℓ} :
    {A : Type ℓ} (b : Bool) (m m' n n' : Outcome A)
    → Agrees m m'
    → Agrees n n'
    → Agrees (if b then m else n) (if b then m' else n')
Agrees-if true m m' n n' h k = h
Agrees-if false m m' n n' h k = k

abbrev Transition : Type 0 → Type 0
Transition R = Framework R → ℕ → Event → Outcome (StateChange × Framework R)

abbrev pub Deeper : {R : Type 0} → Transition R → Transition R → Type 0
Deeper rec rec' =
    (fw : Framework _) (mi : ℕ) (event : Event) → Agrees (rec fw mi event) (rec' fw mi event)

module _ {R : Type 0} ⦃fl : Floats⦄ ⦃g : Rng R⦄ where
  counters_zeroed-Agrees :
      (rec rec' : Transition R)
      → Deeper rec rec'
      → (fw : Framework R) (mi : ℕ) (b : Bool)
      → Agrees (counters_zeroed rec fw mi b) (counters_zeroed rec' fw mi b)
  unfolding counters_zeroed
  counters_zeroed-Agrees rec rec' h fw mi true =
      Agrees-bind _ _ _ _ (h fw mi Event.counter_zero) (λ r. inr refl)
  counters_zeroed-Agrees rec rec' h fw mi false = inr refl

  update_counter-Agrees :
      (rec rec' : Transition R)
      → Deeper rec rec'
      → (fw : Framework R) (mi : ℕ) → Agrees (update_counter rec fw mi) (update_counter rec' fw mi)
  unfolding update_counter
  update_counter-Agrees rec rec' h fw mi =
      Agrees-bind (index fw.machines mi) _ _ _ (inr refl) λ machine.
        Agrees-bind (index fw.runtime mi) _ _ _ (inr refl) λ rt.
          Agrees-bind (index machine.states rt.current_state) _ _ _ (inr refl) λ state.
            Agrees-bind (update_counter_a fw mi rt state.counter.0) _ _ _ (inr refl) λ a.
              Agrees-bind (index (a.1).runtime mi) _ _ _ (inr refl) λ rt1.
                Agrees-bind (update_counter_b a.1 mi rt1 rt.counter_a state.counter.1) _ _ _
                  (inr refl) λ b. counters_zeroed-Agrees rec rec' h b.1 mi (a.0 || b.0)

  move_to-Agrees :
      (rec rec' : Transition R)
      → Deeper rec rec'
      → (fw : Framework R) (mi : ℕ) (rt : MachineRuntime) (next : ℕ)
      → Agrees (move_to rec fw mi rt next) (move_to rec' fw mi rt next)
  unfolding move_to
  move_to-Agrees rec rec' h fw mi rt next =
      Agrees-bind (enter_state fw mi rt next) _ _ _ (inr refl) λ fw1.
        Agrees-bind (index fw1.machines mi) _ _ _ (inr refl) λ machine.
          Agrees-bind (index fw1.runtime mi) _ _ _ (inr refl) λ rt1.
            Agrees-bind (below_action_limits fw1 rt1 machine) _ _ _ (inr refl) λ below.
              Agrees-bind (update_counter rec fw1 mi) (update_counter rec' fw1 mi) _ _
                (update_counter-Agrees rec rec' h fw1 mi) λ r. inr refl

  act_on-Agrees :
      (rec rec' : Transition R)
      → Deeper rec rec'
      → (fw : Framework R) (mi : ℕ) (rt : MachineRuntime) (o : Option ℕ)
      → Agrees (act_on rec fw mi rt o) (act_on rec' fw mi rt o)
  unfolding act_on
  act_on-Agrees rec rec' h fw mi rt none = inr refl
  act_on-Agrees rec rec' h fw mi rt (some next) = Agrees-if (next == state_end) _ _ _ _ (inr refl) (
      Agrees-if (next == state_signal) _ _ _ _ (inr refl) (move_to-Agrees rec rec' h fw mi rt next))

  transition_step-Deeper :
      (rec rec' : Transition R)
      → Deeper rec rec'
      → Deeper (transition_step rec) (transition_step rec')
  unfolding transition_step
  transition_step-Deeper rec rec' h fw mi event =
      Agrees-bind (index fw.runtime mi) _ _ _ (inr refl) λ rt.
        Agrees-if (rt.current_state == state_end) _ _ _ _ (inr refl) (
          Agrees-bind (index fw.machines mi) _ _ _ (inr refl) λ machine.
            Agrees-bind (index machine.states rt.current_state) _ _ _ (inr refl) λ state.
              Agrees-bind (sample_state state event fw.rng) _ _ _ (inr refl)
                λ r. act_on-Agrees rec rec' h (record fw { rng = r.1 }) mi rt r.0)

  nested_transition-Deeper :
      (d : ℕ) → Deeper {R = R} (nested_transition d) (nested_transition (suc d))
  unfolding nested_transition
  nested_transition-Deeper zero fw mi event = inl refl
  nested_transition-Deeper (suc d) fw mi event =
      transition_step-Deeper (nested_transition d) (nested_transition (suc d))
        (nested_transition-Deeper d) fw mi event

  not_cut :
      (m : Outcome (StateChange × Framework R)) (P : StateChange × Framework R → Type 0)
      {m' : Outcome (StateChange × Framework R)}
      → Returns P m
      → Agrees m m'
      → m' ≡ m
  not_cut m P h (inl e) = absurd (rw e at h)
  not_cut m P h (inr e) = sym e

  -- In a valid framework the calls of `transition` nest at most three deep: with a higher bound on the
  -- nesting its result is the same.
  pub nested_transition-transition :
      (extra : ℕ) (fw : Framework R) (mi : ℕ) (event : Event)
      → IsValid fw
      → mi < length fw.runtime
      → nested_transition (extra + 3) fw mi event ≡ transition fw mi event
  unfolding transition
  nested_transition-transition zero fw mi event v lt = refl
  nested_transition-transition (suc k) fw mi event v lt =
      let e = nested_transition-transition k fw mi event v lt in
      let next : suc k + 3 ≡ suc (k + 3) = omega arith in
      rw next (
        not_cut (nested_transition (k + 3) fw mi event) (λ r. Local mi fw r.1)
          (rw e (transition-Local fw mi event v lt)) (nested_transition-Deeper (k + 3) fw mi event)
        ∙ e)
