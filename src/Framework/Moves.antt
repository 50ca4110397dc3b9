-- ===== src/Framework/Moves.antt =====
-- crates/maybenot/src/framework.rs: `transition` and the functions below it return, and stay local.
use maybenot.Prelude.{
  ℕ, zero, suc, ◌<◌, ◌≡◌, refl, ◌⊎◌, inl, inr, Bool, true, false, ◌&&◌, Option, none, some, Outcome,
  ok, Returns, Returns-bind, Returns-mono, index, length, Bool-cases, ◌==◌, if◌then◌else◌, arith,
}
use maybenot.Constants.{state_end, state_signal}
use maybenot.Platform.{Floats, Rng}
use maybenot.Event.{Event}
use maybenot.State.{sample_state}
use maybenot.State.Targets.{OptionIsTarget, SoundState, sample_state-Returns}
use maybenot.Machine.{Machine}
use maybenot.Machine.Sound.{IsSound}
use maybenot.Framework.Types.{MachineRuntime, StateChange, SignalTarget, Framework}
use maybenot.Framework.Limits.{below_action_limits}
use maybenot.Framework.Transition.{
  update_counter, schedule_action, enter_state, move_to, act_on, transition_step, nested_transition,
  transition, signal_from,
}
use maybenot.Framework.Rows.{SignalIn, IsValid}
use maybenot.Framework.Steps.{
  Here, Here-again, InState, RecLocal, state_of, schedule_action-Local, enter_state-Local,
  update_counter-Local,
}
use maybenot.Framework.Local.{
  unset_flags, Local, Local-refl, Local-trans, row_of, Local-edit, Local-global,
}

signal_from-SignalIn :
    (mi n : ℕ) (pending : Option SignalTarget) → mi < n → SignalIn n (signal_from mi pending)
signal_from-SignalIn mi n none h = h
signal_from-SignalIn mi n (some target) h = tt

module _ {R : Type 0} ⦃fl : Floats⦄ ⦃g : Rng R⦄ where
  below_action_limits-Returns :
      (fw : Framework R) (rt : MachineRuntime) (m : Machine)
      → IsSound m
      → rt.current_state < length m.states
      → Returns (λ b. Unit {0}) (below_action_limits fw rt m)
  unfolding below_action_limits
  below_action_limits-Returns fw rt m s lt =
      Returns-bind (SoundState (length m.states)) (λ b. Unit {0}) (index m.states rt.current_state)
        _ (state_of m rt.current_state s lt) λ st e ok_st. tt

  schedule_if-Local :
      (fw : Framework R) (mi k : ℕ) (m : Machine) (rt : MachineRuntime) (b : Bool)
      → Here fw mi m rt
      → k < length m.states
      → Returns (Local mi fw) (if b then schedule_action fw mi k else ok fw)
  schedule_if-Local fw mi k m rt true here klt =
      schedule_action-Local fw mi k m here.valid here.in_bounds here.at_machine here.sound klt
  schedule_if-Local fw mi k m rt false here klt = Local-refl mi fw here.valid

  move_to-Local :
      (rec : Framework R → ℕ → Event → Outcome (StateChange × Framework R)) (fw : Framework R)
      (mi d k : ℕ) (m : Machine) (rt : MachineRuntime)
      → RecLocal rec mi d
      → Here fw mi m rt
      → k < length m.states
      → unset_flags fw.counter_zeroed_once < suc d
      → Returns (λ r. Local mi fw r.1) (move_to rec fw mi rt k)
  unfolding move_to
  move_to-Local rec fw mi d k m rt rl here klt fuel =
      Returns-bind (λ fw1. Local mi fw fw1 × InState mi k fw1) (λ r. Local mi fw r.1)
        (enter_state fw mi rt k) _ (enter_state-Local fw mi m rt k here klt)
        λ fw1 e1 (l1, in_k).
          let (rt1, here1) = Here-again fw fw1 mi m rt here l1 in
          let at_k : rt1.current_state ≡ k = in_k rt1 here1.at_runtime in
          let lt1 : rt1.current_state < length m.states = omega arith in
          rw (here1.at_machine, here1.at_runtime)
            (Returns-bind (λ b. Unit {0}) (λ r. Local mi fw r.1) (below_action_limits fw1 rt1 m) _
              (below_action_limits-Returns fw1 rt1 m here1.sound lt1)
              λ below e2 _.
                Returns-bind (λ r. Local mi fw1 r.1) (λ r. Local mi fw r.1)
                  (update_counter rec fw1 mi) _
                  (update_counter-Local rec fw1 mi d m rt1 rl here1 lt1
                    (omega (arith, l1.flags, fuel)))
                  λ r2 e3 l2.
                    let (rt2, here2) = Here-again fw1 r2.1 mi m rt1 here1 l2 in
                    Returns-bind (Local mi r2.1) (λ r. Local mi fw r.1)
                      (if r2.0.0 && below then schedule_action r2.1 mi k else ok r2.1) _
                      (schedule_if-Local r2.1 mi k m rt2 (r2.0.0 && below) here2 klt)
                      λ fw3 e4 l3.
                        let (rt3, here3) = Here-again r2.1 fw3 mi m rt2 here2 l3 in
                        rw here3.at_runtime
                          (Local-trans mi fw r2.1 fw3 (Local-trans mi fw fw1 r2.1 l1 l2) l3))

  act_on-Local :
      (rec : Framework R → ℕ → Event → Outcome (StateChange × Framework R)) (fw : Framework R)
      (mi d : ℕ) (m : Machine) (rt : MachineRuntime) (next : Option ℕ)
      → RecLocal rec mi d
      → Here fw mi m rt
      → OptionIsTarget (length m.states) next
      → unset_flags fw.counter_zeroed_once < suc d
      → Returns (λ r. Local mi fw r.1) (act_on rec fw mi rt next)
  unfolding act_on
  act_on-Local rec fw mi d m rt none rl here t fuel = Local-refl mi fw here.valid
  act_on-Local rec fw mi d m rt (some k) rl here t fuel = elim (Bool-cases (k == state_end)) [
    | inl e ↦ rw e (
        Local-edit mi fw m rt (record rt { current_state = state_end }) fw.rng
          fw.counter_zeroed_once here.valid here.at_machine here.at_runtime refl
          (record {
            in_range = inr refl;
            limit = here.live.limit;
            counter_a = here.live.counter_a;
            counter_b = here.live.counter_b;
          })
          (omega arith))
    | inr e ↦ rw e (elim (Bool-cases (k == state_signal)) [
      | inl e' ↦ rw e' (
          Local-global mi fw fw.rng (signal_from mi fw.signal_pending) here.valid
            (signal_from-SignalIn mi (length fw.runtime) fw.signal_pending here.in_bounds))
      | inr e' ↦ rw e' (move_to-Local rec fw mi d k m rt rl here (ground arith) fuel)
    ])
  ]

  transition_step-Local :
      (rec : Framework R → ℕ → Event → Outcome (StateChange × Framework R)) (fw : Framework R)
      (mi d : ℕ) (event : Event)
      → RecLocal rec mi d
      → IsValid fw
      → mi < length fw.runtime
      → unset_flags fw.counter_zeroed_once < suc d
      → Returns (λ r. Local mi fw r.1) (transition_step rec fw mi event)
  unfolding transition_step
  transition_step-Local rec fw mi d event rl v lt fuel =
      let r = row_of fw mi v lt in
      rw r.at_runtime (elim (Bool-cases (r.rt.current_state == state_end)) [
        | inl e ↦ rw e (Local-refl mi fw v)
        | inr e ↦
            let klt : r.rt.current_state < length r.m.states = in_states r.row.live.in_range e in
            rw (e, r.at_machine)
              (Returns-bind (SoundState (length r.m.states)) (λ x. Local mi fw x.1)
                (index r.m.states r.rt.current_state) _
                (state_of r.m r.rt.current_state r.row.sound klt)
                λ st e1 ok_st.
                  Returns-bind (λ x. OptionIsTarget (length r.m.states) x.0) (λ x. Local mi fw x.1)
                    (sample_state st event fw.rng) _
                    (sample_state-Returns (length r.m.states) st event fw.rng ok_st)
                    λ x e2 target.
                      let fw0 : Framework R = record fw { rng = x.1 } in
                      let l0 = Local-global mi fw x.1 fw.signal_pending v v.1 in
                      Returns-mono (λ y. Local mi fw0 y.1) (λ y. Local mi fw y.1)
                        (act_on rec fw0 mi r.rt x.0) (λ y l. Local-trans mi fw fw0 y.1 l0 l)
                        (act_on-Local rec fw0 mi d r.m r.rt x.0 rl
                          (record {
                            valid = v;
                            in_bounds = lt;
                            at_machine = r.at_machine;
                            at_runtime = r.at_runtime;
                            sound = r.row.sound;
                            live = r.row.live;
                          })
                          target fuel))
      ])
    where
      in_states : {k n : ℕ} → (k < n) ⊎ (k ≡ state_end) → (k == state_end) ≡ false → k < n
      in_states h e = ground arith

  -- `transition` returns, if its bound is above the number of clear flags, and stays local.
  pub nested_transition-Local :
      (d : ℕ) (fw : Framework R) (mi : ℕ) (event : Event)
      → IsValid fw
      → mi < length fw.runtime
      → unset_flags fw.counter_zeroed_once < d
      → Returns (λ r. Local mi fw r.1) (nested_transition d fw mi event)
  unfolding nested_transition
  nested_transition-Local zero fw mi event v lt fuel = absurd (omega arith)
  nested_transition-Local (suc d) fw mi event v lt fuel =
      transition_step-Local (nested_transition d) fw mi d event
        (λ fw' v' lt' fuel' event'. nested_transition-Local d fw' mi event' v' lt' fuel') v lt fuel

  pub transition-Local :
      (fw : Framework R) (mi : ℕ) (event : Event)
      → IsValid fw
      → mi < length fw.runtime
      → Returns (λ r. Local mi fw r.1) (transition fw mi event)
  unfolding transition
  transition-Local fw mi event v lt =
      nested_transition-Local 3 fw mi event v lt (flags_bound fw.counter_zeroed_once)
    where
      flags_bound : (f : Bool × Bool) → unset_flags f < 3
      flags_bound f = ground arith
