-- ===== src/Framework/Signals.antt =====
-- crates/maybenot/src/framework.rs: which signals are left pending.
use maybenot.Prelude.{
  ℕ, zero, suc, ◌≡◌, refl, sym, ap, subst, ◌∙◌, ◌⊎◌, inl, inr, Bool, true, false, ◌&&◌, ◌||◌,
  Option, none, some, List, Outcome, ok, Returns, Returns-Ensures, Ensures, Ensures-bind,
  Ensures-after, Ensures-mono, index, if◌then◌else◌, ◌==◌, Bool-cases,
}
use maybenot.Constants.{state_end, state_signal}
use maybenot.Platform.{Floats, Rng}
use maybenot.Event.{Event, TriggerEvent}
use maybenot.Counter.{Counter}
use maybenot.State.{sample_state}
use maybenot.Framework.Types.{MachineRuntime, StateChange, SignalTarget, Framework, set_action}
use maybenot.Framework.Limits.{below_action_limits}
use maybenot.Framework.Transition.{
  signal_from, change_of, update_counter_a, update_counter_b, counters_zeroed, update_counter,
  to_trigger, schedule_action, limit_of, enter_state, move_to, act_on, transition_step,
  nested_transition, transition,
}
use maybenot.Framework.Events.{
  notify, excluded_by, signal_excluded, send_signal, for_all_machines, signal_one, process_events,
  reset, run_events, trigger_events,
}
use maybenot.Framework.Rows.{IsValid}
use maybenot.Framework.Safety.{trigger_events-IsValid}

-- A call for a machine leaves the pending signal, or the machine signals once.
abbrev SignalStep : ℕ → Option SignalTarget → Option SignalTarget → Type 0
SignalStep mi before after = (after ≡ before) ⊎ (after ≡ signal_from mi before)

module _ {R : Type 0} where
  abbrev Signals : ℕ → Framework R → Framework R → Type 0
  Signals mi fw fw' = SignalStep mi fw.signal_pending fw'.signal_pending

  abbrev Silent : Framework R → Framework R → Type 0
  Silent fw fw' = fw'.signal_pending ≡ fw.signal_pending

module _ {R : Type 0} ⦃fl : Floats⦄ ⦃g : Rng R⦄ where
  enter_state-Silent :
      (fw : Framework R) (mi : ℕ) (rt : MachineRuntime) (k : ℕ)
      → Ensures (Silent fw) (enter_state fw mi rt k)
  unfolding enter_state
  enter_state-Silent fw mi rt k = elim (Bool-cases (rt.current_state == k)) [
    | inl e ↦ rw e refl
    | inr e ↦ rw e (
        Ensures-after (Silent fw) (index fw.machines mi) _ λ m em.
          Ensures-after (Silent fw) (index m.states k) _
            λ st es. Ensures-after (Silent fw) (limit_of st.action fw.rng) _ λ r er. refl)
  ]

  update_counter_a-Silent :
      (fw : Framework R) (mi : ℕ) (rt : MachineRuntime) (o : Option Counter)
      → Ensures (λ r. Silent fw r.1) (update_counter_a fw mi rt o)
  unfolding update_counter_a
  update_counter_a-Silent fw mi rt none = refl
  update_counter_a-Silent fw mi rt (some c) =
      Ensures-after (λ r. Silent fw r.1) (change_of c rt.counter_b fw.rng) _ λ r e. refl

  update_counter_b-Silent :
      (fw : Framework R) (mi : ℕ) (rt : MachineRuntime) (old : ℕ) (o : Option Counter)
      → Ensures (λ r. Silent fw r.1) (update_counter_b fw mi rt old o)
  unfolding update_counter_b
  update_counter_b-Silent fw mi rt old none = refl
  update_counter_b-Silent fw mi rt old (some c) =
      Ensures-after (λ r. Silent fw r.1) (change_of c old fw.rng) _ λ r e. refl

  schedule_if-Silent :
      (fw : Framework R) (mi k : ℕ) (b : Bool)
      → Ensures (Silent fw) (if b then schedule_action fw mi k else ok fw)
  unfolding schedule_action set_action
  schedule_if-Silent fw mi k false = refl
  schedule_if-Silent fw mi k true = Ensures-after (Silent fw) (index fw.machines mi) _ λ m em.
      Ensures-after (Silent fw) (index m.states k) _ λ st es.
        Ensures-after (Silent fw) (to_trigger mi st.action fw.rng) _
          λ r er. Ensures-after (Silent fw) (index fw.actions mi) _ λ a ea. refl

  abbrev RecSignals : ℕ → (Framework R → ℕ → Event → Outcome (StateChange × Framework R)) → Type 0
  RecSignals mi rec =
      (fw : Framework R) (event : Event) → Ensures (λ r. Signals mi fw r.1) (rec fw mi event)

  update_counter-Signals :
      (mi : ℕ) (rec : Framework R → ℕ → Event → Outcome (StateChange × Framework R))
      (fw : Framework R)
      → RecSignals mi rec
      → Ensures (λ r. Signals mi fw r.1) (update_counter rec fw mi)
  unfolding update_counter counters_zeroed
  update_counter-Signals mi rec fw rs =
      let Q : (Bool × Bool) × Framework R → Type 0 = λ r. Signals mi fw r.1 in
      Ensures-after Q (index fw.machines mi) _ λ m em.
        Ensures-after Q (index fw.runtime mi) _ λ rt er.
          Ensures-after Q (index m.states rt.current_state) _ λ st es.
            Ensures-bind (λ r. Silent fw r.1) Q (update_counter_a fw mi rt st.counter.0) _
              (update_counter_a-Silent fw mi rt st.counter.0)
              λ a ea sa. Ensures-after Q (index a.1.runtime mi) _ λ rt1 er1.
                Ensures-bind (λ r. Silent a.1 r.1) Q
                  (update_counter_b a.1 mi rt1 rt.counter_a st.counter.1) _
                  (update_counter_b-Silent a.1 mi rt1 rt.counter_a st.counter.1)
                  λ b eb sb.
                    Ensures-mono (λ r. Signals mi b.1 r.1) Q
                      (counters_zeroed rec b.1 mi (a.0 || b.0))
                      (λ r h. subst (λ p. SignalStep mi p r.1.signal_pending) (sb ∙ sa) h)
                      (zeroed b.1 (a.0 || b.0))
    where
      zeroed :
          (fw : Framework R) (z : Bool)
          → Ensures (λ r. Signals mi fw r.1) (counters_zeroed rec fw mi z)
      zeroed fw false = inl refl
      zeroed fw true =
          Ensures-bind (λ r. Signals mi fw r.1) (λ r. Signals mi fw r.1)
            (rec fw mi Event.counter_zero) _ (rs fw Event.counter_zero)
            λ r e h. Ensures-after (λ r. Signals mi fw r.1) (index r.1.actions mi) _ λ a ea. h

  move_to-Signals :
      (mi : ℕ) (rec : Framework R → ℕ → Event → Outcome (StateChange × Framework R))
      (fw : Framework R) (rt : MachineRuntime) (k : ℕ)
      → RecSignals mi rec
      → Ensures (λ r. Signals mi fw r.1) (move_to rec fw mi rt k)
  unfolding move_to
  move_to-Signals mi rec fw rt k rs =
      let Q : StateChange × Framework R → Type 0 = λ r. Signals mi fw r.1 in
      Ensures-bind (Silent fw) Q (enter_state fw mi rt k) _ (enter_state-Silent fw mi rt k)
        λ fw1 e1 s1. Ensures-after Q (index fw1.machines mi) _ λ m em.
          Ensures-after Q (index fw1.runtime mi) _ λ rt1 er.
            Ensures-after Q (below_action_limits fw1 rt1 m) _ λ below eb.
              Ensures-bind (λ r. Signals mi fw1 r.1) Q (update_counter rec fw1 mi) _
                (update_counter-Signals mi rec fw1 rs)
                λ r2 e2 s2.
                  Ensures-bind (Silent r2.1) Q
                    (if r2.0.0 && below then schedule_action r2.1 mi k else ok r2.1) _
                    (schedule_if-Silent r2.1 mi k (r2.0.0 && below))
                    λ fw3 e3 s3. Ensures-after Q (index fw3.runtime mi) _ λ rt3 er3.
                      subst (λ p. SignalStep mi p fw3.signal_pending) s1
                        (subst (SignalStep mi fw1.signal_pending) (sym s3) s2)

  transition_step-Signals :
      (mi : ℕ) (rec : Framework R → ℕ → Event → Outcome (StateChange × Framework R))
      → RecSignals mi rec
      → RecSignals mi (transition_step rec)
  unfolding transition_step act_on
  transition_step-Signals mi rec rs fw event =
      let Q : StateChange × Framework R → Type 0 = λ r. Signals mi fw r.1 in
      Ensures-after Q (index fw.runtime mi) _ λ rt er.
        elim (Bool-cases (rt.current_state == state_end)) [
          | inl e ↦ rw e (inl refl)
          | inr e ↦ rw e (
              Ensures-after Q (index fw.machines mi) _ λ m em.
                Ensures-after Q (index m.states rt.current_state) _ λ st es.
                  Ensures-after Q (sample_state st event fw.rng) _
                    λ x ex. act (record fw { rng = x.1 }) rt x.0)
        ]
    where
      act :
          (fw : Framework R) (rt : MachineRuntime) (o : Option ℕ)
          → Ensures (λ r. Signals mi fw r.1) (act_on rec fw mi rt o)
      act fw rt none = inl refl
      act fw rt (some k) = elim (Bool-cases (k == state_end)) [
        | inl e ↦ rw e (inl refl)
        | inr e ↦ rw e (elim (Bool-cases (k == state_signal)) [
          | inl e' ↦ rw e' (inr refl)
          | inr e' ↦ rw e' (move_to-Signals mi rec fw rt k rs)
        ])
      ]

  nested_transition-Signals : (mi d : ℕ) → RecSignals mi (nested_transition d)
  unfolding nested_transition
  nested_transition-Signals mi zero fw event = tt
  nested_transition-Signals mi (suc d) fw event =
      transition_step-Signals mi (nested_transition d) (nested_transition-Signals mi d) fw event

  -- Nothing is pending, or a signal of one machine to the others.
  abbrev pub AtMostOne : Framework R → Type 0
  AtMostOne fw =
      (fw.signal_pending ≡ none)
      ⊎ ((k : ℕ) × (fw.signal_pending ≡ some (SignalTarget.all_except k)))

  signal_excluded-AtMostOne :
      (excluded : Option ℕ) (again : Option SignalTarget) (fw : Framework R)
      → fw.signal_pending ≡ none
      → Ensures AtMostOne (signal_excluded excluded again fw)
  unfolding signal_excluded notify transition
  signal_excluded-AtMostOne none none fw e = inl e
  signal_excluded-AtMostOne none (some t) fw e = inl e
  signal_excluded-AtMostOne (some k) none fw e = inl e
  signal_excluded-AtMostOne (some k) (some t) fw e =
      Ensures-bind (λ r. Signals k fw r.1) AtMostOne (nested_transition 3 fw k Event.signal) _
        (nested_transition-Signals k 3 fw Event.signal)
        λ r er s. elim s [
          | inl same ↦ inl (same ∙ e)
          | inr signals ↦ inr (k, signals ∙ ap (signal_from k) e)
        ]

  send_signal-AtMostOne :
      (pending : Option SignalTarget) (fw : Framework R)
      → fw.signal_pending ≡ pending
      → Ensures AtMostOne (send_signal pending fw)
  unfolding send_signal
  send_signal-AtMostOne none fw e = inl e
  send_signal-AtMostOne (some target) fw e =
      Ensures-after AtMostOne
        (for_all_machines (signal_one (excluded_by target)) (record fw { signal_pending = none })) _
        λ fw' e'.
          signal_excluded-AtMostOne (excluded_by target) fw'.signal_pending
            (record fw' { signal_pending = none }) refl

  trigger_events-AtMostOne :
      (fw : Framework R) (es : List TriggerEvent) (now : ℕ)
      → Ensures (λ r. AtMostOne r.1) (trigger_events fw es now)
  unfolding trigger_events run_events
  trigger_events-AtMostOne fw es now =
      Ensures-bind AtMostOne (λ r. AtMostOne r.1) (run_events fw es now) _
        (Ensures-after AtMostOne (process_events (reset fw now) es) _
          λ fw1 e. send_signal-AtMostOne fw1.signal_pending fw1 refl)
        λ fw' e h. h

  -- After `trigger_events` in a valid framework, however many machines signalled, no signal to all
  -- machines is pending: either none is, or that of a single machine to the others.
  pub trigger_events_signals :
      (fw : Framework R) (es : List TriggerEvent) (now : ℕ)
      → IsValid fw
      → Returns (λ r. AtMostOne r.1) (trigger_events fw es now)
  trigger_events_signals fw es now v =
      Returns-Ensures (λ r. IsValid r.1) (λ r. AtMostOne r.1) (trigger_events fw es now)
        (trigger_events-IsValid fw es now v) (trigger_events-AtMostOne fw es now)
