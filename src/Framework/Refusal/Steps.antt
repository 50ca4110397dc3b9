-- ===== src/Framework/Refusal/Steps.antt =====
-- crates/maybenot/src/framework.rs: what the limits refuse, `transition` does not schedule.
use maybenot.Prelude.{
  ℕ, zero, suc, ◌<◌, ◌≡◌, refl, ◌∙◌, sym, ap, subst, inl, inr, Bool, true, false, ◌&&◌, ◌||◌,
  Option, none, some, ok, Outcome, Returns, Returns-Ensures, Ensures, Ensures-bind, Ensures-after,
  Ensures-mono, index, length, if◌then◌else◌, ◌==◌, Bool-cases, arith,
}
use maybenot.Constants.{state_end, state_signal}
use maybenot.Platform.{Floats, Rng}
use maybenot.Event.{Event}
use maybenot.State.{State, sample_state}
use maybenot.Machine.{Machine}
use maybenot.Framework.Types.{MachineRuntime, StateChange, Framework}
use maybenot.Framework.Limits.{below_limits_of, below_action_limits}
use maybenot.Framework.Transition.{
  update_counter_a, update_counter_b, counters_zeroed, update_counter, schedule_action, enter_state,
  move_to, act_on, transition_step, nested_transition, transition,
}
use maybenot.Framework.Ledger.{Ledger, ledger}
use maybenot.Framework.Rows.{IsValid}
use maybenot.Framework.Local.{Local}
use maybenot.Framework.Moves.{transition-Local}
use maybenot.Framework.Refusal.{
  Kind, has_kind, NoNew, StateOther, Refuses, Refused, Refused-trans, schedule_action-Refused,
  enter_state-Refused, update_counter_a-Refused, update_counter_b-Refused, edit-Refused,
}

module _ {R : Type 0} ⦃fl : Floats⦄ ⦃g : Rng R⦄ where
  -- What is asked of the recursive call.
  abbrev RecRefused :
      Kind → ℕ → Ledger → (Framework R → ℕ → Event → Outcome (StateChange × Framework R)) → Type 0
  RecRefused kind mi l rec =
      (fw : Framework R) (event : Event)
      → ledger fw ≡ l
      → Ensures (λ r. Refused kind mi fw r.1) (rec fw mi event)

  counters_zeroed-Refused :
      (kind : Kind) (mi : ℕ) (l : Ledger)
      (rec : Framework R → ℕ → Event → Outcome (StateChange × Framework R)) (fw : Framework R)
      (zeroed : Bool)
      → RecRefused kind mi l rec
      → ledger fw ≡ l
      → Ensures (λ r. Refused kind mi fw r.1) (counters_zeroed rec fw mi zeroed)
  unfolding counters_zeroed
  counters_zeroed-Refused kind mi l rec fw false rr same = (refl, inl refl)
  counters_zeroed-Refused kind mi l rec fw true rr same =
      Ensures-bind (λ r. Refused kind mi fw r.1) (λ r. Refused kind mi fw r.1)
        (rec fw mi Event.counter_zero) _ (rr fw Event.counter_zero same)
        λ r e h. Ensures-after (λ r. Refused kind mi fw r.1) (index r.1.actions mi) _ λ a ea. h

  update_counter-Refused :
      (kind : Kind) (mi : ℕ) (l : Ledger)
      (rec : Framework R → ℕ → Event → Outcome (StateChange × Framework R)) (fw : Framework R)
      → RecRefused kind mi l rec
      → ledger fw ≡ l
      → Ensures (λ r. Refused kind mi fw r.1) (update_counter rec fw mi)
  unfolding update_counter
  update_counter-Refused kind mi l rec fw rr same =
      let Q : (Bool × Bool) × Framework R → Type 0 = λ r. Refused kind mi fw r.1 in
      Ensures-after Q (index fw.machines mi) _ λ m em.
        Ensures-after Q (index fw.runtime mi) _ λ rt er.
          Ensures-after Q (index m.states rt.current_state) _ λ st es.
            Ensures-bind (λ r. Refused kind mi fw r.1) Q (update_counter_a fw mi rt st.counter.0) _
              (update_counter_a-Refused kind fw mi rt st.counter.0 er)
              λ a ea ra. Ensures-after Q (index a.1.runtime mi) _ λ rt1 er1.
                Ensures-bind (λ r. Refused kind mi a.1 r.1) Q
                  (update_counter_b a.1 mi rt1 rt.counter_a st.counter.1) _
                  (update_counter_b-Refused kind a.1 mi rt1 rt.counter_a st.counter.1 er1)
                  λ b eb rb.
                    let ab = Refused-trans kind mi fw a.1 b.1 ra rb in
                    Ensures-mono (λ r. Refused kind mi b.1 r.1) Q
                      (counters_zeroed rec b.1 mi (a.0 || b.0))
                      (λ r h. Refused-trans kind mi fw b.1 r.1 ab h)
                      (counters_zeroed-Refused kind mi l rec b.1 (a.0 || b.0) rr (ab.0 ∙ same))

  -- Below the limits, the state of a machine that is refused the kind has an action of another kind.
  below-StateOther :
      (kind : Kind) (mi : ℕ) (fw : Framework R) (m : Machine) (rt : MachineRuntime) (st : State)
      → Refuses R kind mi (ledger fw)
      → index fw.machines mi ≡ ok m
      → index fw.runtime mi ≡ ok rt
      → below_limits_of fw rt m st st.action ≡ true
      → StateOther kind st
  below-StateOther kind mi fw m rt st refuses em er below a ea =
      elim (Bool-cases (has_kind kind a)) [
        | inl of_kind ↦
            let over = refuses fw m rt st a refl em er ea of_kind in
            let at : below_limits_of fw rt m st (some a) ≡ true =
              subst (λ o. below_limits_of fw rt m st o ≡ true) ea below in
            absurd (ground arith)
        | inr other ↦ other
      ]

  schedule_if-Refused :
      (kind : Kind) (mi k : ℕ) (fw : Framework R) (b : Bool)
      → (b ≡ true
          → (m : Machine) (st : State) → index fw.machines mi ≡ ok m
          → index m.states k ≡ ok st
          → StateOther kind st)
      → Ensures (Refused kind mi fw) (if b then schedule_action fw mi k else ok fw)
  schedule_if-Refused kind mi k fw true h = schedule_action-Refused kind mi k fw (h refl)
  schedule_if-Refused kind mi k fw false h = (refl, inl refl)

  below_action_limits-StateOther :
      (kind : Kind) (mi k : ℕ) (fw : Framework R) (m : Machine) (rt : MachineRuntime)
      → Refuses R kind mi (ledger fw)
      → index fw.machines mi ≡ ok m
      → index fw.runtime mi ≡ ok rt
      → rt.current_state ≡ k
      → Ensures
          (λ b. b ≡ true → (st : State) → index m.states k ≡ ok st → StateOther kind st)
          (below_action_limits fw rt m)
  unfolding below_action_limits
  below_action_limits-StateOther kind mi k fw m rt refuses em er in_k =
      Ensures-after _ (index m.states rt.current_state) _ λ st es below st' es'.
        let e : index m.states k ≡ ok st = rw in_k at es in
        let same : st ≡ st' = cc in
        rw same at (below-StateOther kind mi fw m rt st refuses em er below)

  move_to-Refused :
      (kind : Kind) (mi : ℕ) (l : Ledger)
      (rec : Framework R → ℕ → Event → Outcome (StateChange × Framework R)) (fw : Framework R)
      (rt : MachineRuntime) (k : ℕ)
      → Refuses R kind mi l
      → RecRefused kind mi l rec
      → ledger fw ≡ l
      → index fw.runtime mi ≡ ok rt
      → Ensures (λ r. Refused kind mi fw r.1) (move_to rec fw mi rt k)
  unfolding move_to
  move_to-Refused kind mi l rec fw rt k refuses rr same at =
      let Q : StateChange × Framework R → Type 0 = λ r. Refused kind mi fw r.1 in
      Ensures-bind _ Q (enter_state fw mi rt k) _ (enter_state-Refused kind fw mi k rt at)
        λ fw1 e1 (h1, in_k).
          let same1 : ledger fw1 ≡ l = h1.0 ∙ same in
          Ensures-after Q (index fw1.machines mi) _ λ m em.
            Ensures-after Q (index fw1.runtime mi) _ λ rt1 er.
              Ensures-bind _ Q (below_action_limits fw1 rt1 m) _
                (below_action_limits-StateOther kind mi k fw1 m rt1
                  (subst (Refuses R kind mi) (sym same1) refuses) em er (in_k rt1 er))
                λ below e2 other.
                  Ensures-bind (λ r. Refused kind mi fw1 r.1) Q (update_counter rec fw1 mi) _
                    (update_counter-Refused kind mi l rec fw1 rr same1)
                    λ r2 e3 h2.
                      let machines : r2.1.machines ≡ fw1.machines = ap (λ x. x.machines) h2.0 in
                      Ensures-bind (Refused kind mi r2.1) Q
                        (if r2.0.0 && below then schedule_action r2.1 mi k else ok r2.1) _
                        (schedule_if-Refused kind mi k r2.1 (r2.0.0 && below) (λ b m' st em' es.
                          let there : index fw1.machines mi ≡ ok m' = rw machines at em' in
                          let same_m : m' ≡ m = cc in
                          other (and_true r2.0.0 below b) st (rw same_m at es)))
                        λ fw3 e4 h3. Ensures-after Q (index fw3.runtime mi) _ λ rt3 er3.
                          Refused-trans kind mi fw fw1 fw3 h1
                            (Refused-trans kind mi fw1 r2.1 fw3 h2 h3)
    where
      and_true : (a b : Bool) → (a && b) ≡ true → b ≡ true
      and_true a b h = ground arith

  act_on-Refused :
      (kind : Kind) (mi : ℕ) (l : Ledger)
      (rec : Framework R → ℕ → Event → Outcome (StateChange × Framework R)) (fw : Framework R)
      (rt : MachineRuntime) (next : Option ℕ)
      → Refuses R kind mi l
      → RecRefused kind mi l rec
      → ledger fw ≡ l
      → index fw.runtime mi ≡ ok rt
      → Ensures (λ r. Refused kind mi fw r.1) (act_on rec fw mi rt next)
  unfolding act_on
  act_on-Refused kind mi l rec fw rt none refuses rr same at = (refl, inl refl)
  act_on-Refused kind mi l rec fw rt (some k) refuses rr same at =
      elim (Bool-cases (k == state_end)) [
        | inl e ↦ rw e (
            edit-Refused kind mi fw rt (record rt { current_state = state_end }) fw.rng
              fw.counter_zeroed_once at refl)
        | inr e ↦ rw e (elim (Bool-cases (k == state_signal)) [
          | inl e' ↦ rw e' (refl, inl refl)
          | inr e' ↦ rw e' (move_to-Refused kind mi l rec fw rt k refuses rr same at)
        ])
      ]

  transition_step-Refused :
      (kind : Kind) (mi : ℕ) (l : Ledger)
      (rec : Framework R → ℕ → Event → Outcome (StateChange × Framework R))
      → Refuses R kind mi l
      → RecRefused kind mi l rec
      → RecRefused kind mi l (transition_step rec)
  unfolding transition_step
  transition_step-Refused kind mi l rec refuses rr fw event same =
      let Q : StateChange × Framework R → Type 0 = λ r. Refused kind mi fw r.1 in
      Ensures-after Q (index fw.runtime mi) _ λ rt at.
        elim (Bool-cases (rt.current_state == state_end)) [
          | inl e ↦ rw e (refl, inl refl)
          | inr e ↦ rw e (
              Ensures-after Q (index fw.machines mi) _ λ m em.
                Ensures-after Q (index m.states rt.current_state) _ λ st es.
                  Ensures-after Q (sample_state st event fw.rng) _ λ x ex.
                    act_on-Refused kind mi l rec (record fw { rng = x.1 }) rt x.0 refuses rr same
                      at)
        ]

  nested_transition-Refused :
      (kind : Kind) (mi : ℕ) (l : Ledger) (d : ℕ)
      → Refuses R kind mi l
      → RecRefused kind mi l (nested_transition d)
  unfolding nested_transition
  nested_transition-Refused kind mi l zero refuses fw event same = tt
  nested_transition-Refused kind mi l (suc d) refuses fw event same =
      transition_step-Refused kind mi l (nested_transition d) refuses
        (nested_transition-Refused kind mi l d refuses) fw event same

  -- A transition of a machine that is refused a kind of action schedules none of it.
  pub transition-Refused :
      (kind : Kind) (fw : Framework R) (mi : ℕ) (event : Event)
      → IsValid fw
      → mi < length fw.runtime
      → Refuses R kind mi (ledger fw)
      → Returns (λ r. NoNew kind mi fw.actions r.1.actions) (transition fw mi event)
  unfolding transition
  transition-Refused kind fw mi event v lt refuses =
      Returns-Ensures (λ r. Local mi fw r.1) (λ r. NoNew kind mi fw.actions r.1.actions)
        (transition fw mi event) (transition-Local fw mi event v lt)
        (Ensures-mono (λ r. Refused kind mi fw r.1) (λ r. NoNew kind mi fw.actions r.1.actions)
          (transition fw mi event) (λ r h. h.1)
          (nested_transition-Refused kind mi (ledger fw) 3 refuses fw event refl))
