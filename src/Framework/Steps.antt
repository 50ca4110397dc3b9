-- ===== src/Framework/Steps.antt =====
-- crates/maybenot/src/framework.rs: the functions that `transition` calls return, and stay local.
use maybenot.Prelude.{
  ℕ, suc, ◌<◌, ◌≤◌, ◌≡◌, refl, ◌∙◌, ap, inl, inr, Bool, true, false, ◌||◌, Option, none, some,
  Outcome, ok, Returns, Returns-bind, Returns-mono, index, index-set_self, length, All-index,
  Bool-cases, ==_iff, ◌==◌, arith,
}
use maybenot.Constants.{u64_mod}
use maybenot.Platform.{Floats, Rng}
use maybenot.Event.{Event}
use maybenot.Action.{Action, TriggerAction, sample_timeout, sample_duration}
use maybenot.Action.Bounds.{
  day, sample_timeout-Returns, sample_duration-Returns, sample_limit-Returns,
}
use maybenot.State.Targets.{SoundState, ActionOk}
use maybenot.Machine.{Machine}
use maybenot.Machine.Sound.{IsSound}
use maybenot.Framework.Types.{MachineRuntime, StateChange, Framework, set_action}
use maybenot.Framework.Transition.{
  update_counter_a, update_counter_b, counters_zeroed, update_counter, to_trigger, schedule_action,
  limit_of, enter_state,
}
use maybenot.Framework.Rows.{IsFor, IsLive, IsValid}
use maybenot.Framework.Updates.{Updated, update_counter_a-Returns, update_counter_b-Returns}
use maybenot.Framework.Local.{
  unset_flags, Local, Local-refl, Local-trans, row_of, Local-edit, Local-action,
}

module _ ⦃fl : Floats⦄ where
  -- The state of a sound machine.
  pub state_of :
      (m : Machine) (k : ℕ)
      → IsSound m
      → k < length m.states
      → Returns (SoundState (length m.states)) (index m.states k)
  state_of m k s lt = All-index (SoundState (length m.states)) m.states k s.states lt

module _ {R : Type 0} ⦃fl : Floats⦄ ⦃g : Rng R⦄ where
  to_trigger-Returns :
      (mi : ℕ) (o : Option Action) (rng : R)
      → ActionOk o
      → Returns (λ r. IsFor mi r.0) (to_trigger mi o rng)
  unfolding to_trigger
  to_trigger-Returns mi none rng h = tt
  to_trigger-Returns mi (some (Action.cancel timer)) rng h = refl
  to_trigger-Returns mi (some (Action.send_padding b r t l)) rng h =
      Returns-bind (λ x. x.0 ≤ day) (λ x. IsFor mi x.0)
        (sample_timeout (Action.send_padding b r t l) rng) _
        (sample_timeout-Returns (Action.send_padding b r t l) rng h) λ x e le. (refl, omega arith)
  to_trigger-Returns mi (some (Action.block_outgoing b r t d l)) rng h =
      Returns-bind (λ x. x.0 ≤ day) (λ x. IsFor mi x.0)
        (sample_timeout (Action.block_outgoing b r t d l) rng) _
        (sample_timeout-Returns (Action.block_outgoing b r t d l) rng h)
        λ x e le.
          Returns-bind (λ y. y.0 ≤ day) (λ y. IsFor mi y.0)
            (sample_duration (Action.block_outgoing b r t d l) x.1) _
            (sample_duration-Returns (Action.block_outgoing b r t d l) x.1 h)
            λ y e' le'. (refl, omega arith, omega arith)
  to_trigger-Returns mi (some (Action.update_timer r d l)) rng h =
      Returns-bind (λ x. x.0 ≤ day) (λ x. IsFor mi x.0)
        (sample_duration (Action.update_timer r d l) rng) _
        (sample_duration-Returns (Action.update_timer r d l) rng h) λ x e le. (refl, omega arith)

  pub set_action-Local :
      (fw : Framework R) (mi : ℕ) (rng : R) (action : Option TriggerAction)
      → IsValid fw
      → mi < length fw.runtime
      → IsFor mi action
      → Returns (Local mi fw) (set_action (record fw { rng = rng }) mi action)
  unfolding set_action
  set_action-Local fw mi rng action v lt o =
      let r = row_of fw mi v lt in rw r.at_action (Local-action mi fw rng action v o)

  pub schedule_action-Local :
      (fw : Framework R) (mi k : ℕ) (m : Machine)
      → IsValid fw
      → mi < length fw.runtime
      → index fw.machines mi ≡ ok m
      → IsSound m
      → k < length m.states
      → Returns (Local mi fw) (schedule_action fw mi k)
  unfolding schedule_action
  schedule_action-Local fw mi k m v lt em sound klt = rw em (
      Returns-bind (SoundState (length m.states)) (Local mi fw) (index m.states k) _
        (state_of m k sound klt)
        λ st e ok_st.
          Returns-bind (λ r. IsFor mi r.0) (Local mi fw) (to_trigger mi st.action fw.rng) _
            (to_trigger-Returns mi st.action fw.rng ok_st.action)
            λ r e' own. set_action-Local fw mi r.1 r.0 v lt own)

  limit_of-Returns :
      (o : Option Action) (rng : R) → ActionOk o → Returns (λ r. r.0 < u64_mod) (limit_of o rng)
  limit_of-Returns none rng h = omega arith
  limit_of-Returns (some a) rng h = sample_limit-Returns a rng h

  -- What is known of the machine for which a call is made.
  pub record Here (fw : Framework R) (mi : ℕ) (m : Machine) (rt : MachineRuntime) : Type 0 where
    pub valid : IsValid fw
    pub in_bounds : mi < length fw.runtime
    pub at_machine : index fw.machines mi ≡ ok m
    pub at_runtime : index fw.runtime mi ≡ ok rt
    pub sound : IsSound m
    pub live : IsLive m rt

  -- The machine is in state `k`.
  abbrev pub InState : ℕ → ℕ → Framework R → Type 0
  InState mi k fw = (rt : MachineRuntime) → index fw.runtime mi ≡ ok rt → rt.current_state ≡ k

  pub enter_state-Local :
      (fw : Framework R) (mi : ℕ) (m : Machine) (rt : MachineRuntime) (k : ℕ)
      → Here fw mi m rt
      → k < length m.states
      → Returns (λ fw'. Local mi fw fw' × InState mi k fw') (enter_state fw mi rt k)
  unfolding enter_state
  enter_state-Local fw mi m rt k here klt = elim (Bool-cases (rt.current_state == k)) [
    | inl e ↦
        let at = here.at_runtime in
        let same = (==_iff rt.current_state k).0 e in
        rw e (Local-refl mi fw here.valid, λ rt' at'. cc)
    | inr e ↦
        rw (e, here.at_machine)
          (Returns-bind (SoundState (length m.states)) (λ fw'. Local mi fw fw' × InState mi k fw')
            (index m.states k) _ (state_of m k here.sound klt)
            λ st e1 ok_st.
              Returns-bind (λ r. r.0 < u64_mod) (λ fw'. Local mi fw fw' × InState mi k fw')
                (limit_of st.action fw.rng) _ (limit_of-Returns st.action fw.rng ok_st.action)
                λ r e2 lim.
                  let new : MachineRuntime = record rt { current_state = k; state_limit = r.0 } in
                  (
                    Local-edit mi fw m rt new r.1 fw.counter_zeroed_once here.valid here.at_machine
                        here.at_runtime refl
                        (record {
                          in_range = inl klt;
                          limit = lim;
                          counter_a = here.live.counter_a;
                          counter_b = here.live.counter_b;
                        })
                        (omega arith),
                    λ rt' at'.
                        let self = index-set_self fw.runtime mi new here.at_runtime in ground arith,
                  ))
  ]

  -- After local calls the machine is still there.
  pub Here-again :
      (fw fw' : Framework R) (mi : ℕ) (m : Machine) (rt : MachineRuntime)
      → Here fw mi m rt
      → Local mi fw fw'
      → (rt' : MachineRuntime) × Here fw' mi m rt'
  Here-again fw fw' mi m rt here l =
      let r = row_of fw' mi l.valid (omega (arith, l.count, here.in_bounds)) in
      let at : index fw'.machines mi ≡ ok m =
        ap (λ x. index x.machines mi) l.accounts ∙ here.at_machine in
      let e = r.at_machine in
      let same : r.m ≡ m = cc in
      (
        r.rt,
        record {
          valid = l.valid;
          in_bounds = omega (arith, l.count, here.in_bounds);
          at_machine = at;
          at_runtime = r.at_runtime;
          sound = here.sound;
          live = rw same at r.row.live;
        },
      )

  -- What is asked of the recursive call: it is local where fewer than `d` flags are clear.
  abbrev pub RecLocal :
      (Framework R → ℕ → Event → Outcome (StateChange × Framework R)) → ℕ → ℕ → Type 0
  RecLocal rec mi d =
      (fw : Framework R)
      → IsValid fw
      → mi < length fw.runtime
      → unset_flags fw.counter_zeroed_once < d
      → (event : Event) → Returns (λ r. Local mi fw r.1) (rec fw mi event)

  counters_zeroed-Local :
      (rec : Framework R → ℕ → Event → Outcome (StateChange × Framework R)) (fw : Framework R)
      (mi d : ℕ) (zeroed : Bool)
      → RecLocal rec mi d
      → IsValid fw
      → mi < length fw.runtime
      → (zeroed ≡ true → unset_flags fw.counter_zeroed_once < d)
      → Returns (λ r. Local mi fw r.1) (counters_zeroed rec fw mi zeroed)
  unfolding counters_zeroed
  counters_zeroed-Local rec fw mi d false rl v lt fuel = Local-refl mi fw v
  counters_zeroed-Local rec fw mi d true rl v lt fuel =
      Returns-bind (λ r. Local mi fw r.1) (λ r. Local mi fw r.1) (rec fw mi Event.counter_zero) _
        (rl fw v lt (fuel refl) Event.counter_zero)
        λ r e l. let row = row_of r.1 mi l.valid (omega (arith, l.count)) in rw row.at_action l

  pub update_counter-Local :
      (rec : Framework R → ℕ → Event → Outcome (StateChange × Framework R)) (fw : Framework R)
      (mi d : ℕ) (m : Machine) (rt : MachineRuntime)
      → RecLocal rec mi d
      → Here fw mi m rt
      → rt.current_state < length m.states
      → unset_flags fw.counter_zeroed_once < suc d
      → Returns (λ r. Local mi fw r.1) (update_counter rec fw mi)
  unfolding update_counter
  update_counter-Local rec fw mi d m rt rl here klt fuel =
      rw (here.at_machine, here.at_runtime)
        (Returns-bind (SoundState (length m.states)) (λ r. Local mi fw r.1)
          (index m.states rt.current_state) _ (state_of m rt.current_state here.sound klt)
          λ st e ok_st.
            Returns-bind (Updated mi fw) (λ r. Local mi fw r.1)
              (update_counter_a fw mi rt st.counter.0) _
              (update_counter_a-Returns fw mi m rt st.counter.0 here.valid here.at_machine
                here.at_runtime here.live ok_st.counter_a)
              λ a ea ua.
                let (rt1, here1) = Here-again fw a.1 mi m rt here ua.0 in
                rw here1.at_runtime (
                  Returns-bind (Updated mi a.1) (λ r. Local mi fw r.1)
                    (update_counter_b a.1 mi rt1 rt.counter_a st.counter.1) _
                    (update_counter_b-Returns a.1 mi m rt1 rt.counter_a st.counter.1 here1.valid
                      here1.at_machine here1.at_runtime here1.live here.live.counter_a
                      ok_st.counter_b)
                    λ b eb ub.
                      let l = Local-trans mi fw a.1 b.1 ua.0 ub.0 in
                      let f = ua.0.flags in
                      let f' = ub.0.flags in
                      let sa = ua.1 in
                      let sb = ub.1 in
                      Returns-mono (λ r. Local mi b.1 r.1) (λ r. Local mi fw r.1)
                        (counters_zeroed rec b.1 mi (a.0 || b.0))
                        (λ r lr. Local-trans mi fw b.1 r.1 l lr)
                        (counters_zeroed-Local rec b.1 mi d (a.0 || b.0) rl l.valid
                          (omega (arith, l.count, here.in_bounds)) (λ z. ground arith))))
