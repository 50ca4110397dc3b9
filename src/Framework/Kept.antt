-- ===== src/Framework/Kept.antt =====
-- crates/maybenot/src/framework.rs: what `transition` and `decrement_limit` keep, a machine that has
-- ended among it.
use maybenot.Prelude.{
  ℕ, ◌-◌, ◌<◌, ◌≡◌, refl, ◌∙◌, sym, ap, ◌≢◌, inl, inr, Bool, not, ◌&&◌, Option, none, some, ok,
  Returns, Returns-bind, Returns-mono, Returns-ok, index, length, Bool-cases, ==_iff, ◌==◌,
  if◌then◌else◌, arith,
}
use maybenot.Constants.{state_end}
use maybenot.Platform.{Floats, Rng}
use maybenot.Event.{Event}
use maybenot.Action.{Action, has_limit}
use maybenot.State.Targets.{SoundState}
use maybenot.Machine.{Machine}
use maybenot.Framework.Types.{MachineRuntime, unchanged, Framework, set_runtime, set_action}
use maybenot.Framework.Transition.{
  transition_step, nested_transition, transition, limit_reached, decrement_limit, is_changed,
}
use maybenot.Framework.Events.{notify, notify_limited}
use maybenot.Framework.Rows.{IsValid}
use maybenot.Framework.Local.{Local, Local-refl, Local-trans, row_of, Local-edit}
use maybenot.Framework.Steps.{Here, state_of, set_action-Local}
use maybenot.Framework.Moves.{transition-Local}

module _ {R : Type 0} where
  -- The machine has ended, and no action is scheduled for it.
  pub record IsQuiet (j : ℕ) (fw : Framework R) : Type 0 where
    pub rt : MachineRuntime
    pub at_runtime : index fw.runtime j ≡ ok rt
    pub ended : rt.current_state ≡ state_end
    pub no_action : index fw.actions j ≡ ok none

module _ {R : Type 0} ⦃fl : Floats⦄ ⦃g : Rng R⦄ where
  -- A machine in the end state makes no transition: nothing at all changes.
  pub transition_ended :
      (fw : Framework R) (mi : ℕ) (event : Event) {rt : MachineRuntime}
      → index fw.runtime mi ≡ ok rt
      → rt.current_state ≡ state_end
      → transition fw mi event ≡ ok (unchanged, fw)
  unfolding transition nested_transition transition_step
  transition_ended fw mi event {rt} at ended =
      rw (at) (rw ((==_iff rt.current_state state_end).1 ended) refl)

  pub Local-IsQuiet :
      (mi j : ℕ) (fw fw' : Framework R) → Local mi fw fw' → j ≢ mi → IsQuiet j fw → IsQuiet j fw'
  Local-IsQuiet mi j fw fw' l ne q = record {
    rt = q.rt;
    at_runtime = l.runtime_others j ne ∙ q.at_runtime;
    ended = q.ended;
    no_action = l.actions_others j ne ∙ q.no_action;
  }

  -- A local call that also leaves every quiet machine quiet.
  pub record Kept (mi : ℕ) (fw fw' : Framework R) : Type 0 where
    pub here : Local mi fw fw'
    pub quiet : (j : ℕ) → IsQuiet j fw → IsQuiet j fw'

  IsQuiet-cases :
      (mi j : ℕ) (fw fw' : Framework R)
      → Local mi fw fw'
      → (IsQuiet mi fw → IsQuiet mi fw')
      → IsQuiet j fw
      → IsQuiet j fw'
  IsQuiet-cases mi j fw fw' l self q = elim (Bool-cases (j == mi)) [
    | inl e ↦ let e' : j ≡ mi = ground arith in rw e' (self (rw e' at q))
    | inr e ↦ Local-IsQuiet mi j fw fw' l (λ e'. ground arith) q
  ]

  pub transition-Kept :
      (fw : Framework R) (mi : ℕ) (event : Event)
      → IsValid fw
      → mi < length fw.runtime
      → Returns (λ r. Kept mi fw r.1) (transition fw mi event)
  transition-Kept fw mi event v lt =
      let (r, e, l) =
        Returns-ok (λ r. Local mi fw r.1) (transition fw mi event)
          (transition-Local fw mi event v lt) in
      rw e (record {
        here = l;
        quiet = λ j q.
            IsQuiet-cases mi j fw r.1 l
              (λ self.
                let ended = transition_ended fw mi event self.at_runtime self.ended in
                let same : r.1 ≡ fw = ground arith in rw same self)
              q;
      })

  pub Kept-refl : (mi : ℕ) (fw : Framework R) → IsValid fw → Kept mi fw fw
  Kept-refl mi fw v = record { here = Local-refl mi fw v; quiet = λ j q. q }

  pub Kept-trans :
      (mi : ℕ) (fw fw1 fw2 : Framework R) → Kept mi fw fw1 → Kept mi fw1 fw2 → Kept mi fw fw2
  Kept-trans mi fw fw1 fw2 a b = record {
    here = Local-trans mi fw fw1 fw2 a.here b.here;
    quiet = λ j q. b.quiet j (a.quiet j q);
  }

  limit_reached-Local :
      (fw : Framework R) (mi limit : ℕ) (o : Option Action)
      → IsValid fw
      → mi < length fw.runtime
      → Returns (Local mi fw) (limit_reached fw mi limit o)
  unfolding limit_reached
  limit_reached-Local fw mi limit none v lt = Local-refl mi fw v
  limit_reached-Local fw mi limit (some action) v lt =
      elim (Bool-cases (limit == 0 && has_limit action)) [
        | inl e ↦ rw e (
            Returns-bind (Local mi fw) (Local mi fw) (set_action fw mi none) _
              (set_action-Local fw mi fw.rng none v lt tt)
              λ fw1 e1 l1.
                Returns-bind (λ r. Local mi fw1 r.1) (Local mi fw)
                  (transition fw1 mi Event.limit_reached) _
                  (transition-Local fw1 mi Event.limit_reached l1.valid (omega (arith, l1.count)))
                  λ r e2 l2. Local-trans mi fw fw1 r.1 l1 l2)
        | inr e ↦ rw e (Local-refl mi fw v)
      ]

  decrement_limit-Local :
      (fw : Framework R) (mi : ℕ) (m : Machine) (rt : MachineRuntime)
      → Here fw mi m rt
      → rt.current_state < length m.states
      → Returns (Local mi fw) (decrement_limit fw mi)
  unfolding decrement_limit
  decrement_limit-Local fw mi m rt here klt =
      rw (here.at_runtime, here.at_machine)
        (Returns-bind (SoundState (length m.states)) (Local mi fw) (index m.states rt.current_state)
          _ (state_of m rt.current_state here.sound klt)
          λ st e ok_st.
            let new : MachineRuntime = record rt { state_limit = rt.state_limit - 1 } in
            let l =
              Local-edit mi fw m rt new fw.rng fw.counter_zeroed_once here.valid here.at_machine
                here.at_runtime refl
                (record {
                  in_range = here.live.in_range;
                  limit = omega (arith, here.live.limit);
                  counter_a = here.live.counter_a;
                  counter_b = here.live.counter_b;
                })
                (omega arith) in
            Returns-mono (Local mi (set_runtime fw mi new)) (Local mi fw)
              (limit_reached (set_runtime fw mi new) mi new.state_limit st.action)
              (λ fw' l'. Local-trans mi fw (set_runtime fw mi new) fw' l l')
              (limit_reached-Local (set_runtime fw mi new) mi new.state_limit st.action l.valid
                (omega (arith, l.count, here.in_bounds))))

  -- The limit is decremented for a machine that has not ended, so no quiet machine is concerned.
  pub decrement_limit-Kept :
      (fw : Framework R) (mi : ℕ) {rt : MachineRuntime}
      → IsValid fw
      → mi < length fw.runtime
      → index fw.runtime mi ≡ ok rt
      → rt.current_state ≢ state_end
      → Returns (Kept mi fw) (decrement_limit fw mi)
  decrement_limit-Kept fw mi {rt} v lt at going =
      let r = row_of fw mi v lt in
      let at' = r.at_runtime in
      let same : r.rt ≡ rt = cc in
      let going' : r.rt.current_state ≢ state_end = rw same going in
      let klt : r.rt.current_state < length r.m.states = omega (arith, r.row.live.in_range) in
      Returns-mono (Local mi fw) (Kept mi fw) (decrement_limit fw mi)
        (λ fw' l. record {
          here = l;
          quiet = λ j q.
              IsQuiet-cases mi j fw fw' l
                (λ self.
                  let at'' = self.at_runtime in
                  let e = self.ended in
                  let same' : self.rt ≡ r.rt = cc in
                  absurd (going' (ap (λ x. x.current_state) (sym same') ∙ e)))
                q;
        })
        (decrement_limit-Local fw mi r.m r.rt
          (record {
            valid = v;
            in_bounds = lt;
            at_machine = r.at_machine;
            at_runtime = r.at_runtime;
            sound = r.row.sound;
            live = r.row.live;
          })
          klt)

  pub notify-Kept :
      (event : Event) (fw : Framework R) (mi : ℕ)
      → IsValid fw
      → mi < length fw.runtime
      → Returns (Kept mi fw) (notify event fw mi)
  unfolding notify
  notify-Kept event fw mi v lt =
      Returns-bind (λ r. Kept mi fw r.1) (Kept mi fw) (transition fw mi event) _
        (transition-Kept fw mi event v lt) λ r e k. k

  decrement_if-Kept :
      (fw : Framework R) (mi : ℕ) {rt : MachineRuntime} (quick mine : Bool)
      → IsValid fw
      → mi < length fw.runtime
      → index fw.runtime mi ≡ ok rt
      → Returns (Kept mi fw) (
          if quick && not (rt.current_state == state_end) && mine
          then decrement_limit fw mi
          else ok fw)
  decrement_if-Kept fw mi {rt} quick mine v lt at =
      elim (Bool-cases (quick && not (rt.current_state == state_end) && mine)) [
        | inl e ↦ rw e (decrement_limit-Kept fw mi {rt = rt} v lt at (λ ended. ground arith))
        | inr e ↦ rw e (Kept-refl mi fw v)
      ]

  pub notify_limited-Kept :
      (event : Event) (mine : Bool) (fw : Framework R) (mi : ℕ)
      → IsValid fw
      → mi < length fw.runtime
      → Returns (Kept mi fw) (notify_limited event mine fw mi)
  unfolding notify_limited
  notify_limited-Kept event mine fw mi v lt =
      Returns-bind (λ r. Kept mi fw r.1) (Kept mi fw) (transition fw mi event) _
        (transition-Kept fw mi event v lt)
        λ r e k.
          let lt' : mi < length r.1.runtime = omega (arith, k.here.count) in
          let row = row_of r.1 mi k.here.valid lt' in
          rw row.at_runtime (
            Returns-mono (Kept mi r.1) (Kept mi fw) _ (λ fw' k'. Kept-trans mi fw r.1 fw' k k')
              (decrement_if-Kept r.1 mi {rt = row.rt} (not (is_changed r.0)) mine k.here.valid lt'
                row.at_runtime))
