-- ===== src/Simulator/Update/Safe.antt =====
-- crates/maybenot-simulator/src/lib.rs: `trigger_update` does not panic.
use maybenot.Prelude.{
  false, ℕ, suc, ◌+◌, ◌<◌, ◌≡◌, refl, sym, ap, ◌∙◌, Bool, Option, some, List, [], ◌∷◌, length,
  index, ok, ◌>>=◌, ◌||◌, ltb, if-both, Returns, Returns-bind, arith,
}
use maybenot.Platform.{Floats, Rng}
use maybenot.Action.{TriggerAction}
use maybenot.Event.{MachineId, TriggerEvent}
use maybenot.Framework.Types.{Framework}
use maybenot.Framework.Events.{trigger_events}
use maybenot.Framework.Actions.{machine_of, OnePerMachine}
use maybenot.Framework.Rows.{IsValid}
use maybenot.Framework.Safety.{trigger_events-Sound}
use maybenot.Simulator.Event.{SimEvent}
use maybenot.Simulator.Queue.{Heap, SimQueue, push_sim}
use maybenot.Simulator.Queue.Sided.{IsSided, push_sim-IsSided}
use maybenot.Simulator.Peek.{ScheduledAction}
use maybenot.Simulator.Integration.{Thread, trigger_delay}
use maybenot.Simulator.Network.{unwrap_or}
use maybenot.Simulator.Sim.{SimState}
use maybenot.Simulator.Slots.{plain_event}
use maybenot.Simulator.Slots.Found.{InSlots, IsTimed}
use maybenot.Simulator.Slots.Actions.{Answers}
use maybenot.Simulator.Update.Slotted.{
  index-Returns, Slotted, set_scheduled-Slotted, set_timer-Slotted, cancel-Slotted,
}
use maybenot.Simulator.Update.{
  set_scheduled, set_timer, cancel, update_timer, apply_action, apply_actions, trigger_update,
}

module _ {H R : Type 0} ⦃heap : Heap H⦄ where
  abbrev Updated : ℕ → SimState R → SimState R × SimQueue H → Type 0
  Updated n state0 r = Slotted n state0 r.0 × IsSided r.1

  update_timer-Updated :
      (n : ℕ) (state0 state : SimState R) (sq : SimQueue H) (now : ℕ) (is_client : Bool)
      (duration : ℕ) (replace : Bool) (machine : MachineId)
      → machine < n
      → Updated n state0 (state, sq)
      → Returns (Updated n state0) (update_timer state sq now is_client duration replace machine)
  unfolding update_timer
  update_timer-Updated n state0 state sq now is_client duration replace machine lt h =
      Returns-bind (λ timer. Unit {0}) (Updated n state0)
        (index state.scheduled_internal_timer machine) _
        (index-Returns state.scheduled_internal_timer machine (omega (arith, h.0.timers, lt)))
        λ timer et u.
          if-both (Returns (Updated n state0))
            (replace || ltb (unwrap_or timer now) (now + duration))
            (do
              state' ← set_timer state machine (some (now + duration))
              ok (
                state',
                push_sim sq (plain_event (TriggerEvent.timer_begin machine) now 0 is_client false),
              ))
            (ok (state, sq))
            (λ b.
              Returns-bind (Slotted n state0) (Updated n state0)
                (set_timer state machine (some (now + duration))) _
                (set_timer-Slotted n state0 state machine (some (now + duration)) lt h.0)
                λ state' es k. (
                  k,
                  push_sim-IsSided sq
                      (plain_event (TriggerEvent.timer_begin machine) now 0 is_client false)
                      (omega arith) h.1,
                ))
            (λ b. h)

  apply_action-Updated :
      (n : ℕ) (state0 state : SimState R) (sq : SimQueue H) (now delay : ℕ) (is_client : Bool)
      (action : TriggerAction)
      → machine_of action < n
      → Updated n state0 (state, sq)
      → Returns (Updated n state0) (apply_action state sq now delay is_client action)
  unfolding apply_action
  apply_action-Updated n state0 state sq now delay is_client (TriggerAction.cancel machine timer) lt
        h =
      Returns-bind (Slotted n state0) (Updated n state0) (cancel state machine timer) _
        (cancel-Slotted n state0 state machine timer lt h.0) λ s es k. (k, h.1)
  apply_action-Updated n state0 state sq now delay is_client
        (TriggerAction.send_padding timeout bypass replace machine) lt h =
      let slot : Option ScheduledAction = some (record {
        action = TriggerAction.send_padding timeout bypass replace machine;
        time = now + timeout + delay;
      }) in
      Returns-bind (Slotted n state0) (Updated n state0) (set_scheduled state machine slot) _
        (set_scheduled-Slotted n state0 state machine slot lt tt h.0) λ s es k. (k, h.1)
  apply_action-Updated n state0 state sq now delay is_client
        (TriggerAction.block_outgoing timeout duration bypass replace machine) lt h =
      let slot : Option ScheduledAction = some (record {
        action = TriggerAction.block_outgoing timeout duration bypass replace machine;
        time = now + timeout + delay;
      }) in
      Returns-bind (Slotted n state0) (Updated n state0) (set_scheduled state machine slot) _
        (set_scheduled-Slotted n state0 state machine slot lt tt h.0) λ s es k. (k, h.1)
  apply_action-Updated n state0 state sq now delay is_client
        (TriggerAction.update_timer duration replace machine) lt h =
      update_timer-Updated n state0 state sq now is_client duration replace machine lt h

  apply_actions-Updated :
      (n k : ℕ) (state0 state : SimState R) (sq : SimQueue H) (now delay : ℕ) (is_client : Bool)
      (actions : List TriggerAction)
      → OnePerMachine k n actions
      → Updated n state0 (state, sq)
      → Returns (Updated n state0) (apply_actions state sq now delay is_client actions)
  unfolding apply_actions
  apply_actions-Updated n k state0 state sq now delay is_client [] one h = h
  apply_actions-Updated n k state0 state sq now delay is_client (action ∷ rest) one h =
      Returns-bind (Updated n state0) (Updated n state0)
        (apply_action state sq now delay is_client action) _
        (apply_action-Updated n state0 state sq now delay is_client action one.1 h)
        λ r er h'.
          apply_actions-Updated n (suc (machine_of action)) state0 r.0 r.1 now delay is_client rest
            one.3 h'

-- The framework is valid, there is a slot of each kind for each machine, only padding and blocking are
-- scheduled, and the delays of the integration can be drawn.
pub record IsSound {R : Type 0} (T : Type 0) ⦃fl : Floats⦄ ⦃th : Thread T⦄ (state : SimState R)
    : Type 0 where
  pub valid : IsValid state.framework
  pub actions : length state.scheduled_action ≡ length state.framework.runtime
  pub timers : length state.scheduled_internal_timer ≡ length state.framework.runtime
  pub timed : InSlots IsTimed state.scheduled_action
  pub answers : Answers T state.integration

module _ {H R T : Type 0} ⦃heap : Heap H⦄ ⦃fl : Floats⦄ ⦃g : Rng R⦄ ⦃th : Thread T⦄ where
  -- In a sound state `trigger_update` does not panic, whatever the event and the draws: every action of
  -- the framework is for a machine that has its slots. The state is sound after it, and the queues hold
  -- events of their side.
  pub trigger_update-IsSound :
      (state : SimState R) (next : SimEvent) (now : ℕ) (sq : SimQueue H) (is_client : Bool)
      (thread : T)
      → IsSound T state
      → IsSided sq
      → Returns
          (λ r. IsSound T r.0 × IsSided r.1)
          (trigger_update state next now sq is_client thread)
  unfolding trigger_update
  trigger_update-IsSound state next now sq is_client thread h sided =
      Returns-bind (λ r. Unit {0}) (λ r. IsSound T r.0 × IsSided r.1)
        (trigger_delay state.integration thread) _ (h.answers.trigger thread)
        λ d ed u.
          Returns-bind _ (λ r. IsSound T r.0 × IsSided r.1)
            (trigger_events state.framework (next.event ∷ []) now) _
            (trigger_events-Sound state.framework (next.event ∷ []) now h.valid)
            λ f ef k.
              let state' : SimState R = record state { framework = f.1 } in
              let n = length state.framework.runtime in
              Returns-bind (Updated n state') (λ r. IsSound T r.0 × IsSided r.1)
                (apply_actions state' sq now d.0 is_client f.0) _
                (apply_actions-Updated n 0 state' state' sq now d.0 is_client f.0 k.0 (
                  record {
                    actions = h.actions;
                    timers = h.timers;
                    timed = h.timed;
                    framework = refl;
                    integration = refl;
                  },
                  sided,
                ))
                λ r er q.
                  let s = q.0 in
                  let count : length r.0.framework.runtime ≡ n =
                    ap (λ (fw : Framework R). length fw.runtime) s.framework ∙ k.2 in
                  (
                    record {
                      valid = rw s.framework k.1;
                      actions = s.actions ∙ sym count;
                      timers = s.timers ∙ sym count;
                      timed = s.timed;
                      answers = rw s.integration h.answers;
                    },
                    q.1,
                  )
