-- ===== src/Simulator/Update.antt =====
-- crates/maybenot-simulator/src/lib.rs: `trigger_update`.
pub mod Slotted
pub mod Safe
use maybenot.Prelude.{
  ℕ, ◌+◌, Bool, false, ◌||◌, Option, none, some, List, [], ◌∷◌, index, Outcome, ok, ◌>>=◌, ltb,
  if◌then◌else◌,
}
use maybenot.Platform.{Floats, Rng}
use maybenot.Action.{TriggerAction, Timer}
use maybenot.Event.{MachineId, TriggerEvent}
use maybenot.Framework.Events.{trigger_events}
use maybenot.Simulator.Event.{SimEvent}
use maybenot.Simulator.Queue.{Heap, SimQueue, push_sim}
use maybenot.Simulator.Peek.{ScheduledAction}
use maybenot.Simulator.Integration.{Thread, trigger_delay}
use maybenot.Simulator.Network.{unwrap_or}
use maybenot.Simulator.Sim.{SimState, write}
use maybenot.Simulator.Slots.{plain_event}

module _ {R : Type 0} where
  abbrev pub set_scheduled : SimState R → MachineId → Option ScheduledAction → Outcome (SimState R)
  set_scheduled state machine slot = do
    slots ← write state.scheduled_action machine slot
    ok (record state { scheduled_action = slots })

  abbrev pub set_timer : SimState R → MachineId → Option ℕ → Outcome (SimState R)
  set_timer state machine slot = do
    slots ← write state.scheduled_internal_timer machine slot
    ok (record state { scheduled_internal_timer = slots })

  unfoldable pub cancel : SimState R → MachineId → Timer → Outcome (SimState R)
  unfolding write
  cancel state machine Timer.action = set_scheduled state machine none
  cancel state machine Timer.internal = set_timer state machine none
  cancel state machine Timer.all = do
    state' ← set_scheduled state machine none
    set_timer state' machine none

module _ {H R : Type 0} ⦃heap : Heap H⦄ where
  -- The arm of `UpdateTimer`.
  unfoldable pub update_timer :
      SimState R → SimQueue H → ℕ → Bool → ℕ → Bool → MachineId → Outcome (SimState R × SimQueue H)
  unfolding write
  update_timer state sq now is_client duration replace machine = do
    timer ← index state.scheduled_internal_timer machine
    if replace || ltb (unwrap_or timer now) (now + duration)
        then (do
          state' ← set_timer state machine (some (now + duration))
          ok (
            state',
            push_sim sq (plain_event (TriggerEvent.timer_begin machine) now 0 is_client false),
          ))
        else ok (state, sq)

  unfoldable pub apply_action :
      SimState R → SimQueue H → ℕ → ℕ → Bool → TriggerAction → Outcome (SimState R × SimQueue H)
  unfolding cancel update_timer
  apply_action state sq now delay is_client (TriggerAction.cancel machine timer) = do
    state' ← cancel state machine timer
    ok (state', sq)
  apply_action state sq now delay is_client
        (TriggerAction.send_padding timeout bypass replace machine) =
      do
        state' ← set_scheduled state machine (
            some (record {
              action = TriggerAction.send_padding timeout bypass replace machine;
              time = now + timeout + delay;
            }))
        ok (state', sq)
  apply_action state sq now delay is_client
        (TriggerAction.block_outgoing timeout duration bypass replace machine) =
      do
        state' ← set_scheduled state machine (
            some (record {
              action = TriggerAction.block_outgoing timeout duration bypass replace machine;
              time = now + timeout + delay;
            }))
        ok (state', sq)
  apply_action state sq now delay is_client (TriggerAction.update_timer duration replace machine) =
      update_timer state sq now is_client duration replace machine

  -- The loop over the actions.
  unfoldable pub apply_actions :
      SimState R
      → SimQueue H
      → ℕ
      → ℕ
      → Bool
      → List TriggerAction
      → Outcome (SimState R × SimQueue H)
  unfolding apply_action
  apply_actions state sq now delay is_client [] = ok (state, sq)
  apply_actions state sq now delay is_client (action ∷ rest) = do
    (state', sq') ← apply_action state sq now delay is_client action
    apply_actions state' sq' now delay is_client rest

module _ {H R T : Type 0} ⦃heap : Heap H⦄ ⦃fl : Floats⦄ ⦃g : Rng R⦄ ⦃th : Thread T⦄ where
  unfoldable pub trigger_update :
      SimState R → SimEvent → ℕ → SimQueue H → Bool → T → Outcome (SimState R × SimQueue H × T)
  unfolding apply_actions
  trigger_update state next now sq is_client thread = do
    (delay, thread') ← trigger_delay state.integration thread
    (actions, fw) ← trigger_events state.framework (next.event ∷ []) now
    (state', sq') ← apply_actions (record state { framework = fw }) sq now delay is_client actions
    ok (state', sq', thread')
