-- ===== src/Framework/Transition.antt =====
-- crates/maybenot/src/framework.rs: `transition`, `update_counter`, `schedule_action` and
-- `decrement_limit`. `transition` and `update_counter` call each other; each function here that
-- stands between them takes the call of `transition` as its argument `rec`.
use maybenot.Prelude.{
  ℕ, zero, suc, ◌+◌, ◌-◌, min, Bool, true, false, not, ◌&&◌, ◌||◌, Option, none, some, Outcome, ok,
  unfinished, ◌>>=◌, index, ◌==◌, if◌then◌else◌,
}
use maybenot.Constants.{state_end, state_signal, state_limit_max}
use maybenot.Platform.{Floats, Rng}
use maybenot.Time.{from_micros}
use maybenot.Event.{Event}
use maybenot.Action.{
  Action, TriggerAction, has_limit, sample_timeout, sample_duration, sample_limit,
}
use maybenot.Counter.{Operation, Counter, sample_value}
use maybenot.State.{sample_state}
use maybenot.Framework.Types.{
  MachineRuntime, StateChange, changed, unchanged, SignalTarget, Framework, set_runtime, set_action,
}
use maybenot.Framework.Limits.{below_action_limits}

abbrev pub is_none {ℓ} : {A : Type ℓ} → Option A → Bool
is_none none = true
is_none (some a) = false

abbrev pub is_changed : StateChange → Bool
is_changed changed = true
is_changed unchanged = false

-- `saturating_add` stops at `u64::MAX`, `saturating_sub` at 0.
unfoldable pub apply_operation : Operation → ℕ → ℕ → ℕ
apply_operation Operation.increment value change = min (value + change) state_limit_max
apply_operation Operation.decrement value change = value - change
apply_operation Operation.set value change = change

abbrev pub signal_from : ℕ → Option SignalTarget → Option SignalTarget
signal_from mi none = some (SignalTarget.all_except mi)
signal_from mi (some target) = some SignalTarget.all

module _ {R : Type 0} ⦃fl : Floats⦄ ⦃g : Rng R⦄ where
  -- The change of a counter: the other counter's old value, or a sample.
  abbrev pub change_of : Counter → ℕ → R → Outcome (ℕ × R)
  change_of c other rng = if c.copy then ok (other, rng) else sample_value c rng

  -- The two halves of `update_counter`: whether the counter was zeroed, and the state after.
  unfoldable pub update_counter_a :
      Framework R → ℕ → MachineRuntime → Option Counter → Outcome (Bool × Framework R)
  update_counter_a fw mi rt none = ok (false, fw)
  update_counter_a fw mi rt (some c) = do
    (change, rng) ← change_of c rt.counter_b fw.rng
    let updated = apply_operation c.operation rt.counter_a change
    let zeroed = not (rt.counter_a == 0) && updated == 0 && not fw.counter_zeroed_once.0
    ok (
      zeroed,
      record fw {
        rng = rng;
        runtime = (set_runtime fw mi (record rt { counter_a = updated })).runtime;
        counter_zeroed_once = (zeroed || fw.counter_zeroed_once.0, fw.counter_zeroed_once.1);
      },
    )

  -- `rt` is the runtime after the first half, `old_a` the value of counter A before it.
  unfoldable pub update_counter_b :
      Framework R → ℕ → MachineRuntime → ℕ → Option Counter → Outcome (Bool × Framework R)
  update_counter_b fw mi rt old_a none = ok (false, fw)
  update_counter_b fw mi rt old_a (some c) = do
    (change, rng) ← change_of c old_a fw.rng
    let updated = apply_operation c.operation rt.counter_b change
    let zeroed = not (rt.counter_b == 0) && updated == 0 && not fw.counter_zeroed_once.1
    ok (
      zeroed,
      record fw {
        rng = rng;
        runtime = (set_runtime fw mi (record rt { counter_b = updated })).runtime;
        counter_zeroed_once = (fw.counter_zeroed_once.0, zeroed || fw.counter_zeroed_once.1);
      },
    )

  -- The end of `update_counter`.
  unfoldable pub counters_zeroed :
      (Framework R → ℕ → Event → Outcome (StateChange × Framework R))
      → Framework R
      → ℕ
      → Bool
      → Outcome ((Bool × Bool) × Framework R)
  counters_zeroed rec fw mi true = do
    (change, fw') ← rec fw mi Event.counter_zero
    action ← index fw'.actions mi
    ok ((is_none action, is_changed change), fw')
  counters_zeroed rec fw mi false = ok ((true, false), fw)

  unfoldable pub update_counter :
      (Framework R → ℕ → Event → Outcome (StateChange × Framework R))
      → Framework R
      → ℕ
      → Outcome ((Bool × Bool) × Framework R)
  update_counter rec fw mi = do
    machine ← index fw.machines mi
    rt ← index fw.runtime mi
    state ← index machine.states rt.current_state
    (zeroed_a, fw1) ← update_counter_a fw mi rt state.counter.0
    rt1 ← index fw1.runtime mi
    (zeroed_b, fw2) ← update_counter_b fw1 mi rt1 rt.counter_a state.counter.1
    counters_zeroed rec fw2 mi (zeroed_a || zeroed_b)

  -- The action that `schedule_action` puts in the machine's slot.
  unfoldable pub to_trigger : ℕ → Option Action → R → Outcome (Option TriggerAction × R)
  to_trigger mi none rng = ok (none, rng)
  to_trigger mi (some (Action.cancel timer)) rng = ok (some (TriggerAction.cancel mi timer), rng)
  to_trigger mi (some (Action.send_padding bypass replace t l)) rng = do
    (timeout, rng') ← sample_timeout (Action.send_padding bypass replace t l) rng
    ok (some (TriggerAction.send_padding (from_micros timeout) bypass replace mi), rng')
  to_trigger mi (some (Action.block_outgoing bypass replace t d l)) rng = do
    (timeout, rng1) ← sample_timeout (Action.block_outgoing bypass replace t d l) rng
    (duration, rng2) ← sample_duration (Action.block_outgoing bypass replace t d l) rng1
    ok (
      some (
          TriggerAction.block_outgoing (from_micros timeout) (from_micros duration) bypass replace
            mi),
      rng2,
    )
  to_trigger mi (some (Action.update_timer replace d l)) rng = do
    (duration, rng') ← sample_duration (Action.update_timer replace d l) rng
    ok (some (TriggerAction.update_timer (from_micros duration) replace mi), rng')

  unfoldable pub schedule_action : Framework R → ℕ → ℕ → Outcome (Framework R)
  schedule_action fw mi state = do
    machine ← index fw.machines mi
    st ← index machine.states state
    (action, rng) ← to_trigger mi st.action fw.rng
    set_action (record fw { rng = rng }) mi action

  -- The limit that a state gives when it is entered.
  abbrev pub limit_of : Option Action → R → Outcome (ℕ × R)
  limit_of none rng = ok (state_limit_max, rng)
  limit_of (some action) rng = sample_limit action rng

  -- The third arm of `transition`, up to the update of the counters.
  unfoldable pub enter_state : Framework R → ℕ → MachineRuntime → ℕ → Outcome (Framework R)
  enter_state fw mi rt next_state = if rt.current_state == next_state then ok fw else (do
    machine ← index fw.machines mi
    st ← index machine.states next_state
    (limit, rng) ← limit_of st.action fw.rng
    ok (record fw {
      rng = rng;
      runtime =
          (set_runtime fw mi
            (record rt { current_state = next_state; state_limit = limit })).runtime;
    }))

  -- The third arm of `transition`.
  unfoldable pub move_to :
      (Framework R → ℕ → Event → Outcome (StateChange × Framework R))
      → Framework R
      → ℕ
      → MachineRuntime
      → ℕ
      → Outcome (StateChange × Framework R)
  move_to rec fw mi rt next_state = do
    fw1 ← enter_state fw mi rt next_state
    machine ← index fw1.machines mi
    rt1 ← index fw1.runtime mi
    below_limits ← below_action_limits fw1 rt1 machine
    (verdict, fw2) ← update_counter rec fw1 mi
    fw3 ← if verdict.0 && below_limits then schedule_action fw2 mi next_state else ok fw2
    rt3 ← index fw3.runtime mi
    ok (if rt.current_state == rt3.current_state && not verdict.1 then unchanged else changed, fw3)

  -- `transition` once the next state is sampled.
  unfoldable pub act_on :
      (Framework R → ℕ → Event → Outcome (StateChange × Framework R))
      → Framework R
      → ℕ
      → MachineRuntime
      → Option ℕ
      → Outcome (StateChange × Framework R)
  act_on rec fw mi rt none = ok (unchanged, fw)
  act_on rec fw mi rt (some next_state) =
      if next_state == state_end
      then ok (changed, set_runtime fw mi (record rt { current_state = state_end }))
      else (if next_state == state_signal
          then ok (unchanged, record fw { signal_pending = signal_from mi fw.signal_pending })
          else move_to rec fw mi rt next_state)

  -- `transition`, with its recursive call as an argument.
  unfoldable pub transition_step :
      (Framework R → ℕ → Event → Outcome (StateChange × Framework R))
      → Framework R
      → ℕ
      → Event
      → Outcome (StateChange × Framework R)
  transition_step rec fw mi event = do
    rt ← index fw.runtime mi
    if rt.current_state == state_end then ok (unchanged, fw) else (do
      machine ← index fw.machines mi
      state ← index machine.states rt.current_state
      (next_state, rng) ← sample_state state event fw.rng
      act_on rec (record fw { rng = rng }) mi rt next_state)

  -- The first argument bounds how deep the calls of `transition` may nest.
  unfoldable pub nested_transition :
      ℕ → Framework R → ℕ → Event → Outcome (StateChange × Framework R)
  nested_transition zero fw mi event = unfinished
  nested_transition (suc depth) fw mi event = transition_step (nested_transition depth) fw mi event

  -- Each nested call sets one of two flags, so three levels are enough.
  unfoldable pub transition : Framework R → ℕ → Event → Outcome (StateChange × Framework R)
  transition fw mi event = nested_transition 3 fw mi event

  -- `decrement_limit` once the limit is decremented.
  unfoldable pub limit_reached : Framework R → ℕ → ℕ → Option Action → Outcome (Framework R)
  limit_reached fw mi limit none = ok fw
  limit_reached fw mi limit (some action) =
      if limit == 0 && has_limit action
      then (do
        fw1 ← set_action fw mi none
        (_, fw2) ← transition fw1 mi Event.limit_reached
        ok fw2)
      else ok fw

  -- The state limit is decremented unless it is 0: `-` stops there.
  unfoldable pub decrement_limit : Framework R → ℕ → Outcome (Framework R)
  decrement_limit fw mi = do
    rt ← index fw.runtime mi
    let limit = rt.state_limit - 1
    machine ← index fw.machines mi
    state ← index machine.states rt.current_state
    limit_reached (set_runtime fw mi (record rt { state_limit = limit })) mi limit state.action
