-- ===== src/Tests/Behaviour.antt =====
-- What the framework does in a concrete run.
use maybenot.Prelude.{ℕ, ◌≡◌, refl, false, List, [], ◌∷◌, ok, Outcome, ◌>>=◌}
use maybenot.Event.{TriggerEvent}
use maybenot.Action.{TriggerAction}
use maybenot.Framework.Types.{Framework}
use maybenot.Action
use maybenot.Counter
use maybenot.Dist.Sample
use maybenot.Event
use maybenot.Framework.Limits
use maybenot.Framework.Transition
use maybenot.Framework.Types
use maybenot.State
use maybenot.Framework.Events.{trigger_events}
use maybenot.Tests.Fixture.{flat, counting}
use maybenot.Tests.Runs.{started}

abbrev actions_of : Outcome (List TriggerAction × Framework ℕ) → Outcome (List TriggerAction)
actions_of r = r >>= λ (actions, fw). ok actions

-- A normal packet moves the machine to its second state, which pads after 5 microseconds.
first_action :
    actions_of (trigger_events started (TriggerEvent.normal_sent ∷ []) 2000)
    ≡ ok (TriggerAction.send_padding 5000 false false 0 ∷ [])
unfolding trigger_events maybenot.Framework.Events.process_event
    maybenot.Framework.Events.for_machines maybenot.Framework.Events.on_normal_sent
    maybenot.Framework.Events.notify maybenot.Framework.Events.notify_limited
    maybenot.Framework.Events.on_padding_sent maybenot.Framework.Events.present
    maybenot.Framework.Events.process_events maybenot.Framework.Events.run_events
    maybenot.Framework.Events.send_signal maybenot.Prelude.index
    maybenot.Framework.Transition.transition maybenot.Framework.Transition.nested_transition
    maybenot.Framework.Transition.transition_step maybenot.Framework.Transition.act_on
    maybenot.Framework.Transition.move_to maybenot.Framework.Transition.enter_state
    maybenot.Framework.Transition.update_counter maybenot.Framework.Transition.counters_zeroed
    maybenot.Framework.Transition.update_counter_a maybenot.Framework.Transition.update_counter_b
    maybenot.Framework.Transition.apply_operation maybenot.Framework.Transition.schedule_action
    maybenot.Framework.Transition.to_trigger maybenot.Framework.Transition.decrement_limit
    maybenot.Framework.Transition.limit_reached maybenot.Framework.Limits.below_action_limits
    maybenot.Framework.Limits.below_limits_of maybenot.Framework.Limits.below_limit_padding
    maybenot.Framework.Types.set_action maybenot.State.sample_state maybenot.State.sample_slot
    maybenot.State.pick maybenot.Event.to_usize maybenot.Action.sample_limit
    maybenot.Action.sample_timeout maybenot.Action.has_limit maybenot.Dist.Sample.sample
    maybenot.Dist.Sample.dist_sample maybenot.Counter.sample_value
first_action = refl
