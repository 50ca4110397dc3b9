-- ===== src/Tests/Histories.antt =====
-- The theorems on histories and on single transitions, each at a concrete input.
use maybenot.Prelude.{ℕ, ◌+◌, ◌≡◌, refl, inl, inr, arith, List, [], ◌∷◌, Returns, index}
use maybenot.Platform.{zero64}
use maybenot.Event.{Event, TriggerEvent}
use maybenot.State.{Trans, new, get_transitions}
use maybenot.State.RoundTrip.{get_transitions-new}
use maybenot.Framework.Types.{Framework, MachineRuntime}
use maybenot.Framework.Create.{start_runtime}
use maybenot.Framework.Transition.{nested_transition, transition, update_counter}
use maybenot.Framework.Rows.{IsValid}
use maybenot.Framework.Counters.{stay, HasCounters, update_counter-counters_after}
use maybenot.Framework.Events.{trigger_events}
use maybenot.Framework.Signals.{AtMostOne, trigger_events_signals}
use maybenot.Framework.Depth.{nested_transition-transition}
use maybenot.Framework.Bookkeeping.{Counted, run_calls-Counted}
use maybenot.Framework.Start.{run_calls}
use maybenot.Framework.Refusal.{Kind, NoNew}
use maybenot.Framework.Refusal.Limits.{transition-PaddingOver, transition-BlockingOver}
use maybenot.Tests.Fixture.{flat, counting, pad_once, padding, draws}
use maybenot.Tests.Runs.{started, new-started, started-IsValid}

abbrev two_calls : List (List TriggerEvent × ℕ)
two_calls =
    (TriggerEvent.normal_sent ∷ TriggerEvent.normal_sent ∷ [], 2000)
    ∷ (TriggerEvent.padding_sent 0 ∷ [], 8000)
    ∷ []

run_calls-Counted_example : Returns (Counted two_calls) (run_calls started two_calls)
run_calls-Counted_example =
    run_calls-Counted (pad_once ∷ []) zero64 zero64 1000 0 started two_calls draws new-started

nested_transition-transition_example :
    nested_transition (2 + 3) started 0 Event.normal_sent ≡ transition started 0 Event.normal_sent
nested_transition-transition_example =
    nested_transition-transition 2 started 0 Event.normal_sent started-IsValid (omega arith)

abbrev to_one : Event → List Trans
to_one Event.padding_sent = (1, 0x3f80_0000) ∷ []
to_one _ = []

get_transitions-new_example :
    get_transitions (new to_one) Event.padding_sent ≡ (1, 0x3f80_0000) ∷ []
get_transitions-new_example = get_transitions-new to_one Event.padding_sent

-- A framework whose machine has sent three packets, all of them padding.
abbrev padded : MachineRuntime
padded = record (start_runtime 1000 pad_once) { padding_sent = 3 }

abbrev all_padding : Framework ℕ
all_padding = record started {
  runtime = padded ∷ [];
  padding_sent_packets = 3;
  max_padding_frac = 1;
}

all_padding-IsValid : IsValid all_padding
all_padding-IsValid = (
  (
    record {
      sound = started-IsValid.0.0.sound;
      live = record {
        in_range = inl (omega arith);
        limit = omega arith;
        counter_a = omega arith;
        counter_b = omega arith;
      };
      action_for = tt;
    },
    tt,
  ),
  tt,
)

transition-PaddingOver_example :
    Returns
      (λ r. NoNew Kind.pads 0 all_padding.actions r.1.actions)
      (transition all_padding 0 Event.normal_sent)
unfolding index
transition-PaddingOver_example =
    transition-PaddingOver all_padding 0 Event.normal_sent pad_once padded all_padding-IsValid refl
      refl (omega arith, inr (inl refl, (refl, refl, refl)))

-- A framework that was blocked all the time.
abbrev all_blocked : Framework ℕ
all_blocked = record started { current_time = 1500; blocking_duration = 500; max_blocking_frac = 1 }

transition-BlockingOver_example :
    Returns
      (λ r. NoNew Kind.blocks 0 all_blocked.actions r.1.actions)
      (transition all_blocked 0 Event.normal_sent)
unfolding index
transition-BlockingOver_example =
    transition-BlockingOver all_blocked 0 Event.normal_sent pad_once (start_runtime 1000 pad_once)
      started-IsValid refl refl (refl, omega arith, inr (refl, refl))

-- The machine in its second state, which sets counter A.
abbrev second_state : MachineRuntime
second_state = record (start_runtime 1000 pad_once) { current_state = 1; counter_b = 7 }

abbrev in_second : Framework ℕ
in_second = record started { runtime = second_state ∷ [] }

in_second-IsValid : IsValid in_second
in_second-IsValid = (
  (
    record {
      sound = started-IsValid.0.0.sound;
      live = record {
        in_range = inl (omega arith);
        limit = omega arith;
        counter_a = omega arith;
        counter_b = omega arith;
      };
      action_for = tt;
    },
    tt,
  ),
  tt,
)

update_counter-counters_after_example :
    Returns (λ r. HasCounters 0 padding second_state 0 r.1) (update_counter stay in_second 0)
unfolding index
update_counter-counters_after_example =
    update_counter-counters_after in_second 0 pad_once second_state padding in_second-IsValid refl
      refl refl

trigger_events_signals_example :
    Returns (λ r. AtMostOne r.1) (trigger_events started (TriggerEvent.normal_sent ∷ []) 2000)
trigger_events_signals_example =
    trigger_events_signals started (TriggerEvent.normal_sent ∷ []) 2000 started-IsValid
