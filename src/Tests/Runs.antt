-- ===== src/Tests/Runs.antt =====
-- Runs of the framework, and its theorems at them.
use maybenot.Prelude.{
  ℕ, ◌≡◌, refl, inr, arith, true, false, none, [], ◌∷◌, ok, index, Returns, Returns-eq,
}
use maybenot.Platform.{zero64}
use maybenot.Constants.{state_end}
use maybenot.Event.{TriggerEvent}
use maybenot.Action.{TriggerAction}
use maybenot.Action
use maybenot.Counter
use maybenot.Dist
use maybenot.State
use maybenot.Machine
use maybenot.Machine.{Machine}
use maybenot.Framework.Types.{Framework, MachineRuntime}
use maybenot.Framework.Create.{new, start_runtime, is_fraction}
use maybenot.Framework.Events.{trigger_events}
use maybenot.Framework.Ledger.{ledger, book_all}
use maybenot.Framework.Rows.{IsValid}
use maybenot.Framework.Actions.{OnePerMachine, NoneFor}
use maybenot.Framework.Kept.{IsQuiet}
use maybenot.Framework.Safety.{
  trigger_events-IsValid, ledger-trigger_events, trigger_events_ended, trigger_events-OnePerMachine,
}
use maybenot.Framework.Start.{
  run_calls, new-run_calls, new-IsValid, new-Validated, Validated, start_ledger,
}
use maybenot.Tests.Fixture.{flat, counting, pad_once, draws}

-- The framework that `new` makes of `pad_once`.
abbrev pub started : Framework ℕ
started = record {
  current_time = 1000;
  rng = 0;
  actions = none ∷ [];
  machines = pad_once ∷ [];
  runtime = start_runtime 1000 pad_once ∷ [];
  max_padding_frac = zero64;
  normal_sent_packets = 0;
  padding_sent_packets = 0;
  max_blocking_frac = zero64;
  blocking_duration = 0;
  blocking_started = 1000;
  blocking_active = false;
  signal_pending = none;
  counter_zeroed_once = (false, false);
  framework_start = 1000;
}

pub new-started : new (pad_once ∷ []) zero64 zero64 1000 0 ≡ ok started
unfolding new maybenot.Machine.validate maybenot.State.validate maybenot.State.check_slots
    maybenot.Action.validate maybenot.Dist.validate maybenot.Counter.validate index
new-started = refl

started-Validated : Validated (pad_once ∷ [])
started-Validated = (new-Validated (pad_once ∷ []) zero64 zero64 1000 0 started new-started).2

new-Validated_example :
    (is_fraction zero64 ≡ true) × (is_fraction zero64 ≡ true) × Validated (pad_once ∷ [])
new-Validated_example = new-Validated (pad_once ∷ []) zero64 zero64 1000 0 started new-started

new-IsValid_example :
    Returns
      (λ fw. IsValid {R = ℕ} fw × (ledger fw ≡ start_ledger (pad_once ∷ []) zero64 zero64 1000))
      (new (pad_once ∷ []) zero64 zero64 1000 0)
new-IsValid_example =
    new-IsValid (pad_once ∷ []) zero64 zero64 1000 0 refl refl started-Validated draws

new-run_calls_example : Returns IsValid (
    run_calls started
      ((TriggerEvent.normal_sent ∷ [], 2000) ∷ (TriggerEvent.padding_sent 0 ∷ [], 8000) ∷ []))
new-run_calls_example =
    new-run_calls (pad_once ∷ []) zero64 zero64 1000 0 started
      ((TriggerEvent.normal_sent ∷ [], 2000) ∷ (TriggerEvent.padding_sent 0 ∷ [], 8000) ∷ []) draws
      new-started

pub started-IsValid : IsValid started
started-IsValid =
    (Returns-eq
      (λ fw. IsValid {R = ℕ} fw × (ledger fw ≡ start_ledger (pad_once ∷ []) zero64 zero64 1000))
      (new (pad_once ∷ []) zero64 zero64 1000 0) new-started
      (new-IsValid (pad_once ∷ []) zero64 zero64 1000 0 refl refl started-Validated draws)).0

trigger_events-IsValid_example :
    Returns (λ r. IsValid r.1) (trigger_events started (TriggerEvent.normal_sent ∷ []) 2000)
trigger_events-IsValid_example =
    trigger_events-IsValid started (TriggerEvent.normal_sent ∷ []) 2000 started-IsValid

ledger-trigger_events_example :
    Returns
      (λ r.
        ledger r.1
        ≡ book_all
            (record (ledger started) { current_time = 2000 })
            (TriggerEvent.normal_sent ∷ []))
      (trigger_events started (TriggerEvent.normal_sent ∷ []) 2000)
ledger-trigger_events_example =
    ledger-trigger_events started (TriggerEvent.normal_sent ∷ []) 2000 started-IsValid

trigger_events-OnePerMachine_example :
    Returns
      (λ r. OnePerMachine 0 1 r.0)
      (trigger_events started (TriggerEvent.normal_sent ∷ []) 2000)
trigger_events-OnePerMachine_example =
    trigger_events-OnePerMachine started (TriggerEvent.normal_sent ∷ []) 2000 started-IsValid

-- The machine has sent its padding, and ended.
abbrev over : MachineRuntime
over = record (start_runtime 1000 pad_once) { current_state = state_end }

abbrev ended : Framework ℕ
ended = record started { runtime = over ∷ [] }

ended-IsValid : IsValid ended
ended-IsValid = (
  (
    record {
      sound = started-IsValid.0.0.sound;
      live = record {
        in_range = inr refl;
        limit = omega arith;
        counter_a = omega arith;
        counter_b = omega arith;
      };
      action_for = tt;
    },
    tt,
  ),
  tt,
)

trigger_events_ended_example :
    Returns
      (λ r. IsQuiet 0 r.1 × NoneFor 0 r.0)
      (trigger_events ended (TriggerEvent.normal_sent ∷ []) 9000)
unfolding index
trigger_events_ended_example =
    trigger_events_ended ended (TriggerEvent.normal_sent ∷ []) 9000 0 over ended-IsValid refl refl
