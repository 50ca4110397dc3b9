-- ===== src/Framework/Events.antt =====
-- crates/maybenot/src/framework.rs: `process_event` and `trigger_events`.
use maybenot.Prelude.{
  ℕ, zero, suc, ◌+◌, Bool, true, false, not, ◌&&◌, Option, none, some, List, [], ◌∷◌, map, Outcome,
  ok, ◌>>=◌, index, leb, ◌==◌, if◌then◌else◌, length,
}
use maybenot.Constants.{state_end}
use maybenot.Platform.{Floats, Rng}
use maybenot.Time.{saturating_duration_since, zero_duration, is_zero}
use maybenot.Event.{Event, TriggerEvent}
use maybenot.Action.{TriggerAction}
use maybenot.Framework.Types.{SignalTarget, Framework, increment, set_runtime}
use maybenot.Framework.Transition.{transition, decrement_limit, is_changed}

module _ {R : Type 0} where
  -- `for mi in 0..n { body }`: `n` rounds are left, and the next is for machine `mi`.
  unfoldable pub for_machines :
      (Framework R → ℕ → Outcome (Framework R)) → ℕ → ℕ → Framework R → Outcome (Framework R)
  for_machines body zero mi fw = ok fw
  for_machines body (suc n) mi fw = do fw' ← body fw mi; for_machines body n (suc mi) fw'

  abbrev pub for_all_machines :
      (Framework R → ℕ → Outcome (Framework R)) → Framework R → Outcome (Framework R)
  for_all_machines body fw = for_machines body (length fw.runtime) 0 fw

abbrev pub excluded_by : SignalTarget → Option ℕ
excluded_by SignalTarget.all = none
excluded_by (SignalTarget.all_except mi) = some mi

abbrev pub is_excluded : Option ℕ → ℕ → Bool
is_excluded none mi = false
is_excluded (some excluded) mi = excluded == mi

module _ {R : Type 0} ⦃fl : Floats⦄ ⦃g : Rng R⦄ where
  -- A transition whose result is dropped.
  unfoldable pub notify : Event → Framework R → ℕ → Outcome (Framework R)
  notify event fw mi = do (_, fw') ← transition fw mi event; ok fw'

  -- `if self.transition(mi, event) == Unchanged && <not in STATE_END> && mine { decrement_limit }`
  unfoldable pub notify_limited : Event → Bool → Framework R → ℕ → Outcome (Framework R)
  notify_limited event mine fw mi = do
    (change, fw') ← transition fw mi event
    rt ← index fw'.runtime mi
    if not (is_changed change) && not (rt.current_state == state_end) && mine
        then decrement_limit fw' mi
        else ok fw'

  unfoldable pub on_normal_sent : Framework R → ℕ → Outcome (Framework R)
  unfolding notify
  on_normal_sent fw mi = do
    rt ← index fw.runtime mi
    notify Event.normal_sent
        (set_runtime fw mi (record rt { normal_sent = increment rt.normal_sent })) mi

  unfoldable pub on_padding_sent : Framework R → ℕ → Outcome (Framework R)
  unfolding notify_limited
  on_padding_sent fw mi = do
    rt ← index fw.runtime mi
    notify_limited Event.padding_sent true
        (set_runtime fw mi (record rt { padding_sent = increment rt.padding_sent })) mi

  unfoldable pub on_blocking_begin : ℕ → Framework R → ℕ → Outcome (Framework R)
  unfolding notify_limited
  on_blocking_begin machine fw mi = notify_limited Event.blocking_begin (mi == machine) fw mi

  unfoldable pub on_blocking_end : ℕ → Framework R → ℕ → Outcome (Framework R)
  unfolding notify
  on_blocking_end blocked fw mi = do
    rt ← index fw.runtime mi
    let rt' =
        if not (is_zero blocked)
        then record rt { blocking_duration = rt.blocking_duration + blocked }
        else rt
    notify Event.blocking_end (set_runtime fw mi rt') mi

  -- `if mi >= self.runtime.len() { return; }`
  abbrev pub if_running :
      (Framework R → ℕ → Outcome (Framework R)) → Framework R → ℕ → Outcome (Framework R)
  if_running body fw mi = if leb (length fw.runtime) mi then ok fw else body fw mi

  -- How long the blocking that now ends has lasted.
  abbrev pub blocked_for : Framework R → ℕ
  blocked_for fw =
      if fw.blocking_active
      then saturating_duration_since fw.current_time fw.blocking_started
      else zero_duration

  unfoldable pub process_event : Framework R → TriggerEvent → Outcome (Framework R)
  process_event fw TriggerEvent.normal_recv = for_all_machines (notify Event.normal_recv) fw
  process_event fw TriggerEvent.padding_recv = for_all_machines (notify Event.padding_recv) fw
  process_event fw TriggerEvent.tunnel_recv = for_all_machines (notify Event.tunnel_recv) fw
  process_event fw TriggerEvent.normal_sent =
      for_all_machines on_normal_sent
        (record fw { normal_sent_packets = increment fw.normal_sent_packets })
  process_event fw (TriggerEvent.padding_sent machine) =
      if_running on_padding_sent
        (record fw { padding_sent_packets = increment fw.padding_sent_packets }) machine
  process_event fw TriggerEvent.tunnel_sent = for_all_machines (notify Event.tunnel_sent) fw
  process_event fw (TriggerEvent.blocking_begin machine) =
      for_all_machines (on_blocking_begin machine) (record fw {
        blocking_active = true;
        blocking_started = if fw.blocking_active then fw.blocking_started else fw.current_time;
      })
  process_event fw TriggerEvent.blocking_end =
      for_all_machines (on_blocking_end (blocked_for fw)) (record fw {
        blocking_duration = fw.blocking_duration + blocked_for fw;
        blocking_active = false;
      })
  process_event fw (TriggerEvent.timer_begin machine) =
      if_running (notify_limited Event.timer_begin true) fw machine
  process_event fw (TriggerEvent.timer_end machine) = if_running (notify Event.timer_end) fw machine

  unfoldable pub process_events : Framework R → List TriggerEvent → Outcome (Framework R)
  process_events fw [] = ok fw
  process_events fw (e ∷ rest) = do fw' ← process_event fw e; process_events fw' rest

  unfoldable pub signal_one : Option ℕ → Framework R → ℕ → Outcome (Framework R)
  unfolding notify
  signal_one excluded fw mi = if is_excluded excluded mi then ok fw else notify Event.signal fw mi

  -- The edge case: a signal came back while a machine was left out.
  unfoldable pub signal_excluded :
      Option ℕ → Option SignalTarget → Framework R → Outcome (Framework R)
  unfolding notify
  signal_excluded (some excluded) (some again) fw = notify Event.signal fw excluded
  signal_excluded _ _ fw = ok fw

  -- `self.signal_pending.take()`, twice.
  unfoldable pub send_signal : Option SignalTarget → Framework R → Outcome (Framework R)
  unfolding signal_excluded
  send_signal none fw = ok fw
  send_signal (some target) fw = do
    fw' ← for_all_machines (signal_one (excluded_by target)) (record fw { signal_pending = none })
    signal_excluded (excluded_by target) fw'.signal_pending (record fw' { signal_pending = none })

  -- The start of `trigger_events`, before the events.
  abbrev pub reset : Framework R → ℕ → Framework R
  reset fw now = record fw {
    actions = map (λ _. none) fw.actions;
    counter_zeroed_once = (false, false);
    current_time = now;
  }

  -- The state after `trigger_events`.
  unfoldable pub run_events : Framework R → List TriggerEvent → ℕ → Outcome (Framework R)
  unfolding send_signal process_events
  run_events fw events now = do
    fw1 ← process_events (reset fw now) events
    send_signal fw1.signal_pending fw1

unfoldable pub present {ℓ} : {A : Type ℓ} → List (Option A) → List A
present [] = []
present (none ∷ rest) = present rest
present (some a ∷ rest) = a ∷ present rest

module _ {R : Type 0} ⦃fl : Floats⦄ ⦃g : Rng R⦄ where
  -- `trigger_events`: the actions to take, and the state after.
  unfoldable pub trigger_events :
      Framework R → List TriggerEvent → ℕ → Outcome (List TriggerAction × Framework R)
  unfolding run_events present
  trigger_events fw events now = do fw' ← run_events fw events now; ok (present fw'.actions, fw')
