-- ===== src/Simulator/Slots.antt =====
-- crates/maybenot-simulator/src/lib.rs: `do_internal_timer` and `do_scheduled_action`.
pub mod Found
pub mod Actions
use maybenot.Prelude.{
  ℕ, suc, ◌+◌, Bool, true, false, ◌||◌, Option, none, some, List, [], ◌∷◌, Outcome, ok, panic,
  ◌>>=◌, ltb, ◌==◌, if◌then◌else◌,
}
use maybenot.Platform.{Floats}
use maybenot.Action.{TriggerAction}
use maybenot.Event.{TriggerEvent}
use maybenot.Simulator.Event.{SimEvent}
use maybenot.Simulator.Peek.{ScheduledAction}
use maybenot.Simulator.Integration.{Thread, action_delay, reporting_delay}
use maybenot.Simulator.Network.{unwrap_or}
use maybenot.Simulator.Sim.{SimState}

-- How many slots hold something.
unfoldable pub set_slots : {A : Type 0} → List (Option A) → ℕ
set_slots [] = 0
set_slots (none ∷ rest) = set_slots rest
set_slots (some a ∷ rest) = suc (set_slots rest)

module _ {A : Type 0} where
  abbrev pub after : Option A → Option (ℕ × A × List (Option A)) → Option (ℕ × A × List (Option A))
  after slot none = none
  after slot (some (id, a, rest)) = some (id, a, slot ∷ rest)

  -- The loops over slots: the first that passes the test is emptied, and the loop breaks. `id` is the
  -- index of the first slot of the list.
  unfoldable pub take_first : (A → Bool) → ℕ → List (Option A) → Option (ℕ × A × List (Option A))
  take_first test id [] = none
  take_first test id (none ∷ rest) = after none (take_first test (suc id) rest)
  take_first test id (some a ∷ rest) =
      let later = after (some a) (take_first test (suc id) rest) in
      if test a then some (id, a, none ∷ rest) else later

-- The events that the simulator makes itself.
abbrev pub plain_event : TriggerEvent → ℕ → ℕ → Bool → Bool → SimEvent
plain_event event time delay is_client bypass = record {
  event = event;
  time = time;
  integration_delay = delay;
  client = is_client;
  contains_padding = false;
  bypass = bypass;
  replace = false;
  propagate_base_delay = none;
}

module _ {R : Type 0} where
  unfoldable pub do_internal_timer :
      SimState R → SimState R → ℕ → Outcome (SimEvent × SimState R × SimState R)
  unfolding take_first
  do_internal_timer client server target =
      elim (take_first (λ t. t == target) 0 client.scheduled_internal_timer) [
        | some (id, t, rest) ↦ ok (
          plain_event (TriggerEvent.timer_end id) target 0 true false,
          record client { scheduled_internal_timer = rest },
          server,
        )
        | none ↦ elim (take_first (λ t. t == target) 0 server.scheduled_internal_timer) [
          | some (id, t, rest) ↦ ok (
            plain_event (TriggerEvent.timer_end id) target 0 false false,
            client,
            record server { scheduled_internal_timer = rest },
          )
          | none ↦ panic
        ]
      ]

  -- `if replace || block > blocking_until.unwrap_or(time) { ... }`
  unfoldable pub start_blocking : SimState R → ℕ → ℕ → Bool → Bool → SimState R
  start_blocking state time block bypass replace =
      if replace || ltb (unwrap_or state.blocking_until time) block
      then record state { blocking_until = some block; blocking_bypassable = bypass }
      else state

module _ {R T : Type 0} ⦃fl : Floats⦄ ⦃th : Thread T⦄ where
  -- `match a.action { ... }`, for the action at `time`.
  unfoldable pub do_trigger :
      TriggerAction → ℕ → SimState R → Bool → T → Outcome (SimEvent × SimState R × T)
  unfolding start_blocking
  do_trigger (TriggerAction.cancel machine timer) time state is_client thread = panic
  do_trigger (TriggerAction.update_timer duration replace machine) time state is_client thread =
      panic
  do_trigger (TriggerAction.send_padding timeout bypass replace machine) time state is_client
        thread =
      do
        (delay, thread') ← action_delay state.integration thread
        ok (
          record {
            event = TriggerEvent.padding_sent machine;
            time = time;
            integration_delay = delay;
            client = is_client;
            contains_padding = true;
            bypass = bypass;
            replace = replace;
            propagate_base_delay = none;
          },
          state,
          thread',
        )
  do_trigger (TriggerAction.block_outgoing timeout duration bypass replace machine) time state
        is_client thread =
      do
        (action, thread1) ← action_delay state.integration thread
        (reporting, thread2) ← reporting_delay state.integration thread1
        let state' = start_blocking state time (time + duration) bypass replace
        ok (
          plain_event (TriggerEvent.blocking_begin machine) (time + (action + reporting))
              (action + reporting) is_client state'.blocking_bypassable,
          state',
          thread2,
        )

  -- The action is done on the side that it was found at.
  abbrev pub do_action :
      ScheduledAction → SimState R → Bool → T → Outcome (SimEvent × SimState R × T)
  unfolding do_trigger
  do_action a state is_client thread = do_trigger a.action a.time state is_client thread

  unfoldable pub do_scheduled_action :
      SimState R → SimState R → ℕ → T → Outcome (SimEvent × SimState R × SimState R × T)
  unfolding take_first do_trigger
  do_scheduled_action client server target thread =
      elim (take_first (λ a. a.time == target) 0 client.scheduled_action) [
        | some (id, a, rest) ↦ (do
          (e, client', thread') ←
              do_action a (record client { scheduled_action = rest }) true thread
          ok (e, client', server, thread'))
        | none ↦ elim (take_first (λ a. a.time == target) 0 server.scheduled_action) [
          | some (id, a, rest) ↦ (do
            (e, server', thread') ←
                do_action a (record server { scheduled_action = rest }) false thread
            ok (e, client, server', thread'))
          | none ↦ panic
        ]
      ]
