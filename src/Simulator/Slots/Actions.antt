-- ===== src/Simulator/Slots/Actions.antt =====
-- crates/maybenot-simulator/src/lib.rs: `do_scheduled_action` does the action that is due.
use maybenot.Prelude.{
  ℕ, suc, ◌+◌, ◌≡◌, refl, ◌∙◌, ◌⊎◌, inl, inr, Bool, true, false, ◌||◌, Option, none, some, List,
  ◌==◌, if-both, Returns, Returns-bind, Returns-mono, ltb, arith,
}
use maybenot.Platform.{Floats}
use maybenot.Action.{TriggerAction}
use maybenot.Simulator.Event.{SimEvent}
use maybenot.Simulator.Queue.Sided.{IsAged}
use maybenot.Simulator.Peek.{ScheduledAction}
use maybenot.Simulator.Peek.Soonest.{IsDue, times}
use maybenot.Simulator.Integration.{
  Integration, Thread, action_delay, reporting_delay, trigger_delay,
}
use maybenot.Simulator.Network.{unwrap_or}
use maybenot.Simulator.Sim.{SimState}
use maybenot.Simulator.Slots.{take_first, start_blocking, do_trigger, do_scheduled_action}
use maybenot.Simulator.Slots.Found.{
  InSlots, Took, take_first-Took, Finds, due_action-Finds, TimedAction, IsTimed, slots, Keeps,
  Keeps-refl, Empties,
}

-- The delays of the integration can be drawn, whatever the generator's state.
pub record Answers (T : Type 0) ⦃fl : Floats⦄ ⦃th : Thread T⦄ (i : Option Integration)
    : Type 0 where
  pub action : (t : T) → Returns (λ r. Unit {0}) (action_delay i t)
  pub reporting : (t : T) → Returns (λ r. Unit {0}) (reporting_delay i t)
  pub trigger : (t : T) → Returns (λ r. Unit {0}) (trigger_delay i t)

module _ {R : Type 0} where
  start_blocking-same :
      (state : SimState R) (time block : ℕ) (bypass replace : Bool)
      → (slots (start_blocking state time block bypass replace) ≡ slots state)
        × Keeps state (start_blocking state time block bypass replace)
  unfolding start_blocking
  start_blocking-same state time block bypass replace =
      if-both (λ (s : SimState R). (slots s ≡ slots state) × Keeps state s)
        (replace || ltb (unwrap_or state.blocking_until time) block) _ _
        (λ e. (
          refl,
          record {
            framework = refl;
            integration = refl;
            actions = refl;
            timers = refl;
            timed = λ h. h;
          },
        ))
        (λ e. (refl, Keeps-refl state))

  -- An action was done: its event, and the state after it.
  abbrev Done : {T : Type 0} → SimState R → SimEvent × SimState R × T → Type 0
  Done state r = IsAged r.0 × (slots r.1 ≡ slots state) × Keeps state r.1

  pub Keeps-trans : (a b c : SimState R) → Keeps a b → Keeps b c → Keeps a c
  Keeps-trans a b c h k = record {
    framework = k.framework ∙ h.framework;
    integration = k.integration ∙ h.integration;
    actions = k.actions ∙ h.actions;
    timers = k.timers ∙ h.timers;
    timed = λ t. k.timed (h.timed t);
  }

module _ {R T : Type 0} ⦃fl : Floats⦄ ⦃th : Thread T⦄ where
  do_trigger-Keeps :
      (act : TriggerAction) (time : ℕ) (state : SimState R) (is_client : Bool) (t : T)
      → TimedAction act
      → Answers T state.integration
      → Returns (Done state) (do_trigger act time state is_client t)
  unfolding do_trigger
  do_trigger-Keeps (TriggerAction.cancel machine timer) time state is_client t h k = absurd h
  do_trigger-Keeps (TriggerAction.update_timer duration replace machine) time state is_client t h
        k =
      absurd h
  do_trigger-Keeps (TriggerAction.send_padding timeout bypass replace machine) time state is_client
        t h k =
      Returns-bind (λ r. Unit {0}) (Done state) (action_delay state.integration t) _ (k.action t)
        λ r er u. (tt, refl, Keeps-refl state)
  do_trigger-Keeps (TriggerAction.block_outgoing timeout duration bypass replace machine) time state
        is_client t h k =
      Returns-bind (λ r. Unit {0}) (Done state) (action_delay state.integration t) _ (k.action t)
        λ r er u.
          Returns-bind (λ r. Unit {0}) (Done state) (reporting_delay state.integration r.1) _
            (k.reporting r.1)
            λ r' er' u'.
              let same = start_blocking-same state time (time + duration) bypass replace in
              (omega arith, same.0, same.1)

  -- One state, of which a slot was emptied before the action.
  emptied :
      (state : SimState R) (r : ℕ × ScheduledAction × List (Option ScheduledAction))
      (is_client : Bool) (t : T)
      → InSlots IsTimed state.scheduled_action
      → Took IsTimed state.scheduled_action (some r)
      → Answers T state.integration
      → Returns
          (λ q. IsAged q.0 × (slots state ≡ suc (slots q.1)) × Keeps state q.1)
          (do_trigger (r.1).action (r.1).time (record state { scheduled_action = r.2 }) is_client t)
  emptied state r is_client t timed took k =
      let st : SimState R = record state { scheduled_action = r.2 } in
      Returns-mono _ (λ q. IsAged q.0 × (slots state ≡ suc (slots q.1)) × Keeps state q.1)
        (do_trigger (r.1).action (r.1).time st is_client t)
        (λ q h. (
          h.0,
          omega (arith, h.1, took.fewer),
          Keeps-trans state st q.1
              (record {
                framework = refl;
                integration = refl;
                actions = took.size;
                timers = refl;
                timed = λ x. took.rest;
              })
              h.2,
        ))
        (do_trigger-Keeps (r.1).action (r.1).time st is_client t took.held k)

  take_action-cases :
      (client server : SimState R) (target : ℕ) (t : T)
      (c s : Option (ℕ × ScheduledAction × List (Option ScheduledAction)))
      → take_first (λ a. a.time == target) 0 client.scheduled_action ≡ c
      → take_first (λ a. a.time == target) 0 server.scheduled_action ≡ s
      → InSlots IsTimed client.scheduled_action
      → InSlots IsTimed server.scheduled_action
      → Took IsTimed client.scheduled_action c
      → Took IsTimed server.scheduled_action s
      → Answers T client.integration
      → Answers T server.integration
      → Finds c ⊎ Finds s
      → Returns
          (λ r. IsAged r.0 × Empties client server r.1 r.2)
          (do_scheduled_action client server target t)
  unfolding do_scheduled_action
  take_action-cases client server target t (some r) s ec es hc hs tc ts kc ks f =
      rw (ec, do_scheduled_action)
        (Returns-bind _ (λ q. IsAged q.0 × Empties client server q.1 q.2)
          (do_trigger (r.1).action (r.1).time (record client { scheduled_action = r.2 }) true t) _
          (emptied client r true t hc tc kc)
          λ q eq h.
            (h.0, record { fewer = omega (arith, h.1); client = h.2; server = Keeps-refl server }))
  take_action-cases client server target t none (some r) ec es hc hs tc ts kc ks f =
      rw (ec, es, do_scheduled_action)
        (Returns-bind _ (λ q. IsAged q.0 × Empties client server q.1 q.2)
          (do_trigger (r.1).action (r.1).time (record server { scheduled_action = r.2 }) false t) _
          (emptied server r false t hs ts ks)
          λ q eq h.
            (h.0, record { fewer = omega (arith, h.1); client = Keeps-refl client; server = h.2 }))
  take_action-cases client server target t none none ec es hc hs tc ts kc ks (inl f) = absurd f
  take_action-cases client server target t none none ec es hc hs tc ts kc ks (inr f) = absurd f

  -- `do_scheduled_action` finds an action that is due, which is padding or blocking, does it without a
  -- panic, empties its slot and leaves the other slots.
  pub do_scheduled_action-Empties :
      (client server : SimState R) (now d : ℕ) (t : T)
      → InSlots IsTimed client.scheduled_action
      → InSlots IsTimed server.scheduled_action
      → Answers T client.integration
      → Answers T server.integration
      → IsDue now d (times client.scheduled_action) ⊎ IsDue now d (times server.scheduled_action)
      → Returns
          (λ r. IsAged r.0 × Empties client server r.1 r.2)
          (do_scheduled_action client server (now + d) t)
  do_scheduled_action-Empties client server now d t hc hs kc ks due =
      take_action-cases client server (now + d) t
        (take_first (λ a. a.time == now + d) 0 client.scheduled_action)
        (take_first (λ a. a.time == now + d) 0 server.scheduled_action) refl refl hc hs
        (take_first-Took IsTimed (λ a. a.time == now + d) 0 client.scheduled_action hc)
        (take_first-Took IsTimed (λ a. a.time == now + d) 0 server.scheduled_action hs) kc ks
        (elim due [
          | inl h ↦ inl (due_action-Finds now d 0 client.scheduled_action h)
          | inr h ↦ inr (due_action-Finds now d 0 server.scheduled_action h)
        ])
