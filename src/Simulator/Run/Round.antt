-- ===== src/Simulator/Run/Round.antt =====
-- crates/maybenot-simulator/src/lib.rs: a round of the main loop does not panic.
use maybenot.Prelude.{
  ℕ, ◌≤◌, ◌≡◌, refl, ◌∙◌, ◌⊎◌, inl, inr, Bool, true, false, Option, List, [], ◌∷◌, ◌++◌, ltb,
  if-both, Returns, Returns-bind, Bool-cases, arith,
}
use maybenot.Platform.{Floats, Rng}
use maybenot.Event.{TriggerEvent}
use maybenot.Simulator.Event.{SimEvent}
use maybenot.Simulator.Queue.{Heap, SimQueue}
use maybenot.Simulator.Queue.Sided.{Aged, IsAged, IsSided}
use maybenot.Simulator.Integration.{Thread}
use maybenot.Simulator.Network.{DelayHeap, NetworkBottleneck}
use maybenot.Simulator.Sim.{SimState, Sim, sub_instant}
use maybenot.Simulator.Stack.{sim_network_stack}
use maybenot.Simulator.Stack.Safe.{sim_network_stack-IsSided, Aged-normal}
use maybenot.Simulator.Slots.Found.{Keeps}
use maybenot.Simulator.Pick.Step.{IsReady}
use maybenot.Simulator.Pick.Total.{IsPick}
use maybenot.Simulator.Update.{trigger_update}
use maybenot.Simulator.Update.Safe.{IsSound, trigger_update-IsSound}
use maybenot.Simulator.Run.{
  SimulatorArgs, trace_time, is_saved, save_event, move_time, run_stack, run_update, round,
}

sub_instant-Returns : (t d : ℕ) → d ≤ t → Returns (λ u. Unit {0}) (sub_instant t d)
sub_instant-Returns t d h = let enough : ltb t d ≡ false = ground arith in rw enough tt

trace_time-Returns :
    (event : TriggerEvent) (n : SimEvent)
    → Aged event n.contains_padding n.integration_delay n.time
    → Returns (λ t. Unit {0}) (trace_time event n)
unfolding trace_time
trace_time-Returns TriggerEvent.normal_sent n h = sub_instant-Returns n.time n.integration_delay h
trace_time-Returns (TriggerEvent.padding_sent machine) n h = tt
trace_time-Returns TriggerEvent.tunnel_sent n h = elim (Bool-cases n.contains_padding) [
  | inl e ↦ rw e tt
  | inr e ↦ rw e (
      sub_instant-Returns n.time n.integration_delay
        (Aged-normal n.contains_padding n.integration_delay n.time h e))
]
trace_time-Returns TriggerEvent.tunnel_recv n h = sub_instant-Returns n.time n.integration_delay h
trace_time-Returns TriggerEvent.padding_recv n h = sub_instant-Returns n.time n.integration_delay h
trace_time-Returns TriggerEvent.normal_recv n h = sub_instant-Returns n.time n.integration_delay h
trace_time-Returns event n h = tt

-- The trace is the old one, or it has one event more, of the client if only such are asked for.
abbrev pub IsSaved : SimulatorArgs → List SimEvent → List SimEvent → Type 0
IsSaved args trace trace' =
    (trace' ≡ trace)
    ⊎ ((e : SimEvent) × (trace' ≡ trace ++ e ∷ [])
        × (args.only_client_events ≡ true → e.client ≡ true))

saved_side :
    (args : SimulatorArgs) (next : SimEvent) (activity : Bool)
    → is_saved args next activity ≡ true
    → args.only_client_events ≡ true
    → next.client ≡ true
saved_side args next activity h o = ground arith

save_event-IsSaved :
    (args : SimulatorArgs) (next : SimEvent) (activity : Bool) (trace : List SimEvent)
    → IsAged next
    → Returns (IsSaved args trace) (save_event args next activity trace)
unfolding save_event
save_event-IsSaved args next activity trace aged =
    if-both (Returns (IsSaved args trace)) (is_saved args next activity) _ _
      (λ b.
        Returns-bind (λ t. Unit {0}) (IsSaved args trace) (trace_time next.event next) _
          (trace_time-Returns next.event next aged)
          λ t et u. inr (record next { time = t }, refl, saved_side args next activity b))
      (λ b. inl refl)

module _ {R T : Type 0} ⦃fl : Floats⦄ ⦃th : Thread T⦄ where
  Keeps-IsSound :
      (state state' : SimState R) → Keeps state state' → IsSound T state → IsSound T state'
  Keeps-IsSound state state' k h = record {
    valid = rw k.framework h.valid;
    actions = k.actions ∙ (rw k.framework h.actions);
    timers = k.timers ∙ (rw k.framework h.timers);
    timed = k.timed h.timed;
    answers = rw k.integration h.answers;
  }

module _ {H D R T : Type 0} ⦃heap : Heap H⦄ ⦃delays : DelayHeap D⦄ ⦃fl : Floats⦄ ⦃g : Rng R⦄
    ⦃th : Thread T⦄ where
  -- Both sides are sound, and the queues hold events of their side.
  pub record IsSoundSim (sim : Sim H D R T) : Type 0 where
    pub sided : IsSided sim.sq
    pub client : IsSound T sim.client
    pub server : IsSound T sim.server

  pub IsSoundSim-IsReady : (sim : Sim H D R T) → IsSoundSim sim → IsReady sim
  IsSoundSim-IsReady sim h = record {
    sided = h.sided;
    client_timed = h.client.timed;
    server_timed = h.server.timed;
    client_answers = h.client.answers;
    server_answers = h.server.answers;
  }

  pub IsPick-IsSoundSim :
      (sim : Sim H D R T) (now : ℕ) (r : Option SimEvent × Sim H D R T)
      → IsPick sim now r
      → IsSoundSim sim
      → IsSoundSim r.1
  IsPick-IsSoundSim sim now r p h = record {
    sided = p.ready.sided;
    client = Keeps-IsSound sim.client r.1.client p.client h.client;
    server = Keeps-IsSound sim.server r.1.server p.server h.server;
  }

  stack_left :
      (sim : Sim H D R T) (q : Bool × SimQueue H × NetworkBottleneck D × T)
      → IsSoundSim sim
      → IsSided q.1
      → IsSoundSim (record sim { sq = q.1; network = q.2; thread = q.3 })
  stack_left sim q h k = record { sided = k; client = h.client; server = h.server }

  run_stack-IsSoundSim :
      (is_client : Bool) (next : SimEvent) (sim : Sim H D R T) (now : ℕ)
      → IsAged next
      → IsSoundSim sim
      → Returns (λ r. IsSoundSim r.1) (run_stack is_client next sim now)
  unfolding run_stack
  run_stack-IsSoundSim true next sim now aged h =
      Returns-bind (λ q. IsSided q.1) (λ r. IsSoundSim r.1)
        (sim_network_stack next sim.sq sim.client sim.server sim.network now sim.thread) _
        (sim_network_stack-IsSided next sim.sq sim.client sim.server sim.network now sim.thread aged
          h.sided h.server.answers)
        λ q eq k. stack_left sim q h k
  run_stack-IsSoundSim false next sim now aged h =
      Returns-bind (λ q. IsSided q.1) (λ r. IsSoundSim r.1)
        (sim_network_stack next sim.sq sim.server sim.client sim.network now sim.thread) _
        (sim_network_stack-IsSided next sim.sq sim.server sim.client sim.network now sim.thread aged
          h.sided h.client.answers)
        λ q eq k. stack_left sim q h k

  run_update-IsSoundSim :
      (is_client : Bool) (next : SimEvent) (sim : Sim H D R T) (now : ℕ)
      → IsSoundSim sim
      → Returns IsSoundSim (run_update is_client next sim now)
  unfolding run_update
  run_update-IsSoundSim true next sim now h =
      Returns-bind (λ r. IsSound T r.0 × IsSided r.1) IsSoundSim
        (trigger_update sim.client next now sim.sq true sim.thread) _
        (trigger_update-IsSound sim.client next now sim.sq true sim.thread h.client h.sided)
        λ r er k. record { sided = k.1; client = k.0; server = h.server }
  run_update-IsSoundSim false next sim now h =
      Returns-bind (λ r. IsSound T r.0 × IsSided r.1) IsSoundSim
        (trigger_update sim.server next now sim.sq false sim.thread) _
        (trigger_update-IsSound sim.server next now sim.sq false sim.thread h.server h.sided)
        λ r er k. record { sided = k.1; client = h.client; server = k.0 }

  -- A round for an event that is neither before the current time nor before its own delay does not
  -- panic, moves the time to that of the event, and saves the event or not.
  pub record IsRound (args : SimulatorArgs) (next : SimEvent) (trace : List SimEvent)
      (r : ℕ × Sim H D R T × List SimEvent) : Type 0 where
    pub time : r.0 ≡ next.time
    pub sound : IsSoundSim r.1
    pub saved : IsSaved args trace r.2

  pub round-IsRound :
      (args : SimulatorArgs) (next : SimEvent) (sim : Sim H D R T) (now : ℕ) (trace : List SimEvent)
      → now ≤ next.time
      → IsAged next
      → IsSoundSim sim
      → Returns (IsRound args next trace) (round args next sim now trace)
  unfolding round move_time
  round-IsRound args next sim now trace le aged h =
      let forward : ltb next.time now ≡ false = ground arith in
      rw forward (
        Returns-bind (λ r. IsSoundSim r.1) (IsRound args next trace)
          (run_stack next.client next sim next.time) _
          (run_stack-IsSoundSim next.client next sim next.time aged h)
          λ r er k.
            Returns-bind IsSoundSim (IsRound args next trace)
              (run_update next.client next r.1 next.time) _
              (run_update-IsSoundSim next.client next r.1 next.time k)
              λ sim2 e2 k2.
                Returns-bind (IsSaved args trace) (IsRound args next trace)
                  (save_event args next r.0 trace) _ (save_event-IsSaved args next r.0 trace aged)
                  λ t et s. record { time = refl; sound = k2; saved = s })
