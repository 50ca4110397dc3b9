-- ===== src/Simulator/Run.antt =====
-- crates/maybenot-simulator/src/lib.rs: `sim` and `sim_advanced`.
pub mod Round
pub mod Sorting
pub mod Total
pub mod Start
use maybenot.Prelude.{
  ℕ, zero, suc, ◌+◌, ◌*◌, ◌%◌, Bool, true, false, not, ◌&&◌, ◌||◌, Option, none, some, List, [],
  ◌∷◌, ◌++◌, length, Outcome, ok, panic, unfinished, ◌>>=◌, ltb, leb, if◌then◌else◌,
}
use maybenot.Platform.{F64, Floats, Rng, zero64}
use maybenot.Constants.{u64_mod}
use maybenot.Machine.{Machine}
use maybenot.Event.{TriggerEvent}
use maybenot.Simulator.Event.{SimEvent}
use maybenot.Simulator.Queue.{Heap, SimQueue, sim_len}
use maybenot.Simulator.Sides.{get_first_time}
use maybenot.Simulator.Integration.{Integration, Thread}
use maybenot.Simulator.Network.{DelayHeap, Network, new_bottleneck}
use maybenot.Simulator.Sim.{Sim, unwrap_some, sub_instant, new_state}
use maybenot.Simulator.Stack.{sim_network_stack}
use maybenot.Simulator.Pick.{pick_next}
use maybenot.Simulator.Update.{trigger_update}

pub record SimulatorArgs : Type 0 where
  pub network : Network
  pub max_trace_length : ℕ
  pub max_sim_iterations : ℕ
  pub only_client_events : Bool
  pub only_network_activity : Bool
  pub max_padding_frac_client : F64
  pub max_blocking_frac_client : F64
  pub max_padding_frac_server : F64
  pub max_blocking_frac_server : F64
  pub insecure_rng_seed : Option ℕ
  pub client_integration : Option Integration
  pub server_integration : Option Integration

-- `SimulatorArgs::new`
abbrev pub new_args : Network → ℕ → Bool → SimulatorArgs
new_args network max_trace_length only_network_activity = record {
  network = network;
  max_trace_length = max_trace_length;
  max_sim_iterations = 0;
  only_client_events = false;
  only_network_activity = only_network_activity;
  max_padding_frac_client = zero64;
  max_blocking_frac_client = zero64;
  max_padding_frac_server = zero64;
  max_blocking_frac_server = zero64;
  insecure_rng_seed = none;
  client_integration = none;
  server_integration = none;
}

-- `std::time::Duration::from_secs(1)`
abbrev pub one_second : ℕ
one_second = 1_000_000_000

-- The time of an event in the trace: without the reporting delay, or with the action delay.
unfoldable pub trace_time : TriggerEvent → SimEvent → Outcome ℕ
trace_time TriggerEvent.normal_sent n = sub_instant n.time n.integration_delay
trace_time (TriggerEvent.padding_sent machine) n = ok (n.time + n.integration_delay)
trace_time TriggerEvent.tunnel_sent n =
    if n.contains_padding
    then ok (n.time + n.integration_delay)
    else sub_instant n.time n.integration_delay
trace_time TriggerEvent.tunnel_recv n = sub_instant n.time n.integration_delay
trace_time TriggerEvent.padding_recv n = sub_instant n.time n.integration_delay
trace_time TriggerEvent.normal_recv n = sub_instant n.time n.integration_delay
trace_time _ n = ok n.time

abbrev pub is_saved : SimulatorArgs → SimEvent → Bool → Bool
is_saved args next network_activity =
    (not args.only_network_activity || network_activity)
    && (not args.only_client_events || next.client)

-- The conditional save to the trace.
unfoldable pub save_event :
    SimulatorArgs → SimEvent → Bool → List SimEvent → Outcome (List SimEvent)
unfolding trace_time
save_event args next network_activity trace =
    if is_saved args next network_activity
    then (do time ← trace_time next.event next; ok (trace ++ record next { time = time } ∷ []))
    else ok trace

-- The stable sort of the standard library, by time.
unfoldable pub insert_by_time : SimEvent → List SimEvent → List SimEvent
insert_by_time e [] = e ∷ []
insert_by_time e (x ∷ rest) = if ltb x.time e.time then x ∷ insert_by_time e rest else e ∷ x ∷ rest

unfoldable pub sort_by_time : List SimEvent → List SimEvent
unfolding insert_by_time
sort_by_time [] = []
sort_by_time (e ∷ rest) = insert_by_time e (sort_by_time rest)

-- The two tests at the end of a round, after `iterations` rounds.
abbrev pub is_last : SimulatorArgs → List SimEvent → ℕ → Bool
is_last args trace iterations =
    (ltb 0 args.max_trace_length && leb args.max_trace_length (length trace))
    || (ltb 0 args.max_sim_iterations && leb args.max_sim_iterations iterations)

-- `while let Some(next) = picked { ... }`, one round of it.
abbrev pub while_some :
    Option SimEvent → List SimEvent → (SimEvent → Outcome (List SimEvent)) → Outcome (List SimEvent)
while_some none trace body = ok trace
while_some (some next) trace body = body next

-- `BUG: next event moves time backwards`
unfoldable pub move_time : ℕ → ℕ → Outcome ℕ
move_time next_time now = if ltb next_time now then panic else ok next_time

module _ {H D R T : Type 0} ⦃heap : Heap H⦄ ⦃delays : DelayHeap D⦄ ⦃fl : Floats⦄ ⦃g : Rng R⦄
    ⦃th : Thread T⦄ where
  -- The network, from the side of the event: the client's, or the server's.
  unfoldable pub run_stack : Bool → SimEvent → Sim H D R T → ℕ → Outcome (Bool × Sim H D R T)
  run_stack true next sim now = do
    (activity, sq, network, thread) ←
        sim_network_stack next sim.sq sim.client sim.server sim.network now sim.thread
    ok (activity, record sim { sq = sq; network = network; thread = thread })
  run_stack false next sim now = do
    (activity, sq, network, thread) ←
        sim_network_stack next sim.sq sim.server sim.client sim.network now sim.thread
    ok (activity, record sim { sq = sq; network = network; thread = thread })

  -- The framework of the side of the event.
  unfoldable pub run_update : Bool → SimEvent → Sim H D R T → ℕ → Outcome (Sim H D R T)
  run_update true next sim now = do
    (state, sq, thread) ← trigger_update sim.client next now sim.sq true sim.thread
    ok (record sim { client = state; sq = sq; thread = thread })
  run_update false next sim now = do
    (state, sq, thread) ← trigger_update sim.server next now sim.sq false sim.thread
    ok (record sim { server = state; sq = sq; thread = thread })

  -- The body of the main loop, for the event that was picked.
  unfoldable pub round :
      SimulatorArgs
      → SimEvent
      → Sim H D R T
      → ℕ
      → List SimEvent
      → Outcome (ℕ × Sim H D R T × List SimEvent)
  unfolding move_time run_stack run_update save_event
  round args next sim current_time trace = do
    now ← move_time next.time current_time
    (activity, sim1) ← run_stack next.client next sim now
    sim2 ← run_update next.client next sim1 now
    trace' ← save_event args next activity trace
    ok (now, sim2, trace')

  -- The main loop; the bound is on its rounds.
  unfoldable pub main_loop :
      ℕ → SimulatorArgs → Sim H D R T → ℕ → List SimEvent → ℕ → Outcome (List SimEvent)
  unfolding round
  main_loop zero args sim now trace iterations = unfinished
  main_loop (suc k) args sim now trace iterations = do
    (picked, sim1) ← pick_next sim now
    while_some picked trace λ next. do
      (now', sim2, trace') ← round args next sim1 now trace
      let rest = main_loop k args sim2 now' trace' (suc iterations)
      if is_last args trace' (suc iterations) then ok trace' else rest

-- What `SimState::new` of each side draws from: a generator for a seed, or, without one, what the side
-- gets of the draws of the thread's generator.
pub record Sources (R : Type 0) : Type 0 where
  pub seeded : ℕ → R
  pub client_thread : R
  pub server_thread : R

abbrev pub rng_source : {R : Type 0} → (ℕ → R) → R → Option ℕ → R
rng_source seeded thread none = thread
rng_source seeded thread (some seed) = seeded seed

module _ {H : Type 0} ⦃heap : Heap H⦄ where
  -- The capacity of the trace: the maximum of its length, or twice the events, as a usize.
  abbrev pub expected_trace_len : SimQueue H → SimulatorArgs → ℕ
  expected_trace_len sq args =
      if ltb 0 args.max_trace_length then args.max_trace_length else (sim_len sq * 2) % u64_mod

module _ (D : Type 0) {H R T : Type 0} ⦃heap : Heap H⦄ ⦃delays : DelayHeap D⦄ ⦃fl : Floats⦄
    ⦃g : Rng R⦄ ⦃th : Thread T⦄ where
  -- `max_capacity` is the greatest number of events that `Vec::with_capacity` takes, which panics above
  -- it, and `thread` is what the integrations get of the draws of the thread's generator.
  unfoldable pub sim_advanced :
      ℕ
      → ℕ
      → List Machine
      → List Machine
      → SimQueue H
      → SimulatorArgs
      → Sources R
      → T
      → Outcome (List SimEvent)
  unfolding main_loop sort_by_time
  sim_advanced bound max_capacity machines_client machines_server sq args sources thread = do
    _ ← (if ltb max_capacity (expected_trace_len sq args) then panic else ok (tt {0}))
    start ← unwrap_some (get_first_time sq)
    client ←
        new_state machines_client start args.max_padding_frac_client args.max_blocking_frac_client
          args.client_integration
          (rng_source sources.seeded sources.client_thread args.insecure_rng_seed)
    server ←
        new_state machines_server start args.max_padding_frac_server args.max_blocking_frac_server
          args.server_integration
          (rng_source sources.seeded sources.server_thread args.insecure_rng_seed)
    network ← new_bottleneck {D = D} args.network one_second sq.max_pps
    trace ←
        main_loop bound args
          (record { sq = sq; client = client; server = server; network = network; thread = thread })
          start [] 0
    ok (sort_by_time trace)

  unfoldable pub sim :
      ℕ
      → ℕ
      → List Machine
      → List Machine
      → SimQueue H
      → ℕ
      → ℕ
      → Bool
      → Sources R
      → T
      → Outcome (List SimEvent)
  unfolding sim_advanced
  sim bound max_capacity machines_client machines_server sq delay max_trace_length
        only_network_activity sources thread =
      let network : Network = record { delay = delay; pps = none } in
      sim_advanced bound max_capacity machines_client machines_server sq
        (new_args network max_trace_length only_network_activity) sources thread
