-- ===== src/Tests/Simulations.antt =====
-- A run of the simulator, and the theorems on it at that run.
use maybenot.Prelude.{
  ℕ, suc, ◌+◌, ◌≤◌, ◌≡◌, refl, true, false, Option, none, some, List, [], ◌∷◌, ◌++◌, length,
  Returns, Ensures, if◌then◌else◌, arith,
}
use maybenot.Prelude.{◌<◌, ◌⊎◌}
use maybenot.Platform.{zero64}
use maybenot.Event.{TriggerEvent}
use maybenot.Action.{TriggerAction}
use maybenot.Simulator.Event.{SimEvent}
use maybenot.Simulator.Queue.{SimQueue, new_queue, sim_len}
use maybenot.Simulator.Queue.Sided.{IsSided}
use maybenot.Simulator.Peek.{ScheduledAction}
use maybenot.Simulator.Integration.{Thread}
use maybenot.Simulator.Network.{
  NetworkBottleneck, PendingAggregateDelay, new_window, add, push_aggregate_delay,
  pop_aggregate_delay, sample_bottleneck,
}
use maybenot.Simulator.Network.Window.{recent, add_all, add_all-recent}
use maybenot.Simulator.Network.Delays.{
  total_delay, pop_aggregate_delay-total_delay, window_of, IsSampled, sample_bottleneck-delay,
}
use maybenot.Simulator.Sim.{SimState, Sim}
use maybenot.Simulator.Stack.{sim_network_stack, send_padding_packet}
use maybenot.Simulator.Stack.Packets.{
  is_activity, followers, is_replaced, sim_network_stack-followers, send_padding_packet-sim_len,
}
use maybenot.Simulator.Stack.Safe.{sim_network_stack-IsSided}
use maybenot.Simulator.Next.{peek_next}
use maybenot.Simulator.Next.Named.{IsNamed, peek_next-IsNamed}
use maybenot.Simulator.Slots.Actions.{Answers}
use maybenot.Simulator.Pick.{Earliest, earliest_of, pick_next}
use maybenot.Simulator.Pick.Order.{peek_of, place, earliest_of-least}
use maybenot.Simulator.Pick.Step.{IsReady}
use maybenot.Simulator.Pick.Total.{IsPick, pick_next-IsPick}
use maybenot.Simulator.Update.{trigger_update}
use maybenot.Simulator.Update.Safe.{IsSound, trigger_update-IsSound}
use maybenot.Simulator.Run.{SimulatorArgs, Sources, sim_advanced}
use maybenot.Simulator.Run.Sorting.{IsSorted}
use maybenot.Simulator.Run.Total.{IsTrace}
use maybenot.Simulator.Run.Start.{CanRun, sim_advanced-IsTrace}
use maybenot.Tests.Fixture.{flat, counting, pad_once, pad_once-validated, draws}
use maybenot.Tests.Runs.{started, started-IsValid}
use maybenot.Tests.Heaps.{list_heap, sent_at, two_sides}
use maybenot.Tests.Delays.{list_delays}

-- Every draw is 0, and the state counts the draws.
instance abbrev pub still : Thread ℕ
still = record {
  gen = λ t. (0, suc t);
  has_finite_width = λ low high. true;
  gen_range = λ low high t. (low, suc t);
  search = λ xs x. 0;
  search_le = λ xs x. omega arith;
}

-- One packet of the client, and one of the server.
abbrev pub short_trace : SimQueue (List SimEvent)
short_trace = record {
  client = record new_queue { base = sent_at 1000 TriggerEvent.normal_sent ∷ [] };
  server = record new_queue {
    base = (record (sent_at 2000 TriggerEvent.normal_sent) { client = false }) ∷ [];
  };
  max_pps = some 1;
}

abbrev pub twenty_rounds : SimulatorArgs
twenty_rounds = record {
  network = record { delay = 10; pps = none };
  max_trace_length = 12;
  max_sim_iterations = 20;
  only_client_events = true;
  only_network_activity = false;
  max_padding_frac_client = zero64;
  max_blocking_frac_client = zero64;
  max_padding_frac_server = zero64;
  max_blocking_frac_server = zero64;
  insecure_rng_seed = none;
  client_integration = none;
  server_integration = none;
}

-- Both sides draw from the thread's generator.
abbrev pub unseeded : Sources ℕ
unseeded = record { seeded = λ seed. seed; client_thread = 0; server_thread = 7 }

abbrev first_draw : ℕ
first_draw = 0

-- Integrations that are not there add no delay.
pub no_delays : Answers ℕ none
no_delays = record { action = λ t. tt; reporting = λ t. tt; trigger = λ t. tt }

short_trace-IsSided : IsSided short_trace
short_trace-IsSided = record {
  client = record {
    base = ((refl, omega arith), tt);
    blocking = tt;
    bypassable = tt;
    internal = tt;
  };
  server = record {
    base = ((refl, omega arith), tt);
    blocking = tt;
    bypassable = tt;
    internal = tt;
  };
}

short-CanRun : CanRun ℕ 1000 (pad_once ∷ []) [] short_trace twenty_rounds
short-CanRun = record {
  first = 1000;
  starts = refl;
  sided = short_trace-IsSided;
  client = record {
    padding_limit = refl;
    blocking_limit = refl;
    validated = (pad_once-validated, tt);
    draws = draws;
  };
  server = record { padding_limit = refl; blocking_limit = refl; validated = tt; draws = tt };
  client_answers = no_delays;
  server_answers = no_delays;
  capacity = omega arith;
  limit = omega arith;
}

sim_advanced-IsTrace_example :
    Returns
      (λ trace. IsTrace twenty_rounds trace × IsSorted trace)
      (sim_advanced
        (List PendingAggregateDelay)
        20
        1000
        (pad_once ∷ [])
        []
        short_trace
        twenty_rounds
        unseeded
        first_draw)
sim_advanced-IsTrace_example =
    sim_advanced-IsTrace (List PendingAggregateDelay) 20 1000 (pad_once ∷ []) [] short_trace
      twenty_rounds unseeded first_draw (omega arith) (omega arith) short-CanRun

-- Two sides that run `pad_once`, the client with padding and a timer that are due.
abbrev side_state : List (Option ScheduledAction) → List (Option ℕ) → SimState ℕ
side_state actions timers = record {
  framework = started;
  scheduled_action = actions;
  scheduled_internal_timer = timers;
  blocking_until = some 1500;
  blocking_bypassable = false;
  integration = none;
}

abbrev due_padding : ScheduledAction
due_padding = record { action = TriggerAction.send_padding 5 false true 0; time = 1200 }

abbrev wide_network : NetworkBottleneck (List PendingAggregateDelay)
wide_network = record {
  aggregate_base_delay = 3;
  aggregate_delay_queue = (record { time = 1100; delay = 4 }) ∷ [];
  network = record { delay = 10; pps = none };
  client_window = record { window = 100; timestamps = 900 ∷ 950 ∷ [] };
  server_window = record { window = 100; timestamps = [] };
  pps_added_delay = 7;
  pps_limit = 1;
}

abbrev busy : Sim (List SimEvent) (List PendingAggregateDelay) ℕ ℕ
busy = record {
  sq = short_trace;
  client = side_state (some due_padding ∷ []) (some 1050 ∷ []);
  server = side_state (none ∷ []) (none ∷ []);
  network = wide_network;
  thread = 0;
}

busy-IsReady : IsReady busy
busy-IsReady = record {
  sided = short_trace-IsSided;
  client_timed = (tt, tt);
  server_timed = tt;
  client_answers = no_delays;
  server_answers = no_delays;
}

pick_next-IsPick_example : Returns (IsPick busy 1000) (pick_next busy 1000)
pick_next-IsPick_example = pick_next-IsPick busy 1000 busy-IsReady

abbrev client_state : SimState ℕ
client_state = side_state (some due_padding ∷ []) (some 1050 ∷ [])

client_state-IsSound : IsSound ℕ client_state
client_state-IsSound = record {
  valid = started-IsValid;
  actions = refl;
  timers = refl;
  timed = (tt, tt);
  answers = no_delays;
}

abbrev sent_packet : SimEvent
sent_packet = sent_at 1000 TriggerEvent.normal_sent

trigger_update-IsSound_example :
    Returns
      (λ r. IsSound ℕ r.0 × IsSided r.1)
      (trigger_update client_state sent_packet 1000 short_trace true first_draw)
trigger_update-IsSound_example =
    trigger_update-IsSound client_state sent_packet 1000 short_trace true first_draw
      client_state-IsSound short_trace-IsSided

sim_network_stack-IsSided_example :
    Returns
      (λ r. IsSided r.1)
      (sim_network_stack sent_packet short_trace client_state client_state wide_network 1000
        first_draw)
sim_network_stack-IsSided_example =
    sim_network_stack-IsSided sent_packet short_trace client_state client_state wide_network 1000
      first_draw (omega arith) short_trace-IsSided no_delays

-- A packet that enters the tunnel, with a delay to pass on.
abbrev tunnel_packet : SimEvent
tunnel_packet = record (sent_at 1000 TriggerEvent.tunnel_sent) { propagate_base_delay = some 6 }

-- Padding that a blocked packet replaces, and goes out in its place.
abbrev replacing : SimEvent
replacing = record (sent_at 1200 (TriggerEvent.padding_sent 0)) {
  contains_padding = true;
  bypass = true;
  replace = true;
}

sim_network_stack-followers_example :
    Ensures
      (λ r.
        (r.0 ≡ is_activity replacing.event)
        × (sim_len r.1 ≡ sim_len two_sides + followers replacing.event replacing two_sides false))
      (sim_network_stack replacing two_sides client_state client_state wide_network 1200 first_draw)
sim_network_stack-followers_example =
    sim_network_stack-followers replacing two_sides client_state client_state wide_network 1200
      first_draw

send_padding_packet-sim_len_example :
    Returns
      (λ sq.
        sim_len sq ≡ sim_len two_sides + (if is_replaced replacing two_sides false then 0 else 1))
      (send_padding_packet replacing two_sides false 3 1200)
send_padding_packet-sim_len_example = send_padding_packet-sim_len replacing two_sides false 3 1200

add_all-recent_example :
    ((add (add_all (new_window 10) (1 ∷ 5 ∷ 8 ∷ [])) 15).1.timestamps
      ≡ recent 15 10 ((1 ∷ 5 ∷ 8 ∷ []) ++ 15 ∷ []))
    × ((add (add_all (new_window 10) (1 ∷ 5 ∷ 8 ∷ [])) 15).0
        ≡ length (recent 15 10 ((1 ∷ 5 ∷ 8 ∷ []) ++ 15 ∷ [])))
add_all-recent_example = add_all-recent 10 15 (1 ∷ 5 ∷ 8 ∷ []) (omega arith) (omega arith)

pop_aggregate_delay-total_delay_example :
    (total_delay (push_aggregate_delay wide_network 8 1000 false) ≡ total_delay wide_network + 8)
    × ((push_aggregate_delay wide_network 8 1000 false).aggregate_base_delay ≡ 3)
    × (total_delay (pop_aggregate_delay wide_network) ≡ total_delay wide_network)
    × (3 ≤ (pop_aggregate_delay wide_network).aggregate_base_delay)
pop_aggregate_delay-total_delay_example = pop_aggregate_delay-total_delay wide_network 8 1000 false

-- The packets of the client so far.
wide_window : window_of wide_network true ≡ add_all (new_window 100) (900 ∷ 950 ∷ [])
unfolding add_all add
wide_window = refl

sample_bottleneck-delay_example :
    IsSampled wide_network true
      (length (recent 1000 100 ((900 ∷ 950 ∷ []) ++ 1000 ∷ [])))
      (add_all (new_window 100) ((900 ∷ 950 ∷ []) ++ 1000 ∷ []))
      (sample_bottleneck wide_network 1000 true)
unfolding recent
sample_bottleneck-delay_example =
    sample_bottleneck-delay wide_network 100 1000 (900 ∷ 950 ∷ []) true (omega arith) (omega arith)
      wide_window (omega arith)

-- The queue, an internal timer and the end of a blocking are equally soon.
earliest_of-least_example :
    let chosen = earliest_of 40 30 30 50 30 in
    (peek_of chosen 40 30 30 50 30 < peek_of Earliest.timer 40 30 30 50 30)
    ⊎ ((peek_of chosen 40 30 30 50 30 ≡ peek_of Earliest.timer 40 30 30 50 30)
        × (place chosen ≤ place Earliest.timer))
unfolding earliest_of
earliest_of-least_example = earliest_of-least 40 30 30 50 30 Earliest.timer (λ e. cc) (λ e. cc)

peek_next-IsNamed_example :
    Returns (IsNamed short_trace) (peek_next short_trace client_state client_state 3 500 1000)
peek_next-IsNamed_example =
    peek_next-IsNamed short_trace client_state client_state 3 500 1000 short_trace-IsSided
