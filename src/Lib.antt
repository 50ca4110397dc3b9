-- ===== src/Lib.antt =====
-- A verification library for the traffic-analysis defence framework Maybenot: the crate
-- crates/maybenot, which runs probabilistic state machines that answer traffic events with actions
-- (padding, blocking, timers), and its simulator, crates/maybenot-simulator.
--
-- The parts and their files. An application gives events to `Framework::trigger_events` of
-- framework.rs with the time. The framework keeps, for each machine, a `MachineRuntime` and a slot for
-- one action; an event is a step of the state machine (`transition`) of one or of all machines, which
-- may update two counters (`update_counter`, which may step again), schedule an action
-- (`schedule_action`) under limits (`below_action_limits`) and count down a limit (`decrement_limit`).
--   Constants  crates/maybenot/src/constants.rs
--   Errors     crates/maybenot/src/error.rs
--   Platform   floating point, rand and rand_distr, which are parameters
--   Dist       crates/maybenot/src/dist.rs: `validate`; Dist/Sample: `sample`, `dist_sample`
--   Event      crates/maybenot/src/event.rs
--   Action     crates/maybenot/src/action.rs
--   Counter    crates/maybenot/src/counter.rs
--   State      crates/maybenot/src/state.rs
--   Machine    crates/maybenot/src/machine.rs: `new` and `validate`
--   Parsing    crates/maybenot/src/parsing.rs, the machines of version 1
--   Time       crates/maybenot/src/time.rs, at its implementation for std::time
--   Framework  crates/maybenot/src/framework.rs: Types (the structs), Create (`new`), Events
--              (`process_event`, `trigger_events`), Transition (`transition`, `update_counter`,
--              `schedule_action`, `decrement_limit`), Limits (`below_action_limits`)
--   Simulator  crates/maybenot-simulator: Event (the events of src/lib.rs and their order), Queue
--              (src/queue.rs, the queue of one side), Sides (src/queue.rs, the queues of both),
--              Peek (src/peek.rs, the peeks at scheduled actions, timers and ends of blockings), Next
--              (src/peek.rs, `peek_queue`), Integration (src/integration.rs), Network (src/network.rs,
--              the windows and the bottleneck), Stack (src/network.rs, `sim_network_stack`), Sim
--              (`SimState` of src/lib.rs), Slots (`do_internal_timer`, `do_scheduled_action`), Pick
--              (`pick_next`), Update (`trigger_update`), Run (`sim_advanced`, `sim`), Trace (`parse_trace`;
--              Trace/Strings, the functions on text that it calls)
-- The simulator's main loop asks `pick_next` for the next event of the queues, the timers, the
-- scheduled actions, the blockings and the pending delays; gives it to the network
-- (`sim_network_stack`), which adds the events that follow from it; and triggers it in the framework
-- of its side (`trigger_update`), whose actions go to the slots of the machines.
-- The other files below these modules hold proofs. Prelude is shared notation and lemmas, Tests the
-- fixtures and the theorems at concrete inputs.
--
-- How the code is read. A function that changes `self` takes the state and returns it. `Outcome` is
-- a result: `ok`, `err` for an `Err`, `panic` for a panic (an index out of bounds, an `unwrap` of an
-- error), `unfinished` for a recursion that ran out of fuel. A u64 is a number below 2^64; `+=` on a
-- packet count wraps, as in a release build, and saturating arithmetic is written out. A duration is
-- a number of nanoseconds without a bound: that the sum of all blocking fits std's Duration (584
-- billion years) is assumed. An f64 or f32 is its bit pattern, and its operations are the fields of
-- `Floats`, with the few laws the proofs use: how max, min, round and `as u64` treat order, and the
-- value of the constant for a day. The random number generator is any state `R` with the operations
-- of `Rng`; every theorem is for all of its draws. The binary heap of the simulator's queues is a
-- type with the operations of `Heap`, and what the documentation of the standard library says of
-- them; which of several greatest events it yields is left open.
--
-- An instant of the simulator counts nanoseconds from the earliest instant that can be represented,
-- so a subtraction that goes below zero panics; a difference of two instants is at most
-- `Duration::MAX`. Instants and durations have no upper bound: an `Instant + Duration` or a sum of
-- durations that overflows panics in the code, and here it does not. So what is said below of panics is
-- for runs in which neither overflows: the network's delay, the delays of integrations and the times of
-- a trace, added up, fit an `Instant`. That memory is exhausted is left out as well; the capacity of a
-- vector that the code asks for in advance is bounded by an argument, `max_capacity`.
--
-- Without a seed, both sides and the integrations draw from one generator of the thread. What each gets
-- of its draws is a state of its own (`Sources`, and `thread`), whose draws are any at all, so each way
-- to divide the draws between them is covered. With a seed, both sides start from the same state.
--
-- The simulator's mutable arguments are one record, `Sim`. The integrations'
-- generator is a state `T` with the draws of `Thread`, and the heap of the pending delays is a `DelayHeap`. A
-- text is the list of its characters, by code point; the instant at which a trace starts, which
-- `parse_trace` takes from the clock, is an argument. What the parser of version 1 calls of hex, flate2
-- and byteorder are the fields of `Decoders`.
--
-- Fuel. `transition` calls `update_counter`, which calls `transition` only after it set one of the
-- two flags `counter_zeroed_once` that was not set. So calls nest at most three deep, the depth that
-- the model allows. `pick_next` calls itself after it took out a pending delay, a timer or a scheduled
-- action, so their number is the bound. The main loop of the simulator need not end; its bound is an
-- argument, and the maximum of iterations is enough.
--
-- Not modelled: the serialization of machines (calls of bincode, flate2, base64 and sha256), the
-- `Display` implementations and debug output, the C bindings, and of the simulator the parsing of
-- binned distributions from JSON (serde_json).

pub mod Prelude
pub mod Constants
pub mod Errors
pub mod Platform
pub mod Dist
pub mod Event
pub mod Action
pub mod Counter
pub mod State
pub mod Machine
pub mod Parsing
pub mod Time
pub mod Framework
pub mod Simulator
pub mod Tests
