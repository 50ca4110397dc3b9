-- ===== src/Simulator/Trace/Simulated.antt =====
-- crates/maybenot-simulator/src/lib.rs: `sim_advanced` on the queue that `parse_trace` makes.
use maybenot.Prelude.{
  ℕ, suc, ◌+◌, ◌%◌, ◌≤◌, ◌<◌, ◌≡◌, ◌≢◌, refl, ap, inl, inr, true, false, Bool, Option, none, some,
  Option-cases, Bool-cases, ◌==◌, min, List, [], ◌∷◌, map, All, ◌>>=◌, length, Returns,
  Returns-bind, arith,
}
use maybenot.Prelude.{ltb, ◌*◌, if◌then◌else◌}
use maybenot.Constants.{u64_mod}
use maybenot.Platform.{Floats, Rng}
use maybenot.Machine.{Machine}
use maybenot.Simulator.Event.{SimEvent}
use maybenot.Simulator.Queue.{Heap, SimQueue, push_sim, push_event, sim_len}
use maybenot.Simulator.Sides.{earlier_time, time_of, get_first_time, new_sim}
use maybenot.Simulator.Integration.{Thread}
use maybenot.Simulator.Network.{DelayHeap, Network, u32_mod, limit_from}
use maybenot.Simulator.Slots.Actions.{Answers}
use maybenot.Simulator.Run.{SimulatorArgs, Sources, sim_advanced}
use maybenot.Simulator.Run.Sorting.{IsSorted}
use maybenot.Simulator.Run.Total.{IsTrace}
use maybenot.Simulator.Run.Start.{Accepted, CanRun, sim_advanced-IsTrace}
use maybenot.Simulator.Trace.{parse_trace}
use maybenot.Simulator.Trace.Parsed.{IsParsed}
use maybenot.Simulator.Trace.Printed.{Packet, IsWritten, sent_event, event_of, print_trace}
use maybenot.Simulator.Trace.RoundTrip.{push_all, IsTraceOf, parse_trace-print_trace}

-- One of two times is enough.
earlier_first : (t : ℕ) (b : Option ℕ) → (u : ℕ) × (earlier_time (some t) b ≡ some u)
earlier_first t none = (t, refl)
earlier_first t (some s) = (min t s, refl)

earlier_second : (a : Option ℕ) (t : ℕ) → (u : ℕ) × (earlier_time a (some t) ≡ some u)
earlier_second none t = (t, refl)
earlier_second (some s) t = (min s t, refl)

module _ {H : Type 0} ⦃heap : Heap H⦄ where
  abbrev base_len : SimQueue H → ℕ
  base_len sq = heap.len sq.client.base + heap.len sq.server.base

no_events : (es : List SimEvent) → All (λ e. ⊥) es → length es ≡ 0
no_events [] h = refl
no_events (e ∷ es) h = absurd h.0

module _ (H : Type 0) ⦃heap : Heap H⦄ where
  empty_len : heap.len heap.empty ≡ 0
  empty_len = omega (
    arith,
    heap.len_contents heap.empty,
    no_events (heap.contents heap.empty) (heap.empty_all (λ e. ⊥)),
  )

  new_sim-base_len : base_len {H = H} new_sim ≡ 0
  new_sim-base_len = omega (arith, empty_len)

  new_sim-sim_len : sim_len {H = H} new_sim ≡ 0
  new_sim-sim_len = omega (arith, empty_len)

module _ {H : Type 0} ⦃heap : Heap H⦄ where
  push_sim-base_len :
      (sq : SimQueue H) (is_client : Bool) (time : ℕ)
      → base_len (push_sim sq (sent_event is_client time)) ≡ suc (base_len sq)
  unfolding push_sim push_event
  push_sim-base_len sq true time =
      omega (arith, heap.push_len sq.client.base (sent_event true time))
  push_sim-base_len sq false time =
      omega (arith, heap.push_len sq.server.base (sent_event false time))

  push_all-base_len :
      (start : ℕ) (network : Network) (ps : List Packet) (sq : SimQueue H)
      → base_len (push_all sq (map (event_of start network) ps)) ≡ base_len sq + length ps
  unfolding push_all
  push_all-base_len start network [] sq = omega arith
  push_all-base_len start network (p ∷ ps) sq =
      let e = event_of start network p in
      omega (
        arith,
        push_all-base_len start network ps (push_sim sq e),
        push_sim-base_len sq e.client e.time,
      )

  push_sim-sim_len :
      (sq : SimQueue H) (is_client : Bool) (time : ℕ)
      → sim_len (push_sim sq (sent_event is_client time)) ≡ suc (sim_len sq)
  unfolding push_sim push_event
  push_sim-sim_len sq true time = omega (arith, heap.push_len sq.client.base (sent_event true time))
  push_sim-sim_len sq false time =
      omega (arith, heap.push_len sq.server.base (sent_event false time))

  push_all-sim_len :
      (start : ℕ) (network : Network) (ps : List Packet) (sq : SimQueue H)
      → sim_len (push_all sq (map (event_of start network) ps)) ≡ sim_len sq + length ps
  unfolding push_all
  push_all-sim_len start network [] sq = omega arith
  push_all-sim_len start network (p ∷ ps) sq =
      let e = event_of start network p in
      omega (
        arith,
        push_all-sim_len start network ps (push_sim sq e),
        push_sim-sim_len sq e.client e.time,
      )

  peek_some : (h : H) → 0 < heap.len h → (e : SimEvent) × (heap.peek h ≡ some e)
  peek_some h lt = elim (Option-cases (heap.peek h)) [
    | inl e ↦
        absurd (omega (arith, lt, heap.len_contents h, ap (λ es. length es) (heap.peek_none h e)))
    | inr (e, at) ↦ (e, at)
  ]

  first_time : (sq : SimQueue H) → 0 < base_len sq → (t : ℕ) × (get_first_time sq ≡ some t)
  first_time sq lt = elim (Bool-cases (heap.len sq.client.base == 0)) [
    | inl e ↦
        let (x, at) = peek_some sq.server.base (ground (arith, e, lt)) in
        rw at (earlier_second (time_of (heap.peek sq.client.base)) x.time)
    | inr e ↦
        let (x, at) = peek_some sq.client.base (ground (arith, e)) in
        rw at (earlier_first x.time (time_of (heap.peek sq.server.base)))
  ]

  -- A queue of at least one packet has a first time, and its limit is not zero.
  IsTraceOf-base_len :
      (start : ℕ) (network : Network) (ps : List Packet) (sq : SimQueue H)
      → IsTraceOf start network ps sq
      → base_len sq ≡ length ps
  IsTraceOf-base_len start network ps sq h = omega (
    arith,
    ap (λ q. base_len q) h.events,
    push_all-base_len start network ps new_sim,
    new_sim-base_len H,
  )

  IsTraceOf-sim_len :
      (start : ℕ) (network : Network) (ps : List Packet) (sq : SimQueue H)
      → IsTraceOf start network ps sq
      → sim_len sq ≡ length ps
  IsTraceOf-sim_len start network ps sq h = omega (
    arith,
    ap (λ q. sim_len q) h.events,
    push_all-sim_len start network ps new_sim,
    new_sim-sim_len H,
  )

  IsParsed-limit :
      (count : ℕ) (sq : SimQueue H) (network : Network)
      → 0 < base_len sq
      → count < u32_mod
      → network.pps ≡ none
      → IsParsed count sq
      → limit_from network sq.max_pps % u32_mod ≢ 0
  IsParsed-limit count sq network some_events few none_given h = rw none_given (
      rw h.max_pps (elim h.counted [
        | inl same ↦
            absurd (omega (arith, some_events, ap (λ q. base_len q) same, new_sim-base_len H))
        | inr positive ↦ omega (arith, positive, few, h.bound)
      ]))

-- What a run on a trace of `count` packets needs of its machines, integrations and network.
pub record CanSimulate (T : Type 0) ⦃fl : Floats⦄ ⦃th : Thread T⦄ (max_capacity count : ℕ)
    (machines_client machines_server : List Machine) (args : SimulatorArgs) : Type 0 where
  pub client : Accepted machines_client args.max_padding_frac_client args.max_blocking_frac_client
  pub server : Accepted machines_server args.max_padding_frac_server args.max_blocking_frac_server
  pub client_answers : Answers T args.client_integration
  pub server_answers : Answers T args.server_integration
  pub capacity :
      (if ltb 0 args.max_trace_length then args.max_trace_length else count * 2) ≤ max_capacity
  pub no_limit : args.network.pps ≡ none

module _ {H T : Type 0} ⦃heap : Heap H⦄ ⦃fl : Floats⦄ ⦃th : Thread T⦄ where
  CanSimulate-CanRun :
      (machines_client machines_server : List Machine) (args : SimulatorArgs) (start : ℕ)
      (ps : List Packet) (sq : SimQueue H) (max_capacity : ℕ)
      → 0 < length ps
      → length ps < u32_mod
      → CanSimulate T max_capacity (length ps) machines_client machines_server args
      → IsTraceOf start args.network ps sq
      → CanRun T max_capacity machines_client machines_server sq args
  CanSimulate-CanRun mc ms args start ps sq max_capacity some_packets few h k =
      let all = IsTraceOf-sim_len start args.network ps sq k in
      let twice : (sim_len sq * 2) % u64_mod ≡ length ps * 2 = omega (arith, all, few) in
      let size = IsTraceOf-base_len start args.network ps sq k in
      let first = first_time sq (omega (arith, size, some_packets)) in
      record {
        first = first.0;
        starts = first.1;
        sided = k.parsed.sided;
        client = h.client;
        server = h.server;
        client_answers = h.client_answers;
        server_answers = h.server_answers;
        capacity = rw twice h.capacity;
        limit =
            IsParsed-limit (length ps) sq args.network (omega (arith, size, some_packets)) few
              h.no_limit k.parsed;
      }

module _ (D H : Type 0) {R T : Type 0} ⦃heap : Heap H⦄ ⦃delays : DelayHeap D⦄ ⦃fl : Floats⦄
    ⦃g : Rng R⦄ ⦃th : Thread T⦄ where
  -- `sim_advanced` returns on what `parse_trace` makes of a written trace: at least one packet and fewer
  -- than 2^32, with times in digits that stand for a number below 2^64, and none received by the client
  -- sooner than the network's delay after the earliest instant. There is no limit of packets per second
  -- but the trace's own, and there is a maximum of iterations; the expected length of the result is one
  -- that a vector can be made for. As for any queue, the machines and limits are such that
  -- `Framework::new` accepts them, uniform distributions are such that rand accepts them, integration
  -- delays can be drawn, instants and durations have no upper bound and memory is not exhausted. What it
  -- returns is sorted by time and keeps to the limits of the arguments.
  pub parse_trace-sim_advanced :
      (bound max_capacity : ℕ) (machines_client machines_server : List Machine)
      (args : SimulatorArgs) (start : ℕ) (ps : List Packet) (sources : Sources R) (thread : T)
      → 0 < length ps
      → length ps < u32_mod
      → All (IsWritten start args.network) ps
      → 0 < args.max_sim_iterations
      → args.max_sim_iterations ≤ bound
      → CanSimulate T max_capacity (length ps) machines_client machines_server args
      → Returns
          (λ trace. IsTrace args trace × IsSorted trace)
          (parse_trace {H = H} (print_trace ps) args.network start thread >>= λ r.
            sim_advanced D bound max_capacity machines_client machines_server r.0 args sources r.1)
  parse_trace-sim_advanced bound max_capacity mc ms args start ps sources thread some_packets few
        written some_rounds enough h =
      Returns-bind (λ r. IsTraceOf start args.network ps r.0 × (r.1 ≡ thread))
        (λ trace. IsTrace args trace × IsSorted trace)
        (parse_trace {H = H} (print_trace ps) args.network start thread) _
        (parse_trace-print_trace H start args.network ps thread written)
        λ r e k.
          sim_advanced-IsTrace D bound max_capacity mc ms r.0 args sources r.1 some_rounds enough
            (CanSimulate-CanRun mc ms args start ps r.0 max_capacity some_packets few h k.0)
